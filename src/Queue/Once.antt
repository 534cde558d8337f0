-- ===== src/Queue/Once.antt =====
-- How often a row is recorded as sent.
use skymail_backend.Prelude.{
  ℕ, ◌+◌, ◌≤◌, ◌≡◌, refl, sym, ap, ◌∙◌, ◌≢◌, ◌⊎◌, inl, inr, Bool, true, List, [], ◌∷◌, arith,
  if◌then◌else◌, Bool-cases, ◌==◌, ==_iff,
}
use skymail_backend.Queue.{Row, processing, sent, act, applies, assign, set_sent, affected, claimed}
use skymail_backend.Queue.Claims.{In, Distinct, same_id_once, Distinct-unique}
use skymail_backend.Queue.Lease.{
  Event, ran, step, step-Distinct, step-In, on_row-done, In-map_of_In,
}

-- How often an event recorded row `id` as sent.
abbrev pub records_sent : ℕ → Event → List Row → ℕ
records_sent id (ran now ts (set_sent i by at)) rows =
    if i == id then affected (applies now ts (set_sent i by at)) rows else 0
records_sent id e rows = 0

abbrev pub times_sent : ℕ → List Event → List Row → ℕ
times_sent id [] rows = 0
times_sent id (e ∷ es) rows = records_sent id e rows + times_sent id es (step e rows)

select-cases :
    (p : Row → Bool) (rows : List Row)
    → (affected p rows ≡ 0) ⊎ ((r : Row) × In r rows × (p r ≡ true))
select-cases p [] = inl refl
select-cases p (x ∷ xs) = elim (Bool-cases (p x)) [
  | inl e ↦ inr (x, inl refl, e)
  | inr n ↦ elim (select-cases p xs) [ inl z ↦ inl (rw n z) | inr (r, i, q) ↦ inr (r, inr i, q) ]
]

claimed_id :
    (id by at : ℕ) (r : Row) → claimed id by at r ≡ true → (r.id ≡ id) × (r.status ≡ processing)
claimed_id id by at r h = ground arith

affected_mono :
    (p q : Row → Bool) (rows : List Row)
    → ((r : Row) → p r ≡ true → q r ≡ true)
    → affected p rows ≤ affected q rows
affected_mono p q [] f = omega arith
affected_mono p q (x ∷ xs) f = ground (arith, affected_mono p q xs f, f x)

records_sent-le :
    (id : ℕ) (e : Event) (rows : List Row) → Distinct rows → records_sent id e rows ≤ 1
unfolding applies
records_sent-le id (ran now ts (set_sent i by at)) rows d = ground (
  arith,
  same_id_once i rows d,
  affected_mono (claimed i by at) (λ r. r.id == i) rows
      (λ r h. (==_iff r.id i).1 (claimed_id i by at r h).0),
)
records_sent-le id e rows d = omega arith

sent-ne-processing : sent ≢ processing
sent-ne-processing h = cc

records_sent-done :
    (id : ℕ) (e : Event) (rows : List Row) (r : Row)
    → Distinct rows
    → In r rows
    → r.id ≡ id
    → r.status ≡ sent
    → records_sent id e rows ≡ 0
unfolding applies
records_sent-done id (ran now ts (set_sent i by at)) rows r d j same done =
    elim (select-cases (claimed i by at) rows) [
      | inl z ↦ ground arith
      | inr (x, k, h) ↦
          let (a, busy) = claimed_id i by at x h in
          elim (Bool-cases (i == id)) [
            | inl e ↦
                let one : x ≡ r =
                  Distinct-unique x r rows d k j (a ∙ (==_iff i id).0 e ∙ sym same) in
                absurd (sent-ne-processing (sym done ∙ ap (λ (y : Row). y.status) (sym one) ∙ busy))
            | inr n ↦ rw n
          ]
    ]
records_sent-done id e rows r d j same done = refl

times_sent-done :
    (id : ℕ) (es : List Event) (rows : List Row) (r : Row)
    → Distinct rows
    → In r rows
    → r.id ≡ id
    → r.status ≡ sent
    → times_sent id es rows ≡ 0
times_sent-done id [] rows r d i same done = refl
times_sent-done id (e ∷ es) rows r d i same done = omega (
  arith,
  records_sent-done id e rows r d i same done,
  times_sent-done id es (step e rows) r (step-Distinct e rows d)
      (step-In e rows r (on_row-done e rows r d i (inl done)) i) same done,
)

-- After an event that recorded the row as sent, the table has it as sent.
records_sent-leaves :
    (id : ℕ) (e : Event) (rows : List Row)
    → (records_sent id e rows ≡ 0)
      ⊎ ((r : Row) × In r (step e rows) × (r.id ≡ id) × (r.status ≡ sent))
unfolding act applies assign
records_sent-leaves id (ran now ts (set_sent i by at)) rows =
    elim (select-cases (claimed i by at) rows) [
      | inl z ↦ inl (ground arith)
      | inr (x, k, h) ↦ elim (Bool-cases (i == id)) [
        | inl e ↦ inr (
          act now ts (set_sent i by at) x,
          In-map_of_In (act now ts (set_sent i by at)) x rows k,
          ground (arith, claimed_id i by at x h, ==_iff i id),
          ground arith,
        )
        | inr n ↦ inl (rw n)
      ]
    ]
records_sent-leaves id e rows = inl refl

-- Whatever the processes do, in any order, a row of a queue with one row for an id is recorded as sent
-- at most once.
pub times_sent-le :
    (id : ℕ) (es : List Event) (rows : List Row) → Distinct rows → times_sent id es rows ≤ 1
times_sent-le id [] rows d = omega arith
times_sent-le id (e ∷ es) rows d = elim (records_sent-leaves id e rows) [
  | inl z ↦ omega (arith, times_sent-le id es (step e rows) (step-Distinct e rows d))
  | inr (r, i, same, done) ↦ omega (
    arith,
    records_sent-le id e rows d,
    times_sent-done id es (step e rows) r (step-Distinct e rows d) i same done,
  )
]
