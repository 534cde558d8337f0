-- ===== src/Consents/Found.antt =====
-- Which rows the lists of gateConsents name, and which links they have.
use skymail_backend.Prelude.{
  ℕ, ◌≡◌, ◌≢◌, refl, sym, ap, ◌∙◌, Bool, true, false, ◌&&◌, ◌||◌, some, List, [], ◌∷◌, Text, map,
  arith, mem, select, ◌==◌, inl, inr, Bool-cases, subst,
}
use skymail_backend.Core.{normalize_address}
use skymail_backend.Rows.{link_in}
use skymail_backend.Queue.{Row, ids_of}
use skymail_backend.Queue.Claims.{In, Distinct, All-In}
use skymail_backend.Unsubscribed.Skipped.{mem-select}
use skymail_backend.Taken.{held_ids}
use skymail_backend.Waiting.{gated_ids}
use skymail_backend.Consents.{
  ConsentDecision, hold, wait, go, link, ConsentRow, Verdict, decided, decide_rows,
}
use skymail_backend.Consents.Gate.{consent_row}

abbrev pub is_hold : ConsentDecision → Bool
is_hold (hold _) = true
is_hold _ = false

abbrev pub is_wait : ConsentDecision → Bool
is_wait (wait _) = true
is_wait _ = false

abbrev pub address_of : Row → Text
address_of r = normalize_address r.recipient_email

held-decided :
    (i : ℕ) (d : ConsentDecision) (row : ConsentRow) (v : Verdict)
    → mem i (held_ids (decided d row v).held)
      ≡ ((i == row.gated.id && is_hold d) || mem i (held_ids v.held))
held-decided i (hold reason) row v = ground arith
held-decided i (wait needs) row v = ground arith
held-decided i go row v = ground arith
held-decided i (link l) row v = ground arith

waiting-decided :
    (i : ℕ) (d : ConsentDecision) (row : ConsentRow) (v : Verdict)
    → mem i (gated_ids (decided d row v).waiting)
      ≡ ((i == row.gated.id && is_wait d) || mem i (gated_ids v.waiting))
waiting-decided i (hold reason) row v = ground arith
waiting-decided i (wait needs) row v = ground arith
waiting-decided i go row v = ground arith
waiting-decided i (link l) row v = ground arith

links-decided :
    (i : ℕ) (d : ConsentDecision) (row : ConsentRow) (v : Verdict)
    → i ≢ row.gated.id
    → link_in i (decided d row v).links ≡ link_in i v.links
links-decided i (hold reason) row v n = refl
links-decided i (wait needs) row v n = refl
links-decided i go row v n = refl
links-decided i (link l) row v n = ground (arith, n)

module _ (p : Row → Bool) (f : Text → ConsentDecision) (v : Verdict) where
  abbrev pub verdict_on : List Row → Verdict
  verdict_on rows = decide_rows f (map consent_row (select p rows)) v

  -- The rows that pass the test, and a test on what is decided of them.
  abbrev pub decided_as : (ConsentDecision → Bool) → Row → Bool
  decided_as q r = p r && q (f (address_of r))

  listed-held :
      (i : ℕ) (rows : List Row)
      → mem i (held_ids (verdict_on rows).held)
        ≡ (mem i (ids_of (select (decided_as is_hold) rows)) || mem i (held_ids v.held))
  unfolding decide_rows
  listed-held i [] = refl
  listed-held i (r ∷ rs) = elim (Bool-cases (p r)) [
    | inl e ↦
        let rest = verdict_on rs in
        let one = held-decided i (f (address_of r)) (consent_row r) rest in
        rw e (ground (arith, one, listed-held i rs))
    | inr n ↦ rw n (listed-held i rs)
  ]

  listed-waiting :
      (i : ℕ) (rows : List Row)
      → mem i (gated_ids (verdict_on rows).waiting)
        ≡ (mem i (ids_of (select (decided_as is_wait) rows)) || mem i (gated_ids v.waiting))
  unfolding decide_rows
  listed-waiting i [] = refl
  listed-waiting i (r ∷ rs) = elim (Bool-cases (p r)) [
    | inl e ↦
        let rest = verdict_on rs in
        let one = waiting-decided i (f (address_of r)) (consent_row r) rest in
        rw e (ground (arith, one, listed-waiting i rs))
    | inr n ↦ rw n (listed-waiting i rs)
  ]

  pub mem-held :
      (r : Row) (rows : List Row)
      → Distinct rows
      → In r rows
      → mem r.id (held_ids (verdict_on rows).held)
        ≡ ((p r && is_hold (f (address_of r))) || mem r.id (held_ids v.held))
  mem-held r rows d i =
      listed-held r.id rows
      ∙ ap (λ b. b || mem r.id (held_ids v.held)) (mem-select (decided_as is_hold) r rows d i)

  pub mem-waiting :
      (r : Row) (rows : List Row)
      → Distinct rows
      → In r rows
      → mem r.id (gated_ids (verdict_on rows).waiting)
        ≡ ((p r && is_wait (f (address_of r))) || mem r.id (gated_ids v.waiting))
  mem-waiting r rows d i =
      listed-waiting r.id rows
      ∙ ap (λ b. b || mem r.id (gated_ids v.waiting)) (mem-select (decided_as is_wait) r rows d i)

  -- A row whose decision is a link has that link in the verdict.
  pub link_in-decide_rows :
      (r : Row) (l : Text) (rows : List Row)
      → Distinct rows
      → In r rows
      → p r ≡ true
      → f (address_of r) ≡ link l
      → link_in r.id (verdict_on rows).links ≡ some l
  unfolding decide_rows
  link_in-decide_rows r l [] d i e h = absurd i
  link_in-decide_rows r l (x ∷ xs) d (inl i) e h =
      let own : p x ≡ true = ap p (sym i) ∙ e in
      let same : f (address_of x) ≡ link l = ap (λ y. f (address_of y)) (sym i) ∙ h in
      let first : link_in x.id (verdict_on (x ∷ xs)).links ≡ some l =
        rw (own, same) (ground arith) in
      subst (λ y. link_in y.id (verdict_on (x ∷ xs)).links ≡ some l) (sym i) first
  link_in-decide_rows r l (x ∷ xs) d (inr i) e h =
      let rest = link_in-decide_rows r l xs d.1 i e h in
      let other : r.id ≢ x.id = All-In (λ y. y.id ≢ x.id) r xs d.0 i in
      elim (Bool-cases (p x)) [
        | inl a ↦
            rw a
              (links-decided r.id (f (address_of x)) (consent_row x) (verdict_on xs) other ∙ rest)
        | inr a ↦ rw a rest
      ]
