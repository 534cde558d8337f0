-- ===== src/Unsubscribed/Skipped.antt =====
-- Who is skipped, and who is gone on with.
use skymail_backend.Prelude.{
  ℕ, ◌≡◌, refl, sym, ap, ◌∙◌, ◌≢◌, inl, inr, Bool, true, false, not, some, List, [], ◌∷◌, Text, map,
  All, arith, mem, select, if◌then◌else◌, Bool-cases, &&-true, subst,
}
use skymail_backend.Lanes.{SendLanes}
use skymail_backend.Queue.{
  Row, Task, failed, taken_by, ids_of, Statement, act, applies, assign, execute,
}
use skymail_backend.Queue.Claims.{In, Distinct, Distinct-unique, mem-ids_of, In-select, All-of-In}
use skymail_backend.Queue.Order.{In-selected, mem_of_In}
use skymail_backend.Store.{Store}
use skymail_backend.Taken.Passes.{IsTaken}
use skymail_backend.Unsubscribed.{skips, left_stream, skip_unsubscribed, unsubscribed_error}

pub mem-select :
    (p : Row → Bool) (r : Row) (rows : List Row)
    → Distinct rows
    → In r rows
    → mem r.id (ids_of (select p rows)) ≡ p r
mem-select p r rows d i = elim (Bool-cases (p r)) [
  | inl e ↦ mem_of_In r (select p rows) (In-selected p r rows e i) ∙ sym e
  | inr n ↦ elim (Bool-cases (mem r.id (ids_of (select p rows)))) [
    | inl m ↦
        let (x, j, e) = mem-ids_of r.id (select p rows) m in
        let (k, q) = In-select p x rows j in
        let same : x ≡ r = Distinct-unique x r rows d k i e in
        absurd (true-ne-false (sym q ∙ ap p same ∙ n))
    | inr o ↦ o ∙ sym n
  ]
]
  where
    true-ne-false : true ≢ false
    true-ne-false h = cc

map-same_on :
    (f g : Row → Row) (rows : List Row) → All (λ r. f r ≡ g r) rows → map f rows ≡ map g rows
map-same_on f g [] a = refl
map-same_on f g (r ∷ rs) a = cc (a.0, map-same_on f g rs a.1)

-- A row that is skipped fails, with nothing tried; any other is as it was.
abbrev pub skipped : (Row → Bool) → Row → Row
skipped p r = if p r then record r { status = failed; error = some unsubscribed_error } else r

act-skip :
    (lanes : SendLanes) (now me : ℕ) (ts : List Task) (left : List Text) (ids skip : List ℕ)
    (r : Row)
    → mem r.id skip ≡ skips lanes ts left ids me r
    → act now ts (Statement.skip_claimed skip me unsubscribed_error) r
      ≡ skipped (skips lanes ts left ids me) r
unfolding act applies assign
act-skip lanes now me ts left ids skip r h = elim (Bool-cases (skips lanes ts left ids me r)) [
  | inl e ↦
      let (t, _) = &&-true (taken_by ids me r) (left_stream lanes ts left r) e in
      rw e (ground arith)
  | inr n ↦ rw n (ground arith)
]

pub not-false : (b : Bool) → not b ≡ true → b ≡ false
not-false true h = cc
not-false false h = refl

kept-stays :
    (lanes : SendLanes) (me : ℕ) (rows : List Row) (st : Store)
    → Distinct st.rows
    → (r : Row) → In r rows
    → IsTaken st.rows me r
    → not
        (mem r.id (ids_of (select (skips lanes st.tasks st.unsubscribes (ids_of rows) me) st.rows)))
      ≡ true
    → left_stream lanes st.tasks st.unsubscribes r ≡ false
kept-stays lanes me rows st d r i (j, busy, mine) n =
    let p = skips lanes st.tasks st.unsubscribes (ids_of rows) me in
    let no : p r ≡ false = sym (mem-select p r st.rows d j) ∙ not-false _ n in
    let asked = mem_of_In r rows i in
    let own : taken_by (ids_of rows) me r ≡ true = ground arith in ground arith

pub All-at : (P : Row → Type 0) (r : Row) (rows : List Row) → All P rows → In r rows → P r
All-at P r [] a i = absurd i
All-at P r (x ∷ xs) a (inl e) = subst P (sym e) a.0
All-at P r (x ∷ xs) a (inr i) = All-at P r xs a.1 i

-- Of rows that a process just took, skip_unsubscribed goes on only with rows that are not in the duyuru
-- stream or whose address has not left it; it fails exactly the taken rows whose address left the
-- stream, and every other row of the queue stays as it was.
pub skip_unsubscribed-left_stream :
    (lanes : SendLanes) (me now : ℕ) (rows : List Row) (st : Store)
    → Distinct st.rows
    → All (IsTaken st.rows me) rows
    → let (after, kept) = skip_unsubscribed lanes me now rows st in
      All (λ r. left_stream lanes st.tasks st.unsubscribes r ≡ false) kept
      × (after.rows ≡ map (skipped (skips lanes st.tasks st.unsubscribes (ids_of rows) me)) st.rows)
unfolding skip_unsubscribed execute
skip_unsubscribed-left_stream lanes me now rows st d taken =
    let p = skips lanes st.tasks st.unsubscribes (ids_of rows) me in
    let skip = ids_of (select p st.rows) in
    (
      All-of-In (λ r. left_stream lanes st.tasks st.unsubscribes r ≡ false)
          (select (λ r. not (mem r.id skip)) rows)
          λ r i.
            let (j, n) = In-select (λ r. not (mem r.id skip)) r rows i in
            kept-stays lanes me rows st d r j (All-at (IsTaken st.rows me) r rows taken j) n,
      map-same_on (act now st.tasks (Statement.skip_claimed skip me unsubscribed_error)) (skipped p)
          st.rows
          (All-of-In
            (λ r.
              act now st.tasks (Statement.skip_claimed skip me unsubscribed_error) r ≡ skipped p r)
            st.rows
            λ r i.
              act-skip lanes now me st.tasks st.unsubscribes (ids_of rows) skip r
                (mem-select p r st.rows d i)),
    )
