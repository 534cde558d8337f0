-- ===== src/Waiting/Left.antt =====
-- Nothing that waits stays claimed, and each row that waited is put back or closed.
use skymail_backend.Prelude.{
  ℕ, ◌≡◌, refl, sym, ap, ◌∙◌, ◌≢◌, ◌⊎◌, inl, inr, subst, true, false, none, some, List, [], ◌∷◌,
  ◌++◌, Text, map, All, arith, mem, select, Bool-cases,
}
use skymail_backend.Queue.{Row, Task, Statement, pending, failed, taken_by, act, applies, assign}
use skymail_backend.Store.{Store}
use skymail_backend.Taken.Steps.{
  has, Yields, act_all, act_all-id, act_all-idle, act_all-other, act_all-named, run_all-rows,
}
use skymail_backend.Waiting.{
  GatedRow, WaitingRule, Delayed, is_undecided, by_delay, defer_all, skip_undecided, gated_ids,
  waiting_statements, defer_waiting,
}
use skymail_backend.Waiting.Groups.{names-waiting_statements, waiting_statements-Yields}

settled :
    (me now : ℕ) (rule : WaitingRule) (rows : List GatedRow) (ts : List Task) (r : Row)
    → taken_by (gated_ids rows) me (act_all now ts (waiting_statements me rule rows) r) ≡ false
settled me now rule rows ts r =
    let ss = waiting_statements me rule rows in
    let y = waiting_statements-Yields me rule rows in
    let same_id = act_all-id me now ts ss r y in
    elim (Bool-cases (mem r.id (gated_ids rows))) [
      | inl m ↦
          let free =
            act_all-named me now ts ss r y (names-waiting_statements me r.id rule rows ∙ m) in
          ground arith
      | inr n ↦ ground arith
    ]

-- A statement of defer_waiting: it puts rows back, or closes the rows given as undecided.
abbrev Waits : ℕ → Text → List ℕ → Statement → Type 0
Waits me error closed (Statement.defer_claimed ids by delay) = by ≡ me
Waits me error closed (Statement.skip_claimed ids by reason) =
    (by ≡ me) × (ids ≡ closed) × (reason ≡ error)
Waits me error closed _ = ⊥

Waits-Yields :
    (me : ℕ) (error : Text) (closed : List ℕ) (s : Statement)
    → Waits me error closed s
    → Yields me s
Waits-Yields me error closed (Statement.defer_claimed ids by delay) w = w
Waits-Yields me error closed (Statement.skip_claimed ids by reason) w = w.0
Waits-Yields me error closed _ w = absurd w

All-Yields :
    (me : ℕ) (error : Text) (closed : List ℕ) (ss : List Statement)
    → All (Waits me error closed) ss
    → All (Yields me) ss
All-Yields me error closed [] w = tt
All-Yields me error closed (s ∷ ss) w =
    (Waits-Yields me error closed s w.0, All-Yields me error closed ss w.1)

-- A row that waited, after: pending and nobody's, or failed as undecided; its counters are as they were.
abbrev pub PutBack : Text → List ℕ → Row → Row → Type 0
PutBack error closed r r' =
    (r'.id ≡ r.id)
    × (r'.attempts ≡ r.attempts)
    × (r'.throttles ≡ r.throttles)
    × (((r'.status ≡ pending) × (r'.claimed_by ≡ none) × (r'.claimed_at ≡ none))
        ⊎ ((r'.status ≡ failed) × (r'.error ≡ some error) × (mem r.id closed ≡ true)))

act-PutBack :
    (me now : ℕ) (ts : List Task) (error : Text) (closed : List ℕ) (s : Statement) (r : Row)
    → Waits me error closed s
    → (act now ts s r ≡ r)
      ⊎ (PutBack error closed r (act now ts s r) × (has me (act now ts s r) ≡ false))
unfolding act applies assign
act-PutBack me now ts error closed (Statement.defer_claimed ids by delay) r w =
    elim (Bool-cases (taken_by ids by r)) [
      | inr n ↦ inl (rw n refl)
      | inl e ↦ inr (rw e ((refl, refl, refl, inl (refl, refl, refl)), refl))
    ]
act-PutBack me now ts error closed (Statement.skip_claimed ids by reason) r (b, c, d) =
    elim (Bool-cases (taken_by ids by r)) [
      | inr n ↦ inl (rw n refl)
      | inl e ↦ inr (
          rw e (
            (
              refl,
              refl,
              refl,
              inr (refl, ap some d, subst (λ l. mem r.id l ≡ true) c (ground arith)),
            ),
            refl,
          ))
    ]
act-PutBack me now ts error closed _ r w = absurd w

act_all-PutBack :
    (me now : ℕ) (ts : List Task) (error : Text) (closed : List ℕ) (ss : List Statement) (r : Row)
    → All (Waits me error closed) ss
    → (act_all now ts ss r ≡ r) ⊎ PutBack error closed r (act_all now ts ss r)
act_all-PutBack me now ts error closed [] r w = inl refl
act_all-PutBack me now ts error closed (s ∷ ss) r w =
    elim (act-PutBack me now ts error closed s r w.0) [
      | inl same ↦
          subst (λ x. (act_all now ts ss x ≡ r) ⊎ PutBack error closed r (act_all now ts ss x))
            (sym same) (act_all-PutBack me now ts error closed ss r w.1)
      | inr (back, idle) ↦ inr (
          subst (PutBack error closed r)
            (sym
              (act_all-idle me now ts ss (act now ts s r) (All-Yields me error closed ss w.1) idle))
            back)
    ]

skip_undecided-Waits :
    (me : ℕ) (error : Text) (ids : List ℕ) → All (Waits me error ids) (skip_undecided me error ids)
skip_undecided-Waits me error [] = tt
skip_undecided-Waits me error (id ∷ ids) = ((refl, refl, refl), tt)

statements-Waits :
    (me : ℕ) (error : Text) (closed : List ℕ) (gs : List Delayed) (ss : List Statement)
    → All (Waits me error closed) ss
    → All (Waits me error closed) (defer_all me gs ++ ss)
statements-Waits me error closed [] ss w = w
statements-Waits me error closed (g ∷ gs) ss w = (refl, statements-Waits me error closed gs ss w)

waiting_statements-Waits :
    (me : ℕ) (rule : WaitingRule) (rows : List GatedRow)
    → All
        (Waits me rule.undecided_error (gated_ids (select (is_undecided rule) rows)))
        (waiting_statements me rule rows)
unfolding waiting_statements
waiting_statements-Waits me rule rows =
    let closed = gated_ids (select (is_undecided rule) rows) in
    statements-Waits me rule.undecided_error closed (by_delay rule rows)
      (skip_undecided me rule.undecided_error closed)
      (skip_undecided-Waits me rule.undecided_error closed)

-- What becomes of a row of the queue: one that waits and that the process has is put back or closed, and
-- the process has it no more; any other is as it was.
abbrev pub SettledRow : ℕ → WaitingRule → List GatedRow → Row → Row → Type 0
SettledRow me rule rows r r' =
    ((taken_by (gated_ids rows) me r ≡ false) × (r' ≡ r))
    ⊎ ((taken_by (gated_ids rows) me r ≡ true)
        × (taken_by (gated_ids rows) me r' ≡ false)
        × PutBack rule.undecided_error (gated_ids (select (is_undecided rule) rows)) r r')

-- The rows of two tables, one by one.
abbrev pub OneByOne : (Row → Row → Type 0) → List Row → List Row → Type 0
OneByOne R [] [] = Unit
OneByOne R (x ∷ xs) (y ∷ ys) = R x y × OneByOne R xs ys
OneByOne R _ _ = ⊥

OneByOne-map :
    (R : Row → Row → Type 0) (f : Row → Row) (rows : List Row)
    → ((r : Row) → R r (f r))
    → OneByOne R rows (map f rows)
OneByOne-map R f [] g = tt
OneByOne-map R f (r ∷ rs) g = (g r, OneByOne-map R f rs g)

act_all-untaken :
    (me now : ℕ) (rule : WaitingRule) (rows : List GatedRow) (ts : List Task) (r : Row)
    → taken_by (gated_ids rows) me r ≡ false
    → act_all now ts (waiting_statements me rule rows) r ≡ r
act_all-untaken me now rule rows ts r n =
    let ss = waiting_statements me rule rows in
    let y = waiting_statements-Yields me rule rows in
    elim (Bool-cases (has me r)) [
      | inr idle ↦ act_all-idle me now ts ss r y idle
      | inl busy ↦
          act_all-other me now ts ss r y
            (names-waiting_statements me r.id rule rows ∙ ground (arith, n, busy))
    ]

true-ne-false : true ≢ false
true-ne-false h = cc

act_all-SettledRow :
    (me now : ℕ) (rule : WaitingRule) (rows : List GatedRow) (ts : List Task) (r : Row)
    → SettledRow me rule rows r (act_all now ts (waiting_statements me rule rows) r)
act_all-SettledRow me now rule rows ts r =
    let ss = waiting_statements me rule rows in
    let free = settled me now rule rows ts r in
    elim (Bool-cases (taken_by (gated_ids rows) me r)) [
      | inr n ↦ inl (n, act_all-untaken me now rule rows ts r n)
      | inl had ↦
          elim (act_all-PutBack me now ts rule.undecided_error _ ss r
            (waiting_statements-Waits me rule rows)) [
              | inl same ↦ absurd (
                  true-ne-false
                    (sym had ∙ subst (λ x. taken_by (gated_ids rows) me x ≡ false) same free))
              | inr back ↦ inr (had, free, back)
            ]
    ]

-- After deferWaiting the process has none of the rows that wait. Each row of the queue that it had of
-- those is pending and claimed by nobody, or is failed with the rule's error and was undecided, with its
-- attempts and throttles as they were; every other row of the queue is as it was.
pub defer_waiting-SettledRow :
    (me now : ℕ) (rule : WaitingRule) (rows : List GatedRow) (st : Store)
    → OneByOne (SettledRow me rule rows) st.rows (defer_waiting me now rule rows st).rows
unfolding defer_waiting
defer_waiting-SettledRow me now rule rows st =
    let ss = waiting_statements me rule rows in
    subst (λ (s : Store). OneByOne (SettledRow me rule rows) st.rows s.rows)
      (sym (run_all-rows now ss st))
      (OneByOne-map (SettledRow me rule rows) (act_all now st.tasks ss) st.rows
        (act_all-SettledRow me now rule rows st.tasks))
