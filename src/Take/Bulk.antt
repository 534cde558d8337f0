-- ===== src/Take/Bulk.antt =====
-- What claimBulk returns, and what it leaves the process.
use skymail_backend.Prelude.{
  ℕ, ◌≡◌, refl, sym, ap, ◌∙◌, ◌⊎◌, inl, inr, subst, Bool, true, false, ◌||◌, not, List, [], All,
  mem, length, Bool-cases, ◌==◌,
}
use skymail_backend.Lanes.{priority_bulk}
use skymail_backend.Budget.{budget_off}
use skymail_backend.Queue.{Row, ids_of, take_rows}
use skymail_backend.Queue.Claims.{In, Distinct, In-map, All-of-In}
use skymail_backend.Store.{Store}
use skymail_backend.Guard.{bulk_lane_held}
use skymail_backend.Taken.Steps.{has}
use skymail_backend.Taken.Passes.{not-both}
use skymail_backend.Take.{
  Mailer, Caches, Turn, nothing, run_checks, checked_take, room_of, counted, budgeted, unbudgeted,
  claim_bulk,
}
use skymail_backend.Take.Steps.{
  take_rows-IsTaken, take_rows-Distinct, take_rows-has, Distinct-Gives,
}
use skymail_backend.Take.Checks.{MaySend, checks-MaySend, checks-HasOnly}

-- The process had the row before.
abbrev pub HadIt : ℕ → List Row → ℕ → Type 0
HadIt me rows i = (x : Row) × In x rows × (x.id ≡ i) × (has me x ≡ true)

-- What is true of every turn that claimBulk may take, and of none taken, is true of claimBulk.
by_turn :
    (P : Turn → Type 0) (m : Mailer) (now : ℕ) (fails free : Bool) (locked : Row → Bool)
    (max_rows : ℕ) (caches : Caches) (st : Store)
    → P (nothing caches st)
    → ((room : ℕ) → P (checked_take m now locked caches room st))
    → ((room : ℕ)
        → let t = checked_take m now locked caches room st in
          P (record t { store = counted now priority_bulk (length t.taken) t.store }))
    → P (claim_bulk m now fails free locked max_rows caches st)
unfolding claim_bulk budgeted unbudgeted
by_turn P m now fails free locked max_rows caches st none_taken checked with_count =
    elim (Bool-cases fails) [
      | inl f ↦ rw f none_taken
      | inr f ↦ rw f (elim (Bool-cases (budget_off m.budget)) [
        | inl o ↦ rw o (elim (Bool-cases (bulk_lane_held m.guard now st)) [
          | inl h ↦ rw h none_taken
          | inr h ↦ rw h (checked max_rows)
        ])
        | inr o ↦
            rw o
              (elim (Bool-cases
                (not free || bulk_lane_held m.guard now st || room_of m now max_rows st == 0)) [
                  | inl h ↦ rw h none_taken
                  | inr h ↦ rw h (with_count (room_of m now max_rows st))
                ])
      ])
    ]

checked_take-MaySend :
    (m : Mailer) (now : ℕ) (locked : Row → Bool) (caches : Caches) (room : ℕ) (st : Store)
    → Distinct st.rows
    → All (MaySend m now caches st) (checked_take m now locked caches room st).taken
unfolding checked_take
checked_take-MaySend m now locked caches room st d =
    let (rows, returned) = take_rows false m.me room now locked st.rows in
    checks-MaySend m now caches returned (record st { rows = rows })
      (take_rows-Distinct false m.me room now locked st.rows d)
      (take_rows-IsTaken false m.me room now locked st.rows)

-- Every row that claimBulk returns may be sent, by what the tables and core's answers say at that
-- instant, where the queue has one row for an id: its send is neither paused nor cancelled, its address
-- did not leave the duyuru stream, a promotional mail has its withdraw link and a fresh consent, an
-- announcement to an address without an account has a fresh consent, and a duyuru mail has its link and,
-- where core is asked about it, a fresh answer that does not refuse it.
pub claim_bulk-MaySend :
    (m : Mailer) (now : ℕ) (fails free : Bool) (locked : Row → Bool) (max_rows : ℕ)
    (caches : Caches) (st : Store)
    → Distinct st.rows
    → All (MaySend m now caches st) (claim_bulk m now fails free locked max_rows caches st).taken
claim_bulk-MaySend m now fails free locked max_rows caches st d =
    by_turn (λ t. All (MaySend m now caches st) t.taken) m now fails free locked max_rows caches st
      tt (λ room. checked_take-MaySend m now locked caches room st d)
      (λ room. checked_take-MaySend m now locked caches room st d)

-- A row of the table after the turn is not the process's, or is one that the turn returns, or was the
-- process's before.
abbrev pub Accounted : ℕ → Store → List Row → Row → Type 0
Accounted me st taken r =
    (has me r ≡ false) ⊎ (mem r.id (ids_of taken) ≡ true) ⊎ HadIt me st.rows r.id

checked_take-Accounted :
    (m : Mailer) (now : ℕ) (locked : Row → Bool) (caches : Caches) (room : ℕ) (st : Store)
    → Distinct st.rows
    → let t = checked_take m now locked caches room st in
      All (Accounted m.me st t.taken) t.store.rows
unfolding checked_take
checked_take-Accounted m now locked caches room st d =
    let (rows, returned) = take_rows false m.me room now locked st.rows in
    let st' = record st { rows = rows } in
    let t = run_checks m now caches returned st' in
    let (given, only) =
      checks-HasOnly m now caches returned st'
        (take_rows-Distinct false m.me room now locked st.rows d)
        (take_rows-IsTaken false m.me room now locked st.rows) in
    let (f, path, same_id, idle) = given in
    All-of-In (Accounted m.me st t.taken) t.store.rows λ r i. elim (Bool-cases (has m.me r)) [
      | inr n ↦ inl n
      | inl own ↦
          let (x, j, e) = In-map f r rows (subst (λ (s : Store). In r s.rows) path i) in
          let same : r.id ≡ x.id = ap (λ (y : Row). y.id) e ∙ same_id x in
          elim (Bool-cases (has m.me x)) [
            | inr n ↦ not-both (has m.me r) own (ap (has m.me) e ∙ idle x n)
            | inl h ↦ elim (take_rows-has false m.me room now locked st.rows x j h) [
              | inl k ↦
                  inr
                    (inl (only r i own (subst (λ a. mem a (ids_of returned) ≡ true) (sym same) k)))
              | inr k ↦ inr (inr (x, k, sym same, h))
            ]
          ]
    ]

checked_take-Distinct :
    (m : Mailer) (now : ℕ) (locked : Row → Bool) (caches : Caches) (room : ℕ) (st : Store)
    → Distinct st.rows
    → Distinct (checked_take m now locked caches room st).store.rows
unfolding checked_take
checked_take-Distinct m now locked caches room st d =
    let (rows, returned) = take_rows false m.me room now locked st.rows in
    let st' = record st { rows = rows } in
    let one = take_rows-Distinct false m.me room now locked st.rows d in
    let (given, _) =
      checks-HasOnly m now caches returned st' one
        (take_rows-IsTaken false m.me room now locked st.rows) in
    Distinct-Gives m.me st' (run_checks m now caches returned st').store given one

nothing-Accounted : (me : ℕ) (st : Store) → All (Accounted me st []) st.rows
nothing-Accounted me st =
    All-of-In (Accounted me st []) st.rows
      λ r i. elim (Bool-cases (has me r)) [ inl own ↦ inr (inr (r, i, refl, own)) | inr n ↦ inl n ]

pub counted-rows : (now lane n : ℕ) (st : Store) → (counted now lane n st).rows ≡ st.rows
unfolding counted
counted-rows now lane n st = elim (Bool-cases (n == 0)) [ inl e ↦ rw e refl | inr e ↦ rw e refl ]

-- No row is lost in a process: after claimBulk, on every branch and whichever way the checks decide, a
-- row that the process has claimed is one that claimBulk returns or one that it had claimed before,
-- where the queue has one row for an id.
pub claim_bulk-Accounted :
    (m : Mailer) (now : ℕ) (fails free : Bool) (locked : Row → Bool) (max_rows : ℕ)
    (caches : Caches) (st : Store)
    → Distinct st.rows
    → let t = claim_bulk m now fails free locked max_rows caches st in
      All (Accounted m.me st t.taken) t.store.rows
claim_bulk-Accounted m now fails free locked max_rows caches st d =
    by_turn (λ t. All (Accounted m.me st t.taken) t.store.rows) m now fails free locked max_rows
      caches st (nothing-Accounted m.me st)
      (λ room. checked_take-Accounted m now locked caches room st d)
      λ room.
        let t = checked_take m now locked caches room st in
        subst (All (Accounted m.me st t.taken))
          (sym (counted-rows now priority_bulk (length t.taken) t.store))
          (checked_take-Accounted m now locked caches room st d)

-- One row for an id, still, after a turn.
pub claim_bulk-Distinct :
    (m : Mailer) (now : ℕ) (fails free : Bool) (locked : Row → Bool) (max_rows : ℕ)
    (caches : Caches) (st : Store)
    → Distinct st.rows
    → Distinct (claim_bulk m now fails free locked max_rows caches st).store.rows
claim_bulk-Distinct m now fails free locked max_rows caches st d =
    by_turn (λ t. Distinct t.store.rows) m now fails free locked max_rows caches st d
      (λ room. checked_take-Distinct m now locked caches room st d)
      λ room.
        let t = checked_take m now locked caches room st in
        subst Distinct (sym (counted-rows now priority_bulk (length t.taken) t.store))
          (checked_take-Distinct m now locked caches room st d)
