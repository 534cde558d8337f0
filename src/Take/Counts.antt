-- ===== src/Take/Counts.antt =====
-- How many rows claimBulk returns, and that the send windows count them.
use skymail_backend.Prelude.{
  ℕ, ◌≡◌, refl, ap, ◌≤◌, inl, inr, Bool, true, false, ◌||◌, not, List, [], ◌∷◌, arith, select,
  length, Bool-cases, if◌then◌else◌, ◌==◌,
}
use skymail_backend.Lanes.{SendLanes, priority_bulk}
use skymail_backend.Budget.{SendWindow, budget_off, bulk_room, count_sends}
use skymail_backend.Queue.{Row, ids_of, take_rows}
use skymail_backend.Queue.Claims.{Distinct, length-map_rows, take_rows_sound}
use skymail_backend.Store.{Store}
use skymail_backend.Guard.{bulk_lane_held, skip_held_tasks}
use skymail_backend.Unsubscribed.{skip_unsubscribed}
use skymail_backend.Consents.{ConsentGate, ConsentCache}
use skymail_backend.Consents.Gate.{give_link, goes_on, decided_of, gate_consents}
use skymail_backend.Preferences.{PreferenceCache}
use skymail_backend.Preferences.Gate.{gate_preferences}
use skymail_backend.Take.{
  Mailer, Caches, run_checks, checked_take, window_counts, room_of, counted, budgeted, claim_bulk,
}
use skymail_backend.Take.Steps.{take_rows-IsTaken, take_rows-Distinct}
use skymail_backend.Take.Checks.{checks-HasOnly}

length-select-le : (p : Row → Bool) (rows : List Row) → length (select p rows) ≤ length rows
length-select-le p [] = omega arith
length-select-le p (r ∷ rs) = ground (arith, length-select-le p rs)

module _ (lanes : SendLanes) (me now : ℕ) (rows : List Row) (st : Store) where
  held_fewer : length (skip_held_tasks me now rows st).1 ≤ length rows
  unfolding skip_held_tasks
  held_fewer = length-select-le _ rows

  subscribed_fewer : length (skip_unsubscribed lanes me now rows st).1 ≤ length rows
  unfolding skip_unsubscribed
  subscribed_fewer = length-select-le _ rows

  consented_fewer :
      (gate : ConsentGate) (c : ConsentCache)
      → length (gate_consents gate lanes me now c rows st).kept ≤ length rows
  unfolding gate_consents
  consented_fewer gate c =
      let v = decided_of gate lanes me now c (ids_of rows) st in
      omega (
        arith,
        length-map_rows (give_link v.links) (select (goes_on v) rows),
        length-select-le (goes_on v) rows,
      )

  preferred_fewer :
      (on : Bool) (c : PreferenceCache)
      → length (gate_preferences on lanes me now c rows st).kept ≤ length rows
  unfolding gate_preferences
  preferred_fewer false c = omega arith
  preferred_fewer true c = length-select-le _ rows

checks_fewer :
    (m : Mailer) (now : ℕ) (caches : Caches) (rows : List Row) (st : Store)
    → length (run_checks m now caches rows st).taken ≤ length rows
unfolding run_checks
checks_fewer m now caches rows st =
    let (st₁, free) = skip_held_tasks m.me now rows st in
    let (st₂, subscribed) = skip_unsubscribed m.lanes m.me now free st₁ in
    let consented = gate_consents m.consents m.lanes m.me now caches.consent subscribed st₂ in
    omega (
      arith,
      held_fewer m.lanes m.me now rows st,
      subscribed_fewer m.lanes m.me now free st₁,
      consented_fewer m.lanes m.me now subscribed st₂ m.consents caches.consent,
      preferred_fewer m.lanes m.me now consented.kept consented.store m.preference_on
          caches.preference,
    )

-- A take returns at most the rows asked for, and leaves the windows to the count.
pub checked_take_within :
    (m : Mailer) (now : ℕ) (locked : Row → Bool) (caches : Caches) (room : ℕ) (st : Store)
    → Distinct st.rows
    → let t = checked_take m now locked caches room st in
      (length t.taken ≤ room) × (t.store.windows ≡ st.windows)
unfolding checked_take
checked_take_within m now locked caches room st d =
    let (rows, returned) = take_rows false m.me room now locked st.rows in
    let (given, _) =
      checks-HasOnly m now caches returned (record st { rows = rows })
        (take_rows-Distinct false m.me room now locked st.rows d)
        (take_rows-IsTaken false m.me room now locked st.rows) in
    (
      omega (
        arith,
        checks_fewer m now caches returned (record st { rows = rows }),
        (take_rows_sound false m.me room now locked st.rows d).0,
      ),
      ap (λ (s : Store). s.windows) given.1,
    )

-- The windows with `n` more bulk rows counted, where there are some.
abbrev pub with_bulk : ℕ → ℕ → List SendWindow → List SendWindow
with_bulk now n ws = if n == 0 then ws else count_sends now priority_bulk n ws

counted-windows :
    (now n : ℕ) (st : Store) (ws : List SendWindow)
    → st.windows ≡ ws
    → (counted now priority_bulk n st).windows ≡ with_bulk now n ws
unfolding counted
counted-windows now n st ws e = elim (Bool-cases (n == 0)) [
  | inl z ↦ rw z e
  | inr z ↦ rw z (ap (count_sends now priority_bulk n) e)
]

room_bounds :
    (m : Mailer) (now max_rows : ℕ) (st : Store)
    → (room_of m now max_rows st ≤ max_rows)
      × (room_of m now max_rows st ≤ bulk_room m.budget now (window_counts now st))
unfolding room_of
room_bounds m now max_rows st = (omega arith, omega arith)

-- Under a budget, claimBulk returns no more rows than it was asked for and than the budget leaves room
-- for, and the send windows then count exactly the rows that it returns.
pub claim_bulk-windows :
    (m : Mailer) (now : ℕ) (fails free : Bool) (locked : Row → Bool) (max_rows : ℕ)
    (caches : Caches) (st : Store)
    → budget_off m.budget ≡ false
    → Distinct st.rows
    → let t = claim_bulk m now fails free locked max_rows caches st in
      (length t.taken ≤ max_rows)
      × (length t.taken ≤ bulk_room m.budget now (window_counts now st))
      × (t.store.windows ≡ with_bulk now (length t.taken) st.windows)
unfolding claim_bulk budgeted
claim_bulk-windows m now fails free locked max_rows caches st on d = elim (Bool-cases fails) [
  | inl f ↦ rw f (omega arith, omega arith, refl)
  | inr f ↦
      rw (f, on)
        (elim (Bool-cases
          (not free || bulk_lane_held m.guard now st || room_of m now max_rows st == 0)) [
            | inl h ↦ rw h (omega arith, omega arith, refl)
            | inr h ↦
                let room = room_of m now max_rows st in
                let t = checked_take m now locked caches room st in
                let (few, same) = checked_take_within m now locked caches room st d in
                let (a, b) = room_bounds m now max_rows st in
                rw h (
                  omega (arith, few, a),
                  omega (arith, few, b),
                  counted-windows now (length t.taken) t.store st.windows same,
                )
          ])
]
