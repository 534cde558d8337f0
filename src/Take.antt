-- ===== src/Take.antt =====
-- claimBulk and countSystem of internal/mailer/budget.go: a take of bulk rows within the send budget, with
-- every check that it runs on them, in one transaction.
use skymail_backend.Prelude.{
  ℕ, ◌-◌, Bool, true, false, ◌&&◌, ◌||◌, not, List, [], ◌∷◌, min, length, ◌==◌, if◌then◌else◌,
}
use skymail_backend.Env.{BulkGuard, RateBudget, minute}
use skymail_backend.Lanes.{SendLanes, priority_bulk, priority_system}
use skymail_backend.Budget.{
  SendWindow, budget_off, window_start, day_from, bulk_room, count_sends, send_window_counts,
}
use skymail_backend.Queue.{Row, take_rows}
use skymail_backend.Store.{Store}
use skymail_backend.Guard.{bulk_lane_held, skip_held_tasks}
use skymail_backend.Unsubscribed.{skip_unsubscribed}
use skymail_backend.Consents.{ConsentGate, ConsentCache}
use skymail_backend.Consents.Gate.{gate_consents}
use skymail_backend.Preferences.{PreferenceCache}
use skymail_backend.Preferences.Gate.{gate_preferences}
pub mod Steps
pub mod Checks
pub mod Bulk
pub mod Counts
pub mod Turns
pub mod Refines

-- What mailerImpl reads in claimBulk; `me` is its claimant.
pub record Mailer : Type 0 where
  pub me : ℕ
  pub lanes : SendLanes
  pub guard : BulkGuard
  pub budget : RateBudget
  pub consents : ConsentGate
  pub preference_on : Bool

-- The two caches of core's answers.
pub record Caches : Type 0 where
  pub consent : ConsentCache
  pub preference : PreferenceCache

-- What a turn leaves, and the rows it hands to the workers.
pub record Turn : Type 0 where
  pub store : Store
  pub caches : Caches
  pub taken : List Row

abbrev pub nothing : Caches → Store → Turn
nothing caches st = record { store = st; caches = caches; taken = [] }

-- The checks, in their order. A check of no rows runs no statement, as the code's early returns do not.
unfoldable pub run_checks : Mailer → ℕ → Caches → List Row → Store → Turn
run_checks m now caches rows st =
    let (st₁, free) = skip_held_tasks m.me now rows st in
    let (st₂, subscribed) = skip_unsubscribed m.lanes m.me now free st₁ in
    let consented = gate_consents m.consents m.lanes m.me now caches.consent subscribed st₂ in
    let preferred =
      gate_preferences m.preference_on m.lanes m.me now caches.preference consented.kept
        consented.store in
    record {
      store = preferred.store;
      caches = record { consent = consented.cache; preference = preferred.cache };
      taken = preferred.kept;
    }

-- ProcessBulkQueueItems, and the checks of what it returns.
unfoldable pub checked_take : Mailer → ℕ → (Row → Bool) → Caches → ℕ → Store → Turn
unfolding run_checks
checked_take m now locked caches room st =
    let (rows, returned) = take_rows false m.me room now locked st.rows in
    run_checks m now caches returned (record st { rows = rows })

-- countSends of the rows of a lane, at the end of a take that has some.
unfoldable pub counted : ℕ → ℕ → ℕ → Store → Store
counted now lane n st =
    if n == 0 then st else record st { windows = count_sends now lane n st.windows }

-- What SendWindowCounts reads for a take.
abbrev pub window_counts : ℕ → Store → List SendWindow
window_counts now st =
    send_window_counts (window_start now minute - minute) (day_from now) st.windows

-- The rows that a take may ask for.
unfoldable pub room_of : Mailer → ℕ → ℕ → Store → ℕ
room_of m now max_rows st = min max_rows (bulk_room m.budget now (window_counts now st))

-- The transaction's body under a budget; `free` is whether no other process holds the budget's lock.
unfoldable pub budgeted : Mailer → ℕ → Bool → (Row → Bool) → ℕ → Caches → Store → Turn
unfolding checked_take counted room_of
budgeted m now free locked max_rows caches st =
    let room = room_of m now max_rows st in
    let t = checked_take m now locked caches room st in
    if not free || bulk_lane_held m.guard now st || room == 0
    then nothing caches st
    else record t { store = counted now priority_bulk (length t.taken) t.store }

-- The transaction's body without a budget.
unfoldable pub unbudgeted : Mailer → ℕ → (Row → Bool) → ℕ → Caches → Store → Turn
unfolding checked_take
unbudgeted m now locked max_rows caches st =
    if bulk_lane_held m.guard now st
    then nothing caches st
    else checked_take m now locked caches max_rows st

-- claimBulk. `fails` is whether some step of the transaction fails, which undoes it and takes nothing;
-- what the caches noted to fetch until then is left out.
unfoldable pub claim_bulk : Mailer → ℕ → Bool → Bool → (Row → Bool) → ℕ → Caches → Store → Turn
unfolding budgeted unbudgeted
claim_bulk m now fails free locked max_rows caches st =
    if fails
    then nothing caches st
    else if budget_off m.budget
    then unbudgeted m now locked max_rows caches st
    else budgeted m now free locked max_rows caches st

-- countSystem; `fails` is whether the count fails, which is logged.
unfoldable pub count_system : Mailer → ℕ → Bool → ℕ → Store → Store
unfolding counted
count_system m now fails n st =
    if budget_off m.budget || fails then st else counted now priority_system n st
