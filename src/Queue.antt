-- ===== src/Queue.antt =====
-- The statements on mail_queue as steps. A statement is one transaction at the instant that NOW() reads
-- there (nanoseconds).
use skymail_backend.Prelude.{
  ℕ, zero, suc, ◌+◌, ◌-◌, ◌*◌, ◌≤◌, Bool, true, false, ◌&&◌, ◌||◌, not, Option, none, some, List,
  [], ◌∷◌, map, Text, codes, length, take, select, mem, holds, is_some, leb, ltb, ◌==◌,
  if◌then◌else◌,
}
use skymail_backend.Updates.{
  Update, release_mail_queue_item, set_mail_queue_item_sent, set_mail_queue_item_failed,
  reschedule_mail_queue_item, defer_throttled_mail_queue_item, start_lease_on_unclaimed_jobs,
  reset_dead_jobs, park_claimed_rows, cancel_claimed_rows, skip_unsubscribed_claimed_rows,
  defer_claimed_rows, set_claimed_rows_preference_checked_at, set_claimed_rows_unsubscribe_url,
  park_pending_rows, pause_rows, unpark_rows, unpark_resumed_rows, cancel_pending_rows,
}
pub use skymail_backend.Rows.{
  Status, pending, processing, sent, failed, Row, PauseReason, operator, failure_rate, Task,
  is_pending, is_processing, is_sent, update, affected, claimed, taken_by, parked_at, exists_task,
  find_task, is_cancelled, is_paused, is_free,
}
pub mod Fencing
pub mod Claims
pub mod Lease
pub mod Once
pub mod Order

-- ProcessSystemQueueItems and ProcessBulkQueueItems: the lane's test on the priority.
abbrev pub in_lane : Bool → Row → Bool
in_lane system r = if system then ltb 0 r.priority else leb r.priority 0

abbrev pub due : Bool → ℕ → Row → Bool
due system now r = is_pending r.status && in_lane system r && leb r.next_attempt_at now

-- ORDER BY next_attempt_at, created_at
abbrev pub before : Row → Row → Bool
before a b =
    ltb a.next_attempt_at b.next_attempt_at
    || (a.next_attempt_at == b.next_attempt_at && leb a.created_at b.created_at)

unfoldable pub insert_row : Row → List Row → List Row
insert_row r [] = r ∷ []
insert_row r (x ∷ xs) = if before r x then r ∷ x ∷ xs else x ∷ insert_row r xs

unfoldable pub sort_rows : List Row → List Row
sort_rows [] = []
sort_rows (x ∷ xs) = insert_row x (sort_rows xs)

abbrev pub ids_of : List Row → List ℕ
ids_of = map λ r. r.id

-- The ids that a take's SELECT … LIMIT … FOR UPDATE SKIP LOCKED returns; `locked` says which rows
-- another transaction holds.
unfoldable pub taken_ids : Bool → ℕ → ℕ → (Row → Bool) → List Row → List ℕ
unfolding insert_row sort_rows
taken_ids system max_rows now locked rows =
    ids_of (take max_rows (sort_rows (select (λ r. due system now r && not (locked r)) rows)))

-- The statements of the mailer and of the controls, with their arguments; `lease` is in seconds.
pub data Statement : Type 0 where
  release : (id by at : ℕ) → Statement
  set_sent : (id by at : ℕ) → Statement
  set_failed : (id by at : ℕ) (error : Text) → Statement
  reschedule : (id by at : ℕ) (error : Text) (delay_seconds : ℕ) → Statement
  defer_throttled : (id by at : ℕ) (error : Text) (delay_seconds : ℕ) → Statement
  start_lease : Statement
  reset_dead : (lease_seconds : ℕ) → Statement
  park_claimed : (ids : List ℕ) (by : ℕ) → Statement
  cancel_claimed : (ids : List ℕ) (by : ℕ) → Statement
  skip_claimed : (ids : List ℕ) (by : ℕ) (error : Text) → Statement
  defer_claimed : (ids : List ℕ) (by delay_ms : ℕ) → Statement
  check_claimed : (ids : List ℕ) (by at : ℕ) → Statement
  link_claimed : (links : List (ℕ × Text)) (by : ℕ) → Statement
  park_pending : (task_id : ℕ) → Statement
  pause : (task_id : ℕ) → Statement
  unpark : (task_id : ℕ) → Statement
  unpark_resumed : Statement
  cancel_pending : (task_id : Option ℕ) → Statement

-- The update that a statement runs at an instant, where the sends are `ts`.
abbrev update_of : ℕ → List Task → Statement → Update
update_of now ts (release id by at) = release_mail_queue_item id by at
update_of now ts (set_sent id by at) = set_mail_queue_item_sent now id by at
update_of now ts (set_failed id by at error) = set_mail_queue_item_failed id by at error
update_of now ts (reschedule id by at error delay) =
    reschedule_mail_queue_item now id by at error delay
update_of now ts (defer_throttled id by at error delay) =
    defer_throttled_mail_queue_item now id by at error delay
update_of now ts start_lease = start_lease_on_unclaimed_jobs now
update_of now ts (reset_dead lease) = reset_dead_jobs now lease
update_of now ts (park_claimed ids by) = park_claimed_rows now ts ids by
update_of now ts (cancel_claimed ids by) = cancel_claimed_rows ids by
update_of now ts (skip_claimed ids by error) = skip_unsubscribed_claimed_rows ids by error
update_of now ts (defer_claimed ids by delay) = defer_claimed_rows now ids by delay
update_of now ts (check_claimed ids by at) = set_claimed_rows_preference_checked_at ids by at
update_of now ts (link_claimed links by) = set_claimed_rows_unsubscribe_url links by
update_of now ts (park_pending task) = park_pending_rows ts task
update_of now ts (pause task) = pause_rows ts task
update_of now ts (unpark task) = unpark_rows now ts task
update_of now ts unpark_resumed = unpark_resumed_rows now ts
update_of now ts (cancel_pending task) = cancel_pending_rows ts task

unfoldable pub applies : ℕ → List Task → Statement → Row → Bool
applies now ts s r = (update_of now ts s).guard r

unfoldable pub assign : ℕ → List Task → Statement → Row → Row
assign now ts s r = (update_of now ts s).assigned r

-- One statement on one row, and on the table.
unfoldable pub act : ℕ → List Task → Statement → Row → Row
act now ts s r = if applies now ts s r then assign now ts s r else r

unfoldable pub execute : ℕ → List Task → Statement → List Row → List Row × ℕ
unfolding act
execute now ts s rows = (map (act now ts s) rows, affected (applies now ts s) rows)

abbrev pub claim : ℕ → ℕ → Row → Row
claim now by r = record r { status = processing; claimed_at = some now; claimed_by = some by }

-- A take of one lane: the rows as the statement leaves them, and those that it returns.
unfoldable pub take_rows : Bool → ℕ → ℕ → ℕ → (Row → Bool) → List Row → List Row × List Row
take_rows system by max_rows now locked rows =
    let ids = taken_ids system max_rows now locked rows in
    (
      update (λ r. mem r.id ids) (claim now by) rows,
      map (claim now by) (select (λ r. mem r.id ids) rows),
    )
