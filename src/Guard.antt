-- ===== src/Guard.antt =====
-- internal/mailer/bulk_guard.go: throttling replies hold the bulk lane, a failing send is paused, and
-- the rows of paused and cancelled sends are handed back. A handler takes `lost`, which says of each of
-- its statements, by their order in the code, whether the database fails it; the code logs that and
-- goes on.
use skymail_backend.Prelude.{
  ℕ, ◌+◌, ◌*◌, ◌/◌, ◌≤◌, Bool, true, false, ◌&&◌, ◌||◌, not, Option, none, some, List, [], ◌∷◌,
  Text, codes, map, has_prefix, select, mem, leb, ltb, is_some, length, ◌==◌, if◌then◌else◌,
}
use skymail_backend.Env.{BulkGuard, second}
use skymail_backend.Lanes.{priority_bulk}
use skymail_backend.Smtp.{SmtpReply}
use skymail_backend.Store.{Store, Hold, hold_until}
use skymail_backend.Queue
use skymail_backend.Queue.{
  Row, Task, PauseReason, operator, failure_rate, Statement, execute, affected, is_sent, act,
  ids_of,
}
mod Scan
pub mod Pauses
pub mod Held
unfoldable pub use Scan.{throttle_text}

-- graphReply
pub record GraphReply : Type 0 where
  pub status : ℕ
  pub code : Text
  pub retry_after : ℕ

-- A send's error, as errors.As takes it apart.
pub record SendError : Type 0 where
  pub text : Text
  pub permanent : Bool
  pub smtp : Option SmtpReply
  pub graph : Option GraphReply

abbrev throttled_graph : Text → Option GraphReply → Bool
throttled_graph text (some g) = g.status == 429 || g.status == 503
throttled_graph text none = has_prefix text (codes "send failed: ") && throttle_text text

abbrev throttled_reply : Text → Option GraphReply → Option SmtpReply → Bool
throttled_reply text graph (some r) =
    r.code == 421 || r.code == 432 || has_prefix r.enhanced (codes "4.7.")
throttled_reply text graph none = throttled_graph text graph

-- throttled
unfoldable pub throttled : SendError → Bool
throttled e = throttled_reply e.text e.graph e.smtp

abbrev pub max_row_throttles : ℕ
max_row_throttles = 5

abbrev later_of : ℕ → Option GraphReply → ℕ
later_of delay none = delay
later_of delay (some g) = if ltb delay g.retry_after then g.retry_after else delay

-- A delay, or what the relay asked for where that is longer.
unfoldable pub at_least_retry_after : ℕ → SendError → ℕ
at_least_retry_after delay e = later_of delay e.graph

abbrev pub held_at : ℕ → Option Hold → Bool
held_at at none = false
held_at at (some h) = ltb at h.held_until

-- bulkLaneHeld
unfoldable pub bulk_lane_held : BulkGuard → ℕ → Store → Bool
bulk_lane_held guard at st = ltb 0 guard.throttle_pause && held_at at st.hold

-- holdBulkLane
unfoldable pub hold_bulk_lane : Bool → ℕ → ℕ → Text → Store → Store
hold_bulk_lane lost now delay reason st = if lost then st else hold_until (now + delay) reason st

-- One statement on the queue that the database may fail; how many rows it reports.
abbrev pub on_queue : Bool → ℕ → Statement → Store → Store × ℕ
on_queue true now s st = (st, 0)
on_queue false now s st =
    let (rows, n) = execute now st.tasks s st.rows in (record st { rows = rows }, n)

-- A claimed row's claim, for the guards of its outcomes.
abbrev pub claimed_at : Row → ℕ
claimed_at job = elim job.claimed_at [ some at ↦ at | none ↦ 0 ]

-- deferThrottled: the tables it leaves, and whether it handled the reply. `me` is the process.
unfoldable pub defer_throttled :
    BulkGuard → ℕ → (ℕ → Bool) → ℕ → Row → SendError → Store → Store × Bool
defer_throttled guard me lost now job e st =
    let bulk = leb job.priority priority_bulk in
    let delay = at_least_retry_after guard.throttle_pause e in
    let st' = hold_bulk_lane (lost 0) now delay e.text st in
    let s = Statement.defer_throttled job.id me (claimed_at job) e.text (delay / second) in
    if guard.throttle_pause == 0 || not (throttled e)
    then (st, false)
    else if bulk && leb max_row_throttles job.throttles
    then (st, false)
    else if not bulk
    then (st', false)
    else ((on_queue (lost 1) now s st').0, true)

abbrev pub sent_of : ℕ → Row → Bool
sent_of task r = r.task_id == task && is_sent r.status

-- CountTaskSendFailure's `pause.now`, of a send of which `answered` recipients were sent to.
unfoldable pub pauses_now : ℕ → ℕ → ℕ → Task → Bool
pauses_now min_failures min_percent answered t =
    not (is_some t.paused_at)
    && not (is_some t.cancelled_at)
    && ltb 0 min_failures
    && leb min_failures (t.send_failures + 1)
    && leb (min_percent * (t.send_failures + 1 + answered)) ((t.send_failures + 1) * 100)

unfoldable pub count_failure : ℕ → ℕ → ℕ → ℕ → Task → Task
count_failure now min_failures min_percent answered t =
    if pauses_now min_failures min_percent answered t
    then record t {
      send_failures = t.send_failures + 1;
      paused_at = some now;
      paused_reason = some failure_rate;
      paused_by = none;
    }
    else record t { send_failures = t.send_failures + 1 }

abbrev pub update_task : ℕ → (Task → Task) → List Task → List Task
update_task id f = map λ t. if t.id == id then f t else t

abbrev pub any_pauses : ℕ → ℕ → ℕ → ℕ → List Task → Bool
any_pauses id min_failures min_percent answered [] = false
any_pauses id min_failures min_percent answered (t ∷ ts) =
    (t.id == id && pauses_now min_failures min_percent answered t)
    || any_pauses id min_failures min_percent answered ts

-- countSendFailure: CountTaskSendFailure, and ParkPendingRows when it paused the send.
unfoldable pub count_send_failure : BulkGuard → (ℕ → Bool) → ℕ → Row → Store → Store
count_send_failure guard lost now job st =
    let answered = affected (sent_of job.task_id) st.rows in
    let count = count_failure now guard.failure_count guard.failure_percent answered in
    let st' = record st { tasks = update_task job.task_id count st.tasks } in
    let paused =
      any_pauses job.task_id guard.failure_count guard.failure_percent answered st.tasks in
    if ltb priority_bulk job.priority || lost 4
    then st
    else if paused
    then (on_queue (lost 5) now (Statement.park_pending job.task_id) st').0
    else st'

-- GetHeldTasks, of rows' sends: whether a row's send is cancelled, or is paused.
abbrev pub cancelled_task : List Task → Row → Bool
cancelled_task ts r = Queue.exists_task (Queue.is_cancelled r.task_id) ts

abbrev pub paused_task : List Task → Row → Bool
paused_task ts r = Queue.exists_task (Queue.is_paused r.task_id) ts

-- skipHeldTasks, of rows that process `me` just took, in the transaction of the take, which a failure
-- undoes: the tables, and the rows to go on with.
unfoldable pub skip_held_tasks : ℕ → ℕ → List Row → Store → Store × List Row
skip_held_tasks me now rows st =
    let cancel = select (cancelled_task st.tasks) rows in
    let park = select (λ r. not (cancelled_task st.tasks r) && paused_task st.tasks r) rows in
    let keep = select (λ r. not (cancelled_task st.tasks r) && not (paused_task st.tasks r)) rows in
    let st₁ = (on_queue false now (Statement.park_claimed (ids_of park) me) st).0 in
    let st₂ = (on_queue false now (Statement.cancel_claimed (ids_of cancel) me) st₁).0 in
    (st₂, keep)
