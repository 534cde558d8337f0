-- ===== src/Control.antt =====
-- internal/handlers/mail_task_control.go and its statements of query.sql: pausing, resuming and
-- cancelling a send. A control that is refused, or whose transaction fails, changes nothing.
use skymail_backend.Prelude.{
  ℕ, ◌≤◌, Bool, true, false, ◌&&◌, ◌||◌, not, Option, none, some, List, [], ◌∷◌, map, leb, is_some,
  ◌==◌, if◌then◌else◌,
}
use skymail_backend.Lanes.{priority_bulk}
use skymail_backend.Queue.{
  find_task, Row, Task, operator, is_pending, is_processing, is_free, is_paused, act, Statement,
}
use skymail_backend.Store.{Store}
use skymail_backend.Guard.{update_task}
pub mod Holding
pub mod Access

pub data TaskControl : Type 0 where
  pause_task resume_task cancel_task : TaskControl

pub data Refusal : Type 0 where
  not_found forbidden not_bulk task_cancelled task_finished : Refusal

pub data Answer : Type 0 where
  refused : Refusal → Answer
  accepted : Store → Answer

-- contentCaller: its subject (none is the empty one), and whether it has AnnouncementsSendRole.
pub record Caller : Type 0 where
  pub sub : Option ℕ
  pub sends_announcements : Bool

abbrev pub any_row : (Row → Bool) → List Row → Bool
any_row p [] = false
any_row p (r ∷ rs) = p r || any_row p rs

-- GetMailTaskControl's two flags.
abbrev pub bulk : ℕ → List Row → Bool
bulk id = any_row λ r. r.task_id == id && leb r.priority priority_bulk

abbrev pub unfinished : ℕ → List Row → Bool
unfinished id = any_row λ r. r.task_id == id && (is_pending r.status || is_processing r.status)

abbrev pause_of : ℕ → ℕ → Task → Task
pause_of now by t =
    if not (is_some t.paused_at) && not (is_some t.cancelled_at)
    then record t { paused_at = some now; paused_reason = some operator; paused_by = some by }
    else t

-- PauseMailTask
unfoldable pub pause_mail_task : ℕ → ℕ → ℕ → Store → Store
pause_mail_task now by id st = record st {
  rows = map (act now st.tasks (Statement.pause id)) st.rows;
  tasks = update_task id (pause_of now by) st.tasks;
}

abbrev resume_of : Task → Task
resume_of t =
    if is_some t.paused_at && not (is_some t.cancelled_at)
    then record t { paused_at = none; paused_reason = none; paused_by = none; send_failures = 0 }
    else t

-- ResumeMailTask
unfoldable pub resume_mail_task : ℕ → ℕ → Store → Store
resume_mail_task now id st = record st {
  rows = map (act now st.tasks (Statement.unpark id)) st.rows;
  tasks = update_task id resume_of st.tasks;
}

abbrev cancel_of : ℕ → ℕ → Task → Task
cancel_of now by t = if is_some t.cancelled_at then t else record t {
  cancelled_at = some now;
  cancelled_by = some by;
  paused_at = none;
  paused_reason = none;
  paused_by = none;
}

-- CancelMailTask
unfoldable pub cancel_mail_task : ℕ → ℕ → ℕ → Store → Store
cancel_mail_task now by id st = record st { tasks = update_task id (cancel_of now by) st.tasks }

-- CancelPendingRows, of one send or of all.
unfoldable pub cancel_pending : ℕ → Option ℕ → Store → Store
cancel_pending now id st = record st {
  rows = map (act now st.tasks (Statement.cancel_pending id)) st.rows;
}

-- The switch of controlTask, of a send that its caller may control.
unfoldable pub controlled : ℕ → ℕ → ℕ → TaskControl → Task → Store → Answer
controlled now by id pause_task t st =
    if is_some t.cancelled_at
    then refused task_cancelled
    else if is_some t.paused_at
    then accepted st
    else if not (unfinished id st.rows)
    then refused task_finished
    else accepted (pause_mail_task now by id st)
controlled now by id resume_task t st =
    if is_some t.cancelled_at then refused task_cancelled else accepted (resume_mail_task now id st)
controlled now by id cancel_task t st =
    if is_some t.cancelled_at
    then accepted st
    else if not (unfinished id st.rows)
    then refused task_finished
    else accepted (cancel_pending now (some id) (cancel_mail_task now by id st))

abbrev of_task : ℕ → ℕ → Bool → ℕ → TaskControl → Option Task → Store → Answer
of_task now by any_send id control none st = refused not_found
of_task now by any_send id control (some t) st =
    if not any_send && not (t.sent_by == by)
    then refused forbidden
    else if not (bulk id st.rows)
    then refused not_bulk
    else controlled now by id control t st

abbrev by_caller : ℕ → Option ℕ → Bool → ℕ → TaskControl → Store → Answer
by_caller now none any_send id control st = refused forbidden
by_caller now (some by) any_send id control st =
    of_task now by any_send id control (find_task id st.tasks) st

-- controlTask
unfoldable pub control_task : ℕ → Caller → ℕ → TaskControl → Store → Answer
control_task now caller id control st =
    by_caller now caller.sub caller.sends_announcements id control st
