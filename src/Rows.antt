-- ===== src/Rows.antt =====
-- The rows of mail_queue and mail_tasks, less the content of a mail and the columns of tracking and
-- masking, and the tests that the statements of query.sql make on them. A
-- process is the number that stands for its claimant name, which the statements only compare. Ids are
-- numbers too.
use skymail_backend.Prelude.{
  ℕ, ◌+◌, ◌*◌, Bool, true, false, ◌&&◌, ◌||◌, not, Option, none, some, List, [], ◌∷◌, map, Text,
  length, select, mem, holds, is_some, ltb, ◌==◌, if◌then◌else◌,
}
use skymail_backend.Env.{second}
use skymail_backend.Lanes.{Purpose}

pub data Status : Type 0 where
  pending processing sent failed : Status

-- MailQueue, less its content and its tracking. A row is of a send that keeps its rows as they ended: the
-- trigger that erases the recipient of a row of an erase_after_send send is left out. created_at has a
-- default, and no statement sets it null.
pub record Row : Type 0 where
  pub id : ℕ
  pub task_id : ℕ
  pub channel : Text
  pub recipient_email : Text
  pub recipient_sub : Option ℕ
  pub priority : ℕ
  pub status : Status
  pub attempts : ℕ
  pub throttles : ℕ
  pub error : Option Text
  pub created_at : ℕ
  pub next_attempt_at : ℕ
  pub claimed_at : Option ℕ
  pub claimed_by : Option ℕ
  pub sent_at : Option ℕ
  pub link : Option Text
  pub preference_checked_at : Option ℕ
  pub source_ref : Option Text

pub data PauseReason : Type 0 where
  operator failure_rate : PauseReason

pub record Task : Type 0 where
  pub id : ℕ
  pub sent_by : ℕ
  pub template_key : Option Text
  pub template_system : Bool
  pub purpose : Option Purpose
  pub category : Option Text
  pub self_test : Bool
  pub commercial_content_absent : Option Bool
  pub own_event_statement : Option Bool
  pub mail_list_id : Option ℕ
  pub notification_id : Option ℕ
  pub send_failures : ℕ
  pub paused_at : Option ℕ
  pub paused_reason : Option PauseReason
  pub paused_by : Option ℕ
  pub cancelled_at : Option ℕ
  pub cancelled_by : Option ℕ

abbrev pub is_pending : Status → Bool
is_pending pending = true
is_pending _ = false

abbrev pub is_processing : Status → Bool
is_processing processing = true
is_processing _ = false

abbrev pub is_sent : Status → Bool
is_sent sent = true
is_sent _ = false

-- UPDATE … SET … WHERE.
abbrev pub update : (Row → Bool) → (Row → Row) → List Row → List Row
update p f = map λ r. if p r then f r else r

-- The rows that a statement reports (:execrows, RETURNING).
abbrev pub affected : (Row → Bool) → List Row → ℕ
affected p rows = length (select p rows)

-- A claim of a row by a process at an instant: the guard of every outcome.
abbrev pub claimed : ℕ → ℕ → ℕ → Row → Bool
claimed id by at r =
    r.id == id && is_processing r.status && holds r.claimed_by by && holds r.claimed_at at

-- A row that a process took, with no regard to when.
abbrev pub taken_by : List ℕ → ℕ → Row → Bool
taken_by ids by r = mem r.id ids && is_processing r.status && holds r.claimed_by by

-- TIMESTAMPTZ '2999-01-01 00:00:00+00'
abbrev pub parked_at : ℕ
parked_at = 32472144000 * second

abbrev pub unclaimed : Row → Row
unclaimed r = record r { status = pending; claimed_at = none; claimed_by = none }

-- EXISTS (SELECT 1 FROM mail_tasks …)
abbrev pub exists_task : (Task → Bool) → List Task → Bool
exists_task p [] = false
exists_task p (t ∷ ts) = p t || exists_task p ts

abbrev pub is_cancelled : ℕ → Task → Bool
is_cancelled id t = t.id == id && is_some t.cancelled_at

-- Paused, and not cancelled.
abbrev pub is_paused : ℕ → Task → Bool
is_paused id t = t.id == id && is_some t.paused_at && not (is_some t.cancelled_at)

abbrev pub is_free : ℕ → Task → Bool
is_free id t = t.id == id && not (is_some t.paused_at) && not (is_some t.cancelled_at)

abbrev pub same_task : Option ℕ → ℕ → Bool
same_task none id = true
same_task (some t) id = id == t

-- claimed_at < NOW() - lease; a NULL is not less.
abbrev pub expired : ℕ → ℕ → Option ℕ → Bool
expired now lease none = false
expired now lease (some at) = ltb (at + lease * second) now

-- The link that a statement gives a row.
abbrev pub link_in : ℕ → List (ℕ × Text) → Option Text
link_in id [] = none
link_in id (l ∷ ls) = if id == l.0 then some l.1 else link_in id ls

abbrev pub find_task : ℕ → List Task → Option Task
find_task id [] = none
find_task id (t ∷ ts) = if t.id == id then some t else find_task id ts
