-- ===== src/Tests.antt =====
-- Tests and examples: the development's theorems at concrete rows, replies and environments.
use skymail_backend.Prelude.{
  ℕ, ◌*◌, Bool, true, false, Option, none, some, List, [], ◌∷◌, Text, codes,
}
use skymail_backend.Env.{BulkGuard, second, minute}
use skymail_backend.Queue.{Row, Task, pending, processing, sent}
use skymail_backend.Smtp.{SmtpReply, rcpt_to}
use skymail_backend.Guard.{SendError}
use skymail_backend.Store.{Store}
mod Queue
mod Sending
mod Limits
mod Mail
mod Replies
mod Controls
mod Dispatching
mod Leaving
pub mod Taking
mod Queueing
mod Approving

abbrev pub waiting : ℕ → ℕ → Row
waiting id created = record {
  id = id;
  task_id = 9;
  channel = codes "email";
  recipient_email = codes "a@b.tr";
  recipient_sub = none;
  priority = 0;
  status = pending;
  attempts = 0;
  throttles = 0;
  error = none;
  created_at = created;
  next_attempt_at = created;
  claimed_at = none;
  claimed_by = none;
  sent_at = none;
  link = none;
  preference_checked_at = none;
  source_ref = none;
}

-- Row 1, that process 7 took at 1000.
abbrev pub taken_row : Row
taken_row = record (waiting 1 10) {
  status = processing;
  claimed_at = some 1000;
  claimed_by = some 7;
}

abbrev pub sent_row : Row
sent_row = record (waiting 3 10) { status = sent }

abbrev pub guard_on : BulkGuard
guard_on = record { throttle_pause = 5 * minute; failure_count = 2; failure_percent = 50 }

abbrev pub store_of : List Row → Store
store_of rows = record {
  rows = rows;
  tasks = [];
  hold = none;
  windows = [];
  suppressions = [];
  bounces = [];
  unsubscribes = [];
  mailing_lists = [];
  required_notifications = [];
}

abbrev pub refused : SmtpReply
refused = record { stage = rcpt_to; code = 550; enhanced = codes "5.1.1" }

abbrev pub throttling : SmtpReply
throttling = record { stage = rcpt_to; code = 421; enhanced = [] }

abbrev pub error_of : Bool → SmtpReply → SendError
error_of for_good reply = record {
  text = codes "x";
  permanent = for_good;
  smtp = some reply;
  graph = none;
}

abbrev pub answered : ℕ → Bool
answered _ = false

abbrev pub none_locked : Row → Bool
none_locked _ = false

abbrev pub send_9 : Task
send_9 = record {
  id = 9;
  sent_by = 4;
  template_key = none;
  template_system = false;
  purpose = none;
  category = none;
  self_test = false;
  commercial_content_absent = none;
  own_event_statement = none;
  mail_list_id = none;
  notification_id = none;
  send_failures = 0;
  paused_at = none;
  paused_reason = none;
  paused_by = none;
  cancelled_at = none;
  cancelled_by = none;
}
