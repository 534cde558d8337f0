-- ===== src/Updates.antt =====
-- The statements of query.sql that update mail_queue for the mailer and for the controls of a send. Those
-- of retention and of masking, which empty a row's content and its link, and those of account erasure are
-- left out.
use skymail_backend.Prelude.{
  ℕ, ◌+◌, ◌*◌, Bool, ◌&&◌, not, Option, none, some, List, map, Text, codes, is_some, leb, ◌==◌,
  if◌then◌else◌,
}
use skymail_backend.Env.{second, millisecond}
use skymail_backend.Rows.{
  Row, Task, sent, failed, is_pending, is_processing, claimed, taken_by, parked_at, unclaimed,
  exists_task, is_cancelled, is_paused, is_free, same_task, expired, link_in,
}

-- A statement on mail_queue: its WHERE, and its SET.
pub record Update : Type 0 where
  pub guard : Row → Bool
  pub assigned : Row → Row

abbrev retried : ℕ → Text → ℕ → Row → Row
retried now error delay r = record (unclaimed r) {
  error = some error;
  next_attempt_at = now + delay * second;
}

-- The end of a row whose send is cancelled.
abbrev cancelled : Row → Row
cancelled r = record r {
  status = failed;
  error = some (codes "cancelled");
  claimed_at = none;
  claimed_by = none;
  source_ref = none;
}

abbrev pub release_mail_queue_item : ℕ → ℕ → ℕ → Update
release_mail_queue_item id by at = record { guard = claimed id by at; assigned = unclaimed }

abbrev pub set_mail_queue_item_sent : ℕ → ℕ → ℕ → ℕ → Update
set_mail_queue_item_sent now id by at = record {
  guard = claimed id by at;
  assigned = λ r. record r { status = sent; error = none; sent_at = some now };
}

abbrev pub set_mail_queue_item_failed : ℕ → ℕ → ℕ → Text → Update
set_mail_queue_item_failed id by at error = record {
  guard = claimed id by at;
  assigned = λ r. record r { status = failed; attempts = r.attempts + 1; error = some error };
}

abbrev pub reschedule_mail_queue_item : ℕ → ℕ → ℕ → ℕ → Text → ℕ → Update
reschedule_mail_queue_item now id by at error delay = record {
  guard = claimed id by at;
  assigned = λ r. record (retried now error delay r) { attempts = r.attempts + 1 };
}

abbrev pub defer_throttled_mail_queue_item : ℕ → ℕ → ℕ → ℕ → Text → ℕ → Update
defer_throttled_mail_queue_item now id by at error delay = record {
  guard = claimed id by at;
  assigned = λ r. record (retried now error delay r) { throttles = r.throttles + 1 };
}

abbrev pub start_lease_on_unclaimed_jobs : ℕ → Update
start_lease_on_unclaimed_jobs now = record {
  guard = λ r. is_processing r.status && not (is_some r.claimed_at);
  assigned = λ r. record r { claimed_at = some now };
}

abbrev pub reset_dead_jobs : ℕ → ℕ → Update
reset_dead_jobs now lease = record {
  guard = λ r. is_processing r.status && expired now lease r.claimed_at;
  assigned = unclaimed;
}

abbrev pub park_claimed_rows : ℕ → List Task → List ℕ → ℕ → Update
park_claimed_rows now ts ids by = record {
  guard = taken_by ids by;
  assigned = λ r. record (unclaimed r) {
    next_attempt_at = if exists_task (is_paused r.task_id) ts then parked_at else now;
  };
}

abbrev pub cancel_claimed_rows : List ℕ → ℕ → Update
cancel_claimed_rows ids by = record { guard = taken_by ids by; assigned = cancelled }

abbrev pub skip_unsubscribed_claimed_rows : List ℕ → ℕ → Text → Update
skip_unsubscribed_claimed_rows ids by error = record {
  guard = taken_by ids by;
  assigned = λ r. record r { status = failed; error = some error };
}

abbrev pub defer_claimed_rows : ℕ → List ℕ → ℕ → ℕ → Update
defer_claimed_rows now ids by delay = record {
  guard = taken_by ids by;
  assigned = λ r. record (unclaimed r) { next_attempt_at = now + delay * millisecond };
}

abbrev pub set_claimed_rows_preference_checked_at : List ℕ → ℕ → ℕ → Update
set_claimed_rows_preference_checked_at ids by at = record {
  guard = taken_by ids by;
  assigned = λ r. record r { preference_checked_at = some at };
}

-- links[i] is ids[i]'s.
abbrev pub set_claimed_rows_unsubscribe_url : List (ℕ × Text) → ℕ → Update
set_claimed_rows_unsubscribe_url links by = record {
  guard = taken_by (map (λ (l : ℕ × Text). l.0) links) by;
  assigned = λ r. record r { link = link_in r.id links };
}

abbrev pub park_pending_rows : List Task → ℕ → Update
park_pending_rows ts task = record {
  guard = λ r. r.task_id == task && is_pending r.status && exists_task (is_paused task) ts;
  assigned = λ r. record r { next_attempt_at = parked_at };
}

-- The rows that PauseMailTask parks.
abbrev pub pause_rows : List Task → ℕ → Update
pause_rows ts task = record {
  guard = λ r. r.task_id == task && is_pending r.status && exists_task (is_free task) ts;
  assigned = λ r. record r { next_attempt_at = parked_at };
}

-- The rows that ResumeMailTask makes due.
abbrev pub unpark_rows : ℕ → List Task → ℕ → Update
unpark_rows now ts task = record {
  guard = λ r.
      r.task_id == task
      && is_pending r.status
      && leb parked_at r.next_attempt_at
      && exists_task (is_paused task) ts;
  assigned = λ r. record r { next_attempt_at = now };
}

abbrev pub unpark_resumed_rows : ℕ → List Task → Update
unpark_resumed_rows now ts = record {
  guard = λ r.
      exists_task (is_free r.task_id) ts && is_pending r.status && leb parked_at r.next_attempt_at;
  assigned = λ r. record r { next_attempt_at = now };
}

abbrev pub cancel_pending_rows : List Task → Option ℕ → Update
cancel_pending_rows ts task = record {
  guard = λ r.
      exists_task (is_cancelled r.task_id) ts && same_task task r.task_id && is_pending r.status;
  assigned = cancelled;
}
