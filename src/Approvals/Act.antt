-- ===== src/Approvals/Act.antt =====
-- internal/handlers/mail_approval_flow.go: act, and the expiry of requests (expireLocked, ExpireDue).
use skymail_backend.Prelude.{
  ℕ, Bool, ◌&&◌, not, Option, none, some, [], text_eq, trim_space, leb, if◌then◌else◌,
}
use skymail_backend.Approvals.{
  Request, undecided, ApprovalCaller, ApprovalRefusal, ApprovalAction, Surroundings, allows,
  repeats, authorize_approval, expired, expires, busy, state_conflict, past_deadline, blank_reason,
  form_source_changed, reject,
}
use skymail_backend.Approvals.Decisions.{
  event_of, record_event, set_mail_approval_state, Done, stops, goes, take_action,
}

-- expireLocked
unfoldable pub expire_locked : ℕ → Request → Request
unfolding set_mail_approval_state
expire_locked now r =
    record_event (event_of expires none none none [] now)
      (set_mail_approval_state expired none now r)

-- What an action answers: its refusal, or none, with the request after it.
abbrev pub Answer : Type 0
Answer = Option ApprovalRefusal × Request

abbrev pub answer_of : Request → Done Request → Answer
answer_of r (stops e) = (some e, r)
answer_of r (goes r') = (none, r')

-- The transaction of act, once it holds the request's lock.
unfoldable pub act_locked : Surroundings → ApprovalCaller → ApprovalAction → Request → Answer
unfolding take_action expire_locked
act_locked w caller action r =
    let state = r.approval.state in
    if w.source_moved
    then (some form_source_changed, r)
    else if undecided state && leb r.approval.deadline_at w.now
    then (some past_deadline, expire_locked w.now r)
    else if repeats action state
    then (none, r)
    else if not (allows action state)
    then (some state_conflict, r)
    else answer_of r (take_action w caller action r)

-- The checks that come before the lock, in turn: each gives what it refuses.
abbrev pub first_of : Option ApprovalRefusal → Option ApprovalRefusal → Option ApprovalRefusal
first_of (some e) other = some e
first_of none other = other

-- Reject's reason, before act.
abbrev pub blank_reason_of : ApprovalAction → Option ApprovalRefusal
blank_reason_of (reject reason) = if text_eq (trim_space reason) [] then some blank_reason else none
blank_reason_of _ = none

abbrev pub unless_refused : Option ApprovalRefusal → Request → Answer → Answer
unless_refused (some e) r answer = (some e, r)
unless_refused none r answer = answer

-- The answer after the transaction: one that it committed, the expiry's included, is read back first.
abbrev pub answer_after : Option ApprovalRefusal → Option ApprovalRefusal → Option ApprovalRefusal
answer_after (some e) none = some e
answer_after (some e) (some past_deadline) = some e
answer_after _ answer = answer

abbrev pub read_again : Surroundings → Answer → Answer
read_again w a = (answer_after w.read_back a.0, a.1)

-- act
unfoldable pub act : Surroundings → ApprovalCaller → ApprovalAction → Request → Answer
unfolding authorize_approval act_locked
act w caller action r =
    unless_refused
      (first_of (blank_reason_of action) (
        first_of (authorize_approval caller r.approval.submitter action)
          (first_of w.prepared (first_of w.source (if w.locked then some busy else none)))))
      r (read_again w (act_locked w caller action r))

-- A sweep's look at the request: LockDueMailApproval passes over one that someone holds.
unfoldable pub expire_due : ℕ → Bool → Request → Request
unfolding expire_locked
expire_due now locked r =
    if undecided r.approval.state && leb r.approval.deadline_at now && not locked
    then expire_locked now r
    else r
