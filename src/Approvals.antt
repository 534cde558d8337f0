-- ===== src/Approvals.antt =====
-- internal/handlers/mail_approval.go and mail_approval_flow.go: a request for approval, the actions on it
-- (act, and what Approve, Return, Reject, Accept, Decline and Resubmit give it) and its expiry. What an
-- action asks Keycloak, core or the template tables is an input: whether the checks before the lock
-- refuse it, whether a template's checks pass an edit, and what queueing the send gives.
use skymail_backend.Prelude.{
  ℕ, ◌+◌, ◌*◌, Bool, true, false, ◌&&◌, ◌||◌, not, Option, none, some, List, [], ◌∷◌, ◌++◌, Text,
  codes, map, select, is_some, text_eq, trim_space, leb, ltb, ◌==◌, if◌then◌else◌,
}
use skymail_backend.Env.{hour}
pub mod Changes
pub mod Decisions
pub mod Act
pub mod States
pub mod Acted
pub mod Runs
pub mod Published

-- MailApprovalState
pub data ApprovalState : Type 0 where
  pending returned approved rejected declined expired : ApprovalState

-- MailApprovalEventKind
pub data EventKind : Type 0 where
  submitted resubmitted edited returns accepted declines approves rejects expires : EventKind

-- A JSON object of variables; a value is its canonical text.
abbrev pub Variables : Type 0
Variables = List (Text × Text)

-- MailApproval with the people it goes to (mail_approval_recipients), a text each, less who the
-- submitter says they are, the tracking and the purpose.
pub record Approval : Type 0 where
  pub submitter : ℕ
  pub state : ApprovalState
  pub template_id : ℕ
  pub template_version_id : ℕ
  pub mail_list_id : Option ℕ
  pub form_source_id : Option ℕ
  pub recipients : List Text
  pub body_variables : Variables
  pub submitted_at : ℕ
  pub deadline_at : ℕ
  pub updated_at : ℕ

-- MailApprovalEvent; its changes are the names of what changed.
pub record ApprovalEvent : Type 0 where
  pub kind : EventKind
  pub actor : Option ℕ
  pub note : Option Text
  pub task_id : Option ℕ
  pub changes : List Text
  pub at : ℕ

-- A request with its history, newest first, and the sends that were queued for it: one list for each
-- time that it was sent.
pub record Request : Type 0 where
  pub approval : Approval
  pub events : List ApprovalEvent
  pub sends : List (List ℕ)

abbrev pub mail_approval_deadline : ℕ
mail_approval_deadline = 7 * 24 * hour

abbrev pub undecided : ApprovalState → Bool
undecided pending = true
undecided returned = true
undecided _ = false

abbrev pub is_pending : ApprovalState → Bool
is_pending pending = true
is_pending _ = false

abbrev pub is_returned : ApprovalState → Bool
is_returned returned = true
is_returned _ = false

abbrev pub is_approved : ApprovalState → Bool
is_approved approved = true
is_approved _ = false

abbrev pub is_refused : ApprovalState → Bool
is_refused rejected = true
is_refused declined = true
is_refused _ = false

-- approvalCaller
pub record ApprovalCaller : Type 0 where
  pub sub : ℕ
  pub approver : Bool

-- What refuses an action: the errors that act gives itself, and any other by its code.
pub data ApprovalRefusal : Type 0 where
  busy state_conflict past_deadline not_submitter not_found no_edit blank_reason : ApprovalRefusal
  template_unavailable template_republished : ApprovalRefusal
  form_source_changed : ApprovalRefusal
  refused_by : Text → ApprovalRefusal

-- A resubmission, as its checks passed it.
pub record Resubmission : Type 0 where
  pub template_id : ℕ
  pub version_id : ℕ
  pub mail_list_id : Option ℕ
  pub form_source_id : Option ℕ
  pub recipients : List Text
  pub variables : Variables

pub data ApprovalAction : Type 0 where
  approve : (variables : Option Variables) (note : Text) → ApprovalAction
  return_ : (variables : Option Variables) (note : Text) → ApprovalAction
  reject : (reason : Text) → ApprovalAction
  accept : ApprovalAction
  decline : (note : Text) → ApprovalAction
  resubmit : Resubmission → ApprovalAction

-- Of Template, what queueing reads.
pub record TemplateState : Type 0 where
  pub archived : Bool
  pub published_version_id : Option ℕ

-- What queueing a request's send gives: an error, or its sends, of which there is a first.
pub data Queued : Type 0 where
  fails : ApprovalRefusal → Queued
  queues : (first : ℕ) (rest : List ℕ) → Queued

-- What an action reads that is not the request's: `prepared` and `source` are what the checks before the
-- lock, and those of a Forms source's lock, refuse; `locked` is whether someone holds the request's lock, and
-- `read_back` the error of reading the request again after the transaction.
pub record Surroundings : Type 0 where
  pub now : ℕ
  pub prepared : Option ApprovalRefusal
  pub source : Option ApprovalRefusal
  pub locked : Bool
  pub source_moved : Bool
  pub checks : Approval → Variables → Option ApprovalRefusal
  pub templates : ℕ → Option TemplateState
  pub queue_to : Approval → Queued
  pub read_back : Option ApprovalRefusal

-- approvalAction.by: whether only the submitter may.
abbrev pub by_submitter : ApprovalAction → Bool
by_submitter accept = true
by_submitter (decline _) = true
by_submitter (resubmit _) = true
by_submitter _ = false

-- approvalAction.from
abbrev pub allows : ApprovalAction → ApprovalState → Bool
allows (approve _ _) s = is_pending s
allows (return_ _ _) s = is_pending s
allows (reject _) s = is_pending s
allows accept s = is_returned s
allows (decline _) s = is_returned s
allows (resubmit _) s = is_refused s

-- approvalAction.repeat
abbrev pub repeats : ApprovalAction → ApprovalState → Bool
repeats (approve none _) s = is_approved s
repeats _ s = false

-- authorizeApproval
unfoldable pub authorize_approval : ApprovalCaller → ℕ → ApprovalAction → Option ApprovalRefusal
authorize_approval caller submitter action =
    let own = submitter == caller.sub in
    if by_submitter action && not own && caller.approver
    then some not_submitter
    else if by_submitter action && not own
    then some not_found
    else none

-- optionalText
unfoldable pub optional_text : Text → Option Text
optional_text s = let t = trim_space s in if text_eq t [] then none else some t
