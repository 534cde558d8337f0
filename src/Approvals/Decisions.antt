-- ===== src/Approvals/Decisions.antt =====
-- internal/handlers/mail_approval_flow.go: what the actions do to a request that is locked (decide, edit,
-- send, queue, resubmit), and the actions themselves (mail_approval.go).
use skymail_backend.Prelude.{
  ℕ, ◌+◌, Bool, false, not, Option, none, some, List, [], ◌∷◌, Text, trim_space, ◌==◌,
  if◌then◌else◌,
}
use skymail_backend.Approvals.{
  ApprovalState, EventKind, Variables, Approval, ApprovalEvent, Request, mail_approval_deadline,
  ApprovalCaller, ApprovalRefusal, Resubmission, ApprovalAction, TemplateState, Queued,
  Surroundings, optional_text, pending, returned, approved, rejected, declined, resubmitted, edited,
  returns, accepted, declines, approves, rejects, not_found, no_edit, template_unavailable,
  template_republished, approve, return_, reject, accept, decline, resubmit, fails, queues,
}
use skymail_backend.Approvals.Changes.{variable_changes, resubmit_changes}

abbrev pub event_of : EventKind → Option ℕ → Option Text → Option ℕ → List Text → ℕ → ApprovalEvent
event_of kind actor note task changes at = record {
  kind = kind;
  actor = actor;
  note = note;
  task_id = task;
  changes = changes;
  at = at;
}

abbrev pub record_event : ApprovalEvent → Request → Request
record_event e r = record r { events = e ∷ r.events }

abbrev pub deadline_or : Option ℕ → ℕ → ℕ
deadline_or none old = old
deadline_or (some d) old = d

-- SetMailApprovalState
unfoldable pub set_mail_approval_state : ApprovalState → Option ℕ → ℕ → Request → Request
set_mail_approval_state state deadline now r = record r {
  approval = record r.approval {
    state = state;
    deadline_at = deadline_or deadline r.approval.deadline_at;
    updated_at = now;
  };
}

-- approvalStep
pub record ApprovalStep : Type 0 where
  pub state : ApprovalState
  pub kind : EventKind
  pub note : Text
  pub task_id : Option ℕ
  pub deadline : Option ℕ

-- decide
unfoldable pub decide : ℕ → ApprovalCaller → ApprovalStep → Request → Request
unfolding set_mail_approval_state optional_text
decide now caller step r =
    record_event
      (event_of step.kind (some caller.sub) (optional_text step.note) step.task_id [] now)
      (set_mail_approval_state step.state step.deadline now r)

-- What a part of an action gives: it refuses the action, or the request and what it found.
pub data Done {ℓ} (A : Type ℓ) : Type ℓ where
  stops : ApprovalRefusal → Done A
  goes : A → Done A

abbrev pub edited_or : Option ApprovalRefusal → Request × List Text → Done (Request × List Text)
edited_or none done = goes done
edited_or (some e) done = stops e

-- edit of variables that are given, with their changes.
abbrev pub edit_changes :
    Surroundings → ApprovalCaller → Variables → List Text → Request → Done (Request × List Text)
edit_changes w caller variables [] r = goes (r, [])
edit_changes w caller variables (c ∷ cs) r =
    let a = r.approval in
    let r' = record r { approval = record a { body_variables = variables; updated_at = w.now } } in
    edited_or (w.checks a variables)
      (record_event (event_of edited (some caller.sub) none none (c ∷ cs) w.now) r', c ∷ cs)

-- edit
unfoldable pub edit :
    Surroundings → ApprovalCaller → Option Variables → Request → Done (Request × List Text)
unfolding variable_changes
edit w caller none r = goes (r, [])
edit w caller (some variables) r =
    edit_changes w caller variables (variable_changes r.approval.body_variables variables) r

abbrev pub sent_with :
    Surroundings → ApprovalCaller → EventKind → Text → Request → Queued → Done Request
sent_with w caller kind note r (fails e) = stops e
sent_with w caller kind note r (queues first rest) = goes (
    decide w.now caller
      (record { state = approved; kind = kind; note = note; task_id = some first; deadline = none })
      (record r { sends = (first ∷ rest) ∷ r.sends }))

abbrev pub published_as : Option ℕ → ℕ → Bool
published_as none version = false
published_as (some published) version = published == version

abbrev pub queue_of : Option TemplateState → Surroundings → Approval → Queued
queue_of none w a = fails not_found
queue_of (some t) w a =
    if t.archived
    then fails template_unavailable
    else if not (published_as t.published_version_id a.template_version_id)
    then fails template_republished
    else w.queue_to a

-- queue: its checks of the template, then the queueing to the request's audience.
unfoldable pub queue : Surroundings → Approval → Queued
queue w a = queue_of (w.templates a.template_id) w a

-- send, and the decision that follows it.
unfoldable pub send_decided :
    Surroundings → ApprovalCaller → EventKind → Text → Request → Done Request
unfolding decide queue
send_decided w caller kind note r = sent_with w caller kind note r (queue w r.approval)

abbrev pub approve_edited :
    Surroundings → ApprovalCaller → Text → Done (Request × List Text) → Done Request
approve_edited w caller note (stops e) = stops e
approve_edited w caller note (goes done) = send_decided w caller approves note done.0

abbrev pub return_edited :
    Surroundings → ApprovalCaller → Text → Done (Request × List Text) → Done Request
unfolding decide
return_edited w caller note (stops e) = stops e
return_edited w caller note (goes (r, [])) = stops no_edit
return_edited w caller note (goes (r, c ∷ cs)) = goes (
    decide w.now caller
      (record {
        state = returned;
        kind = returns;
        note = note;
        task_id = none;
        deadline = some (w.now + mail_approval_deadline);
      })
      r)

abbrev pub decided_as :
    Surroundings → ApprovalCaller → ApprovalState → EventKind → Text → Request → Request
unfolding decide
decided_as w caller state kind note =
    decide w.now caller
      (record { state = state; kind = kind; note = note; task_id = none; deadline = none })

-- setRecipients: a Forms source's people are its own.
abbrev named_people : Option ℕ → List Text → List Text
named_people none people = people
named_people (some source) people = []

-- ResubmitMailApproval and setRecipients, and resubmit.
unfoldable pub resubmit_request : ℕ → ApprovalCaller → Resubmission → Request → Request
unfolding resubmit_changes
resubmit_request now caller s r =
    record_event
      (event_of resubmitted (some caller.sub) none none (resubmit_changes r.approval s) now)
      (record r {
        approval = record r.approval {
          state = pending;
          template_id = s.template_id;
          template_version_id = s.version_id;
          mail_list_id = s.mail_list_id;
          form_source_id = s.form_source_id;
          recipients = named_people s.form_source_id s.recipients;
          body_variables = s.variables;
          submitted_at = now;
          deadline_at = now + mail_approval_deadline;
          updated_at = now;
        };
      })

-- approvalAction.do
unfoldable pub take_action : Surroundings → ApprovalCaller → ApprovalAction → Request → Done Request
unfolding edit send_decided resubmit_request decide
take_action w caller (approve variables note) r =
    approve_edited w caller note (edit w caller variables r)
take_action w caller (return_ variables note) r =
    return_edited w caller note (edit w caller variables r)
take_action w caller (reject reason) r =
    goes (decided_as w caller rejected rejects (trim_space reason) r)
take_action w caller accept r = send_decided w caller accepted [] r
take_action w caller (decline note) r = goes (decided_as w caller declined declines note r)
take_action w caller (resubmit s) r = goes (resubmit_request w.now caller s r)
