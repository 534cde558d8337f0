-- ===== src/Tests/Approving.antt =====
-- A request that is returned with an edit, accepted by its submitter and sent once.
use skymail_backend.Prelude.{ℕ, ◌≡◌, refl, true, false, Option, none, some, [], ◌∷◌, codes}
use skymail_backend.Approvals.{
  is_approved, pending, approved, Approval, Request, ApprovalCaller, ApprovalRefusal, Variables,
  accept, return_, approve, Queued, queues, Surroundings, TemplateState,
}
use skymail_backend.Approvals.Act.{act}
use skymail_backend.Approvals.States.{Move, acts, sweeps, moved, run_moves}
use skymail_backend.Approvals.Acted.{is_own, is_late, Stutters, act-Transition}
use skymail_backend.Approvals.Published.{IsPublished, act-IsPublished}
use skymail_backend.Approvals.Runs.{IsSentOnce, run_moves-IsSentOnce, run_moves-final}

abbrev no_refusal : Approval → Variables → Option ApprovalRefusal
no_refusal _ _ = none

abbrev published_2 : ℕ → Option TemplateState
published_2 _ = some (record { archived = false; published_version_id = some 2 })

abbrev queue_one : Approval → Queued
queue_one _ = queues 40 []

abbrev at_time : ℕ → Surroundings
at_time now = record {
  now = now;
  prepared = none;
  source = none;
  locked = false;
  source_moved = false;
  checks = no_refusal;
  templates = published_2;
  queue_to = queue_one;
  read_back = none;
}

abbrev submitted_request : Request
submitted_request = record {
  approval = record {
    submitter = 5;
    state = pending;
    template_id = 1;
    template_version_id = 2;
    mail_list_id = some 3;
    form_source_id = none;
    recipients = [];
    body_variables = (codes "ad", codes "x") ∷ [];
    submitted_at = 100;
    deadline_at = 1000000000;
    updated_at = 100;
  };
  events = [];
  sends = [];
}

abbrev approved_request : Request
approved_request = record submitted_request {
  approval = record submitted_request.approval { state = approved };
  sends = (40 ∷ []) ∷ [];
}

abbrev submitter_5 : ApprovalCaller
submitter_5 = record { sub = 5; approver = false }

abbrev approver_6 : ApprovalCaller
approver_6 = record { sub = 6; approver = true }

abbrev return_edit : Move
return_edit =
    acts (at_time 200) approver_6 (return_ (some ((codes "ad", codes "y") ∷ [])) (codes "n"))

abbrev accept_edit : Move
accept_edit = acts (at_time 300) submitter_5 accept

abbrev approve_again : Move
approve_again = acts (at_time 400) approver_6 (approve none [])

returned_then_sent :
    (run_moves (return_edit ∷ accept_edit ∷ approve_again ∷ []) submitted_request).sends
    ≡ (40 ∷ []) ∷ []
unfolding moved
returned_then_sent = refl

run_moves-IsSentOnce_example :
    IsSentOnce (run_moves (return_edit ∷ accept_edit ∷ approve_again ∷ []) submitted_request)
run_moves-IsSentOnce_example =
    run_moves-IsSentOnce (return_edit ∷ accept_edit ∷ approve_again ∷ []) submitted_request refl

run_moves-final_example :
    run_moves (approve_again ∷ sweeps 2000000000 false ∷ []) approved_request ≡ approved_request
run_moves-final_example =
    run_moves-final (approve_again ∷ sweeps 2000000000 false ∷ []) approved_request refl

act-Transition_example :
    Stutters
      (is_own approver_6 submitted_request)
      (is_late 200 submitted_request)
      submitted_request
      (act (at_time 200) approver_6 (approve none []) submitted_request)
act-Transition_example = act-Transition (at_time 200) approver_6 (approve none []) submitted_request

approves_it :
    is_approved (act (at_time 200) approver_6 (approve none []) submitted_request).1.approval.state
    ≡ true
unfolding act
approves_it = refl

act-IsPublished_example : IsPublished published_2 1 2
act-IsPublished_example =
    act-IsPublished (at_time 200) approver_6 (approve none []) submitted_request refl approves_it
