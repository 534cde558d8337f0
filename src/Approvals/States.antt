-- ===== src/Approvals/States.antt =====
-- What the actions on a request and the sweeps may do to it, and what holds over any run of them.
use skymail_backend.Prelude.{
  ◌&&◌, ◌∙◌, sym, subst, ap, trim_space, ℕ, ◌≡◌, refl, ◌⊎◌, inl, inr, Bool, true, false, not,
  Option, none, some, List, [], ◌∷◌, Text, arith,
}
use skymail_backend.Approvals.{
  ApprovalState, pending, returned, approved, rejected, declined, expired, Request, ApprovalCaller,
  ApprovalRefusal, ApprovalAction, approve, return_, reject, accept, decline, resubmit,
  Surroundings, undecided, is_approved, by_submitter, allows, EventKind, approves, accepted,
  rejects, declines, Queued, fails, queues, Variables,
}
use skymail_backend.Approvals.Changes.{variable_changes}
use skymail_backend.Approvals.Decisions.{
  Done, stops, goes, take_action, edit, edit_changes, edited_or, send_decided, sent_with,
  approve_edited, return_edited, decided_as, resubmit_request, decide, queue,
  set_mail_approval_state,
}
use skymail_backend.Approvals.Act.{act, expire_due}

-- One thing that happens to a request.
pub data Move : Type 0 where
  acts : Surroundings → ApprovalCaller → ApprovalAction → Move
  sweeps : (now : ℕ) (locked : Bool) → Move

unfoldable pub moved : Move → Request → Request
unfolding act expire_due
moved (acts w caller action) r = (act w caller action r).1
moved (sweeps now locked) r = expire_due now locked r

abbrev pub run_moves : List Move → Request → Request
run_moves [] r = r
run_moves (m ∷ ms) r = run_moves ms (moved m r)

-- How a request's state may change: `own` says whether its submitter acts, and `late` whether the
-- request's deadline has passed.
pub data Transition : Bool → Bool → ApprovalState → ApprovalState → Type 0 where
  approving : {own : Bool} → Transition own false pending approved
  returning : {own : Bool} → Transition own false pending returned
  rejecting : {own : Bool} → Transition own false pending rejected
  accepting : Transition true false returned approved
  declining : Transition true false returned declined
  expiring : {own : Bool} {s : ApprovalState} → undecided s ≡ true → Transition own true s expired
  resubmitting : {late : Bool} → Transition true late rejected pending
  resubmitting_declined : {late : Bool} → Transition true late declined pending

-- A request is sent when it becomes approved, and only then.
abbrev pub Sends : Request → Request → Type 0
Sends r r' =
    ((is_approved r'.approval.state ≡ true) × (sends : List ℕ) × (r'.sends ≡ sends ∷ r.sends))
    ⊎ ((is_approved r'.approval.state ≡ false) × (r'.sends ≡ r.sends))

abbrev pub Changed : Bool → Bool → Request → Request → Type 0
Changed own late r r' =
    Transition own late r.approval.state r'.approval.state
    × (r'.approval.submitter ≡ r.approval.submitter)
    × Sends r r'

-- The part of an action did not refuse, and what it gives has the property.
abbrev pub WhenDone : {A : Type 0} → (A → Type 0) → Done A → Type 0
WhenDone P (stops e) = Unit
WhenDone P (goes a) = P a

-- An edit changes neither the state nor the sends.
abbrev pub Edited : Request → Request × List Text → Type 0
Edited r done =
    (done.0.approval.state ≡ r.approval.state)
    × (done.0.approval.submitter ≡ r.approval.submitter)
    × (done.0.sends ≡ r.sends)
    × (done.0.approval.template_id ≡ r.approval.template_id)
    × (done.0.approval.template_version_id ≡ r.approval.template_version_id)

edited_or-Edited :
    (r : Request) (e : Option ApprovalRefusal) (done : Request × List Text)
    → Edited r done
    → WhenDone (Edited r) (edited_or e done)
edited_or-Edited r none done h = h
edited_or-Edited r (some e) done h = tt

edit_changes-Edited :
    (w : Surroundings) (caller : ApprovalCaller) (v : Variables) (cs : List Text) (r : Request)
    → WhenDone (Edited r) (edit_changes w caller v cs r)
edit_changes-Edited w caller v [] r = (refl, refl, refl, refl, refl)
edit_changes-Edited w caller v (c ∷ cs) r =
    edited_or-Edited r (w.checks r.approval v) _ (refl, refl, refl, refl, refl)

pub edit-Edited :
    (w : Surroundings) (caller : ApprovalCaller) (v : Option Variables) (r : Request)
    → WhenDone (Edited r) (edit w caller v r)
unfolding edit
edit-Edited w caller none r = (refl, refl, refl, refl, refl)
edit-Edited w caller (some v) r =
    edit_changes-Edited w caller v (variable_changes r.approval.body_variables v) r

-- A send leaves the request approved, with its sends.
abbrev Sent : Request → Request → Type 0
Sent r r' =
    (r'.approval.state ≡ approved)
    × (r'.approval.submitter ≡ r.approval.submitter)
    × (sends : List ℕ) × (r'.sends ≡ sends ∷ r.sends)

sent_with-Sent :
    (w : Surroundings) (caller : ApprovalCaller) (kind : EventKind) (note : Text) (r : Request)
    → (q : Queued) → WhenDone (Sent r) (sent_with w caller kind note r q)
unfolding decide set_mail_approval_state
sent_with-Sent w caller kind note r (fails e) = tt
sent_with-Sent w caller kind note r (queues first rest) = (refl, refl, first ∷ rest, refl)

weakened :
    {A : Type 0} {P Q : A → Type 0} (d : Done A)
    → ((a : A) → P a → Q a)
    → WhenDone P d
    → WhenDone Q d
weakened (stops e) f h = tt
weakened (goes a) f h = f a h

approve_edited-Sent :
    (w : Surroundings) (caller : ApprovalCaller) (note : Text) (r : Request)
    → (e : Done (Request × List Text)) → WhenDone (Edited r) e
    → WhenDone (Sent r) (approve_edited w caller note e)
unfolding send_decided
approve_edited-Sent w caller note r (stops e) h = tt
approve_edited-Sent w caller note r (goes d) h =
    weakened (send_decided w caller approves note d.0) join
      (sent_with-Sent w caller approves note d.0 (queue w d.0.approval))
  where
    join : (r' : Request) → Sent d.0 r' → Sent r r'
    join r' (s, own, sends, e) = (s, own ∙ h.1, sends, e ∙ ap (λ x. sends ∷ x) h.2)

-- The request after a decision that sends nothing.
abbrev Decided : ApprovalState → Request → Request → Type 0
Decided state r r' =
    (r'.approval.state ≡ state)
    × (r'.approval.submitter ≡ r.approval.submitter)
    × (r'.sends ≡ r.sends)

return_edited-Decided :
    (w : Surroundings) (caller : ApprovalCaller) (note : Text) (r : Request)
    → (e : Done (Request × List Text)) → WhenDone (Edited r) e
    → WhenDone (Decided returned r) (return_edited w caller note e)
unfolding decide set_mail_approval_state
return_edited-Decided w caller note r (stops e) h = tt
return_edited-Decided w caller note r (goes (d, [])) h = tt
return_edited-Decided w caller note r (goes (d, c ∷ cs)) h = (refl, h.1, h.2)

Decided-Changed :
    {own late : Bool} (state : ApprovalState) (r r' : Request)
    → Transition own late r.approval.state state
    → is_approved state ≡ false
    → Decided state r r'
    → Changed own late r r'
Decided-Changed {own = own} {late = late} state r r' t n (s, by, e) = (
  subst (λ x. Transition own late r.approval.state x) (sym s) t,
  by,
  inr (ap is_approved s ∙ n, e),
)

Sent-Changed :
    {own late : Bool} (r r' : Request)
    → Transition own late r.approval.state approved
    → Sent r r'
    → Changed own late r r'
Sent-Changed {own = own} {late = late} r r' t (s, by, sends, e) = (
  subst (λ x. Transition own late r.approval.state x) (sym s) t,
  by,
  inl (ap is_approved s, sends, e),
)

-- The transition of an action: from a state it applies to, in time, and its submitter's own where only
-- the submitter may.
abbrev pub InTime : ApprovalState → Bool → Type 0
InTime from late = (undecided from && late) ≡ false

pub to_of : ApprovalAction → ApprovalState
to_of (approve v n) = approved
to_of (return_ v n) = returned
to_of (reject n) = rejected
to_of accept = approved
to_of (decline n) = declined
to_of (resubmit s) = pending

pub allows-Transition :
    (action : ApprovalAction) (own late : Bool) (from : ApprovalState)
    → allows action from ≡ true
    → (by_submitter action && not own) ≡ false
    → InTime from late
    → Transition own late from (to_of action)
unfolding to_of
allows-Transition (approve v n) own false pending a b i = approving
allows-Transition (return_ v n) own false pending a b i = returning
allows-Transition (reject n) own false pending a b i = rejecting
allows-Transition accept true false returned a b i = accepting
allows-Transition (decline n) true false returned a b i = declining
allows-Transition (resubmit s) true late rejected a b i = resubmitting
allows-Transition (resubmit s) true late declined a b i = resubmitting_declined
allows-Transition action own late from a b i = absurd (ground arith)

pub take_action-Changed :
    (w : Surroundings) (caller : ApprovalCaller) (action : ApprovalAction) (r : Request)
    (own late : Bool)
    → Transition own late r.approval.state (to_of action)
    → WhenDone (Changed own late r) (take_action w caller action r)
unfolding take_action to_of decide set_mail_approval_state resubmit_request send_decided
take_action-Changed w caller (approve v note) r own late t =
    weakened (approve_edited w caller note (edit w caller v r)) (λ r' h. Sent-Changed r r' t h)
      (approve_edited-Sent w caller note r (edit w caller v r) (edit-Edited w caller v r))
take_action-Changed w caller (return_ v note) r own late t =
    weakened (return_edited w caller note (edit w caller v r))
      (λ r' h. Decided-Changed returned r r' t refl h)
      (return_edited-Decided w caller note r (edit w caller v r) (edit-Edited w caller v r))
take_action-Changed w caller (reject note) r own late t =
    Decided-Changed rejected r (decided_as w caller rejected rejects (trim_space note) r) t refl
      (refl, refl, refl)
take_action-Changed w caller accept r own late t =
    weakened (send_decided w caller accepted [] r) (λ r' h. Sent-Changed r r' t h)
      (sent_with-Sent w caller accepted [] r (queue w r.approval))
take_action-Changed w caller (decline note) r own late t =
    Decided-Changed declined r (decided_as w caller declined declines note r) t refl
      (refl, refl, refl)
take_action-Changed w caller (resubmit s) r own late t =
    Decided-Changed pending r (resubmit_request w.now caller s r) t refl (refl, refl, refl)
