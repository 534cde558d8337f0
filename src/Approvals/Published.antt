-- ===== src/Approvals/Published.antt =====
-- A request goes out as the template version that it is pinned to, and only while that is the published one.
use skymail_backend.Prelude.{
  ℕ, ◌≡◌, refl, sym, ◌⊎◌, inl, inr, Bool, true, false, not, ◌&&◌, Option, none, some, List, [], ◌∷◌,
  Text, ==_iff, arith, if◌then◌else◌,
}
use skymail_backend.Approvals.{
  Request, ApprovalCaller, ApprovalRefusal, ApprovalAction, approve, return_, reject, accept,
  decline, resubmit, Surroundings, TemplateState, EventKind, approves, accepted, Queued, fails,
  queues, undecided, is_approved, repeats, allows, template_unavailable, template_republished,
}
use skymail_backend.Approvals.Decisions.{
  Done, stops, goes, take_action, edit, send_decided, sent_with, approve_edited, return_edited,
  queue, queue_of, published_as, decide, set_mail_approval_state, resubmit_request,
}
use skymail_backend.Approvals.Act.{
  Answer, act, act_locked, read_again, answer_of, unless_refused, expire_locked,
}
use skymail_backend.Approvals.States.{WhenDone, Edited, edit-Edited}
use skymail_backend.Approvals.Acted.{is_late, either}

-- The template's published version is the given one, and it is not archived.
abbrev pub IsPublished : (ℕ → Option TemplateState) → ℕ → ℕ → Type 0
IsPublished templates template version =
    (t : TemplateState) × (templates template ≡ some t)
    × (t.archived ≡ false)
    × (t.published_version_id ≡ some version)

published_as_lem :
    (published : Option ℕ) (version : ℕ)
    → published_as published version ≡ true
    → published ≡ some version
published_as_lem none version h = absurd (ground arith)
published_as_lem (some p) version h = ground (arith, ==_iff p version)

sent_when :
    {P : Type 0} (w : Surroundings) (caller : ApprovalCaller) (kind : EventKind) (note : Text)
    (r : Request)
    → (q : Queued) → P
    → WhenDone (λ (_ : Request). P) (sent_with w caller kind note r q)
sent_when w caller kind note r (fails e) p = tt
sent_when w caller kind note r (queues first rest) p = p

sent_unless :
    (P : Type 0) (w : Surroundings) (caller : ApprovalCaller) (kind : EventKind) (note : Text)
    (r : Request)
    → (b : Bool) (e : ApprovalRefusal) (q : Queued)
    → (b ≡ false → WhenDone (λ (_ : Request). P) (sent_with w caller kind note r q))
    → WhenDone (λ (_ : Request). P) (sent_with w caller kind note r (if b then fails e else q))
sent_unless P w caller kind note r true e q f = tt
sent_unless P w caller kind note r false e q f = f refl

not-false : (b : Bool) → not b ≡ false → b ≡ true
not-false true h = refl
not-false false h = sym h

Pinned : Surroundings → Request → Type 0
Pinned w r = IsPublished w.templates r.approval.template_id r.approval.template_version_id

queue_of-Pinned :
    (w : Surroundings) (caller : ApprovalCaller) (kind : EventKind) (note : Text) (r : Request)
    → (found : Option TemplateState) → w.templates r.approval.template_id ≡ found
    → WhenDone
        (λ (_ : Request). Pinned w r)
        (sent_with w caller kind note r (queue_of found w r.approval))
unfolding Pinned
queue_of-Pinned w caller kind note r none h = tt
queue_of-Pinned w caller kind note r (some t) h =
    sent_unless (Pinned w r) w caller kind note r t.archived template_unavailable _ (λ a.
      sent_unless (Pinned w r) w caller kind note r
        (not (published_as t.published_version_id r.approval.template_version_id))
        template_republished _
        (λ p. sent_when w caller kind note r (w.queue_to r.approval) (
          t,
          h,
          a,
          published_as_lem t.published_version_id r.approval.template_version_id (not-false _ p),
        )))

-- An action's part that left the request approved had its template published.
ApprovedPinned : Surroundings → Request → Request → Type 0
ApprovedPinned w r r' = (is_approved r'.approval.state ≡ false) ⊎ Pinned w r

send_decided-Pinned :
    (w : Surroundings) (caller : ApprovalCaller) (kind : EventKind) (note : Text) (r : Request)
    → WhenDone (λ (_ : Request). Pinned w r) (send_decided w caller kind note r)
unfolding send_decided queue
send_decided-Pinned w caller kind note r =
    queue_of-Pinned w caller kind note r (w.templates r.approval.template_id) refl

into :
    (w : Surroundings) (r d : Request) (done : Done Request)
    → (d.approval.template_id ≡ r.approval.template_id)
    → (d.approval.template_version_id ≡ r.approval.template_version_id)
    → WhenDone (λ (_ : Request). Pinned w d) done
    → WhenDone (ApprovedPinned w r) done
unfolding ApprovedPinned Pinned
into w r d (stops e) t v h = tt
into w r d (goes r') t v h = inr (rw⁻¹ (t, v) h)

approve_edited-Pinned :
    (w : Surroundings) (caller : ApprovalCaller) (note : Text) (r : Request)
    → (e : Done (Request × List Text)) → WhenDone (Edited r) e
    → WhenDone (ApprovedPinned w r) (approve_edited w caller note e)
approve_edited-Pinned w caller note r (stops e) h = tt
approve_edited-Pinned w caller note r (goes d) (_, _, _, t, v) =
    into w r d.0 (send_decided w caller approves note d.0) t v
      (send_decided-Pinned w caller approves note d.0)

return_edited-Pinned :
    (w : Surroundings) (caller : ApprovalCaller) (note : Text) (r : Request)
    → (e : Done (Request × List Text))
    → WhenDone (ApprovedPinned w r) (return_edited w caller note e)
unfolding ApprovedPinned decide set_mail_approval_state
return_edited-Pinned w caller note r (stops e) = tt
return_edited-Pinned w caller note r (goes (d, [])) = tt
return_edited-Pinned w caller note r (goes (d, c ∷ cs)) = inl refl

take_action-Pinned :
    (w : Surroundings) (caller : ApprovalCaller) (action : ApprovalAction) (r : Request)
    → WhenDone (ApprovedPinned w r) (take_action w caller action r)
unfolding take_action ApprovedPinned decide set_mail_approval_state resubmit_request
take_action-Pinned w caller (approve v note) r =
    approve_edited-Pinned w caller note r (edit w caller v r) (edit-Edited w caller v r)
take_action-Pinned w caller (return_ v note) r =
    return_edited-Pinned w caller note r (edit w caller v r)
take_action-Pinned w caller (reject note) r = inl refl
take_action-Pinned w caller accept r =
    into w r r (send_decided w caller accepted [] r) refl refl
      (send_decided-Pinned w caller accepted [] r)
take_action-Pinned w caller (decline note) r = inl refl
take_action-Pinned w caller (resubmit s) r = inl refl

answer_of-Pinned :
    (w : Surroundings) (r : Request) (d : Done Request)
    → is_approved r.approval.state ≡ false
    → WhenDone (ApprovedPinned w r) d
    → ApprovedPinned w r (answer_of r d).1
unfolding ApprovedPinned
answer_of-Pinned w r (stops e) n h = inl n
answer_of-Pinned w r (goes r') n h = h

act-ApprovedPinned :
    (w : Surroundings) (caller : ApprovalCaller) (action : ApprovalAction) (r : Request)
    → is_approved r.approval.state ≡ false
    → ApprovedPinned w r (act w caller action r).1
unfolding act act_locked ApprovedPinned expire_locked set_mail_approval_state
act-ApprovedPinned w caller action r n = unrefused _
  where
    P : Answer → Type 0
    P a = (is_approved a.1.approval.state ≡ false) ⊎ Pinned w r

    locked : P (act_locked w caller action r)
    locked =
        either P w.source_moved _ _ (λ e. inl n)
          (λ m.
            either P (undecided r.approval.state && is_late w.now r) _ _ (λ h. inl refl)
              (λ i.
                either P (repeats action r.approval.state) _ _ (λ e. inl n)
                  (λ k.
                    either P (not (allows action r.approval.state)) _ _ (λ e. inl n)
                      (λ a.
                        answer_of-Pinned w r (take_action w caller action r) n
                          (take_action-Pinned w caller action r)))))

    unrefused :
        (e : Option ApprovalRefusal)
        → P (unless_refused e r (read_again w (act_locked w caller action r)))
    unrefused (some e) = inl n
    unrefused none = locked

-- A request that an action approves goes out as the version that it is pinned to: then its template is
-- not archived and that version is the published one.
pub act-IsPublished :
    (w : Surroundings) (caller : ApprovalCaller) (action : ApprovalAction) (r : Request)
    → is_approved r.approval.state ≡ false
    → is_approved (act w caller action r).1.approval.state ≡ true
    → IsPublished w.templates r.approval.template_id r.approval.template_version_id
unfolding Pinned ApprovedPinned
act-IsPublished w caller action r n y = elim (act-ApprovedPinned w caller action r n) [
  | inl f ↦ absurd (ground arith)
  | inr p ↦ p
]
