-- ===== src/Approvals/Acted.antt =====
-- What one action does to a request.
use skymail_backend.Prelude.{
  ◌&&◌, sym, subst, ℕ, ◌≡◌, refl, ◌⊎◌, inl, inr, Bool, true, false, not, Option, none, some, arith,
  leb, ◌==◌, if◌then◌else◌,
}
use skymail_backend.Approvals.{
  ApprovalState, Request, ApprovalCaller, ApprovalRefusal, ApprovalAction, Surroundings, undecided,
  past_deadline, by_submitter, allows, repeats, authorize_approval,
}
use skymail_backend.Approvals.Decisions.{Done, stops, goes, take_action, set_mail_approval_state}
use skymail_backend.Approvals.Act.{
  Answer, act, act_locked, read_again, expire_locked, answer_of, unless_refused, first_of,
  blank_reason_of,
}
use skymail_backend.Approvals.States.{
  Changed, WhenDone, allows-Transition, take_action-Changed, expiring,
}

abbrev pub is_own : ApprovalCaller → Request → Bool
is_own caller r = r.approval.submitter == caller.sub

abbrev pub is_late : ℕ → Request → Bool
is_late now r = leb r.approval.deadline_at now

pub expire_locked-Changed :
    (own : Bool) (now : ℕ) (r : Request)
    → undecided r.approval.state ≡ true
    → Changed own true r (expire_locked now r)
unfolding expire_locked set_mail_approval_state
expire_locked-Changed own now r u = (expiring u, refl, inr (refl, refl))

-- What an answer does to the request: nothing, or one transition.
abbrev pub Stutters : Bool → Bool → Request → Answer → Type 0
Stutters own late r a = (a.1 ≡ r) ⊎ Changed own late r a.1

answer_of-Stutters :
    (own late : Bool) (r : Request) (d : Done Request)
    → WhenDone (Changed own late r) d
    → Stutters own late r (answer_of r d)
answer_of-Stutters own late r (stops e) h = inl refl
answer_of-Stutters own late r (goes r') h = inr h

unless_refused-Stutters :
    (own late : Bool) (r : Request) (e : Option ApprovalRefusal) (a : Answer)
    → (e ≡ none → Stutters own late r a)
    → Stutters own late r (unless_refused e r a)
unless_refused-Stutters own late r (some e) a h = inl refl
unless_refused-Stutters own late r none a h = h refl

pub either :
    (P : Answer → Type 0) (b : Bool) (x y : Answer)
    → (b ≡ true → P x)
    → (b ≡ false → P y)
    → P (if b then x else y)
either P true x y f g = f refl
either P false x y f g = g refl

late_of : (a b : Bool) → (a && b) ≡ true → (a ≡ true) × (true ≡ b)
late_of a b h = ground arith

expired-Stutters :
    (own : Bool) (now : ℕ) (e : Option ApprovalRefusal) (r : Request)
    → (undecided r.approval.state && is_late now r) ≡ true
    → Stutters own (is_late now r) r (e, expire_locked now r)
expired-Stutters own now e r h =
    let both = late_of (undecided r.approval.state) (is_late now r) h in
    inr (
      subst (λ late. Changed own late r (expire_locked now r)) both.1
        (expire_locked-Changed own now r both.0))

act_locked-Stutters :
    (w : Surroundings) (caller : ApprovalCaller) (action : ApprovalAction) (r : Request)
    → (by_submitter action && not (is_own caller r)) ≡ false
    → Stutters (is_own caller r) (is_late w.now r) r (act_locked w caller action r)
unfolding act_locked
act_locked-Stutters w caller action r by =
    either P w.source_moved _ _ (λ e. inl refl)
      (λ m.
        either P (undecided state && late) _ _ (expired-Stutters own w.now (some past_deadline) r)
          (λ i.
            either P (repeats action state) _ _ (λ e. inl refl)
              (λ n.
                either P (not (allows action state)) _ _ (λ e. inl refl)
                  (λ a. answer_of-Stutters own late r (take_action w caller action r) (
                    take_action-Changed w caller action r own late (
                      allows-Transition action own late state (allowed (allows action state) a) by
                        i))))))
  where
    P : Answer → Type 0
    P = Stutters (is_own caller r) (is_late w.now r) r

    own : Bool
    own = is_own caller r

    late : Bool
    late = is_late w.now r

    state : ApprovalState
    state = r.approval.state

    allowed : (b : Bool) → not b ≡ false → b ≡ true
    allowed true h = refl
    allowed false h = sym h

authorized :
    (caller : ApprovalCaller) (submitter : ℕ) (action : ApprovalAction)
    → authorize_approval caller submitter action ≡ none
    → (by_submitter action && not (submitter == caller.sub)) ≡ false
unfolding authorize_approval
authorized caller submitter action h = ground arith

-- An action leaves a request as it was or makes a transition that its caller may make then: a submitter's
-- own where only the submitter may, of an undecided request only before its deadline, and of one that is
-- past it only to expired. It queues sends exactly when the request becomes approved, once.
pub act-Transition :
    (w : Surroundings) (caller : ApprovalCaller) (action : ApprovalAction) (r : Request)
    → Stutters (is_own caller r) (is_late w.now r) r (act w caller action r)
unfolding act
act-Transition w caller action r =
    unless_refused-Stutters _ _ r _ (read_again w (act_locked w caller action r)) (λ h.
      act_locked-Stutters w caller action r (
        authorized caller r.approval.submitter action
          (passed_second (blank_reason_of action) _ _ h)))
  where
    passed_second : (a b c : Option ApprovalRefusal) → first_of a (first_of b c) ≡ none → b ≡ none
    passed_second none none c h = refl
    passed_second none (some e) c h = h
    passed_second (some e) b c h = absurd (ground arith)
