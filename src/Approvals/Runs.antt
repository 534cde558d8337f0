-- ===== src/Approvals/Runs.antt =====
-- What holds over any run of actions and sweeps.
use skymail_backend.Prelude.{
  ◌&&◌, sym, subst, ◌≡◌, refl, ◌⊎◌, inl, inr, Bool, true, false, not, List, [], ◌∷◌, length, arith,
  leb, if◌then◌else◌,
}
use skymail_backend.Approvals.{
  ApprovalState, pending, returned, approved, rejected, declined, expired, Request, undecided,
  is_approved,
}
use skymail_backend.Approvals.Act.{expire_locked, expire_due}
use skymail_backend.Approvals.States.{
  Move, acts, sweeps, moved, run_moves, Transition, Changed, expiring, Sends, approving, returning,
  rejecting, accepting, declining, resubmitting, resubmitting_declined,
}
use skymail_backend.Approvals.Acted.{is_own, is_late, act-Transition, expire_locked-Changed}

-- A move leaves a request as it was or makes a transition of it.
abbrev Moves : Move → Request → Type 0
Moves m r = (moved m r ≡ r) ⊎ ((own : Bool) × (late : Bool) × Changed own late r (moved m r))

moved-Moves : (m : Move) (r : Request) → Moves m r
unfolding moved expire_due
moved-Moves (acts w caller action) r = elim (act-Transition w caller action r) [
  | inl e ↦ inl e
  | inr c ↦ inr (is_own caller r, is_late w.now r, c)
]
moved-Moves (sweeps now locked) r =
    due (undecided r.approval.state && leb r.approval.deadline_at now && not locked) refl
  where
    due :
        (b : Bool)
        → (undecided r.approval.state && leb r.approval.deadline_at now && not locked) ≡ b
        → ((if b then expire_locked now r else r) ≡ r)
          ⊎ ((own : Bool) × (late : Bool) × Changed own late r
                (if b then expire_locked now r else r))
    due false h = inl refl
    due true h = inr (false, true, expire_locked-Changed false now r (ground arith))

-- The states that no transition leaves.
abbrev pub is_final : ApprovalState → Bool
is_final approved = true
is_final expired = true
is_final _ = false

Transition-final :
    {own late : Bool} {s t : ApprovalState} → Transition own late s t → is_final s ≡ false
Transition-final approving = refl
Transition-final returning = refl
Transition-final rejecting = refl
Transition-final accepting = refl
Transition-final declining = refl
Transition-final (expiring {s = pending} u) = refl
Transition-final (expiring {s = returned} u) = refl
Transition-final (expiring {s = s} u) = ground arith
Transition-final resubmitting = refl
Transition-final resubmitting_declined = refl

final-moved : (m : Move) (r : Request) → is_final r.approval.state ≡ true → moved m r ≡ r
final-moved m r f = elim (moved-Moves m r) [
  | inl e ↦ e
  | inr (own, late, t) ↦ absurd (ground (arith, Transition-final t.0))
]

-- No run of actions and sweeps changes a request that is approved or expired. Account erasure, which
-- rewrites a decided request, is neither.
pub run_moves-final :
    (ms : List Move) (r : Request) → is_final r.approval.state ≡ true → run_moves ms r ≡ r
run_moves-final [] r f = refl
run_moves-final (m ∷ ms) r f = rw (final-moved m r f) (run_moves-final ms r f)

-- How often a request was sent: once when it is approved, never otherwise.
abbrev pub IsSentOnce : Request → Type 0
IsSentOnce r = length r.sends ≡ (if is_approved r.approval.state then 1 else 0)

unapproved : (s : ApprovalState) → is_final s ≡ false → is_approved s ≡ false
unapproved approved f = f
unapproved pending f = refl
unapproved returned f = refl
unapproved rejected f = refl
unapproved declined f = refl
unapproved expired f = refl

moved-IsSentOnce : (m : Move) (r : Request) → IsSentOnce r → IsSentOnce (moved m r)
moved-IsSentOnce m r h = elim (moved-Moves m r) [
  | inl e ↦ subst IsSentOnce (sym e) h
  | inr (own, late, c) ↦ changed c.0 c.2
]
  where
    changed :
        {own late : Bool}
        → Transition own late r.approval.state (moved m r).approval.state
        → Sends r (moved m r)
        → IsSentOnce (moved m r)
    changed t (inl (a, sends, e)) =
        rw (a, e, h, unapproved r.approval.state (Transition-final t)) refl
    changed t (inr (a, e)) = rw (a, e, h, unapproved r.approval.state (Transition-final t)) refl

-- Over any run of actions and sweeps, a request that was sent once if it was approved and never otherwise
-- stays so: its sends are queued once, and only by its approval.
pub run_moves-IsSentOnce :
    (ms : List Move) (r : Request) → IsSentOnce r → IsSentOnce (run_moves ms r)
run_moves-IsSentOnce [] r h = h
run_moves-IsSentOnce (m ∷ ms) r h = run_moves-IsSentOnce ms (moved m r) (moved-IsSentOnce m r h)
