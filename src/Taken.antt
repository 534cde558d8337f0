-- ===== src/Taken.antt =====
-- The statements that claimBulk's checks run on rows that a process just took, in the transaction of the
-- take: writeHeld of internal/mailer/consent_gate.go and writePreferenceHeld of
-- internal/mailer/preference_gate.go.
use skymail_backend.Prelude.{
  ℕ, ◌+◌, Bool, true, false, ◌||◌, List, [], ◌∷◌, ◌++◌, Text, map, mem, text_eq, if◌then◌else◌,
}
use skymail_backend.Queue.{Row, Task, Statement, act, processing}
use skymail_backend.Store.{Store}
use skymail_backend.Guard.{on_queue}
pub mod Steps
pub mod Passes

-- Statements one after the other, at the instant of the transaction.
abbrev pub run_all : ℕ → List Statement → Store → Store
run_all now [] st = st
run_all now (s ∷ ss) st = run_all now ss (on_queue false now s st).0

-- A row that a check holds back, and why.
pub record HeldRow : Type 0 where
  pub id : ℕ
  pub reason : Text

abbrev pub held_ids : List HeldRow → List ℕ
held_ids = map λ h. h.id

-- A reason, and the rows that are held for it.
pub record Reasoned : Type 0 where
  pub reason : Text
  pub ids : List ℕ

-- The map from a reason to its rows; the code visits its keys in any order.
unfoldable pub add_reason : Text → ℕ → List Reasoned → List Reasoned
add_reason reason id [] = record { reason = reason; ids = id ∷ [] } ∷ []
add_reason reason id (g ∷ gs) =
    let rest = add_reason reason id gs in
    if text_eq g.reason reason then record g { ids = id ∷ g.ids } ∷ gs else g ∷ rest

unfoldable pub by_reason : List HeldRow → List Reasoned
unfolding add_reason
by_reason [] = []
by_reason (h ∷ hs) = add_reason h.reason h.id (by_reason hs)

-- writeHeld and writePreferenceHeld of process `me`: its statements.
unfoldable pub write_held : ℕ → List HeldRow → List Statement
unfolding by_reason
write_held me hs = map (λ g. Statement.skip_claimed g.ids me g.reason) (by_reason hs)

-- What a check of a take leaves: the tables, the rows to go on with, and its cache.
pub record Gated {ℓ} (C : Type ℓ) : Type ℓ where
  pub store : Store
  pub kept : List Row
  pub cache : C
