-- ===== src/Control/Access.antt =====
-- Who may control a send.
use skymail_backend.Prelude.{ℕ, ◌≡◌, refl, ◌⊎◌, true, Option, none, some, arith, ==_iff}
use skymail_backend.Queue.{find_task, Task}
use skymail_backend.Store.{Store}
use skymail_backend.Control.{Caller, TaskControl, accepted, bulk, control_task}

-- The caller may control any send, or sent this one.
abbrev pub MayControl : Caller → Task → Type 0
MayControl caller t = (caller.sends_announcements ≡ true) ⊎ (caller.sub ≡ some t.sent_by)

-- A control that is accepted is of a send that exists, that has a row in the bulk lane, and that the
-- caller sent or may control as one who sends announcements; and the caller has a subject.
pub control_task-allowed :
    (now id : ℕ) (caller : Caller) (control : TaskControl) (st after : Store)
    → control_task now caller id control st ≡ accepted after
    → (by : ℕ) × (t : Task) × (caller.sub ≡ some by)
      × (find_task id st.tasks ≡ some t)
      × MayControl caller t
      × (bulk id st.rows ≡ true)
unfolding control_task
control_task-allowed now id caller control st after h =
    allowed caller.sub (find_task id st.tasks) refl refl h
  where
    allowed :
        (sub : Option ℕ) (found : Option Task)
        → caller.sub ≡ sub
        → find_task id st.tasks ≡ found
        → control_task now caller id control st ≡ accepted after
        → (by : ℕ) × (t : Task) × (caller.sub ≡ some by)
          × (find_task id st.tasks ≡ some t)
          × MayControl caller t
          × (bulk id st.rows ≡ true)
    allowed none found s f k = absurd (ground arith)
    allowed (some by) none s f k = absurd (ground arith)
    allowed (some by) (some t) s f k =
        (by, t, s, f, ground (arith, ==_iff t.sent_by by), ground arith)
