-- ===== src/Tests/Controls.antt =====
-- The controls of a send, on concrete rows.
use skymail_backend.Prelude.{ℕ, ◌≡◌, refl, true, false, some, [], ◌∷◌, map, All, select, arith}
use skymail_backend.Queue.{find_task, Task, exists_task, is_free}
use skymail_backend.Store.{Store}
use skymail_backend.Control.{
  Caller, pause_task, accepted, control_task, controlled, pause_mail_task, resume_mail_task,
  cancel_mail_task, cancel_pending, bulk,
}
use skymail_backend.Control.Access.{MayControl, control_task-allowed}
use skymail_backend.Control.Holding.{
  due_of, due_again, waits, of_other, pause_mail_task-not_due, resume_mail_task-pause,
  cancel_mail_task-none,
}
use skymail_backend.Tests.{waiting, taken_row, sent_row, store_of, send_9}

-- Send 9, with a row being sent, one that waits and one that was sent.
abbrev going : Store
going = record (store_of (taken_row ∷ waiting 2 20 ∷ sent_row ∷ [])) { tasks = send_9 ∷ [] }

-- The one who sent it.
abbrev sender : Caller
sender = record { sub = some 4; sends_announcements = false }

sender_pauses :
    control_task 5000 sender 9 pause_task going ≡ accepted (pause_mail_task 5000 4 9 going)
unfolding control_task controlled
sender_pauses = refl

control_task-allowed_example :
    (by : ℕ) × (t : Task) × (sender.sub ≡ some by)
    × (find_task 9 going.tasks ≡ some t)
    × MayControl sender t
    × (bulk 9 going.rows ≡ true)
control_task-allowed_example =
    control_task-allowed 5000 9 sender pause_task going (pause_mail_task 5000 4 9 going)
      sender_pauses

pause_mail_task-not_due_example :
    All (λ r. due_of 9 false 6000 r ≡ false) (pause_mail_task 5000 4 9 going).rows
pause_mail_task-not_due_example =
    pause_mail_task-not_due 5000 4 9 6000 false going refl (omega arith)

resume_mail_task-pause_example :
    let after = resume_mail_task 8000 9 (pause_mail_task 5000 4 9 going) in
    (after.rows ≡ map (due_again 9 8000) going.rows) × (exists_task (is_free 9) after.tasks ≡ true)
resume_mail_task-pause_example = resume_mail_task-pause 5000 8000 4 9 going refl

cancel_mail_task-none_example :
    let after = cancel_pending 5000 (some 9) (cancel_mail_task 5000 4 9 going) in
    All (λ r. waits 9 r ≡ false) after.rows
    × (select (of_other 9) after.rows ≡ select (of_other 9) going.rows)
cancel_mail_task-none_example = cancel_mail_task-none 5000 4 9 going refl
