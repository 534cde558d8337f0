-- ===== src/Control/Holding.antt =====
-- What the controls do to the rows of a send.
use skymail_backend.Prelude.{
  ℕ, ◌<◌, ◌≡◌, refl, inl, inr, Bool, true, false, ◌&&◌, some, List, [], ◌∷◌, map, All, arith, not,
  select, ◌==◌, ==_iff, if◌then◌else◌, Bool-cases,
}
use skymail_backend.Queue.{
  Row, Task, is_pending, is_free, is_paused, is_cancelled, exists_task, parked_at, due, act,
  applies, assign, Statement,
}
use skymail_backend.Store.{Store}
use skymail_backend.Guard.{update_task}
use skymail_backend.Control.{
  pause_mail_task, resume_mail_task, cancel_mail_task, cancel_pending, pause_of, resume_of,
  cancel_of,
}

-- A row of the send that waits.
abbrev pub waits : ℕ → Row → Bool
waits id r = r.task_id == id && is_pending r.status

-- A row that a take of a lane at an instant may take for the send.
abbrev pub due_of : ℕ → Bool → ℕ → Row → Bool
due_of id system now r = r.task_id == id && due system now r

map-All :
    (P : Row → Type 0) (f : Row → Row) (rows : List Row)
    → ((r : Row) → P (f r))
    → All P (map f rows)
map-All P f [] g = tt
map-All P f (r ∷ rs) g = (g r, map-All P f rs g)

pause-not_due :
    (t id now : ℕ) (ts : List Task) (system : Bool) (r : Row)
    → exists_task (is_free id) ts ≡ true
    → now < parked_at
    → due_of id system now (act t ts (Statement.pause id) r) ≡ false
unfolding act applies assign
pause-not_due t id now ts system r free early = ground arith

-- Right after a send that was neither paused nor cancelled is paused, none of its rows is due in either
-- lane, at any instant before 2999.
pub pause_mail_task-not_due :
    (t by id now : ℕ) (system : Bool) (st : Store)
    → exists_task (is_free id) st.tasks ≡ true
    → now < parked_at
    → All (λ r. due_of id system now r ≡ false) (pause_mail_task t by id st).rows
unfolding pause_mail_task
pause_mail_task-not_due t by id now system st free early =
    map-All (λ r. due_of id system now r ≡ false) (act t st.tasks (Statement.pause id)) st.rows
      (λ r. pause-not_due t id now st.tasks system r free early)

pause_of-paused :
    (now by id : ℕ) (ts : List Task)
    → exists_task (is_free id) ts ≡ true
    → exists_task (is_paused id) (update_task id (pause_of now by) ts) ≡ true
pause_of-paused now by id [] h = cc
pause_of-paused now by id (t ∷ ts) h = elim (Bool-cases (is_free id t)) [
  | inl f ↦
      let one : is_paused id (if t.id == id then pause_of now by t else t) ≡ true = ground arith in
      ground arith
  | inr n ↦ ground (arith, pause_of-paused now by id ts (rw n at h))
]

resume_of-free :
    (id : ℕ) (ts : List Task)
    → exists_task (is_paused id) ts ≡ true
    → exists_task (is_free id) (update_task id resume_of ts) ≡ true
resume_of-free id [] h = cc
resume_of-free id (t ∷ ts) h = elim (Bool-cases (is_paused id t)) [
  | inl f ↦
      let one : is_free id (if t.id == id then resume_of t else t) ≡ true = ground arith in
      ground arith
  | inr n ↦ ground (arith, resume_of-free id ts (rw n at h))
]

-- A row of the send that waits is due at the instant; any other row is as it was.
abbrev pub due_again : ℕ → ℕ → Row → Row
due_again id now r =
    if r.task_id == id && is_pending r.status then record r { next_attempt_at = now } else r

unpark-pause :
    (t u id : ℕ) (ts us : List Task) (r : Row)
    → exists_task (is_free id) ts ≡ true
    → exists_task (is_paused id) us ≡ true
    → act u us (Statement.unpark id) (act t ts (Statement.pause id) r) ≡ due_again id u r
unfolding act applies assign
unpark-pause t u id ts us r free paused = ground arith

map-map-same :
    (f g h : Row → Row) (rows : List Row)
    → ((r : Row) → f (g r) ≡ h r)
    → map f (map g rows) ≡ map h rows
map-map-same f g h [] e = refl
map-map-same f g h (r ∷ rs) e = cc (e r, map-map-same f g h rs e)

-- Pausing a send and resuming it makes each of its waiting rows due at the instant of the resume, those
-- that were to wait for a retry too, leaves every other row as it was, and leaves the send neither
-- paused nor cancelled.
pub resume_mail_task-pause :
    (t u by id : ℕ) (st : Store)
    → exists_task (is_free id) st.tasks ≡ true
    → let after = resume_mail_task u id (pause_mail_task t by id st) in
      (after.rows ≡ map (due_again id u) st.rows) × (exists_task (is_free id) after.tasks ≡ true)
unfolding pause_mail_task resume_mail_task
resume_mail_task-pause t u by id st free =
    let us = update_task id (pause_of t by) st.tasks in
    let paused = pause_of-paused t by id st.tasks free in
    (
      map-map-same (act u us (Statement.unpark id)) (act t st.tasks (Statement.pause id))
          (due_again id u) st.rows (λ r. unpark-pause t u id st.tasks us r free paused),
      resume_of-free id us paused,
    )

cancel_of-cancelled :
    (now by id : ℕ) (ts : List Task)
    → exists_task (λ t. t.id == id) ts ≡ true
    → exists_task (is_cancelled id) (update_task id (cancel_of now by) ts) ≡ true
cancel_of-cancelled now by id [] h = cc
cancel_of-cancelled now by id (t ∷ ts) h = elim (Bool-cases (t.id == id)) [
  | inl f ↦
      let one : is_cancelled id (if t.id == id then cancel_of now by t else t) ≡ true =
        ground arith in
      ground arith
  | inr n ↦ ground (arith, cancel_of-cancelled now by id ts (rw n at h))
]

cancel_pending-none :
    (now id : ℕ) (ts : List Task) (r : Row)
    → exists_task (is_cancelled id) ts ≡ true
    → waits id (act now ts (Statement.cancel_pending (some id)) r) ≡ false
unfolding act applies assign
cancel_pending-none now id ts r h = elim (Bool-cases (r.task_id == id)) [
  | inl e ↦ let same = (==_iff r.task_id id).0 e in rw (same, h) (ground arith)
  | inr n ↦ ground arith
]

abbrev pub of_other : ℕ → Row → Bool
of_other id r = not (r.task_id == id)

cancel_pending-other :
    (now id : ℕ) (ts : List Task) (rows : List Row)
    → select (of_other id) (map (act now ts (Statement.cancel_pending (some id))) rows)
      ≡ select (of_other id) rows
unfolding act applies assign
cancel_pending-other now id ts [] = refl
cancel_pending-other now id ts (r ∷ rs) = ground (arith, cancel_pending-other now id ts rs)

-- Cancelling a send leaves none of its rows waiting, and every other send's rows as they were.
pub cancel_mail_task-none :
    (now by id : ℕ) (st : Store)
    → exists_task (λ t. t.id == id) st.tasks ≡ true
    → let after = cancel_pending now (some id) (cancel_mail_task now by id st) in
      All (λ r. waits id r ≡ false) after.rows
      × (select (of_other id) after.rows ≡ select (of_other id) st.rows)
unfolding cancel_mail_task cancel_pending
cancel_mail_task-none now by id st h =
    let ts = update_task id (cancel_of now by) st.tasks in
    (
      map-All (λ r. waits id r ≡ false) (act now ts (Statement.cancel_pending (some id))) st.rows
          (λ r. cancel_pending-none now id ts r (cancel_of-cancelled now by id st.tasks h)),
      cancel_pending-other now id ts st.rows,
    )
