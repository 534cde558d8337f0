-- ===== src/Outcome/Attempts.antt =====
-- What recording an outcome does to the queue's rows.
use skymail_backend.Prelude.{
  ℕ, ◌+◌, ◌/◌, ◌≤◌, ◌<◌, ◌≡◌, sym, ◌⊎◌, inl, inr, Bool, true, false, ◌&&◌, ◌||◌, not, List, [], ◌∷◌,
  Text, map, All, All-map, arith, leb, ltb, ◌==◌, Bool-cases, subst,
}
use skymail_backend.Env.{BulkGuard, second}
use skymail_backend.Lanes.{priority_bulk}
use skymail_backend.Store.{
  Store, hold_until, suppress_queue_row_address, insert_smtp_refusal_bounce,
}
use skymail_backend.Queue.{
  Row, Task, Statement, pending, processing, act, applies, assign, claimed, execute, affected,
}
use skymail_backend.Guard.{
  SendError, defer_throttled, count_send_failure, at_least_retry_after, on_queue, claimed_at,
  hold_bulk_lane, max_row_throttles, update_task, throttled, count_failure, sent_of, any_pauses,
}
use skymail_backend.Outcome.{
  max_send_attempts, giving_up, record_failure, suppress_refused, after_failed,
}

All-map₂ :
    (P Q : Row → Type 0) (f : Row → Row) (xs : List Row)
    → ((r : Row) → P r → Q (f r))
    → All P xs
    → All Q (map f xs)
All-map₂ P Q f [] g a = tt
All-map₂ P Q f (x ∷ xs) g a = (g x a.0, All-map₂ P Q f xs g a.1)

pub All-weaken :
    (P Q : Row → Type 0) (xs : List Row) → ((r : Row) → P r → Q r) → All P xs → All Q xs
All-weaken P Q [] g a = tt
All-weaken P Q (x ∷ xs) g a = (g x a.0, All-weaken P Q xs g a.1)

-- The counters of a row that may still be tried are below their limits.
abbrev pub IsBounded : Row → Type 0
IsBounded r =
    (r.attempts ≤ max_send_attempts)
    × (r.throttles ≤ max_row_throttles)
    × ((r.status ≡ pending) ⊎ (r.status ≡ processing) → r.attempts < max_send_attempts)

-- A row that is still claimed as `job` was has the counters of `job`.
abbrev pub IsCurrent : ℕ → Row → Row → Type 0
IsCurrent me job r =
    claimed job.id me (claimed_at job) r ≡ true
    → (r.attempts ≡ job.attempts) × (r.throttles ≡ job.throttles)

abbrev pub Both : ℕ → Row → Row → Type 0
Both me job r = IsBounded r × IsCurrent me job r

pub on_queue-All :
    (P Q : Row → Type 0) (lost : Bool) (now : ℕ) (s : Statement) (st : Store)
    → ((r : Row) → P r → Q r)
    → ((r : Row) → P r → Q (act now st.tasks s r))
    → All P st.rows
    → All Q (on_queue lost now s st).0.rows
unfolding execute
on_queue-All P Q true now s st g h a = All-weaken P Q st.rows g a
on_queue-All P Q false now s st g h a = All-map₂ P Q (act now st.tasks s) st.rows h a

set_failed-IsBounded :
    (now : ℕ) (ts : List Task) (id me at : ℕ) (error : Text) (r : Row)
    → IsBounded r
    → IsBounded (act now ts (Statement.set_failed id me at error) r)
unfolding act applies assign
set_failed-IsBounded now ts id me at error r b = ground arith

pub set_sent-IsBounded :
    (now : ℕ) (ts : List Task) (id me at : ℕ) (r : Row)
    → IsBounded r
    → IsBounded (act now ts (Statement.set_sent id me at) r)
unfolding act applies assign
set_sent-IsBounded now ts id me at r b = ground arith

park_pending-IsBounded :
    (now : ℕ) (ts : List Task) (task : ℕ) (r : Row)
    → IsBounded r
    → IsBounded (act now ts (Statement.park_pending task) r)
unfolding act applies assign
park_pending-IsBounded now ts task r b = ground arith

reschedule-IsBounded :
    (now : ℕ) (ts : List Task) (me : ℕ) (job : Row) (error : Text) (delay : ℕ) (r : Row)
    → job.attempts + 1 < max_send_attempts
    → Both me job r
    → IsBounded (act now ts (Statement.reschedule job.id me (claimed_at job) error delay) r)
unfolding act applies assign
reschedule-IsBounded now ts me job error delay r few b = ground arith

pub defer_throttled-IsBounded :
    (now : ℕ) (ts : List Task) (me : ℕ) (job : Row) (error : Text) (delay : ℕ) (r : Row)
    → job.throttles < max_row_throttles
    → Both me job r
    → IsBounded (act now ts (Statement.defer_throttled job.id me (claimed_at job) error delay) r)
unfolding act applies assign
defer_throttled-IsBounded now ts me job error delay r few b = ground arith

pub hold_bulk_lane-rows :
    (lost : Bool) (now delay : ℕ) (reason : Text) (st : Store)
    → ((hold_bulk_lane lost now delay reason st).rows ≡ st.rows)
      × ((hold_bulk_lane lost now delay reason st).tasks ≡ st.tasks)
unfolding hold_bulk_lane hold_until
hold_bulk_lane-rows lost now delay reason st = (ground arith, ground arith)

-- A throttling reply leaves the queue to the usual retry, or puts the row back.
pub defer_throttled-cases :
    (guard : BulkGuard) (me : ℕ) (lost : ℕ → Bool) (now : ℕ) (job : Row) (e : SendError)
    (st : Store)
    → let delay = at_least_retry_after guard.throttle_pause e in
      let (st', handled) = defer_throttled guard me lost now job e st in
      ((handled ≡ false) × (st'.rows ≡ st.rows))
      ⊎ ((handled ≡ true)
          × (job.throttles < max_row_throttles)
          × (st'
              ≡ (on_queue
                  (lost 1)
                  now
                  (Statement.defer_throttled job.id me (claimed_at job) e.text (delay / second))
                  (hold_bulk_lane (lost 0) now delay e.text st)).0))
unfolding defer_throttled
defer_throttled-cases guard me lost now job e st =
    let delay = at_least_retry_after guard.throttle_pause e in
    elim (Bool-cases (guard.throttle_pause == 0 || not (throttled e))) [
      | inl e₀ ↦ inl (rw e₀, rw e₀)
      | inr n₀ ↦
          elim (Bool-cases
            (leb job.priority priority_bulk && leb max_row_throttles job.throttles)) [
              | inl e₁ ↦ inl (rw (n₀, e₁), rw (n₀, e₁))
              | inr n₁ ↦ elim (Bool-cases (leb job.priority priority_bulk)) [
                | inl b ↦ inr (ground arith, ground arith, ground arith)
                | inr l ↦ inl (
                  ground arith,
                  ground (arith, (hold_bulk_lane-rows (lost 0) now delay e.text st).0),
                )
              ]
            ]
    ]

-- Counting a failure changes the queue's rows only by parking its send's pending rows.
count_send_failure-rows :
    (guard : BulkGuard) (lost : ℕ → Bool) (now : ℕ) (job : Row) (st : Store)
    → let answered = affected (sent_of job.task_id) st.rows in
      let ts =
        update_task job.task_id
          (count_failure now guard.failure_count guard.failure_percent answered)
          st.tasks in
      let after = (count_send_failure guard lost now job st).rows in
      (after ≡ st.rows) ⊎ (after ≡ map (act now ts (Statement.park_pending job.task_id)) st.rows)
unfolding count_send_failure execute
count_send_failure-rows guard lost now job st =
    elim (Bool-cases (ltb priority_bulk job.priority || lost 4)) [
      | inl e ↦ inl (rw e)
      | inr n ↦
          elim (Bool-cases (
            any_pauses job.task_id guard.failure_count guard.failure_percent
              (affected (sent_of job.task_id) st.rows) st.tasks)) [
                | inr p ↦ inl (rw (n, p))
                | inl p ↦ elim (Bool-cases (lost 5)) [
                  | inl l ↦ inl (rw (n, p, l))
                  | inr k ↦ inr (rw (n, p, k))
                ]
              ]
    ]

count_send_failure-All :
    (P : Row → Type 0) (guard : BulkGuard) (lost : ℕ → Bool) (now : ℕ) (job : Row) (st : Store)
    → ((ts : List Task) (r : Row) → P r → P (act now ts (Statement.park_pending job.task_id) r))
    → All P st.rows
    → All P (count_send_failure guard lost now job st).rows
count_send_failure-All P guard lost now job st keep a =
    elim (count_send_failure-rows guard lost now job st) [
      | inl e ↦ subst (All P) (sym e) a
      | inr e ↦ subst (All P) (sym e) (All-map P _ (keep _) st.rows a)
    ]

suppress_refused-rows :
    (lost : ℕ → Bool) (now : ℕ) (job : Row) (e : SendError) (st : Store)
    → (suppress_refused lost now job e st).rows ≡ st.rows
unfolding suppress_refused suppress_queue_row_address insert_smtp_refusal_bounce
suppress_refused-rows lost now job e st = ground arith

pub after_failed-All :
    (P : Row → Type 0) (guard : BulkGuard) (lost : ℕ → Bool) (now : ℕ) (job : Row) (e : SendError)
    (st : Store) (n : ℕ)
    → ((ts : List Task) (r : Row) → P r → P (act now ts (Statement.park_pending job.task_id) r))
    → All P st.rows
    → All P (after_failed guard lost now job e (st, n)).rows
after_failed-All P guard lost now job e st n keep a = elim (Bool-cases (n == 0)) [
  | inl z ↦ rw z a
  | inr m ↦ rw m (
      count_send_failure-All P guard lost now job (suppress_refused lost now job e st) keep
        (subst (All P) (sym (suppress_refused-rows lost now job e st)) a))
]

tries_left :
    (job : Row) (e : SendError) → giving_up job e ≡ false → job.attempts + 1 < max_send_attempts
unfolding giving_up
tries_left job e h = ground arith

pub record_failure-IsBounded :
    (guard : BulkGuard) (me : ℕ) (lost : ℕ → Bool) (now : ℕ) (job : Row) (e : SendError)
    (st : Store)
    → All (Both me job) st.rows
    → All IsBounded (record_failure guard me lost now job e st).rows
unfolding record_failure
record_failure-IsBounded guard me lost now job e st a = elim (Bool-cases (giving_up job e)) [
  | inl g ↦ rw g (
      after_failed-All IsBounded guard lost now job e _ _
        (λ ts. park_pending-IsBounded now ts job.task_id)
        (on_queue-All (Both me job) IsBounded (lost 2) now _ st (λ r b. b.0)
          (λ r b. set_failed-IsBounded now st.tasks job.id me (claimed_at job) e.text r b.0) a))
  | inr n ↦ rw n (
      on_queue-All (Both me job) IsBounded (lost 6) now _ st (λ r b. b.0)
        (λ r b. reschedule-IsBounded now st.tasks me job e.text _ r (tries_left job e n) b) a)
]
