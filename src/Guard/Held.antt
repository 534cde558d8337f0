-- ===== src/Guard/Held.antt =====
-- What a throttling reply and a held send do to the bulk lane.
use skymail_backend.Prelude.{
  ℕ, ◌+◌, ◌/◌, ◌≤◌, ◌<◌, ◌≡◌, refl, ◌⊎◌, inl, inr, Bool, true, false, not, ◌&&◌, List, [], ◌∷◌,
  Text, All, arith, length, select, Bool-cases,
}
use skymail_backend.Env.{BulkGuard, second}
use skymail_backend.Lanes.{priority_bulk}
use skymail_backend.Store.{Store, hold_until}
use skymail_backend.Queue.{Row, Task, Statement}
use skymail_backend.Guard.{
  SendError, throttled, defer_throttled, bulk_lane_held, hold_bulk_lane, at_least_retry_after,
  skip_held_tasks, cancelled_task, paused_task, on_queue, max_row_throttles, held_at, claimed_at,
}

held_at-hold :
    (t until : ℕ) (reason : Text) (st : Store)
    → (held_at t st.hold ≡ true → held_at t (hold_until until reason st).hold ≡ true)
      × (t < until → held_at t (hold_until until reason st).hold ≡ true)
unfolding hold_until
held_at-hold t until reason st = (ground arith, ground arith)

retry_after-le : (delay : ℕ) (e : SendError) → delay ≤ at_least_retry_after delay e
unfolding at_least_retry_after
retry_after-le delay e = ground arith

on_queue-hold :
    (lost : Bool) (now : ℕ) (s : Statement) (st : Store) → (on_queue lost now s st).0.hold ≡ st.hold
on_queue-hold true now s st = refl
on_queue-hold false now s st = refl

hold_bulk_lane-cases :
    (lost : Bool) (now delay : ℕ) (reason : Text) (st : Store)
    → ((hold_bulk_lane lost now delay reason st).hold ≡ st.hold)
      ⊎ ((hold_bulk_lane lost now delay reason st).hold ≡ (hold_until (now + delay) reason st).hold)
unfolding hold_bulk_lane
hold_bulk_lane-cases true now delay reason st = inl refl
hold_bulk_lane-cases false now delay reason st = inr refl

defer_throttled-hold :
    (guard : BulkGuard) (me : ℕ) (lost : ℕ → Bool) (now : ℕ) (job : Row) (e : SendError)
    (st : Store)
    → ((defer_throttled guard me lost now job e st).0.hold ≡ st.hold)
      ⊎ ((defer_throttled guard me lost now job e st).0.hold
          ≡ (hold_bulk_lane
              (lost 0)
              now
              (at_least_retry_after guard.throttle_pause e)
              e.text
              st).hold)
unfolding defer_throttled
defer_throttled-hold guard me lost now job e st = ground (
  arith,
  on_queue-hold (lost 1) now
      (Statement.defer_throttled job.id me (claimed_at job) e.text
        (at_least_retry_after guard.throttle_pause e / second))
      (hold_bulk_lane (lost 0) now (at_least_retry_after guard.throttle_pause e) e.text st),
)

defer_throttled-handled :
    (guard : BulkGuard) (me now : ℕ) (job : Row) (e : SendError) (st : Store)
    → 0 < guard.throttle_pause
    → throttled e ≡ true
    → job.priority ≤ priority_bulk
    → job.throttles < max_row_throttles
    → let delay = at_least_retry_after guard.throttle_pause e in
      let (st', handled) = defer_throttled guard me (λ _. false) now job e st in
      (handled ≡ true) × (st'.hold ≡ (hold_until (now + delay) e.text st).hold)
unfolding defer_throttled hold_bulk_lane
defer_throttled-handled guard me now job e st on asked bulk few = (ground arith, ground arith)

-- However a throttling reply ends, a hold that was there is kept: the bulk lane stays held at every
-- instant at which it was held.
pub defer_throttled-keeps_hold :
    (guard : BulkGuard) (me : ℕ) (lost : ℕ → Bool) (now : ℕ) (job : Row) (e : SendError)
    (st : Store) (t : ℕ)
    → bulk_lane_held guard t st ≡ true
    → bulk_lane_held guard t (defer_throttled guard me lost now job e st).0 ≡ true
unfolding bulk_lane_held
defer_throttled-keeps_hold guard me lost now job e st t h =
    let delay = at_least_retry_after guard.throttle_pause e in
    elim (defer_throttled-hold guard me lost now job e st) [
      | inl same ↦ rw same h
      | inr new ↦ elim (hold_bulk_lane-cases (lost 0) now delay e.text st) [
        | inl same ↦ rw (new, same) h
        | inr later ↦ rw (new, later) (ground (arith, (held_at-hold t (now + delay) e.text st).0))
      ]
    ]

-- A throttling reply to a bulk row that was throttled fewer than five times, with the hold on and the
-- database answering: the bulk lane is held at every instant before the pause, or the longer
-- Retry-After, is over, and the reply is handled.
pub defer_throttled-holds :
    (guard : BulkGuard) (me now : ℕ) (job : Row) (e : SendError) (st : Store) (t : ℕ)
    → 0 < guard.throttle_pause
    → throttled e ≡ true
    → job.priority ≤ priority_bulk
    → job.throttles < max_row_throttles
    → t < now + at_least_retry_after guard.throttle_pause e
    → let (st', handled) = defer_throttled guard me (λ _. false) now job e st in
      (handled ≡ true) × (bulk_lane_held guard t st' ≡ true)
unfolding bulk_lane_held
defer_throttled-holds guard me now job e st t on asked bulk few early =
    let delay = at_least_retry_after guard.throttle_pause e in
    let (handled, same) = defer_throttled-handled guard me now job e st on asked bulk few in
    (handled, rw same (ground (arith, (held_at-hold t (now + delay) e.text st).1 early)))

-- A row of a send that is neither paused nor cancelled.
abbrev pub IsFree : List Task → Row → Type 0
IsFree ts r = (cancelled_task ts r ≡ false) × (paused_task ts r ≡ false)

All-select :
    (p : Row → Bool) (P : Row → Type 0) (rows : List Row)
    → ((r : Row) → p r ≡ true → P r)
    → All P (select p rows)
All-select p P [] f = tt
All-select p P (r ∷ rs) f = elim (Bool-cases (p r)) [
  | inl e ↦ rw e (f r e, All-select p P rs f)
  | inr n ↦ rw n (All-select p P rs f)
]

free : (a b : Bool) → (not a && not b) ≡ true → (a ≡ false) × (b ≡ false)
free a b h = (ground arith, ground arith)

three_ways :
    (p q : Row → Bool) (rows : List Row)
    → length rows
      ≡ length (select (λ r. not (p r) && not (q r)) rows)
        + length (select (λ r. not (p r) && q r) rows)
        + length (select p rows)
three_ways p q [] = omega arith
three_ways p q (r ∷ rs) = ground (arith, three_ways p q rs)

-- The rows that skip_held_tasks goes on with are of no paused and no cancelled send, and every row that
-- it was given is gone on with, or is of a paused send, or is of a cancelled one, and only one of these.
pub skip_held_tasks_keeps :
    (me now : ℕ) (rows : List Row) (st : Store)
    → All (IsFree st.tasks) (skip_held_tasks me now rows st).1
      × (length rows
          ≡ length (skip_held_tasks me now rows st).1
            + length (select (λ r. not (cancelled_task st.tasks r) && paused_task st.tasks r) rows)
            + length (select (cancelled_task st.tasks) rows))
unfolding skip_held_tasks
skip_held_tasks_keeps me now rows st = (
  All-select _ (IsFree st.tasks) rows
      (λ r h. free (cancelled_task st.tasks r) (paused_task st.tasks r) h),
  three_ways (cancelled_task st.tasks) (paused_task st.tasks) rows,
)
