-- ===== src/Queue/Fencing.antt =====
-- What a statement leaves alone.
use skymail_backend.Prelude.{ℕ, ◌+◌, ◌*◌, ◌≤◌, ◌≡◌, ◌≢◌, ◌⊎◌, Option, none, some, List, arith}
use skymail_backend.Env.{second}
use skymail_backend.Queue.{
  Row, Task, processing, sent, failed, Statement, release, set_sent, set_failed, reschedule,
  defer_throttled, start_lease, reset_dead, park_claimed, cancel_claimed, skip_claimed,
  defer_claimed, check_claimed, link_claimed, act, applies,
}

-- The process in whose name a statement acts, where its guard names one.
abbrev pub acts_for : Statement → Option ℕ
acts_for (release id by at) = some by
acts_for (set_sent id by at) = some by
acts_for (set_failed id by at error) = some by
acts_for (reschedule id by at error delay) = some by
acts_for (defer_throttled id by at error delay) = some by
acts_for (park_claimed ids by) = some by
acts_for (cancel_claimed ids by) = some by
acts_for (skip_claimed ids by error) = some by
acts_for (defer_claimed ids by delay) = some by
acts_for (check_claimed ids by at) = some by
acts_for (link_claimed links by) = some by
acts_for _ = none

-- A reset gives a claim at least `lease` seconds.
abbrev pub Respects : ℕ → Statement → Type 0
Respects lease (reset_dead l) = lease ≤ l
Respects lease _ = Unit {0}

-- A row in the sent or the failed state is changed by no statement.
pub act-done :
    (now : ℕ) (ts : List Task) (s : Statement) (r : Row)
    → (r.status ≡ sent) ⊎ (r.status ≡ failed)
    → act now ts s r ≡ r
unfolding act applies
act-done now ts start_lease r h = ground arith
act-done now ts s r h = ground arith

pub act-claimed :
    (lease now p c : ℕ) (ts : List Task) (s : Statement) (r : Row)
    → r.status ≡ processing
    → r.claimed_by ≡ some p
    → r.claimed_at ≡ some c
    → now ≤ c + lease * second
    → Respects lease s
    → acts_for s ≢ some p
    → act now ts s r ≡ r
unfolding act applies
act-claimed lease now p c ts start_lease r st by at early kept other = ground arith
act-claimed lease now p c ts (reset_dead l) r st by at early kept other = ground arith
act-claimed lease now p c ts s r st by at early kept other = ground arith
