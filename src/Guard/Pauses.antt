-- ===== src/Guard/Pauses.antt =====
-- When a failing send pauses.
use skymail_backend.Prelude.{ℕ, zero, suc, ◌+◌, ◌*◌, ◌≤◌, ◌<◌, ◌≡◌, subst, ◌↔◌, none, some, arith}
use skymail_backend.Queue.{Task, failure_rate}
use skymail_backend.Guard.{pauses_now, count_failure}

-- A send after k failures for good in a row, of which `answered` recipients were sent to meanwhile.
abbrev pub failures : ℕ → ℕ → ℕ → ℕ → ℕ → Task → Task
failures zero now min_failures min_percent answered t = t
failures (suc k) now min_failures min_percent answered t =
    count_failure now min_failures min_percent answered
      (failures k now min_failures min_percent answered t)

abbrev pub IsFresh : Task → Type 0
IsFresh t = (t.paused_at ≡ none) × (t.cancelled_at ≡ none) × (t.send_failures ≡ 0)

count_failure_below :
    (k now min_failures min_percent answered : ℕ) (t : Task)
    → t.send_failures ≡ k
    → t.paused_at ≡ none
    → t.cancelled_at ≡ none
    → suc k < min_failures
    → let u = count_failure now min_failures min_percent answered t in
      (u.paused_at ≡ none) × (u.cancelled_at ≡ none) × (u.send_failures ≡ suc k)
unfolding count_failure pauses_now
count_failure_below k now min_failures min_percent answered t f p c h =
    (ground arith, ground arith, ground arith)

-- Before its min_failures-th failure a fresh send counts its failures and stays unpaused, whatever
-- the percentage and however many recipients were sent to.
pub failures_below :
    (k now min_failures min_percent answered : ℕ) (t : Task)
    → IsFresh t
    → k < min_failures
    → let u = failures k now min_failures min_percent answered t in
      (u.paused_at ≡ none) × (u.cancelled_at ≡ none) × (u.send_failures ≡ k)
failures_below zero now min_failures min_percent answered t h lt = h
failures_below (suc k) now min_failures min_percent answered t h lt =
    let (p, c, f) = failures_below k now min_failures min_percent answered t h (omega arith) in
    count_failure_below k now min_failures min_percent answered
      (failures k now min_failures min_percent answered t) f p c lt

abbrev PausesAt : ℕ → ℕ → ℕ → ℕ → Task → Type 0
PausesAt k now min_percent answered u =
    ((u.paused_at ≡ some now) × (u.paused_reason ≡ some failure_rate))
    ↔ (min_percent * (suc k + answered) ≤ suc k * 100)

count_failure_at :
    (now min_percent answered : ℕ) (t : Task)
    → t.paused_at ≡ none
    → t.cancelled_at ≡ none
    → PausesAt t.send_failures now min_percent answered
        (count_failure now (suc t.send_failures) min_percent answered t)
unfolding count_failure pauses_now
count_failure_at now min_percent answered t p c =
    (λ h. ground arith, λ h. (ground arith, ground arith))

-- At its min_failures-th failure a fresh send is paused, for its failure rate, exactly when its failures
-- are at least min_percent percent of those the relay answered for good: the failures and the
-- recipients sent to.
pub failures_at :
    (k now min_percent answered : ℕ) (t : Task)
    → IsFresh t
    → let u = failures (suc k) now (suc k) min_percent answered t in
      ((u.paused_at ≡ some now) × (u.paused_reason ≡ some failure_rate))
      ↔ (min_percent * (suc k + answered) ≤ suc k * 100)
failures_at k now min_percent answered t h =
    let (p, c, f) = failures_below k now (suc k) min_percent answered t h (omega arith) in
    let u = failures k now (suc k) min_percent answered t in
    subst
      (λ m. PausesAt m now min_percent answered (count_failure now (suc m) min_percent answered u))
      f (count_failure_at now min_percent answered u p c)
