-- ===== src/Tests/Sending.antt =====
-- Sends and guards on concrete rows.
use skymail_backend.Prelude.{
  ◌+◌, ◌<◌, ◌≡◌, refl, Bool, true, false, some, [], ◌∷◌, All, codes, arith,
}
use skymail_backend.Store.{Store}
use skymail_backend.Queue.{Row}
use skymail_backend.Guard.{defer_throttled, bulk_lane_held, throttled, at_least_retry_after}
use skymail_backend.Guard.Held.{defer_throttled-holds}
use skymail_backend.Outcome.{send}
use skymail_backend.Outcome.Attempts.{IsBounded, Both}
use skymail_backend.Outcome.Recorded.{send-IsBounded}
use skymail_backend.Outcome.Settled.{IsOver, send-fenced}
use skymail_backend.Outcome.Ends.{answers, send-IsOver}
use skymail_backend.Tests.{
  waiting, taken_row, guard_on, store_of, refused, throttling, error_of, answered, send_9,
}

abbrev busy : Store
busy = store_of (taken_row ∷ waiting 2 20 ∷ [])

send-fenced_example :
    (send guard_on 8 answered 5000 taken_row true false (some (error_of true refused)) busy).rows
    ≡ busy.rows
send-fenced_example =
    send-fenced guard_on 8 answered 5000 taken_row true false (some (error_of true refused)) busy
      (refl, (refl, tt))

send-IsOver_example :
    All
      (IsOver 7 taken_row)
      (send guard_on 7 answers 5000 taken_row true false (some (error_of true refused)) busy).rows
send-IsOver_example =
    send-IsOver guard_on 7 5000 taken_row true false (some (error_of true refused)) busy refl

busy-Both : All (Both 7 taken_row) busy.rows
busy-Both = (
  ((ground arith, ground arith, λ h. ground arith), λ h. (refl, refl)),
  (((ground arith, ground arith, λ h. ground arith), λ h. absurd (ground arith)), tt),
)

send-IsBounded_example :
    All IsBounded
      (send guard_on 7 answered 5000 taken_row true false
        (some (error_of false throttling))
        busy).rows
send-IsBounded_example =
    send-IsBounded guard_on 7 answered 5000 taken_row true false (some (error_of false throttling))
      busy busy-Both

throttling-throttled : throttled (error_of false throttling) ≡ true
unfolding throttled
throttling-throttled = refl

before_the_pause :
    6000 < 5000 + at_least_retry_after guard_on.throttle_pause (error_of false throttling)
unfolding at_least_retry_after
before_the_pause = omega arith

abbrev pause_at_5000 : Store × Bool
pause_at_5000 = defer_throttled guard_on 7 answered 5000 taken_row (error_of false throttling) busy

defer_throttled-holds_example :
    (pause_at_5000.1 ≡ true) × (bulk_lane_held guard_on 6000 pause_at_5000.0 ≡ true)
defer_throttled-holds_example =
    defer_throttled-holds guard_on 7 5000 taken_row (error_of false throttling) busy 6000
      (ground arith) throttling-throttled (ground arith) (ground arith) before_the_pause

abbrev held_store : Store
held_store = record busy { hold = some (record { held_until = 9000; reason = codes "x" }) }

held_store-held : bulk_lane_held guard_on 6000 held_store ≡ true
unfolding bulk_lane_held
held_store-held = refl

-- A row of send 8, which is paused, next to one of send 9, which is not; process 7 took both.
abbrev held_row : Row
held_row = record taken_row { id = 2; task_id = 8 }

abbrev half_held : Store
half_held = record (store_of (taken_row ∷ held_row ∷ [])) {
  tasks = record send_9 { id = 8; paused_at = some 1 } ∷ send_9 ∷ [];
}
