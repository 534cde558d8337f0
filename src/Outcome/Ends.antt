-- ===== src/Outcome/Ends.antt =====
-- A send that is not cut off gives its row up.
use skymail_backend.Prelude.{
  ℕ, ◌≡◌, refl, sym, ◌∙◌, ◌≢◌, inl, inr, Bool, true, false, ◌&&◌, Option, none, some, List, [], ◌∷◌,
  map, All, if◌then◌else◌, Bool-cases, subst, ◌/◌,
}
use skymail_backend.Env.{BulkGuard, second}
use skymail_backend.Store.{Store}
use skymail_backend.Queue.{Row, Statement, act, execute}
use skymail_backend.Guard.{
  SendError, defer_throttled, at_least_retry_after, on_queue, claimed_at, hold_bulk_lane,
}
use skymail_backend.Outcome.{
  record_failure, record_send_failure, send, unknown_channel, unless_handled, record_outcome,
  cut_off, giving_up,
}
use skymail_backend.Outcome.Attempts.{defer_throttled-cases, after_failed-All}
use skymail_backend.Outcome.Settled.{IsOver, IsOutcome, act-over, park-over}

-- The database answers every statement.
abbrev pub answers : ℕ → Bool
answers _ = false

true-ne-false : true ≢ false
true-ne-false h = cc

map-All :
    (P : Row → Type 0) (f : Row → Row) (rows : List Row)
    → ((r : Row) → P (f r))
    → All P (map f rows)
map-All P f [] g = tt
map-All P f (r ∷ rs) g = (g r, map-All P f rs g)

on_queue-IsOver :
    (now me : ℕ) (job : Row) (s : Statement) (st : Store)
    → IsOutcome job.id me (claimed_at job) s
    → All (IsOver me job) (on_queue false now s st).0.rows
unfolding execute
on_queue-IsOver now me job s st o =
    map-All (IsOver me job) (act now st.tasks s) st.rows
      (λ r. act-over now st.tasks job.id me (claimed_at job) s r o)

record_failure-IsOver :
    (guard : BulkGuard) (me now : ℕ) (job : Row) (e : SendError) (st : Store)
    → All (IsOver me job) (record_failure guard me answers now job e st).rows
unfolding record_failure
record_failure-IsOver guard me now job e st =
    let at = claimed_at job in
    elim (Bool-cases (giving_up job e)) [
      | inl g ↦ rw g (
          after_failed-All (IsOver me job) guard answers now job e _ _
            (λ ts r h. park-over now ts job.id me at job.task_id r h)
            (on_queue-IsOver now me job (Statement.set_failed job.id me at e.text) st
              (refl, refl, refl)))
      | inr n ↦ rw n (
          on_queue-IsOver now me job (Statement.reschedule job.id me at e.text _) st
            (refl, refl, refl))
    ]

unless_handled-IsOver :
    (guard : BulkGuard) (me now : ℕ) (job : Row) (e : SendError) (p : Store × Bool)
    → (p.1 ≡ true → All (IsOver me job) p.0.rows)
    → All (IsOver me job) (unless_handled guard me answers now job e p).rows
unless_handled-IsOver guard me now job e (st, true) h = h refl
unless_handled-IsOver guard me now job e (st, false) h = record_failure-IsOver guard me now job e st

record_outcome-IsOver :
    (guard : BulkGuard) (me now : ℕ) (job : Row) (result : Option SendError) (st : Store)
    → All (IsOver me job) (record_outcome guard me answers now job result st).rows
unfolding record_send_failure
record_outcome-IsOver guard me now job none st =
    on_queue-IsOver now me job (Statement.set_sent job.id me (claimed_at job)) st (refl, refl, refl)
record_outcome-IsOver guard me now job (some e) st =
    let delay = at_least_retry_after guard.throttle_pause e in
    let s = Statement.defer_throttled job.id me (claimed_at job) e.text (delay / second) in
    unless_handled-IsOver guard me now job e (defer_throttled guard me answers now job e st)
      (λ handled. elim (defer_throttled-cases guard me answers now job e st) [
        | inl (left, same) ↦ absurd (true-ne-false (sym handled ∙ left))
        | inr (done, few, after) ↦
            subst (λ (x : Store). All (IsOver me job) x.rows) (sym after)
              (on_queue-IsOver now me job s (hold_bulk_lane false now delay e.text st)
                (refl, refl, refl))
      ])

-- A send ends its claim: where the database answers, a send that was not cut off by the process going
-- away leaves no row claimed as the job was, whether it succeeded, failed for good, is to be tried
-- again or was throttled.
pub send-IsOver :
    (guard : BulkGuard) (me now : ℕ) (job : Row) (known ended : Bool) (result : Option SendError)
    (st : Store)
    → (known && cut_off ended (if known then result else some (unknown_channel job.channel)))
      ≡ false
    → All (IsOver me job) (send guard me answers now job known ended result st).rows
unfolding send
send-IsOver guard me now job known ended result st h =
    let err = if known then result else some (unknown_channel job.channel) in
    rw h (record_outcome-IsOver guard me now job err st)
