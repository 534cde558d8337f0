-- ===== src/Outcome/Recorded.antt =====
-- What send leaves of the queue, on every way that a send can end.
use skymail_backend.Prelude.{
  ℕ, ◌<◌, ◌≡◌, refl, sym, ◌∙◌, ◌≢◌, inl, inr, Bool, true, false, ◌&&◌, Option, none, some, All,
  if◌then◌else◌, Bool-cases, subst, ◌/◌, Text,
}
use skymail_backend.Env.{BulkGuard, second}
use skymail_backend.Store.{Store}
use skymail_backend.Queue.{Row, Statement}
use skymail_backend.Guard.{SendError, at_least_retry_after, on_queue, claimed_at, hold_bulk_lane}
use skymail_backend.Outcome.{
  record_send_failure, send, unknown_channel, unless_handled, record_outcome, cut_off,
}
use skymail_backend.Outcome.Attempts.{
  IsBounded, Both, defer_throttled-cases, record_failure-IsBounded, set_sent-IsBounded,
  on_queue-All, defer_throttled-IsBounded, hold_bulk_lane-rows, All-weaken,
}

true-ne-false : true ≢ false
true-ne-false h = cc

unless_handled-IsBounded :
    (guard : BulkGuard) (me : ℕ) (lost : ℕ → Bool) (now : ℕ) (job : Row) (e : SendError)
    (p : Store × Bool)
    → (p.1 ≡ false → All (Both me job) p.0.rows)
    → (p.1 ≡ true → All IsBounded p.0.rows)
    → All IsBounded (unless_handled guard me lost now job e p).rows
unless_handled-IsBounded guard me lost now job e (st, true) f t = t refl
unless_handled-IsBounded guard me lost now job e (st, false) f t =
    record_failure-IsBounded guard me lost now job e st (f refl)

put_back-IsBounded :
    (lost : ℕ → Bool) (me now delay wait : ℕ) (job : Row) (reason : Text) (st : Store)
    → job.throttles < 5
    → All (Both me job) st.rows
    → All IsBounded
        (on_queue
          (lost 1)
          now
          (Statement.defer_throttled job.id me (claimed_at job) reason wait)
          (hold_bulk_lane (lost 0) now delay reason st)).0.rows
put_back-IsBounded lost me now delay wait job reason st few a =
    let st' = hold_bulk_lane (lost 0) now delay reason st in
    on_queue-All (Both me job) IsBounded (lost 1) now _ st' (λ r b. b.0)
      (λ r b. defer_throttled-IsBounded now st'.tasks me job reason wait r few b)
      (subst (All (Both me job)) (sym (hold_bulk_lane-rows (lost 0) now delay reason st).0) a)

record_send_failure-IsBounded :
    (guard : BulkGuard) (me : ℕ) (lost : ℕ → Bool) (now : ℕ) (job : Row) (e : SendError)
    (st : Store)
    → All (Both me job) st.rows
    → All IsBounded (record_send_failure guard me lost now job e st).rows
unfolding record_send_failure
record_send_failure-IsBounded guard me lost now job e st a =
    let delay = at_least_retry_after guard.throttle_pause e in
    elim (defer_throttled-cases guard me lost now job e st) [
      | inl (left, same) ↦
          unless_handled-IsBounded guard me lost now job e _
            (λ _. subst (All (Both me job)) (sym same) a)
            (λ h. absurd (true-ne-false (sym h ∙ left)))
      | inr (done, few, after) ↦
          unless_handled-IsBounded guard me lost now job e _
            (λ h. absurd (true-ne-false (sym done ∙ h)))
            (λ _.
              subst (λ (x : Store). All IsBounded x.rows) (sym after)
                (put_back-IsBounded lost me now delay (delay / second) job e.text st few a))
    ]

record_outcome-IsBounded :
    (guard : BulkGuard) (me : ℕ) (lost : ℕ → Bool) (now : ℕ) (job : Row) (result : Option SendError)
    (st : Store)
    → All (Both me job) st.rows
    → All IsBounded (record_outcome guard me lost now job result st).rows
record_outcome-IsBounded guard me lost now job none st a =
    on_queue-All (Both me job) IsBounded (lost 7) now _ st (λ r b. b.0)
      (λ r b. set_sent-IsBounded now st.tasks job.id me (claimed_at job) r b.0) a
record_outcome-IsBounded guard me lost now job (some e) st a =
    record_send_failure-IsBounded guard me lost now job e st a

-- However a send ends and whichever of its statements the database fails: where every row had at most
-- five attempts and five throttling replies, and fewer than five attempts while pending or processing,
-- and the job's counters were those of its row while its claim holds, every row still has.
pub send-IsBounded :
    (guard : BulkGuard) (me : ℕ) (lost : ℕ → Bool) (now : ℕ) (job : Row) (known ended : Bool)
    (result : Option SendError) (st : Store)
    → All (Both me job) st.rows
    → All IsBounded (send guard me lost now job known ended result st).rows
unfolding send
send-IsBounded guard me lost now job known ended result st a =
    let err = if known then result else some (unknown_channel job.channel) in
    elim (Bool-cases (known && cut_off ended err)) [
      | inl c ↦ rw c (All-weaken (Both me job) IsBounded st.rows (λ r b. b.0) a)
      | inr n ↦ rw n (record_outcome-IsBounded guard me lost now job err st a)
    ]
