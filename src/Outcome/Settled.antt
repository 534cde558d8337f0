-- ===== src/Outcome/Settled.antt =====
-- An outcome ends its own claim, and no other.
use skymail_backend.Prelude.{
  ℕ, ◌≡◌, refl, sym, ap, ◌∙◌, inl, inr, Bool, true, false, ◌&&◌, Option, none, some, List, [], ◌∷◌,
  map, All, arith, if◌then◌else◌, Bool-cases, subst, ◌/◌,
}
use skymail_backend.Env.{BulkGuard, second}
use skymail_backend.Store.{Store}
use skymail_backend.Queue.{Row, Task, Statement, act, applies, assign, claimed, execute, affected}
use skymail_backend.Guard.{
  SendError, defer_throttled, at_least_retry_after, on_queue, claimed_at, hold_bulk_lane,
}
use skymail_backend.Outcome.{
  record_failure, record_send_failure, send, unknown_channel, unless_handled, record_outcome,
  cut_off, giving_up, after_failed,
}
use skymail_backend.Outcome.Attempts.{defer_throttled-cases, hold_bulk_lane-rows}

-- No row is claimed as `job` was.
abbrev pub IsOver : ℕ → Row → Row → Type 0
IsOver me job r = claimed job.id me (claimed_at job) r ≡ false

-- A statement whose guard is a claim.
abbrev pub IsOutcome : ℕ → ℕ → ℕ → Statement → Type 0
IsOutcome id me at (Statement.set_sent i b t) = (i ≡ id) × (b ≡ me) × (t ≡ at)
IsOutcome id me at (Statement.set_failed i b t error) = (i ≡ id) × (b ≡ me) × (t ≡ at)
IsOutcome id me at (Statement.reschedule i b t error delay) = (i ≡ id) × (b ≡ me) × (t ≡ at)
IsOutcome id me at (Statement.defer_throttled i b t error delay) = (i ≡ id) × (b ≡ me) × (t ≡ at)
IsOutcome id me at _ = ⊥

pub act-over :
    (now : ℕ) (ts : List Task) (id me at : ℕ) (s : Statement) (r : Row)
    → IsOutcome id me at s
    → claimed id me at (act now ts s r) ≡ false
unfolding act applies assign
act-over now ts id me at (Statement.set_sent i b t) r o = ground arith
act-over now ts id me at (Statement.set_failed i b t error) r o = ground arith
act-over now ts id me at (Statement.reschedule i b t error delay) r o = ground arith
act-over now ts id me at (Statement.defer_throttled i b t error delay) r o = ground arith
act-over now ts id me at s r o = absurd o

act-fenced :
    (now : ℕ) (ts : List Task) (id me at : ℕ) (s : Statement) (r : Row)
    → IsOutcome id me at s
    → claimed id me at r ≡ false
    → (act now ts s r ≡ r) × (applies now ts s r ≡ false)
unfolding act applies
act-fenced now ts id me at (Statement.set_sent i b t) r o h = (ground arith, ground arith)
act-fenced now ts id me at (Statement.set_failed i b t error) r o h = (ground arith, ground arith)
act-fenced now ts id me at (Statement.reschedule i b t error delay) r o h =
    (ground arith, ground arith)
act-fenced now ts id me at (Statement.defer_throttled i b t error delay) r o h =
    (ground arith, ground arith)
act-fenced now ts id me at s r o h = absurd o

pub park-over :
    (now : ℕ) (ts : List Task) (id me at task : ℕ) (r : Row)
    → claimed id me at r ≡ false
    → claimed id me at (act now ts (Statement.park_pending task) r) ≡ false
unfolding act applies assign
park-over now ts id me at task r h = ground arith

map-same : (f : Row → Row) (rows : List Row) → All (λ r. f r ≡ r) rows → map f rows ≡ rows
map-same f [] a = refl
map-same f (r ∷ rs) a = cc (a.0, map-same f rs a.1)

select-never :
    (p : Row → Bool) (rows : List Row) → All (λ r. p r ≡ false) rows → affected p rows ≡ 0
select-never p [] a = refl
select-never p (r ∷ rs) a = rw a.0 (select-never p rs a.1)

All-both :
    (P Q : Row → Type 0) (rows : List Row) → ((r : Row) → P r → Q r) → All P rows → All Q rows
All-both P Q [] g a = tt
All-both P Q (r ∷ rs) g a = (g r a.0, All-both P Q rs g a.1)

on_queue-fenced :
    (lost : Bool) (now id me at : ℕ) (s : Statement) (st : Store)
    → IsOutcome id me at s
    → All (λ r. claimed id me at r ≡ false) st.rows
    → ((on_queue lost now s st).0.rows ≡ st.rows) × ((on_queue lost now s st).1 ≡ 0)
unfolding execute
on_queue-fenced true now id me at s st o a = (refl, refl)
on_queue-fenced false now id me at s st o a = (
  map-same (act now st.tasks s) st.rows
      (All-both _ _ st.rows (λ r h. (act-fenced now st.tasks id me at s r o h).0) a),
  select-never (applies now st.tasks s) st.rows
      (All-both _ _ st.rows (λ r h. (act-fenced now st.tasks id me at s r o h).1) a),
)

after_failed-none :
    (guard : BulkGuard) (lost : ℕ → Bool) (now : ℕ) (job : Row) (e : SendError) (p : Store × ℕ)
    → p.1 ≡ 0
    → after_failed guard lost now job e p ≡ p.0
after_failed-none guard lost now job e (st, n) h = rw h

record_failure-fenced :
    (guard : BulkGuard) (me : ℕ) (lost : ℕ → Bool) (now : ℕ) (job : Row) (e : SendError)
    (st : Store)
    → All (IsOver me job) st.rows
    → (record_failure guard me lost now job e st).rows ≡ st.rows
unfolding record_failure
record_failure-fenced guard me lost now job e st a =
    let at = claimed_at job in
    elim (Bool-cases (giving_up job e)) [
      | inl g ↦
          let (same, none_hit) =
            on_queue-fenced (lost 2) now job.id me at (Statement.set_failed job.id me at e.text) st
              (refl, refl, refl) a in
          rw g
            (ap (λ (x : Store). x.rows) (after_failed-none guard lost now job e _ none_hit) ∙ same)
      | inr n ↦
          rw n
            (on_queue-fenced (lost 6) now job.id me at (Statement.reschedule job.id me at e.text _)
              st (refl, refl, refl) a).0
    ]

unless_handled-fenced :
    (guard : BulkGuard) (me : ℕ) (lost : ℕ → Bool) (now : ℕ) (job : Row) (e : SendError)
    (p : Store × Bool)
    → All (IsOver me job) p.0.rows
    → (unless_handled guard me lost now job e p).rows ≡ p.0.rows
unless_handled-fenced guard me lost now job e (st, true) a = refl
unless_handled-fenced guard me lost now job e (st, false) a =
    record_failure-fenced guard me lost now job e st a

defer_throttled-fenced :
    (guard : BulkGuard) (me : ℕ) (lost : ℕ → Bool) (now : ℕ) (job : Row) (e : SendError)
    (st : Store)
    → All (IsOver me job) st.rows
    → (defer_throttled guard me lost now job e st).0.rows ≡ st.rows
defer_throttled-fenced guard me lost now job e st a =
    let delay = at_least_retry_after guard.throttle_pause e in
    let st' = hold_bulk_lane (lost 0) now delay e.text st in
    let kept : st'.rows ≡ st.rows = (hold_bulk_lane-rows (lost 0) now delay e.text st).0 in
    elim (defer_throttled-cases guard me lost now job e st) [
      | inl (left, same) ↦ same
      | inr (done, few, after) ↦
          ap (λ (x : Store). x.rows) after
          ∙ (on_queue-fenced (lost 1) now job.id me (claimed_at job)
              (Statement.defer_throttled job.id me (claimed_at job) e.text (delay / second)) st'
              (refl, refl, refl) (subst (All (IsOver me job)) (sym kept) a)).0
          ∙ kept
    ]

record_outcome-fenced :
    (guard : BulkGuard) (me : ℕ) (lost : ℕ → Bool) (now : ℕ) (job : Row) (result : Option SendError)
    (st : Store)
    → All (IsOver me job) st.rows
    → (record_outcome guard me lost now job result st).rows ≡ st.rows
unfolding record_send_failure
record_outcome-fenced guard me lost now job none st a =
    (on_queue-fenced (lost 7) now job.id me (claimed_at job)
      (Statement.set_sent job.id me (claimed_at job)) st (refl, refl, refl) a).0
record_outcome-fenced guard me lost now job (some e) st a =
    let same = defer_throttled-fenced guard me lost now job e st a in
    unless_handled-fenced guard me lost now job e (defer_throttled guard me lost now job e st)
      (subst (All (IsOver me job)) (sym same) a)
    ∙ same

-- A process whose claim of a row is over changes no row of the queue, however its send ends: where no
-- row is claimed as the job was, the rows stay as they are, whichever statements the database fails.
pub send-fenced :
    (guard : BulkGuard) (me : ℕ) (lost : ℕ → Bool) (now : ℕ) (job : Row) (known ended : Bool)
    (result : Option SendError) (st : Store)
    → All (IsOver me job) st.rows
    → (send guard me lost now job known ended result st).rows ≡ st.rows
unfolding send
send-fenced guard me lost now job known ended result st a =
    let err = if known then result else some (unknown_channel job.channel) in
    elim (Bool-cases (known && cut_off ended err)) [
      | inl c ↦ rw c
      | inr n ↦ rw n (record_outcome-fenced guard me lost now job err st a)
    ]
