-- ===== src/Outcome.antt =====
-- internal/mailer/mailer.go: how a send's outcome is recorded, and how long a retry waits. As in Guard,
-- `lost` says which of a handler's statements the database fails.
use skymail_backend.Prelude.{
  ℕ, ◌+◌, ◌*◌, ◌/◌, ◌%◌, ◌^◌, ◌≤◌, Bool, true, false, ◌&&◌, ◌||◌, not, Option, none, some, List, [],
  ◌∷◌, ◌++◌, Text, codes, text_eq, leb, ltb, ◌==◌, if◌then◌else◌,
}
use skymail_backend.Env.{BulkGuard, second, minute}
use skymail_backend.Smtp.{SmtpReply, permanent}
use skymail_backend.Store.{Store, suppress_queue_row_address, insert_smtp_refusal_bounce}
use skymail_backend.Queue.{Row, Statement}
use skymail_backend.Guard.{
  SendError, GraphReply, defer_throttled, count_send_failure, at_least_retry_after, on_queue,
  claimed_at,
}
pub mod Attempts
pub mod Recorded
pub mod Settled
pub mod Ends

abbrev pub max_send_attempts : ℕ
max_send_attempts = 5

-- retryDelay. Go's shift does not wrap for the attempts that recordSendFailure retries, which are below
-- max_send_attempts.
unfoldable pub retry_delay : ℕ → ℕ
retry_delay attempts =
    let delay = 30 * second * 2 ^ attempts in if ltb (10 * minute) delay then 10 * minute else delay

abbrev suppress_reply : ℕ → ℕ → Option SmtpReply → Store → Store
suppress_reply now id none st = st
suppress_reply now id (some r) st =
    if permanent r
    then suppress_queue_row_address id r now (insert_smtp_refusal_bounce id r st)
    else st

-- suppressRefused
unfoldable pub suppress_refused : (ℕ → Bool) → ℕ → Row → SendError → Store → Store
suppress_refused lost now job e st =
    if not (text_eq job.channel (codes "email")) || lost 3
    then st
    else suppress_reply now job.id e.smtp st

unfoldable pub giving_up : Row → SendError → Bool
giving_up job e = e.permanent || leb max_send_attempts (job.attempts + 1)

abbrev after_failed : BulkGuard → (ℕ → Bool) → ℕ → Row → SendError → Store × ℕ → Store
after_failed guard lost now job e (st, n) =
    if n == 0
    then st
    else count_send_failure guard lost now job (suppress_refused lost now job e st)

-- recordSendFailure past deferThrottled.
unfoldable pub record_failure : BulkGuard → ℕ → (ℕ → Bool) → ℕ → Row → SendError → Store → Store
record_failure guard me lost now job e st =
    let failed = Statement.set_failed job.id me (claimed_at job) e.text in
    let delay = at_least_retry_after (retry_delay job.attempts) e in
    let again = Statement.reschedule job.id me (claimed_at job) e.text (delay / second) in
    if giving_up job e
    then after_failed guard lost now job e (on_queue (lost 2) now failed st)
    else (on_queue (lost 6) now again st).0

abbrev unless_handled : BulkGuard → ℕ → (ℕ → Bool) → ℕ → Row → SendError → Store × Bool → Store
unless_handled guard me lost now job e (st, true) = st
unless_handled guard me lost now job e (st, false) = record_failure guard me lost now job e st

-- recordSendFailure
unfoldable pub record_send_failure :
    BulkGuard → ℕ → (ℕ → Bool) → ℕ → Row → SendError → Store → Store
record_send_failure guard me lost now job e st =
    unless_handled guard me lost now job e (defer_throttled guard me lost now job e st)

-- strconv.Quote, of a text of printable characters.
abbrev escaped : Text → Text
escaped [] = []
escaped (c ∷ s) =
    let rest = escaped s in if c == b'"' || c == b'\\' then b'\\' ∷ c ∷ rest else c ∷ rest

abbrev quoted : Text → Text
quoted s = b'"' ∷ (escaped s ++ b'"' ∷ [])

-- unknownChannel
abbrev pub unknown_channel : Text → SendError
unknown_channel channel = record {
  text = codes "no sender for channel " ++ quoted channel;
  permanent = true;
  smtp = none;
  graph = none;
}

abbrev record_outcome : BulkGuard → ℕ → (ℕ → Bool) → ℕ → Row → Option SendError → Store → Store
record_outcome guard me lost now job none st =
    (on_queue (lost 7) now (Statement.set_sent job.id me (claimed_at job)) st).0
record_outcome guard me lost now job (some e) st = record_send_failure guard me lost now job e st

abbrev pub cut_off : Bool → Option SendError → Bool
cut_off ended none = false
cut_off ended (some e) = ended

-- send, of a row whose channel is `known` and whose sender gave `result`; `ended` says that the
-- process's context had ended by then.
unfoldable pub send :
    BulkGuard → ℕ → (ℕ → Bool) → ℕ → Row → Bool → Bool → Option SendError → Store → Store
send guard me lost now job known ended result st =
    let err = if known then result else some (unknown_channel job.channel) in
    if known && cut_off ended err then st else record_outcome guard me lost now job err st
