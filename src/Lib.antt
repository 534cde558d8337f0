-- ===== src/Lib.antt =====
-- The mail queue of SkyMail's backend: how mail is taken from it, sent, and recorded.
--
-- A request queues rows in mail_queue, each for one recipient of a send (mail_tasks). Every process runs a
-- dispatcher, which takes due rows for its idle workers, the system lane's before the bulk lane's; a
-- worker sends a row through the relay or Graph and records what came of it. Processes share only the
-- database: a row that a process took is its own for a lease, the bulk lane keeps to a send budget, and
-- throttling replies, failing sends and operators hold rows back.
--
-- Which file is about which part:
--   Prelude, Prelude/*        shared names, Boolean tests, lists, and text as code points with the parts of
--                             Go's strings and strconv that the code uses
--   Rows, Updates, Queue      internal/database/query.sql.go (from query.sql): MailQueue and MailTask as
--                             records, each statement of the mailer and of a send's controls on
--                             mail_queue as its WHERE and its SET, and the takes
--                             ProcessSystemQueueItems and ProcessBulkQueueItems. Queue/* are about
--                             histories of those by many processes
--   Budget, Budget/*          internal/mailer/budget.go and bulkShare of mailer.go: the room that the send
--                             windows leave the bulk lane
--   Store                     the tables together, with HoldBulkLane, SuppressQueueRowAddress
--                             and InsertSMTPRefusalBounce
--   Guard, Guard/*            internal/mailer/bulk_guard.go: throttled, holdBulkLane, bulkLaneHeld,
--                             deferThrottled, countSendFailure, skipHeldTasks
--   Outcome, Outcome/*        internal/mailer/mailer.go: send, recordSendFailure, retryDelay, with
--                             suppressRefused of suppression.go
--   Smtp, Smtp/*              internal/mailer/smtp_refusal.go: smtpReply, smtpFailure, reservedDomain
--   Graph                     internal/mailer/graph.go: graphFailure, retryAfter
--   Dsn                       internal/dsn/dsn.go: RecipientAddressStatus and Classify
--   Lanes, Lanes/*            internal/mailer/lanes.go: LaneOf and SendLanes
--   Env, Env/*                the settings that the files of internal/mailer read at startup
--   Dispatch, Dispatch/*      internal/mailer/mailer.go: drainQueue, dispatch and untake, as a step relation
--   Unsubscribed, Unsubscribed/*  internal/mailer/unsubscribe.go: skipUnsubscribed
--   Waiting, Waiting/*        internal/mailer/consent_gate.go: deferWaiting and consentBackoff
--   Taken, Taken/*            writeHeld and writePreferenceHeld, and what the checks of a take promise
--   Core, Core/*              internal/consent/client.go: Resolve and its checks on core's answer
--   Consents, Consents/*      internal/mailer/consent_gate.go: the consent cache and gateConsents
--   Preferences, Preferences/*  internal/mailer/preference_gate.go: the preference cache,
--                             gatePreferences, ResolvePreferences and the fetch after a turn
--   Tokens                    internal/unsubscribe/token.go: which addresses a token can carry
--   Enqueue, Enqueue/*        internal/mailer/mailer.go: renderAndQueue, with suppressionsOf, unsubscribesOf
--                             and preferenceOf
--   Approvals, Approvals/*    internal/handlers/mail_approval_flow.go and mail_approval.go: act, the actions
--                             on a request for approval, and its expiry
--   Take, Take/*              internal/mailer/budget.go: claimBulk, with all its checks, and countSystem
--   Control, Control/*        internal/handlers/mail_task_control.go: controlTask
--   Tests, Tests/*            the theorems and the definitions on concrete inputs
--
-- How the code is read:
--   * A statement is one step at the instant that NOW() reads in it. A history is a list of such steps, in
--     any order and by any processes; of a take, which rows other transactions hold locked is arbitrary.
--   * An instant or a span is a natural number of nanoseconds. Instants are more than two days after the
--     epoch, and a process's clock and the database's are one number in a step.
--   * Ids, claimant names and Keycloak subjects are numbers: the code only compares them.
--   * A handler takes `lost`, which says of each of its statements whether the database fails it; the
--     code logs that and goes on. Logging is left out.
--   * windowRoom and limitRoom compute with floats; here they are exact, in units of a window's
--     nanoseconds, with the code's epsilon of a billionth of a row.
--   * Lower-casing is of ASCII letters only.
--   * retryDelay is read without the wrap of a Go shift: recordSendFailure calls it below five attempts.
--     The product of a Retry-After's seconds, which can wrap, is taken modulo 2 ^ 64.
--   * Loops are over a list or a text. Those over core's pages count down the recipients: a page takes at
--     least one, so that none is left over.
--   * The error of go-mail, of net/mail's ParseAddress, of time's ParseDuration and of net/http's
--     ParseTime, and the JSON of Graph's reply, are inputs or parameters.
--
--   * The transaction of a take runs at one instant, and its failure is one input: what the caches noted
--     to fetch before it failed is left out. A loop over a Go map runs in the order of a list here.
--
--   * In renderAndQueue the templates' rendering and the encryption of a token are parameters; in an action on
--     a request for approval, so are the checks of a template's values, the checks before the lock, and
--     the queueing to the request's audience. A statement that fails there rolls the transaction back,
--     which is one of the refusals.
--
--   * Rows are of sends that keep them as they ended: the trigger that erases the recipients of an
--     erase_after_send send is left out. Limits are small enough that their products fit in 64 bits.
--
-- What is not here: the statements that empty what was sent (retention, masking), account erasure, the
-- rendering of a mail, the dispatcher's goroutines and its stop, tracking, the notices of an approval and
-- its submission, the parsing of reports, and the other HTTP handlers.
mod Tests
pub mod Prelude
pub mod Dsn
pub mod Env
pub mod Lanes
pub mod Smtp
pub mod Rows
pub mod Updates
pub mod Queue
pub mod Store
pub mod Guard
pub mod Graph
pub mod Outcome
pub mod Control
pub mod Core
pub mod Preferences
pub mod Consents
pub mod Taken
pub mod Unsubscribed
pub mod Waiting
pub mod Tokens
pub mod Enqueue
pub mod Approvals
pub mod Take
pub mod Dispatch
pub mod Budget
