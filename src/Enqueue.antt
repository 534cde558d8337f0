-- ===== src/Enqueue.antt =====
-- internal/mailer/mailer.go's renderAndQueue, with suppressionsOf, unsubscribesOf and preferenceOf: what
-- becomes of each recipient of a send when it is queued. The templates' rendering, which is Go's own, and
-- the encryption of an unsubscribe token are parameters; tracking is left out.
use skymail_backend.Prelude.{
  ℕ, zero, suc, ◌+◌, Bool, true, false, ◌&&◌, ◌||◌, not, Option, none, some, List, [], ◌∷◌, ◌++◌,
  Text, codes, map, text_eq, ltb, if◌then◌else◌,
}
use skymail_backend.Lanes.{
  SendLanes, Purpose, islem, purpose_of, lane_of, account_mail, priority_bulk, is_duyuru,
}
use skymail_backend.Smtp.{reserved_domain}
use skymail_backend.Queue.{Row, Task, pending, failed}
use skymail_backend.Store.{suppression_address}
use skymail_backend.Unsubscribed.{mem_text, is_duyuru_lane, unsubscribed_error}
use skymail_backend.Core.{Result}
use skymail_backend.Tokens.{seal}
use skymail_backend.Preferences.{LinkConfig, recipient_key, preference_error_prefix}
use skymail_backend.Preferences.Resolved.{PreferenceVerdicts, find_result}
pub mod Placed
pub mod Linked

-- commonMailRow, as renderAndQueue reads it for a recipient.
pub record RecipientRow : Type 0 where
  pub email : Text
  pub sub : Option ℕ
  pub unsubscribe_url : Text
  pub source_ref : Option Text
  pub in_body_only : Bool

-- GetSuppressedAddressesRow: a row of mail_suppressions, of any source.
pub record SuppressedAddress : Type 0 where
  pub address : Text
  pub source : Text
  pub reason_code : Text

-- queue, as renderAndQueue reads it, and what it reads of the tables. `encode` encrypts and
-- encodes the token of an address.
pub record Queueing : Type 0 where
  pub lanes : SendLanes
  pub priority : ℕ
  pub refuse_reserved : Bool
  pub preference_on : Bool
  pub verdicts : Option PreferenceVerdicts
  pub links : LinkConfig
  pub encode : Text → Text
  pub suppressions : List SuppressedAddress
  pub unsubscribes : List Text

abbrev pub reserved_domain_error : Text
reserved_domain_error =
    codes "reserved_domain: not sent, the address is in a domain reserved by RFC 2606/6761"

abbrev suppressed_error_prefix : Text
suppressed_error_prefix = codes "suppressed: "

-- suppressedError
unfoldable pub suppressed_error : SuppressedAddress → Text
suppressed_error s = suppressed_error_prefix ++ (s.source ++ (codes " " ++ s.reason_code))

-- suppressionsOf: the suppression of an address.
unfoldable pub suppression_of : Text → List SuppressedAddress → Option SuppressedAddress
suppression_of address [] = none
suppression_of address (s ∷ ss) =
    if text_eq s.address address then some s else suppression_of address ss

-- unsubscribesOf: whether the record applies to a send. A send without a purpose in the system lane is
-- never looked up, nor is an islem one.
abbrev pub is_looked_up : Option Purpose → ℕ → Bool
is_looked_up (some islem) priority = false
is_looked_up (some _) priority = true
is_looked_up none priority = not (ltb priority_bulk priority)

unfoldable pub reads_unsubscribes : Queueing → Task → Bool
reads_unsubscribes q t =
    let purpose = purpose_of q.lanes t.purpose in
    is_looked_up purpose q.priority
    && is_duyuru_lane (lane_of purpose t.template_key t.template_system q.priority)

-- queue.gated
unfoldable pub gated : Queueing → Task → Bool
gated q t =
    let purpose = purpose_of q.lanes t.purpose in
    q.preference_on
    && is_duyuru purpose
    && not t.self_test
    && is_duyuru_lane (lane_of purpose t.template_key t.template_system q.priority)

abbrev sealed : Text → Option Text → Text
sealed base none = []
sealed base (some token) = base ++ (codes "/u/" ++ token)

-- unsubscribe.Config.Link, empty where there is none.
unfoldable pub own_link : LinkConfig → (Text → Text) → Text → Text
unfolding seal
own_link links encode address =
    if not links.link_on || text_eq links.base_url [] || not links.has_key
    then []
    else sealed links.base_url (seal encode address)

-- preferenceOutcome
pub record PreferenceOutcome : Type 0 where
  pub link : Text
  pub checked : Option ℕ
  pub skip : Text

abbrev no_outcome : PreferenceOutcome
no_outcome = record { link = []; checked = none; skip = [] }

abbrev pub outcome_of : Queueing → Text → ℕ → Option Result → PreferenceOutcome
outcome_of q address at none = no_outcome
outcome_of q address at (some r) =
    if not r.matched
    then record no_outcome { link = own_link q.links q.encode address }
    else if r.allowed
    then record no_outcome { link = r.unsubscribe_url; checked = some at }
    else record no_outcome { skip = preference_error_prefix ++ r.reason }

abbrev pub outcome_in : Queueing → RecipientRow → Option PreferenceVerdicts → PreferenceOutcome
outcome_in q r none = no_outcome
outcome_in q r (some v) =
    outcome_of q r.email v.at (find_result (recipient_key r.sub r.email) v.results)

-- preferenceOf, where the send is checked.
unfoldable pub preference_of : Queueing → Task → RecipientRow → PreferenceOutcome
preference_of q t r = if gated q t then outcome_in q r q.verdicts else no_outcome

-- What becomes of a recipient: a row that failed, and why; a mail that does not render; or a row that is
-- queued with its link, when core allowed it, and whether it goes though its address is suppressed.
pub data Placement : Type 0 where
  fails unrendered : Text → Placement
  queues : (link : Text) (checked : Option ℕ) (exempt : Bool) → Placement

abbrev rendered_as : Text → Option ℕ → Bool → Option Text → Placement
rendered_as link checked exempt none = queues link checked exempt
rendered_as link checked exempt (some error) = unrendered error

abbrev pub is_suppressed : Option SuppressedAddress → Bool
is_suppressed none = false
is_suppressed (some _) = true

abbrev pub error_of : Option SuppressedAddress → Text
error_of none = []
error_of (some s) = suppressed_error s

-- The loop's body; `render` gives the error of a mail that does not render.
unfoldable pub place : Queueing → Task → (RecipientRow → Option Text) → RecipientRow → Placement
unfolding preference_of suppression_of
place q t render r =
    let address = suppression_address r.email in
    let suppression = suppression_of address q.suppressions in
    let outcome = preference_of q t r in
    let link = if text_eq outcome.link [] then r.unsubscribe_url else outcome.link in
    if q.refuse_reserved && reserved_domain r.email
    then fails reserved_domain_error
    else if is_suppressed suppression && not (account_mail t.template_key t.template_system)
    then fails (error_of suppression)
    else if reads_unsubscribes q t && mem_text address q.unsubscribes
    then fails unsubscribed_error
    else if not (text_eq outcome.skip [])
    then fails outcome.skip
    else rendered_as link outcome.checked (is_suppressed suppression)
        (render (record r { unsubscribe_url = link }))

-- nonEmpty and listUnsubscribeOf
abbrev pub kept_link : RecipientRow → Text → Option Text
kept_link r [] = none
kept_link r (c ∷ s) = if r.in_body_only then none else some (c ∷ s)

-- A row as the database makes it: CreateMailQueueItems leaves the rest to the columns' defaults.
abbrev pub new_row : ℕ → ℕ → ℕ → Queueing → RecipientRow → Text → Option ℕ → Row
new_row now id task q r link checked = record {
  id = id;
  task_id = task;
  channel = codes "email";
  recipient_email = r.email;
  recipient_sub = r.sub;
  priority = q.priority;
  status = pending;
  attempts = 0;
  throttles = 0;
  error = none;
  created_at = now;
  next_attempt_at = now;
  claimed_at = none;
  claimed_by = none;
  sent_at = none;
  link = kept_link r link;
  preference_checked_at = checked;
  source_ref = r.source_ref;
}

-- CreateFailedMailQueueItem
abbrev pub failed_row : ℕ → ℕ → ℕ → Queueing → RecipientRow → Text → Row
failed_row now id task q r error = record (new_row now id task q r [] none) {
  status = failed;
  error = some error;
  source_ref = none;
}

-- What renderAndQueue writes: the queued rows, the failed ones, and the suppressed addresses that it
-- flags (FlagSuppressionsExempt); or the error for which it writes nothing.
pub record Written : Type 0 where
  pub queued : List Row
  pub failed : List Row
  pub flagged : List Text

pub data QueueResult : Type 0 where
  refused : Text → QueueResult
  written : Written → QueueResult

abbrev pub flag : Bool → Text → List Text → List Text
flag true address as' = address ∷ as'
flag false address as' = as'

abbrev pub add_placed :
    Bool → ℕ → ℕ → ℕ → Queueing → RecipientRow → Placement → QueueResult → QueueResult
add_placed strict now id task q r (unrendered error) (refused e) =
    if strict then refused error else refused e
add_placed strict now id task q r _ (refused e) = refused e
add_placed strict now id task q r (fails error) (written w) =
    written (record w { failed = failed_row now id task q r error ∷ w.failed })
add_placed strict now id task q r (unrendered error) (written w) =
    if strict
    then refused error
    else written (record w { failed = failed_row now id task q r error ∷ w.failed })
add_placed strict now id task q r (queues link checked exempt) (written w) = written (record w {
  queued = new_row now id task q r link checked ∷ w.queued;
  flagged = flag exempt (suppression_address r.email) w.flagged;
})

-- The loop of renderAndQueue, and what it writes; the rows get the ids from `id` on.
unfoldable pub queue_rows :
    Bool → ℕ → ℕ → Queueing → Task → (RecipientRow → Option Text) → List RecipientRow → QueueResult
unfolding place
queue_rows strict now id q t render [] = written (record { queued = []; failed = []; flagged = [] })
queue_rows strict now id q t render (r ∷ rs) =
    add_placed strict now id t.id q r (place q t render r)
      (queue_rows strict now (suc id) q t render rs)

-- renderAndQueue, of a send and its recipients. `prepared` is the error of the send's variables, where
-- they are no JSON, or of parsing its templates.
unfoldable pub render_and_queue :
    Bool
    → ℕ
    → ℕ
    → Queueing
    → Task
    → Option Text
    → (RecipientRow → Option Text)
    → List RecipientRow
    → QueueResult
unfolding queue_rows
render_and_queue strict now id q t prepared render [] =
    written (record { queued = []; failed = []; flagged = [] })
render_and_queue strict now id q t (some error) render (r ∷ rs) = refused error
render_and_queue strict now id q t none render (r ∷ rs) =
    queue_rows strict now id q t render (r ∷ rs)
