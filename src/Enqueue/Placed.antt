-- ===== src/Enqueue/Placed.antt =====
-- Which recipients of a send are queued, and which rows are written failed.
use skymail_backend.Prelude.{
  ℕ, ◌+◌, ◌≡◌, ◌⊎◌, Bool, true, false, ◌&&◌, Option, none, some, List, [], ◌∷◌, Text, All, length,
  ◌++◌,
}
use skymail_backend.Lanes.{account_mail}
use skymail_backend.Smtp.{reserved_domain}
use skymail_backend.Queue.{Row, Task, pending, failed}
use skymail_backend.Store.{suppression_address}
use skymail_backend.Unsubscribed.{mem_text, unsubscribed_error}
use skymail_backend.Core.{Result}
use skymail_backend.Preferences.{recipient_key, preference_error_prefix}
use skymail_backend.Preferences.Resolved.{PreferenceVerdicts, find_result}
use skymail_backend.Enqueue.{
  RecipientRow, SuppressedAddress, Queueing, suppression_of, reads_unsubscribes, gated, Placement,
  fails, unrendered, queues, suppressed_error, reserved_domain_error, QueueResult, refused, written,
}

-- Core's answer does not refuse the mail.
abbrev Permits : Option Result → Type 0
Permits none = Unit
Permits (some r) = (r.matched ≡ false) ⊎ (r.allowed ≡ true)

abbrev PermitsIn : Option PreferenceVerdicts → Option ℕ → Text → Type 0
PermitsIn none sub email = Unit
PermitsIn (some v) sub email = Permits (find_result (recipient_key sub email) v.results)

-- A recipient that may be queued in a send: not in a reserved domain where those are refused, not at a
-- suppressed address unless it is account mail, not at an address that left the stream, and not refused
-- by core where the send is checked.
abbrev pub IsQueueable : Queueing → Task → Text → Option ℕ → Type 0
IsQueueable q t email sub =
    ((q.refuse_reserved && reserved_domain email) ≡ false)
    × ((suppression_of (suppression_address email) q.suppressions ≡ none)
        ⊎ (account_mail t.template_key t.template_system ≡ true))
    × ((reads_unsubscribes q t && mem_text (suppression_address email) q.unsubscribes) ≡ false)
    × ((gated q t ≡ false) ⊎ PermitsIn q.verdicts sub email)

-- Core's answer about a recipient, which refuses the mail.
abbrev Refuses : Option PreferenceVerdicts → RecipientRow → Result → Type 0
Refuses none r res = ⊥
Refuses (some v) r res =
    (find_result (recipient_key r.sub r.email) v.results ≡ some res)
    × (res.matched ≡ true)
    × (res.allowed ≡ false)

-- The recipient's mail does not render, for a reason: with the link that it would have.
abbrev Unrendered : (RecipientRow → Option Text) → RecipientRow → Text → Type 0
Unrendered render r error =
    (link : Text) × (render (record r { unsubscribe_url = link }) ≡ some error)

-- What holds a recipient back, with the error that is recorded.
abbrev pub HeldBack : Queueing → Task → (RecipientRow → Option Text) → RecipientRow → Text → Type 0
HeldBack q t render r error =
    (((q.refuse_reserved && reserved_domain r.email) ≡ true) × (error ≡ reserved_domain_error))
    ⊎ (((s : SuppressedAddress) × (suppression_of (suppression_address r.email) q.suppressions
            ≡ some s)
          × (account_mail t.template_key t.template_system ≡ false)
          × (error ≡ suppressed_error s))
        ⊎ ((((reads_unsubscribes q t && mem_text (suppression_address r.email) q.unsubscribes)
                ≡ true)
              × (error ≡ unsubscribed_error))
            ⊎ (((res : Result) × (gated q t ≡ true)
                  × Refuses q.verdicts r res
                  × (error ≡ preference_error_prefix ++ res.reason))
                ⊎ Unrendered render r error)))

abbrev PlacedWell :
    Queueing → Task → (RecipientRow → Option Text) → RecipientRow → Placement → Type 0
PlacedWell q t render r (queues link checked exempt) = IsQueueable q t r.email r.sub
PlacedWell q t render r (fails error) = HeldBack q t render r error
PlacedWell q t render r (unrendered error) = Unrendered render r error

-- A recipient is one of these.
abbrev pub Among : RecipientRow → List RecipientRow → Type 0
Among r [] = ⊥
Among r (x ∷ xs) = (r ≡ x) ⊎ Among r xs

-- A row is for a recipient of these, of whom something holds.
abbrev IsFor : Task → List RecipientRow → (RecipientRow → Type 0) → Row → Type 0
IsFor t rs P x =
    (x.task_id ≡ t.id)
    × ((r : RecipientRow) × Among r rs
        × (x.recipient_email ≡ r.email)
        × (x.recipient_sub ≡ r.sub)
        × P r)

abbrev pub IsQueued : Queueing → Task → List RecipientRow → Row → Type 0
IsQueued q t rs x = (x.status ≡ pending) × IsFor t rs (λ r. IsQueueable q t r.email r.sub) x

abbrev pub IsFailed :
    Queueing → Task → (RecipientRow → Option Text) → List RecipientRow → Row → Type 0
IsFailed q t render rs x =
    (x.status ≡ failed)
    × IsFor t rs (λ r. (error : Text) × (x.error ≡ some error) × HeldBack q t render r error) x

-- What a result says of the recipients. Each has one row, which is queued where nothing holds it back and
-- failed with what does; or the whole send is refused, for its variables or its templates, or for one
-- recipient's mail that does not render where the call is strict.
abbrev pub Sorts :
    Bool
    → Queueing
    → Task
    → Option Text
    → (RecipientRow → Option Text)
    → List RecipientRow
    → QueueResult
    → Type 0
Sorts strict q t prepared render rs (refused error) =
    (prepared ≡ some error)
    ⊎ ((strict ≡ true) × ((r : RecipientRow) × Among r rs × Unrendered render r error))
Sorts strict q t prepared render rs (written w) =
    (length w.queued + length w.failed ≡ length rs)
    × All (IsQueued q t rs) w.queued
    × All (IsFailed q t render rs) w.failed
