-- ===== src/Preferences.antt =====
-- internal/mailer/preference_gate.go: what core said of the recipients of duyuru mail, how long it is
-- used, and what a row that is asked about again is decided to be. A recipient's key is core's
-- Recipient itself; a verdict's is its category and its recipient.
use skymail_backend.Prelude.{
  ℕ, ◌+◌, ◌*◌, Bool, true, false, ◌&&◌, ◌||◌, not, Option, none, some, List, [], ◌∷◌, ◌++◌, Text,
  codes, text_eq, select, ltb, ◌==◌, if◌then◌else◌,
}
use skymail_backend.Env.{Setting, second, switch_from_env, hour}
use skymail_backend.Lanes.{
  SendLanes, lane_config, duyuru, is_off, Purpose, duyuru_purpose, purpose_of,
}
use skymail_backend.Core.{Recipient, by_sub, by_email, Result, normalize_address}
use skymail_backend.Taken.{HeldRow}
use skymail_backend.Waiting.{GatedRow}
pub mod Gate
pub mod Resolved
pub mod Answered
pub mod Found
pub mod Kept
pub mod Ended

abbrev pub preference_cache_ttl : ℕ
preference_cache_ttl = 60 * second

abbrev pub preference_breaker_open : ℕ
preference_breaker_open = 30 * second

abbrev pub preference_undecided_after : ℕ
preference_undecided_after = 48 * hour

abbrev pub preference_fetch_delay : ℕ
preference_fetch_delay = second

abbrev pub preference_error_prefix : Text
preference_error_prefix = codes "preference: "

abbrev pub preference_undecided_error : Text
preference_undecided_error = preference_error_prefix ++ codes "unavailable"

abbrev pub preference_category_gone_error : Text
preference_category_gone_error = preference_error_prefix ++ codes "category_unknown"

abbrev pub unsubscribe_missing_error : Text
unsubscribe_missing_error = codes "unsubscribe_missing"

-- recipientKey and askedRecipient
unfoldable pub recipient_key : Option ℕ → Text → Recipient
recipient_key (some sub) address = by_sub sub
recipient_key none address = by_email (normalize_address address)

abbrev pub same_recipient : Recipient → Recipient → Bool
same_recipient (by_sub a) (by_sub b) = a == b
same_recipient (by_email a) (by_email b) = text_eq a b
same_recipient _ _ = false

-- unsubscribe.Config, as the check reads it.
pub record LinkConfig : Type 0 where
  pub link_on : Bool
  pub base_url : Text
  pub has_key : Bool

-- PreferenceGate, less core.
pub record PreferenceGate : Type 0 where
  pub gate_on : Bool
  pub links : LinkConfig

abbrev preference_env : Text
preference_env = codes "SKYMAIL_BULK_PREFERENCE"

-- PreferenceGateFromEnv
unfoldable pub preference_gate_from_env : (Text → Text) → Setting Bool
preference_gate_from_env getenv = switch_from_env getenv preference_env

-- What stops startup.
pub data Missing : Type 0 where
  purpose_off list_unsubscribe_off duyuru_lane_off link_off no_key : Missing

-- PreferenceGate.CheckWith
unfoldable pub check_with : PreferenceGate → SendLanes → Option Missing
check_with g lanes =
    if not g.gate_on
    then none
    else if not lanes.purpose
    then some purpose_off
    else if not lanes.list_unsubscribe
    then some list_unsubscribe_off
    else if is_off (lane_config lanes duyuru).transport
    then some duyuru_lane_off
    else if not g.links.link_on || text_eq g.links.base_url []
    then some link_off
    else if not g.links.has_key
    then some no_key
    else none

-- A cached verdict with its key.
pub record CachedVerdict : Type 0 where
  pub category : Text
  pub recipient : Recipient
  pub result : Result
  pub at : ℕ

pub record GoneCategory : Type 0 where
  pub category : Text
  pub at : ℕ

pub record Need : Type 0 where
  pub category : Text
  pub recipient : Recipient

-- preferenceCache, less its lock and its settings, which newPreferenceCache takes from the constants.
pub record PreferenceCache : Type 0 where
  pub verdicts : List CachedVerdict
  pub gone : List GoneCategory
  pub needs : List Need
  pub open_until : ℕ
  pub fetching : Bool

-- newPreferenceCache
abbrev pub new_preference_cache : PreferenceCache
new_preference_cache = record {
  verdicts = [];
  gone = [];
  needs = [];
  open_until = 0;
  fetching = false;
}

-- preferenceCache.fresh, of an instant that is set.
abbrev pub is_fresh : ℕ → ℕ → Bool
is_fresh now at = ltb now (at + preference_cache_ttl)

abbrev pub is_about : Text → Recipient → CachedVerdict → Bool
is_about category recipient v = text_eq v.category category && same_recipient v.recipient recipient

unfoldable pub find_verdict : Text → Recipient → List CachedVerdict → Option CachedVerdict
find_verdict category recipient [] = none
find_verdict category recipient (v ∷ vs) =
    if is_about category recipient v then some v else find_verdict category recipient vs

abbrev put_verdict : CachedVerdict → List CachedVerdict → List CachedVerdict
put_verdict v vs = v ∷ select (λ w. not (is_about v.category v.recipient w)) vs

-- The results of a call, each with the recipient it is about.
abbrev put_verdicts : Text → ℕ → List (Recipient × Result) → List CachedVerdict → List CachedVerdict
put_verdicts category at [] vs = vs
put_verdicts category at (found ∷ rest) vs = put_verdicts category at rest (
    put_verdict (record { category = category; recipient = found.0; result = found.1; at = at }) vs)

-- preferenceCache.remember, at the instant `now`.
unfoldable pub remember :
    ℕ → Text → ℕ → List (Recipient × Result) → PreferenceCache → PreferenceCache
remember now category at results c = record c {
  verdicts = select (λ v. is_fresh now v.at) (put_verdicts category at results c.verdicts);
}

-- What is decided of a row: it is held, it waits for an answer, it goes on as it is, or it goes on as
-- allowed at an instant.
pub data Decision : Type 0 where
  hold : Text → Decision
  wait : Decision
  go : Decision
  allow : ℕ → Decision

abbrev pub is_gone : ℕ → Text → List GoneCategory → Bool
is_gone now category [] = false
is_gone now category (g ∷ gs) =
    if text_eq g.category category then is_fresh now g.at else is_gone now category gs

abbrev pub decision_of : ℕ → Option CachedVerdict → Decision
decision_of now none = wait
decision_of now (some v) =
    if not (is_fresh now v.at)
    then wait
    else if not v.result.matched
    then go
    else if v.result.allowed
    then allow v.at
    else hold (preference_error_prefix ++ v.result.reason)

-- One row of preferenceCache.decide.
unfoldable pub decision : ℕ → PreferenceCache → Text → Recipient → Decision
unfolding find_verdict
decision now c category recipient =
    if is_gone now category c.gone
    then hold preference_category_gone_error
    else decision_of now (find_verdict category recipient c.verdicts)

-- checkedRow
pub record CheckedRow : Type 0 where
  pub gated : GatedRow
  pub category : Text
  pub recipient : Recipient

-- preferenceVerdict; `checked` has an instant with each of its rows, and `asked` what the cache is to
-- fetch.
pub record PreferenceVerdict : Type 0 where
  pub held : List HeldRow
  pub checked : List (ℕ × ℕ)
  pub waiting : List GatedRow
  pub asked : List Need

abbrev pub decided : Decision → CheckedRow → PreferenceVerdict → PreferenceVerdict
decided (hold reason) row v = record v {
  held = record { id = row.gated.id; reason = reason } ∷ v.held;
}
decided wait row v = record v {
  waiting = row.gated ∷ v.waiting;
  asked = record { category = row.category; recipient = row.recipient } ∷ v.asked;
}
decided go row v = v
decided (allow at) row v = record v { checked = (at, row.gated.id) ∷ v.checked }

-- preferenceCache.decide
unfoldable pub decide : ℕ → PreferenceCache → List CheckedRow → PreferenceVerdict
unfolding decision
decide now c [] = record { held = []; checked = []; waiting = []; asked = [] }
decide now c (row ∷ rows) =
    decided (decision now c row.category row.recipient) row (decide now c rows)

abbrev is_need : Need → Need → Bool
is_need a b = text_eq a.category b.category && same_recipient a.recipient b.recipient

abbrev any_need : Need → List Need → Bool
any_need n [] = false
any_need n (m ∷ ms) = is_need n m || any_need n ms

-- What decide notes in the cache: each category and recipient once.
unfoldable pub note_needs : List Need → PreferenceCache → PreferenceCache
note_needs [] c = c
note_needs (n ∷ ns) c =
    let c' = note_needs ns c in
    if any_need n c'.needs then c' else record c' { needs = n ∷ c'.needs }
