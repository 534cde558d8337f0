-- ===== src/Consents.antt =====
-- internal/mailer/consent_gate.go: who consented, as core last said, and what a row that a contact
-- consent applies to is decided to be.
use skymail_backend.Prelude.{
  ℕ, ◌+◌, ◌*◌, Bool, true, false, ◌&&◌, ◌||◌, not, Option, none, some, List, [], ◌∷◌, ◌++◌, Text,
  codes, text_eq, select, ltb, ◌==◌, if◌then◌else◌,
}
use skymail_backend.Env.{Setting, ◌>>=◌, reads, second, hour, switch_from_env}
use skymail_backend.Lanes.{SendLanes, lane_config, duyuru, is_off}
use skymail_backend.Unsubscribed.{mem_text}
use skymail_backend.Taken.{HeldRow}
use skymail_backend.Waiting.{GatedRow}
pub mod Gate
pub mod Found
pub mod Kept
pub mod Linked
pub mod Ended

abbrev pub consent_cache_ttl : ℕ
consent_cache_ttl = 60 * second

abbrev pub consent_undecided_after : ℕ
consent_undecided_after = 48 * hour

abbrev pub consent_fetch_delay : ℕ
consent_fetch_delay = second

abbrev pub no_promotional_consent_error : Text
no_promotional_consent_error = codes "suppressed: no_promotional_consent"

abbrev pub no_announcement_consent_error : Text
no_announcement_consent_error = codes "suppressed: no_announcement_consent"

abbrev pub consent_undecided_error : Text
consent_undecided_error = codes "consent: unavailable"

-- ConsentGate, less core.
pub record ConsentGate : Type 0 where
  pub promotional : Bool
  pub list_consent : Bool

abbrev promotional_env : Text
promotional_env = codes "SKYMAIL_PROMOTIONAL"

abbrev list_consent_env : Text
list_consent_env = codes "SKYMAIL_LIST_CONSENT"

-- ConsentGateFromEnv; which of two malformed switches it names is any.
unfoldable pub consent_gate_from_env : (Text → Text) → Setting ConsentGate
consent_gate_from_env getenv = switch_from_env getenv promotional_env >>= λ promotional.
    switch_from_env getenv list_consent_env >>= λ list_consent.
    reads (record { promotional = promotional; list_consent = list_consent })

-- What stops startup.
pub data Unfit : Type 0 where
  list_consent_purpose_off promotional_purpose_off : Unfit
  promotional_list_unsubscribe_off promotional_lane_off : Unfit

-- ConsentGate.CheckWith
unfoldable pub consents_fit : ConsentGate → SendLanes → Option Unfit
consents_fit g lanes =
    if g.list_consent && not lanes.purpose
    then some list_consent_purpose_off
    else if not g.promotional
    then none
    else if not lanes.purpose
    then some promotional_purpose_off
    else if not lanes.list_unsubscribe
    then some promotional_list_unsubscribe_off
    else if is_off (lane_config lanes duyuru).transport
    then some promotional_lane_off
    else none

-- cachedAccount, with its address.
pub record CachedAccount : Type 0 where
  pub address : Text
  pub matched : Bool
  pub at : ℕ

pub record ConsentNeeds : Type 0 where
  pub promotional : Bool
  pub invited : Bool
  pub addresses : List Text

abbrev pub no_needs : ConsentNeeds
no_needs = record { promotional = false; invited = false; addresses = [] }

-- consentCache, less its lock and its settings, which newConsentCache takes from the constants. An
-- instant that is not set is none.
pub record ConsentCache : Type 0 where
  pub promotional : List (Text × Text)
  pub promotional_at : Option ℕ
  pub invited : List Text
  pub invited_at : Option ℕ
  pub accounts : List CachedAccount
  pub open_until : ℕ
  pub needs : ConsentNeeds
  pub fetching : Bool

-- newConsentCache
abbrev pub new_consent_cache : ConsentCache
new_consent_cache = record {
  promotional = [];
  promotional_at = none;
  invited = [];
  invited_at = none;
  accounts = [];
  open_until = 0;
  needs = no_needs;
  fetching = false;
}

-- consentCache.fresh
abbrev pub fresh : ℕ → Option ℕ → Bool
fresh now none = false
fresh now (some at) = ltb now (at + consent_cache_ttl)

abbrev pub link_of : Text → List (Text × Text) → Option Text
link_of address [] = none
link_of address (l ∷ ls) = if text_eq l.0 address then some l.1 else link_of address ls

abbrev pub find_account : Text → List CachedAccount → Option CachedAccount
find_account address [] = none
find_account address (a ∷ as') =
    if text_eq a.address address then some a else find_account address as'

-- gatedRow, with its address.
pub record ConsentRow : Type 0 where
  pub gated : GatedRow
  pub address : Text

-- What is decided of a row: it is held, it waits for what it needs, it goes on, or it goes on with a
-- link.
pub data ConsentDecision : Type 0 where
  hold : Text → ConsentDecision
  wait : ConsentNeeds → ConsentDecision
  go : ConsentDecision
  link : Text → ConsentDecision

abbrev pub linked_or_held : Option Text → ConsentDecision
linked_or_held none = hold no_promotional_consent_error
linked_or_held (some l) = link l

-- One row of decide's first loop.
unfoldable pub promotional_decision : ℕ → ConsentCache → Text → ConsentDecision
promotional_decision now c address =
    if not (fresh now c.promotional_at)
    then wait (record no_needs { promotional = true })
    else linked_or_held (link_of address c.promotional)

-- Whether core's answer about an address's account is known, and whether it matched one.
abbrev pub known : ℕ → Option CachedAccount → Bool
known now none = false
known now (some a) = fresh now (some a.at)

abbrev pub matched : Option CachedAccount → Bool
matched none = false
matched (some a) = a.matched

-- One row of decide's second loop.
unfoldable pub announcement_decision : ℕ → ConsentCache → Text → ConsentDecision
announcement_decision now c address =
    let account = find_account address c.accounts in
    let invited_known = fresh now c.invited_at in
    if known now account && matched account
    then go
    else if invited_known && mem_text address c.invited
    then go
    else if known now account && invited_known
    then hold no_announcement_consent_error
    else wait (record {
      promotional = false;
      invited = not invited_known;
      addresses = if known now account then [] else address ∷ [];
    })

-- verdict, with what the cache is to fetch.
pub record Verdict : Type 0 where
  pub held : List HeldRow
  pub links : List (ℕ × Text)
  pub waiting : List GatedRow
  pub asked : List ConsentNeeds

abbrev pub no_verdict : Verdict
no_verdict = record { held = []; links = []; waiting = []; asked = [] }

abbrev pub decided : ConsentDecision → ConsentRow → Verdict → Verdict
decided (hold reason) row v = record v {
  held = record { id = row.gated.id; reason = reason } ∷ v.held;
}
decided (wait needs) row v = record v { waiting = row.gated ∷ v.waiting; asked = needs ∷ v.asked }
decided go row v = v
decided (link l) row v = record v { links = (row.gated.id, l) ∷ v.links }

-- One loop of decide, before what the other decides.
unfoldable pub decide_rows : (Text → ConsentDecision) → List ConsentRow → Verdict → Verdict
decide_rows f [] v = v
decide_rows f (row ∷ rows) v = decided (f row.address) row (decide_rows f rows v)

-- consentCache.decide
unfoldable pub decide : ℕ → ConsentCache → List ConsentRow → List ConsentRow → Verdict
unfolding decide_rows promotional_decision announcement_decision
decide now c promotional announcements =
    decide_rows (promotional_decision now c) promotional
      (decide_rows (announcement_decision now c) announcements no_verdict)

abbrev pub add_addresses : List Text → List Text → List Text
add_addresses [] known = known
add_addresses (a ∷ rest) known =
    let known' = add_addresses rest known in if mem_text a known' then known' else a ∷ known'

-- What decide notes in the cache.
unfoldable pub note_needs : List ConsentNeeds → ConsentCache → ConsentCache
note_needs [] c = c
note_needs (n ∷ ns) c =
    let c' = note_needs ns c in
    record c' {
      needs = record {
        promotional = n.promotional || c'.needs.promotional;
        invited = n.invited || c'.needs.invited;
        addresses = add_addresses n.addresses c'.needs.addresses;
      };
    }
