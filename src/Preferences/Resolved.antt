-- ===== src/Preferences/Resolved.antt =====
-- ResolvePreferences: core is asked about the recipients of a duyuru send before it is queued; and the
-- background fetch of what the turns found unknown, fetchPreferences and fetchVerdicts.
use skymail_backend.Prelude.{
  ℕ, zero, suc, ◌+◌, Bool, true, false, ◌&&◌, ◌||◌, not, Option, none, some, List, [], ◌∷◌, ◌++◌,
  Text, codes, length, take, text_eq, trim_space, ltb, if◌then◌else◌,
}
use skymail_backend.Lanes.{SendLanes, Purpose, purpose_of, is_duyuru}
use skymail_backend.Core.{
  Recipient, Result, Reply, Resolved, category_unknown, unavailable, resolved, resolve_batch,
  resolve,
}
use skymail_backend.Preferences.{
  PreferenceCache, Need, recipient_key, same_recipient, remember, preference_breaker_open,
}

abbrev pub drop {ℓ} : {A : Type ℓ} → ℕ → List A → List A
drop zero xs = xs
drop (suc n) [] = []
drop (suc n) (x ∷ xs) = drop n xs

abbrev pub pair_up : List Recipient → List Result → List (Recipient × Result)
pair_up [] _ = []
pair_up (k ∷ ks) [] = []
pair_up (k ∷ ks) (r ∷ rs) = (k, r) ∷ pair_up ks rs

abbrev pub join_pages :
    List Recipient
    → Resolved (List Result)
    → Resolved (List (Recipient × Result))
    → Resolved (List (Recipient × Result))
join_pages page (resolved rs) (resolved rest) = resolved (pair_up page rs ++ rest)
join_pages page (resolved rs) unavailable = unavailable
join_pages page (resolved rs) category_unknown = category_unknown
join_pages page unavailable rest = unavailable
join_pages page category_unknown rest = category_unknown

-- Core asked in pages of resolve_batch, one after the other, until one fails; as many pages as there are
-- recipients are enough.
unfoldable pub resolve_pages :
    (Text → List Recipient → Reply)
    → Text
    → ℕ
    → List Recipient
    → Resolved (List (Recipient × Result))
resolve_pages call category zero asked = resolved []
resolve_pages call category (suc pages) [] = resolved []
resolve_pages call category (suc pages) (k ∷ ks) =
    let page = take resolve_batch (k ∷ ks) in
    join_pages page (resolve call category page)
      (resolve_pages call category pages (drop resolve_batch (k ∷ ks)))

-- RecipientInfo, as the check reads it.
pub record RecipientInfo : Type 0 where
  pub email : Text
  pub sub : Option ℕ
  pub unsubscribe_url : Text

-- SendPurpose, as the check reads it.
pub record SendPurpose : Type 0 where
  pub purpose : Option Purpose
  pub category : Option Text

-- PreferenceVerdicts
pub record PreferenceVerdicts : Type 0 where
  pub category : Text
  pub results : List (Recipient × Result)
  pub at : ℕ

-- PreferenceVerdicts.of
unfoldable pub find_result : Recipient → List (Recipient × Result) → Option Result
find_result key [] = none
find_result key (found ∷ rest) =
    if same_recipient found.0 key then some found.1 else find_result key rest

-- gatedPurpose
unfoldable pub gated_purpose : Bool → SendLanes → Option Purpose → Bool
gated_purpose gate_on lanes purpose = gate_on && is_duyuru (purpose_of lanes purpose)

abbrev pub seen_in : Recipient → List Recipient → Bool
seen_in key [] = false
seen_in key (k ∷ ks) = same_recipient k key || seen_in key ks

-- A recipient that brings its own link, or has no address, is not asked about.
abbrev pub skips_asking : RecipientInfo → Bool
skips_asking r = not (text_eq r.unsubscribe_url []) || text_eq (trim_space r.email) []

abbrev pub key_of : RecipientInfo → Recipient
key_of r = recipient_key r.sub r.email

-- The recipients that core is asked about, each once.
unfoldable pub to_ask : List Recipient → List RecipientInfo → List Recipient
unfolding recipient_key
to_ask seen [] = []
to_ask seen (r ∷ rs) =
    if skips_asking r || seen_in (key_of r) seen
    then to_ask seen rs
    else key_of r ∷ to_ask (key_of r ∷ seen) rs

abbrev pub club_announcements : Text
club_announcements = codes "club:duyuru"

abbrev pub category_or_club : Option Text → Text
category_or_club none = club_announcements
category_or_club (some c) = c

-- What a resolution leaves: nil where nothing is asked, or core's answer; and the cache.
abbrev pub Resolution : Type 0
Resolution = Resolved (Option PreferenceVerdicts) × PreferenceCache

abbrev pub with_answer :
    ℕ → Text → PreferenceCache → Resolved (List (Recipient × Result)) → Resolution
with_answer now category c category_unknown = (category_unknown, c)
with_answer now category c unavailable = (unavailable, c)
with_answer now category c (resolved results) = (
  resolved (some (record { category = category; results = results; at = now })),
  remember now category now results c,
)

abbrev pub ask_core :
    Option (Text → List Recipient → Reply)
    → ℕ
    → Text
    → PreferenceCache
    → List Recipient
    → Resolution
ask_core core now category c [] =
    (resolved (some (record { category = category; results = []; at = now })), c)
ask_core none now category c (k ∷ ks) = (unavailable, c)
ask_core (some call) now category c (k ∷ ks) =
    with_answer now category c (resolve_pages call category (length (k ∷ ks)) (k ∷ ks))

-- ResolvePreferences; `core` is none without CORE_URL. Its two refusals are ErrPreferenceUnavailable and
-- ErrPreferenceCategoryUnknown.
unfoldable pub resolve_preferences :
    Bool
    → SendLanes
    → Option (Text → List Recipient → Reply)
    → ℕ
    → SendPurpose
    → List RecipientInfo
    → PreferenceCache
    → Resolution
unfolding gated_purpose to_ask resolve_pages
resolve_preferences gate_on lanes core now purpose recipients c =
    if not (gated_purpose gate_on lanes purpose.purpose)
    then (resolved none, c)
    else ask_core core now (category_or_club purpose.category) c (to_ask [] recipients)

abbrev pub in_category : Text → List Need → List Recipient
in_category category [] = []
in_category category (n ∷ ns) =
    let rest = in_category category ns in
    if text_eq n.category category then n.recipient ∷ rest else rest

abbrev has_text : Text → List Text → Bool
has_text t [] = false
has_text t (s ∷ ss) = text_eq s t || has_text t ss

-- The categories of the needs, each once.
abbrev pub categories_of : List Need → List Text
categories_of [] = []
categories_of (n ∷ ns) =
    let rest = categories_of ns in if has_text n.category rest then rest else n.category ∷ rest

-- One category's pages: the cache, and whether core failed. A category that core calls no team's is
-- noted, and its other pages are left.
unfoldable pub fetch_category :
    (Text → List Recipient → Reply)
    → ℕ
    → Text
    → ℕ
    → List Recipient
    → PreferenceCache
    → PreferenceCache × Bool
fetch_category call now category zero asked c = (c, false)
fetch_category call now category (suc pages) [] c = (c, false)
fetch_category call now category (suc pages) (k ∷ ks) c =
    let page = take resolve_batch (k ∷ ks) in
    elim (resolve call category page) [
      | category_unknown ↦
          (record c { gone = record { category = category; at = now } ∷ c.gone }, false)
      | unavailable ↦ (c, true)
      | resolved results ↦
          fetch_category call now category pages (drop resolve_batch (k ∷ ks))
            (remember now category now (pair_up page results) c)
    ]

abbrev and_fetch :
    (PreferenceCache → PreferenceCache × Bool) → PreferenceCache × Bool → PreferenceCache × Bool
and_fetch next (c, true) = (c, true)
and_fetch next (c, false) = next c

-- The categories one after the other, until core fails.
unfoldable pub fetch_categories :
    (Text → List Recipient → Reply)
    → ℕ
    → List Need
    → List Text
    → PreferenceCache
    → PreferenceCache × Bool
unfolding fetch_category
fetch_categories call now needs [] c = (c, false)
fetch_categories call now needs (category ∷ rest) c =
    let asked = in_category category needs in
    and_fetch (fetch_categories call now needs rest)
      (fetch_category call now category (length asked) asked c)

-- fetchVerdicts; without core it fails.
abbrev pub fetch_verdicts :
    Option (Text → List Recipient → Reply)
    → ℕ
    → List Need
    → PreferenceCache
    → PreferenceCache × Bool
unfolding fetch_categories
fetch_verdicts none now needs c = (c, true)
fetch_verdicts (some call) now needs c = fetch_categories call now needs (categories_of needs) c

abbrev is_empty : List Need → Bool
is_empty [] = true
is_empty _ = false

-- fetchPreferences' start: the needs it takes, where it starts a fetch.
unfoldable pub start_fetch : ℕ → PreferenceCache → Option (List Need) × PreferenceCache
start_fetch now c =
    if c.fetching || is_empty c.needs || ltb now c.open_until
    then (none, c)
    else (some c.needs, record c { needs = []; fetching = true })

-- And its end, at `now`: the breaker opens where core failed.
unfoldable pub end_fetch : ℕ → Bool → PreferenceCache → PreferenceCache
end_fetch now failed c = record c {
  fetching = false;
  open_until = if failed then now + preference_breaker_open else c.open_until;
}
