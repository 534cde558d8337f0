-- ===== src/Core.antt =====
-- internal/consent/client.go: what core's recipients:resolve answers about recipients, as Client.Resolve
-- checks it. The call itself is a parameter.
use skymail_backend.Prelude.{
  ℕ, ◌+◌, Bool, true, false, ◌&&◌, ◌||◌, not, Option, none, some, List, [], ◌∷◌, Text, codes,
  length, text_eq, to_lower, trim_space, leb, ltb, ◌==◌, if◌then◌else◌,
}
pub mod Answers

-- Recipient, and the key that the mailer asks about it by: the person's subject where it is known, else
-- the normalized address.
pub data Recipient : Type 0 where
  by_sub : ℕ → Recipient
  by_email : Text → Recipient

-- NormalizeAddress
unfoldable pub normalize_address : Text → Text
normalize_address address = to_lower (trim_space address)

-- Result, less the account's subject, which the mailer does not read.
pub record Result : Type 0 where
  pub matched : Bool
  pub allowed : Bool
  pub reason : Text
  pub unsubscribe_url : Text

-- An item of core's answer (resolvedItem).
pub record ResolvedItem : Type 0 where
  pub matched : Bool
  pub allowed : Bool
  pub reason : Option Text
  pub unsubscribe_url : Text

-- What a call comes back with: a refusal's status and code, another error, or an answer, which may have
-- no results.
pub data Reply : Type 0 where
  refused : (status : ℕ) (code : Text) → Reply
  unreachable : Reply
  answered : Option (List ResolvedItem) → Reply

pub data Resolved {ℓ} (A : Type ℓ) : Type ℓ where
  category_unknown : Resolved A
  unavailable : Resolved A
  resolved : A → Resolved A

abbrev pub resolve_batch : ℕ
resolve_batch = 1000

abbrev pub reason_opted_out : Text
reason_opted_out = codes "opted_out"

abbrev pub reason_inactive : Text
reason_inactive = codes "inactive"

abbrev pub reason_ambiguous : Text
reason_ambiguous = codes "ambiguous"

abbrev pub category_unknown_code : Text
category_unknown_code = codes "recipients_resolve_category_unknown"

abbrev pub answer_of : ℕ → Reply → Resolved (List ResolvedItem)
answer_of asked (refused status code) =
    if status == 400 && text_eq code category_unknown_code then category_unknown else unavailable
answer_of asked unreachable = unavailable
answer_of asked (answered none) = unavailable
answer_of asked (answered (some items)) =
    if length items == asked then resolved items else unavailable

-- Client.resolve; `call` is recipients:resolve.
unfoldable pub resolve_items :
    (Text → List Recipient → Reply) → Text → List Recipient → Resolved (List ResolvedItem)
resolve_items call category recipients =
    let asked = length recipients in
    if asked == 0 || ltb resolve_batch asked
    then unavailable
    else answer_of asked (call category recipients)

abbrev pub unmatched : Result
unmatched = record { matched = false; allowed = false; reason = []; unsubscribe_url = [] }

abbrev pub or_empty : Option Text → Text
or_empty none = []
or_empty (some t) = t

abbrev pub known_reason : Text → Bool
known_reason reason =
    text_eq reason reason_opted_out
    || text_eq reason reason_inactive
    || text_eq reason reason_ambiguous

-- One result of an answer; none where core says what it does not say.
unfoldable pub result_of : ResolvedItem → Option Result
result_of item =
    let reason = or_empty item.reason in
    if not item.matched
    then some unmatched
    else if item.allowed && (text_eq item.unsubscribe_url [] || not (text_eq reason []))
    then none
    else if item.allowed
    then some (record {
      matched = true;
      allowed = true;
      reason = reason;
      unsubscribe_url = item.unsubscribe_url;
    })
    else if not (known_reason reason)
    then none
    else some (record { matched = true; allowed = false; reason = reason; unsubscribe_url = [] })

abbrev pub and_then : Option Result → Option (List Result) → Option (List Result)
and_then (some r) (some rs) = some (r ∷ rs)
and_then _ _ = none

unfoldable pub results_of : List ResolvedItem → Option (List Result)
unfolding result_of
results_of [] = some []
results_of (item ∷ items) = and_then (result_of item) (results_of items)

abbrev pub checked_results : Option (List Result) → Resolved (List Result)
checked_results none = unavailable
checked_results (some results) = resolved results

unfoldable pub results_in : Resolved (List ResolvedItem) → Resolved (List Result)
unfolding results_of
results_in category_unknown = category_unknown
results_in unavailable = unavailable
results_in (resolved items) = checked_results (results_of items)

-- Client.Resolve
unfoldable pub resolve :
    (Text → List Recipient → Reply) → Text → List Recipient → Resolved (List Result)
unfolding resolve_items results_in
resolve call category recipients = results_in (resolve_items call category recipients)
