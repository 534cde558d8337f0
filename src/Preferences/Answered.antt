-- ===== src/Preferences/Answered.antt =====
-- A send that goes on to be queued has core's answer about each recipient it asked about.
use skymail_backend.Prelude.{
  ℕ, zero, suc, ◌≡◌, refl, sym, ap, ◌∙◌, ◌≤◌, ◌⊎◌, inl, inr, subst, Bool, true, false, ◌||◌, Option,
  none, some, List, [], ◌∷◌, ◌++◌, Text, All, arith, length, take, map, text_eq_refl, text_eq_sound,
  ==_iff, Bool-cases,
}
use skymail_backend.Lanes.{SendLanes}
use skymail_backend.Core.{
  Recipient, by_sub, by_email, Result, Reply, Resolved, category_unknown, unavailable, resolved,
  resolve_batch, resolve,
}
use skymail_backend.Core.Answers.{IsDecisive, Decides, resolve-Decides}
use skymail_backend.Preferences.{PreferenceCache, same_recipient}
use skymail_backend.Preferences.Resolved.{
  drop, pair_up, join_pages, resolve_pages, RecipientInfo, SendPurpose, PreferenceVerdicts,
  find_result, seen_in, skips_asking, key_of, to_ask, with_answer, ask_core, resolve_preferences,
  category_or_club, gated_purpose,
}

abbrev pub keys_of : List (Recipient × Result) → List Recipient
keys_of = map λ (p : Recipient × Result). p.0

-- The result that stands where the recipient stands.
abbrev pub AtSame : Recipient → Result → List Recipient → List Result → Type 0
AtSame key r (k ∷ ks) (x ∷ xs) = ((key ≡ k) × (r ≡ x)) ⊎ AtSame key r ks xs
AtSame key r _ _ = ⊥

-- Core was asked about a page of recipients, this one among them, and gave this result for it.
abbrev pub FromCore : Option (Text → List Recipient → Reply) → Text → Recipient → Result → Type 0
FromCore core category key r =
    (call : Text → List Recipient → Reply) × (page : List Recipient) × (results : List Result)
    × (core ≡ some call)
    × (resolve call category page ≡ resolved results)
    × AtSame key r page results

-- A decisive answer of core's.
abbrev Fact : Option (Text → List Recipient → Reply) → Text → Recipient × Result → Type 0
Fact core category p = IsDecisive p.1 × FromCore core category p.0 p.1

-- Results for exactly these recipients, each core's decisive answer.
abbrev AnswersAll :
    (Text → List Recipient → Reply)
    → Text
    → List Recipient
    → Resolved (List (Recipient × Result))
    → Type 0
AnswersAll call category asked (resolved rs) =
    (keys_of rs ≡ asked) × All (Fact (some call) category) rs
AnswersAll call category asked _ = Unit

paired :
    (call : Text → List Recipient → Reply) (category : Text) (page : List Recipient)
    (results : List Result)
    → resolve call category page ≡ resolved results
    → (ks : List Recipient) (rs : List Result)
    → ((k : Recipient) (r : Result) → AtSame k r ks rs → AtSame k r page results)
    → length rs ≡ length ks
    → All IsDecisive rs
    → (keys_of (pair_up ks rs) ≡ ks) × All (Fact (some call) category) (pair_up ks rs)
paired call category page results same [] rs at e a = (refl, tt)
paired call category page results same (k ∷ ks) [] at e a = ground (arith, e)
paired call category page results same (k ∷ ks) (r ∷ rs) at e a =
    let (keys, each) =
      paired call category page results same ks rs (λ k' r' h. at k' r' (inr h)) (ground (arith, e))
        a.1 in
    (ap (◌∷◌ k) keys, ((a.0, (call, page, results, refl, same, at k r (inl (refl, refl)))), each))

keys_of-append :
    (as' bs : List (Recipient × Result)) → keys_of (as' ++ bs) ≡ keys_of as' ++ keys_of bs
keys_of-append [] bs = refl
keys_of-append (a ∷ as') bs = ap (◌∷◌ a.0) (keys_of-append as' bs)

All-append :
    (P : Recipient × Result → Type 0) (as' bs : List (Recipient × Result))
    → All P as'
    → All P bs
    → All P (as' ++ bs)
All-append P [] bs a b = b
All-append P (x ∷ as') bs a b = (a.0, All-append P as' bs a.1 b)

take-drop {ℓ} : {A : Type ℓ} (n : ℕ) (xs : List A) → take n xs ++ drop n xs ≡ xs
take-drop zero xs = refl
take-drop (suc n) [] = refl
take-drop (suc n) (x ∷ xs) = ap (◌∷◌ x) (take-drop n xs)

length-drop {ℓ} : {A : Type ℓ} (n : ℕ) (xs : List A) → length (drop n xs) ≤ length xs
length-drop zero xs = omega arith
length-drop (suc n) [] = omega arith
length-drop (suc n) (x ∷ xs) = omega (arith, length-drop n xs)

join_pages-AnswersAll :
    (call : Text → List Recipient → Reply) (category : Text) (page rest : List Recipient)
    (answer : Resolved (List Result)) (later : Resolved (List (Recipient × Result)))
    → resolve call category page ≡ answer
    → Decides (length page) answer
    → AnswersAll call category rest later
    → AnswersAll call category (page ++ rest) (join_pages page answer later)
join_pages-AnswersAll call category page rest (resolved rs) (resolved more) same d a =
    let (keys, each) = paired call category page rs same page rs (λ k r h. h) d.0 d.1 in
    (
      keys_of-append (pair_up page rs) more
          ∙ ap (λ ks. ks ++ keys_of more) keys
          ∙ ap (◌++◌ page) a.0,
      All-append (Fact (some call) category) (pair_up page rs) more each a.1,
    )
join_pages-AnswersAll call category page rest (resolved rs) unavailable same d a = tt
join_pages-AnswersAll call category page rest (resolved rs) category_unknown same d a = tt
join_pages-AnswersAll call category page rest unavailable later same d a = tt
join_pages-AnswersAll call category page rest category_unknown later same d a = tt

-- As many pages as there are recipients are enough.
resolve_pages-AnswersAll :
    (call : Text → List Recipient → Reply) (category : Text) (pages : ℕ) (asked : List Recipient)
    → length asked ≤ pages
    → AnswersAll call category asked (resolve_pages call category pages asked)
unfolding resolve_pages
resolve_pages-AnswersAll call category zero [] le = (refl, tt)
resolve_pages-AnswersAll call category zero (k ∷ ks) le = ground (arith, le)
resolve_pages-AnswersAll call category (suc pages) [] le = (refl, tt)
resolve_pages-AnswersAll call category (suc pages) (k ∷ ks) le =
    let page = take resolve_batch (k ∷ ks) in
    let rest = drop resolve_batch (k ∷ ks) in
    subst
      (λ asked.
        AnswersAll call category asked
          (join_pages page (resolve call category page) (resolve_pages call category pages rest)))
      (take-drop resolve_batch (k ∷ ks))
      (join_pages-AnswersAll call category page rest (resolve call category page)
        (resolve_pages call category pages rest) refl (resolve-Decides call category page)
        (resolve_pages-AnswersAll call category pages rest (omega (arith, le, length-drop 999 ks))))

same_recipient_refl : (k : Recipient) → same_recipient k k ≡ true
same_recipient_refl (by_sub a) = ground arith
same_recipient_refl (by_email t) = text_eq_refl t

-- Each recipient is skipped, or is among some keys.
abbrev EachIn : List Recipient → List Recipient → List RecipientInfo → Type 0
EachIn asked seen =
    All λ r. (skips_asking r || (seen_in (key_of r) asked || seen_in (key_of r) seen)) ≡ true

EachIn-mono :
    (asked seen asked' seen' : List Recipient) (rs : List RecipientInfo)
    → ((k : Recipient)
        → (seen_in k asked || seen_in k seen) ≡ true
        → (seen_in k asked' || seen_in k seen') ≡ true)
    → EachIn asked seen rs
    → EachIn asked' seen' rs
EachIn-mono asked seen asked' seen' [] f h = tt
EachIn-mono asked seen asked' seen' (r ∷ rs) f h = (
  elim (Bool-cases (skips_asking r)) [
    | inl s ↦ ground (arith, s)
    | inr s ↦ ground (arith, f (key_of r) (ground (arith, h.0, s)))
  ],
  EachIn-mono asked seen asked' seen' rs f h.1,
)

-- A recipient that is not skipped is asked about.
to_ask-EachIn : (seen : List Recipient) (rs : List RecipientInfo) → EachIn (to_ask seen rs) seen rs
unfolding to_ask
to_ask-EachIn seen [] = tt
to_ask-EachIn seen (r ∷ rs) = elim (Bool-cases (skips_asking r || seen_in (key_of r) seen)) [
  | inl e ↦
      let path : to_ask seen (r ∷ rs) ≡ to_ask seen rs = rw e refl in
      subst (λ l. EachIn l seen (r ∷ rs)) (sym path) ((ground (arith, e), to_ask-EachIn seen rs))
  | inr n ↦
      let key = key_of r in
      let asked = to_ask (key ∷ seen) rs in
      let same = same_recipient_refl key in
      let path : to_ask seen (r ∷ rs) ≡ (key ∷ asked) = rw n refl in
      subst (λ l. EachIn l seen (r ∷ rs)) (sym path)
        ((
          ground (arith, same),
          EachIn-mono asked (key ∷ seen) (key ∷ asked) seen rs (λ k h. ground (arith, h))
              (to_ask-EachIn (key ∷ seen) rs),
        ))
]

same_recipient_sound : (a b : Recipient) → same_recipient a b ≡ true → a ≡ b
same_recipient_sound (by_sub a) (by_sub b) h = ap by_sub ((==_iff a b).0 h)
same_recipient_sound (by_email a) (by_email b) h = ap by_email (text_eq_sound a b h)
same_recipient_sound (by_sub a) (by_email b) h = cc
same_recipient_sound (by_email a) (by_sub b) h = cc

-- Core's answer about a recipient, a decisive one, as the verdicts give it.
abbrev pub HasAnswer :
    Option (Text → List Recipient → Reply) → PreferenceVerdicts → Recipient → Type 0
HasAnswer core v key =
    (r : Result) × (find_result key v.results ≡ some r)
    × IsDecisive r
    × FromCore core v.category key r

find_result-Fact :
    (core : Option (Text → List Recipient → Reply)) (category : Text) (key : Recipient)
    (rs : List (Recipient × Result))
    → seen_in key (keys_of rs) ≡ true
    → All (Fact core category) rs
    → (r : Result) × (find_result key rs ≡ some r) × IsDecisive r × FromCore core category key r
unfolding find_result
find_result-Fact core category key [] h each = cc
find_result-Fact core category key (p ∷ ps) h each = elim (Bool-cases (same_recipient p.0 key)) [
  | inl e ↦ (
    p.1,
    rw e refl,
    each.0.0,
    subst (λ k. FromCore core category k p.1) (same_recipient_sound p.0 key e) each.0.1,
  )
  | inr n ↦
      let (r, found, d, from) =
        find_result-Fact core category key ps (ground (arith, h, n)) each.1 in
      (r, rw n found, d, from)
]

-- A recipient brings its own link or has no address, or core answered about it.
abbrev pub IsAnswered :
    Option (Text → List Recipient → Reply) → PreferenceVerdicts → RecipientInfo → Type 0
IsAnswered core v r = (skips_asking r ≡ true) ⊎ HasAnswer core v (key_of r)

each-IsAnswered :
    (core : Option (Text → List Recipient → Reply)) (v : PreferenceVerdicts)
    (asked : List Recipient) (rs : List RecipientInfo)
    → keys_of v.results ≡ asked
    → All (Fact core v.category) v.results
    → EachIn asked [] rs
    → All (IsAnswered core v) rs
each-IsAnswered core v asked [] keys each h = tt
each-IsAnswered core v asked (r ∷ rs) keys each h = (
  elim (Bool-cases (skips_asking r)) [
    | inl s ↦ inl s
    | inr s ↦ inr (
        find_result-Fact core v.category (key_of r) v.results
          (subst (λ ks. seen_in (key_of r) ks ≡ true) (sym keys) (ground (arith, h.0, s))) each)
  ],
  each-IsAnswered core v asked rs keys each h.1,
)

-- What a resolution promises about the recipients: nothing where it refuses the send, or where nothing
-- is asked.
abbrev pub Answers :
    Option (Text → List Recipient → Reply)
    → Text
    → Bool
    → List RecipientInfo
    → Resolved (Option PreferenceVerdicts)
    → Type 0
Answers core category gated rs (resolved none) = gated ≡ false
Answers core category gated rs (resolved (some v)) =
    (gated ≡ true) × (v.category ≡ category) × All (IsAnswered core v) rs
Answers core category gated rs _ = gated ≡ true

with_answer-Answers :
    (call : Text → List Recipient → Reply) (now : ℕ) (category : Text) (c : PreferenceCache)
    (asked : List Recipient) (rs : List RecipientInfo)
    (found : Resolved (List (Recipient × Result)))
    → AnswersAll call category asked found
    → EachIn asked [] rs
    → Answers (some call) category true rs (with_answer now category c found).0
with_answer-Answers call now category c asked rs (resolved results) a each =
    let v : PreferenceVerdicts = record { category = category; results = results; at = now } in
    (refl, refl, each-IsAnswered (some call) v asked rs a.0 a.1 each)
with_answer-Answers call now category c asked rs unavailable a each = refl
with_answer-Answers call now category c asked rs category_unknown a each = refl

ask_core-Answers :
    (core : Option (Text → List Recipient → Reply)) (now : ℕ) (category : Text)
    (c : PreferenceCache) (asked : List Recipient) (rs : List RecipientInfo)
    → EachIn asked [] rs
    → Answers core category true rs (ask_core core now category c asked).0
ask_core-Answers core now category c [] rs each =
    let v : PreferenceVerdicts = record { category = category; results = []; at = now } in
    (refl, refl, each-IsAnswered core v [] rs refl tt each)
ask_core-Answers none now category c (k ∷ ks) rs each = refl
ask_core-Answers (some call) now category c (k ∷ ks) rs each =
    with_answer-Answers call now category c (k ∷ ks) rs
      (resolve_pages call category (length (k ∷ ks)) (k ∷ ks))
      (resolve_pages-AnswersAll call category (length (k ∷ ks)) (k ∷ ks) (omega arith)) each

-- While the check is on, a duyuru send goes on only with verdicts in its category that have, about every
-- recipient with an address and no link of its own, a decisive result: the one that core gave in the
-- recipient's place when it was asked about a page of recipients in that category. Else the send is
-- refused. Any other send is asked nothing about and never refused.
pub resolve_preferences-Answers :
    (gate_on : Bool) (lanes : SendLanes) (core : Option (Text → List Recipient → Reply)) (now : ℕ)
    (purpose : SendPurpose) (recipients : List RecipientInfo) (c : PreferenceCache)
    → Answers core
        (category_or_club purpose.category)
        (gated_purpose gate_on lanes purpose.purpose)
        recipients
        (resolve_preferences gate_on lanes core now purpose recipients c).0
unfolding resolve_preferences
resolve_preferences-Answers gate_on lanes core now purpose recipients c =
    elim (Bool-cases (gated_purpose gate_on lanes purpose.purpose)) [
      | inr n ↦ rw n refl
      | inl e ↦ rw e (
          ask_core-Answers core now (category_or_club purpose.category) c (to_ask [] recipients)
            recipients (to_ask-EachIn [] recipients))
    ]
