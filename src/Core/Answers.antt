-- ===== src/Core/Answers.antt =====
-- What an answer of core can say.
use skymail_backend.Prelude.{
  ℕ, ◌≡◌, refl, ◌⊎◌, inl, inr, Bool, true, false, ◌||◌, not, Option, none, some, List, [], ◌∷◌,
  Text, All, arith, length, text_eq, text_eq_sound, Bool-cases, ltb, ◌==◌, ◌&&◌, subst,
}
use skymail_backend.Core.{
  Recipient, Result, ResolvedItem, Reply, refused, unreachable, answered, Resolved,
  category_unknown, unavailable, resolved, reason_opted_out, reason_inactive, reason_ambiguous,
  known_reason, category_unknown_code, or_empty, answer_of, resolve_items, result_of, results_of,
  and_then, checked_results, results_in, resolve, resolve_batch,
}

-- A result with which the mailer can decide: no account, allowed with a link, or not allowed for one of
-- core's three reasons.
abbrev pub IsDecisive : Result → Type 0
IsDecisive r =
    (r.matched ≡ false)
    ⊎ ((r.allowed ≡ true) × (text_eq r.unsubscribe_url [] ≡ false))
    ⊎ ((r.allowed ≡ false)
        × ((r.reason ≡ reason_opted_out)
            ⊎ (r.reason ≡ reason_inactive)
            ⊎ (r.reason ≡ reason_ambiguous)))

abbrev DecidesAll : ℕ → Option (List Result) → Type 0
DecidesAll n none = Unit
DecidesAll n (some results) = (length results ≡ n) × All IsDecisive results

abbrev pub Decides : ℕ → Resolved (List Result) → Type 0
Decides n (resolved results) = (length results ≡ n) × All IsDecisive results
Decides n _ = Unit

known_reason-cases :
    (reason : Text)
    → known_reason reason ≡ true
    → (reason ≡ reason_opted_out) ⊎ (reason ≡ reason_inactive) ⊎ (reason ≡ reason_ambiguous)
known_reason-cases reason h = elim (Bool-cases (text_eq reason reason_opted_out)) [
  | inl a ↦ inl (text_eq_sound reason reason_opted_out a)
  | inr a ↦ elim (Bool-cases (text_eq reason reason_inactive)) [
    | inl b ↦ inr (inl (text_eq_sound reason reason_inactive b))
    | inr b ↦ inr (inr (text_eq_sound reason reason_ambiguous (ground (arith, h, a, b))))
  ]
]

abbrev DecidesOne : Option Result → Type 0
DecidesOne none = Unit
DecidesOne (some r) = IsDecisive r

result_of-IsDecisive : (item : ResolvedItem) → DecidesOne (result_of item)
unfolding result_of
result_of-IsDecisive item =
    let reason = or_empty item.reason in
    elim (Bool-cases item.matched) [
      | inr n ↦ rw n (inl refl)
      | inl m ↦ rw m (elim (Bool-cases item.allowed) [
        | inl a ↦
            rw a (elim (Bool-cases (text_eq item.unsubscribe_url [] || not (text_eq reason []))) [
              | inl e ↦ rw e tt
              | inr e ↦ rw e (inr (inl (refl, ground arith)))
            ])
        | inr a ↦ rw a (elim (Bool-cases (known_reason reason)) [
          | inl k ↦ rw k (inr (inr (refl, known_reason-cases reason k)))
          | inr k ↦ rw k tt
        ])
      ])
    ]

results_of-IsDecisive : (items : List ResolvedItem) → DecidesAll (length items) (results_of items)
unfolding results_of
results_of-IsDecisive [] = (refl, tt)
results_of-IsDecisive (item ∷ items) =
    both (result_of item) (results_of items) (result_of-IsDecisive item)
      (results_of-IsDecisive items)
  where
    both :
        (r : Option Result) (rs : Option (List Result))
        → DecidesOne r
        → DecidesAll (length items) rs
        → DecidesAll (length (item ∷ items)) (and_then r rs)
    both none rs a b = tt
    both (some r) none a b = tt
    both (some r) (some rs) a b = (omega (arith, b.0), (a, b.1))

checked_results-Decides :
    (n : ℕ) (rs : Option (List Result)) → DecidesAll n rs → Decides n (checked_results rs)
checked_results-Decides n none h = tt
checked_results-Decides n (some rs) h = h

abbrev Within : ℕ → Resolved (List ResolvedItem) → Type 0
Within n (resolved items) = length items ≡ n
Within n _ = Unit

answer_of-Within : (n : ℕ) (reply : Reply) → Within n (answer_of n reply)
answer_of-Within n (refused status code) = elim (Bool-cases (refusal status code)) [
  | inl e ↦ rw e tt
  | inr e ↦ rw e tt
]
  where
    refusal : ℕ → Text → Bool
    refusal status code = status == 400 && text_eq code category_unknown_code
answer_of-Within n unreachable = tt
answer_of-Within n (answered none) = tt
answer_of-Within n (answered (some items)) = elim (Bool-cases (length items == n)) [
  | inl e ↦ rw e (ground arith)
  | inr e ↦ rw e tt
]

resolve_items-Within :
    (call : Text → List Recipient → Reply) (category : Text) (recipients : List Recipient)
    → Within (length recipients) (resolve_items call category recipients)
unfolding resolve_items
resolve_items-Within call category recipients =
    let asked = length recipients in
    elim (Bool-cases (asked == 0 || ltb resolve_batch asked)) [
      | inl e ↦ rw e tt
      | inr e ↦ rw e (answer_of-Within asked (call category recipients))
    ]

results_in-Decides :
    (n : ℕ) (found : Resolved (List ResolvedItem)) → Within n found → Decides n (results_in found)
unfolding results_in
results_in-Decides n category_unknown w = tt
results_in-Decides n unavailable w = tt
results_in-Decides n (resolved items) w =
    checked_results-Decides n (results_of items)
      (subst (λ k. DecidesAll k (results_of items)) w (results_of-IsDecisive items))

-- Whatever core comes back with, resolve gives one result for each recipient asked about, and each says
-- that the recipient has no account, or allows the mail with a link, or refuses it for one of the three
-- reasons that core gives; or it gives no result at all.
pub resolve-Decides :
    (call : Text → List Recipient → Reply) (category : Text) (recipients : List Recipient)
    → Decides (length recipients) (resolve call category recipients)
unfolding resolve
resolve-Decides call category recipients =
    results_in-Decides (length recipients) (resolve_items call category recipients)
      (resolve_items-Within call category recipients)
