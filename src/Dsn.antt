-- ===== src/Dsn.antt =====
-- internal/dsn/dsn.go: which enhanced status codes name the recipient's address, and how a delivery
-- status notification about one recipient is classified. Codes and actions are texts.
use skymail_backend.Prelude.{
  ℕ, ◌≤◌, ◌≡◌, refl, ◌↔◌, ◌⊎◌, inl, inr, Bool, true, false, ◌&&◌, ◌||◌, Option, none, some, [], ◌∷◌,
  ◌++◌, Text, codes, text_eq, text_eq_sound, cut_prefix, ℤ, pos, negsuc, atoi, arith, leb, ◌==◌,
  if◌then◌else◌,
}

-- The detail of a 5.1.x code that is the recipient's own: 0 to 6, and 10.
abbrev listed_detail : Option ℤ → Bool
listed_detail none = false
listed_detail (some (negsuc n)) = false
listed_detail (some (pos n)) = leb n 6 || n == 10

abbrev listed_after : Option Text → Bool
listed_after none = false
listed_after (some detail) = listed_detail (atoi detail)

unfoldable pub recipient_address_status : Text → Bool
recipient_address_status enhanced = listed_after (cut_prefix enhanced (codes "5.1."))

pub data Kind : Type 0 where
  hard soft delay no_bounce : Kind

pub record Recipient : Type 0 where
  pub action : Text
  pub status : Text
  pub as_code : Text

abbrev pub exchange_recipient_unknown_as : Text
exchange_recipient_unknown_as = codes "201806281"

unfoldable pub classify : Recipient → Kind
classify r =
    if text_eq r.action (codes "failed")
    then (if recipient_address_status r.status
          || (text_eq r.status (codes "5.4.1") && text_eq r.as_code exchange_recipient_unknown_as)
        then hard
        else soft)
    else if text_eq r.action (codes "delayed")
    then delay
    else no_bounce

-- A listed status: 5.1. and a number that Atoi reads as 0 to 6 or as 10.
abbrev pub Listed : Text → Type 0
Listed s =
    (detail : Text) × (n : ℕ) × (s ≡ codes "5.1." ++ detail)
    × (atoi detail ≡ some (pos n))
    × ((n ≤ 6) ⊎ (n ≡ 10))

cut_prefix_sound : (s p t : Text) → cut_prefix s p ≡ some t → s ≡ p ++ t
cut_prefix_sound s [] t h = ground arith
cut_prefix_sound [] (b ∷ p) t h = cc
cut_prefix_sound (a ∷ s) (b ∷ p) t h = ground (arith, cut_prefix_sound s p t)

listed_detail_cases :
    (v : Option ℤ) → listed_detail v ≡ true → (n : ℕ) × (v ≡ some (pos n)) × ((n ≤ 6) ⊎ (n ≡ 10))
listed_detail_cases none h = cc
listed_detail_cases (some (negsuc n)) h = cc
listed_detail_cases (some (pos n)) h = (n, refl, ground arith)

listed_after_cases :
    (s : Text) (v : Option Text)
    → cut_prefix s (codes "5.1.") ≡ v
    → listed_after v ≡ true
    → Listed s
listed_after_cases s none e h = cc
listed_after_cases s (some detail) e h =
    let (n, read, small) = listed_detail_cases (atoi detail) h in
    (detail, n, cut_prefix_sound s (codes "5.1.") detail e, read, small)

Listed-status : (s : Text) → Listed s → recipient_address_status s ≡ true
unfolding recipient_address_status
Listed-status s (detail, n, e, read, small) = rw (e, read) (ground arith)

-- An enhanced code counts as the recipient's address's exactly when it is "5.1." followed by a text
-- that Atoi reads as a number from 0 to 6, or as 10.
pub recipient_address_status_iff : (s : Text) → (recipient_address_status s ≡ true) ↔ Listed s
unfolding recipient_address_status
recipient_address_status_iff s =
    (λ h. listed_after_cases s (cut_prefix s (codes "5.1.")) refl h, Listed-status s)

-- A recipient is classified hard exactly when the action is "failed" and the status is "5.1." followed by
-- a text that Atoi reads as a number from 0 to 6 or as 10, or is 5.4.1 with the token 201806281.
pub classify_hard_iff :
    (r : Recipient)
    → (classify r ≡ hard) ↔ (
        (r.action ≡ codes "failed")
        × (Listed r.status ⊎ ((r.status ≡ codes "5.4.1") × (r.as_code ≡ codes "201806281"))))
unfolding classify
classify_hard_iff r = (
  λ h. (
    text_eq_sound r.action (codes "failed") (ground arith),
    ground (
      arith,
      (recipient_address_status_iff r.status).0,
      text_eq_sound r.status (codes "5.4.1"),
      text_eq_sound r.as_code exchange_recipient_unknown_as,
    ),
  ),
  λ (a, h). classified r a h,
)
  where
    classified :
        (r : Recipient)
        → r.action ≡ codes "failed"
        → Listed r.status ⊎ ((r.status ≡ codes "5.4.1") × (r.as_code ≡ codes "201806281"))
        → classify r ≡ hard
    classified r a (inl h) = rw (a, Listed-status r.status h) refl
    classified r a (inr (h, k)) = rw (a, h, k) (ground arith)
