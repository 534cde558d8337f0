-- ===== src/Smtp/Scan.antt =====
-- The regular expression `enhancedCode` of internal/mailer/smtp_refusal.go,
-- \b[45]\d\d[ -]"?([245]\.\d{1,3}\.\d{1,3})\b, as a scan from the left: each part has one way to match,
-- so the scan needs no other try.
use skymail_backend.Prelude.{
  ℕ, Bool, true, false, ◌&&◌, ◌||◌, Option, none, some, [], ◌∷◌, ◌++◌, Text, leb, not,
  if◌then◌else◌, ◌==◌,
}

abbrev pub digit : ℕ → Bool
digit c = leb b'0' c && leb c b'9'

abbrev pub word : ℕ → Bool
word c = digit c || (leb b'A' c && leb c b'Z') || (leb b'a' c && leb c b'z') || c == b'_'

-- The digits at the head of a text, and what follows.
unfoldable pub digits_span : Text → Text × Text
digits_span [] = ([], [])
digits_span (c ∷ s) =
    let (ds, rest) = digits_span s in if digit c then (c ∷ ds, rest) else ([], c ∷ s)

-- One to three digits, not followed by a fourth.
abbrev pub few : Text → Bool
few [] = false
few (a ∷ []) = true
few (a ∷ b ∷ []) = true
few (a ∷ b ∷ c ∷ []) = true
few _ = false

abbrev pub ends_word : Text → Bool
ends_word [] = true
ends_word (c ∷ s) = not (word c)

abbrev last_number : Text → Text × Text → Option Text
last_number found (ds, rest) = if few ds && ends_word rest then some (found ++ ds) else none

-- The subject and the detail, after the class and its dot.
numbers : ℕ → Text × Text → Option Text
unfolding digits_span
numbers class (ds, []) = none
numbers class (ds, c ∷ rest) =
    if few ds && c == b'.'
    then last_number (class ∷ b'.' ∷ (ds ++ b'.' ∷ [])) (digits_span rest)
    else none

status_at : Text → Option Text
unfolding numbers
status_at (a ∷ b ∷ s) =
    if (a == b'2' || a == b'4' || a == b'5') && b == b'.' then numbers a (digits_span s) else none
status_at _ = none

unquoted : Text → Text
unquoted [] = []
unquoted (c ∷ s) = if c == b'"' then s else c ∷ s

reply_at : Text → Option Text
unfolding status_at unquoted
reply_at (a ∷ b ∷ c ∷ d ∷ s) =
    if (a == b'4' || a == b'5') && digit b && digit c && (d == b' ' || d == b'-')
    then status_at (unquoted s)
    else none
reply_at _ = none

abbrev or_later : Option Text → Option Text → Option Text
or_later (some found) later = some found
or_later none later = later

-- `within` says that the character before is a word's.
scan : Bool → Text → Option Text
unfolding reply_at
scan within [] = none
scan within (c ∷ s) = or_later (if within then none else reply_at (c ∷ s)) (scan (word c) s)

-- enhancedCode.FindStringSubmatch's group: the first enhanced code right after a reply code.
unfoldable pub enhanced_code : Text → Option Text
unfolding scan
enhanced_code text = scan false text
