-- ===== src/Guard/Scan.antt =====
-- The regular expression `throttleText` of internal/mailer/bulk_guard.go,
-- \b(421|432)\b|\b4\.7\.\d{1,3}\b, as a scan from the left.
use skymail_backend.Prelude.{Bool, false, ◌&&◌, ◌||◌, [], ◌∷◌, Text, not, ◌==◌}
use skymail_backend.Smtp.Scan.{word, few, ends_word, digits_span}

abbrev code_at : Text → Bool
code_at (a ∷ b ∷ c ∷ s) =
    a == b'4' && ((b == b'2' && c == b'1') || (b == b'3' && c == b'2')) && ends_word s
code_at _ = false

abbrev detail_at : Text → Bool
detail_at s = let (ds, rest) = digits_span s in few ds && ends_word rest

abbrev class_at : Text → Bool
class_at (a ∷ b ∷ c ∷ d ∷ s) = a == b'4' && b == b'.' && c == b'7' && d == b'.' && detail_at s
class_at _ = false

scan : Bool → Text → Bool
unfolding digits_span
scan within [] = false
scan within (c ∷ s) = (not within && (code_at (c ∷ s) || class_at (c ∷ s))) || scan (word c) s

-- throttleText.MatchString
unfoldable pub throttle_text : Text → Bool
unfolding scan
throttle_text text = scan false text
