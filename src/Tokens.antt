-- ===== src/Tokens.antt =====
-- internal/unsubscribe/token.go: which addresses a token can carry (validAddress, and Seal's checks). The
-- encryption and the encoding of a token (XChaCha20-Poly1305, base64) are a parameter; crypto/rand does not
-- fail.
use skymail_backend.Prelude.{
  ℕ, ◌+◌, Bool, true, false, ◌&&◌, ◌||◌, not, Option, none, some, [], ◌∷◌, Text, text_eq,
  trim_space, to_lower, after_last, length, leb, ltb, ◌==◌, if◌then◌else◌,
}

abbrev pub max_address_length : ℕ
max_address_length = 254

-- How many bytes a code point takes in UTF-8, and a text.
abbrev utf8_width : ℕ → ℕ
utf8_width c = if ltb c 128 then 1 else if ltb c 2048 then 2 else if ltb c 65536 then 3 else 4

abbrev byte_length : Text → ℕ
byte_length [] = 0
byte_length (c ∷ s) = utf8_width c + byte_length s

abbrev no_control : Text → Bool
no_control [] = true
no_control (c ∷ s) = not (leb c 32 || c == 127) && no_control s

-- Whether something stands on each side of the last @.
abbrev has_sides : Text → Option Text → Bool
has_sides address none = false
has_sides address (some after) = not (text_eq after []) && ltb (length after + 1) (length address)

-- NormalizeAddress
unfoldable pub token_address : Text → Text
token_address address = to_lower (trim_space address)

-- validAddress
unfoldable pub valid_address : Text → Bool
unfolding token_address
valid_address address =
    not (text_eq address [])
    && leb (byte_length address) max_address_length
    && text_eq address (token_address address)
    && has_sides address (after_last b'@' address)
    && no_control address

-- Ring.Seal of a ring that holds a key, in the duyuru stream.
unfoldable pub seal : (Text → Text) → Text → Option Text
unfolding token_address valid_address
seal encode address =
    let a = token_address address in if valid_address a then some (encode a) else none
