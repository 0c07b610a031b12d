-- ===== src/Token/Secret.antt =====
-- internal/token/token.go: what a secret, a fingerprint and a digest look like.
use dicer.Prelude.{
  ℕ, ◌+◌, ◌-◌, ◌*◌, Bool, true, false, ◌&&◌, ◌||◌, not, Option, none, some, List, [], ◌∷◌, ◌==◌,
  nat_Eq, if◌then◌else◌, ltb, leb, length,
}
use dicer.Text.{Runes, runes_Eq, byte_length, to_lower}

abbrev pub min_secret_length : ℕ
min_secret_length = 32

unfoldable pub is_alphanumeric : ℕ → Bool
is_alphanumeric r =
    (leb b'a' r && leb r b'z') || (leb b'A' r && leb r b'Z') || (leb b'0' r && leb r b'9')

unfoldable pub every_alphanumeric : Runes → Bool
unfolding is_alphanumeric
every_alphanumeric [] = true
every_alphanumeric (r ∷ s) =
    let rest = every_alphanumeric s in if not (is_alphanumeric r) then false else rest

-- `ValidateSecret`.
unfoldable pub validate_secret : Runes → Bool
unfolding every_alphanumeric byte_length
validate_secret s = if ltb (byte_length s) min_secret_length then false else every_alphanumeric s

-- What `hex.DecodeString` makes of one digit.
unfoldable pub hex_digit : ℕ → Option ℕ
hex_digit r =
    if leb b'0' r && leb r b'9'
    then some (r - b'0')
    else if leb b'a' r && leb r b'f'
    then some (r - b'a' + 10)
    else if leb b'A' r && leb r b'F'
    then some (r - b'A' + 10)
    else none

unfoldable pub hex_byte : Option ℕ → Option ℕ → Option (List ℕ) → Option (List ℕ)
hex_byte (some a) (some b) (some rest) = some ((a * 16 + b) ∷ rest)
hex_byte (some a) (some b) none = none
hex_byte (some a) none rest = none
hex_byte none b rest = none

-- `hex.DecodeString`.
unfoldable pub hex_decode : Runes → Option (List ℕ)
unfolding hex_digit hex_byte
hex_decode [] = some []
hex_decode (a ∷ []) = none
hex_decode (a ∷ b ∷ s) = hex_byte (hex_digit a) (hex_digit b) (hex_decode s)

unfoldable pub decodes_to_32 : Option (List ℕ) → Bool
decodes_to_32 none = false
decodes_to_32 (some bytes) = length bytes == 32

unfoldable pub is_sha256_hex : Runes → Bool
unfolding decodes_to_32 hex_decode
is_sha256_hex s = decodes_to_32 (hex_decode s)

unfoldable pub is_fingerprint : Runes → Bool
unfolding is_sha256_hex to_lower
is_fingerprint s = is_sha256_hex s && (s == to_lower s)
