-- ===== src/Naming.antt =====
-- internal/naming: which names resources may have.
pub mod Safety
pub mod Generate
pub mod Generated
mod Tests
use dicer.Prelude.{
  ℕ, ◌<◌, Bool, true, false, ◌&&◌, ◌||◌, not, Option, none, some, List, [], ◌∷◌, ◌++◌, ◌==◌, nat_Eq,
  if◌then◌else◌, ltb, leb, length, String,
}
use mathlib.Core.List.{reverse}
use dicer.Text.{Runes, byte_length, codes}

abbrev pub max_name_length : ℕ
max_name_length = 253

-- The class `[A-Za-z0-9]` of `namePattern`.
unfoldable pub is_letter_or_digit : ℕ → Bool
is_letter_or_digit r =
    (leb b'A' r && leb r b'Z') || (leb b'a' r && leb r b'z') || (leb b'0' r && leb r b'9')

-- The class `[A-Za-z0-9-]`.
unfoldable pub is_part_rune : ℕ → Bool
unfolding is_letter_or_digit
is_part_rune r = is_letter_or_digit r || (r == b'-')

unfoldable pub every : (ℕ → Bool) → Runes → Bool
every p [] = true
every p (r ∷ s) = p r && every p s

unfoldable pub ends_well : Runes → Bool
unfolding is_letter_or_digit
ends_well [] = false
ends_well (r ∷ s) = is_letter_or_digit r

-- A part of a name, `[A-Za-z0-9]([A-Za-z0-9-]{0,61}[A-Za-z0-9])?`: 1 to 63 of the second class, the
-- first and the last of them of the first class.
unfoldable pub is_part : Runes → Bool
unfolding is_part_rune every ends_well
is_part s = every is_part_rune s && ends_well s && ends_well (reverse s) && leb (length s) 63

-- The parts of a name between its dots, the first one after `acc`, which is reversed.
unfoldable pub every_part : Runes → Runes → Bool
unfolding is_part
every_part acc [] = is_part (reverse acc)
every_part acc (r ∷ s) =
    let next = every_part [] s in
    let more = every_part (r ∷ acc) s in if r == b'.' then is_part (reverse acc) && next else more

-- `namePattern`: parts that dots separate.
unfoldable pub matches_name : Runes → Bool
unfolding every_part
matches_name s = every_part [] s

-- `Validate`: whether it answers no error.
unfoldable pub validate_name : Runes → Bool
unfolding matches_name byte_length
validate_name name = not (ltb max_name_length (byte_length name) || not (matches_name name))

-- `ValidateHostname`.
unfoldable pub validate_hostname : Runes → Bool
unfolding matches_name byte_length
validate_hostname hostname =
    if hostname_empty hostname
    then true
    else if ltb max_name_length (byte_length hostname)
    then false
    else if not (matches_name hostname)
    then false
    else true
  where
    hostname_empty : Runes → Bool
    hostname_empty [] = true
    hostname_empty (r ∷ s) = false
