-- ===== src/Naming/Generate.antt =====
-- internal/naming: the names that are made up for resources, and that they are valid.
use dicer.Prelude.{
  ℕ, ◌%◌, ◌||◌, ◌&&◌, Bool, true, false, Option, none, some, [], ◌∷◌, ◌++◌, ◌==◌, nat_Eq, ltb, leb,
  if◌then◌else◌, length, take, get_elem?,
}
use dicer.Text.{Runes, codes, cut, trim_left, trim_right, runes_Eq}

abbrev pub max_generated_base_length : ℕ
max_generated_base_length = 40

abbrev pub generated_suffix_chars : Runes
generated_suffix_chars = codes "abcdefghijklmnopqrstuvwxyz0123456789"

-- What `notNameChars` leaves in place.
unfoldable pub is_generated_rune : ℕ → Bool
is_generated_rune r = (leb b'a' r && leb r b'z') || (leb b'0' r && leb r b'9') || (r == b'-')

-- `notNameChars.ReplaceAllString(s, "-")`: each run of other code points becomes one hyphen.
unfoldable pub replace_runs : Bool → Runes → Runes
unfolding is_generated_rune
replace_runs in_run [] = []
replace_runs in_run (r ∷ s) =
    let kept_ = replace_runs false s in
    let run = replace_runs true s in
    if is_generated_rune r then r ∷ kept_ else if in_run then run else b'-' ∷ run

abbrev pub is_hyphen : ℕ → Bool
is_hyphen r = r == b'-'

-- `base[:maxGeneratedBaseLength]` without the hyphens at its end, if the base is longer.
unfoldable pub shorten : Runes → Runes
unfolding trim_right
shorten base =
    if ltb max_generated_base_length (length base)
    then trim_right is_hyphen (take max_generated_base_length base)
    else base

unfoldable pub or_instance : Runes → Runes
or_instance [] = codes "instance"
or_instance (r ∷ s) = r ∷ s

unfoldable pub nth_char : Option ℕ → ℕ
nth_char none = 0
nth_char (some c) = c

unfoldable pub suffix_char : ℕ → ℕ
unfolding nth_char
suffix_char b = nth_char (get_elem? generated_suffix_chars (b % 36))

abbrev pub suffix_of : ℕ → ℕ → ℕ → ℕ → Runes
suffix_of a b c d = b'-' ∷ a ∷ b ∷ c ∷ d ∷ []

-- `Generate`, for the base in lower case and the four random bytes.
unfoldable pub generate : Runes → (ℕ → ℕ) → Runes
unfolding replace_runs trim_left trim_right shorten or_instance suffix_char
generate lowered random =
    let base = trim_right is_hyphen (trim_left is_hyphen (replace_runs false lowered)) in
    or_instance (shorten base)
    ++ suffix_of (suffix_char (random 0)) (suffix_char (random 1)) (suffix_char (random 2))
        (suffix_char (random 3))

-- `base[strings.LastIndexByte(base, '/')+1:]`, where `found` follows the last slash so far.
unfoldable pub after_last_slash : Runes → Runes → Runes
after_last_slash found [] = found
after_last_slash found (r ∷ s) =
    let here = after_last_slash s s in
    let rest = after_last_slash found s in if r == b'/' then here else rest

-- `GenerateFromImage`, where `lower` is `strings.ToLower`.
unfoldable pub generate_from_image : (Runes → Runes) → Runes → (ℕ → ℕ) → Runes
unfolding cut after_last_slash generate
generate_from_image lower image_ref random =
    let base = (cut b'@' image_ref).before in
    let last = after_last_slash base base in generate (lower (cut b':' last).before) random
