-- ===== src/Text.antt =====
-- What the program uses of Go's strings package. A string is the list of its code points, and so
-- valid UTF-8.
pub mod Laws
use Prim.Native.Char.{code}
use dicer.Prelude.{
  ℕ, suc, zero, ◌+◌, ◌≡◌, ◌↔◌, refl, String, Bool, true, false, ◌&&◌, ◌||◌, Option, none, some,
  List, [], ◌∷◌, ◌++◌, map, ltb, leb, Eq, ◌==◌, nat_Eq, arith, if◌then◌else◌,
}
use mathlib.Core.List.{reverse}

abbrev pub Runes : Type 0
Runes = List ℕ

-- The code points of a text.
abbrev pub codes : String → Runes
codes String.[] = []
codes (String.◌∷◌ c s) = code c ∷ codes s

abbrev pub runes_eq : Runes → Runes → Bool
runes_eq [] [] = true
runes_eq [] (y ∷ ys) = false
runes_eq (x ∷ xs) [] = false
runes_eq (x ∷ xs) (y ∷ ys) = (x == y) && runes_eq xs ys

pub runes_eq_iff : (xs ys : Runes) → (runes_eq xs ys ≡ true) ↔ (xs ≡ ys)
runes_eq_iff [] [] = ground arith
runes_eq_iff [] (y ∷ ys) = ground arith
runes_eq_iff (x ∷ xs) [] = ground arith
runes_eq_iff (x ∷ xs) (y ∷ ys) = ground (arith, runes_eq_iff xs ys)

instance abbrev pub runes_Eq : Eq Runes
runes_Eq = record { same = runes_eq; same_iff = runes_eq_iff }

-- `len(s)`: how many bytes the code points take in UTF-8.
unfoldable pub byte_length : Runes → ℕ
byte_length [] = 0
byte_length (r ∷ s) =
    (if ltb r 128 then 1 else if ltb r 2048 then 2 else if ltb r 65536 then 3 else 4)
    + byte_length s

-- `strings.CutPrefix`: what follows the prefix, if it is one.
unfoldable pub cut_prefix : Runes → Runes → Option Runes
cut_prefix [] s = some s
cut_prefix (p ∷ prefix) [] = none
cut_prefix (p ∷ prefix) (r ∷ s) = let rest = cut_prefix prefix s in if p == r then rest else none

unfoldable pub reversed : Option Runes → Option Runes
reversed none = none
reversed (some s) = some (reverse s)

-- `strings.CutSuffix`.
unfoldable pub cut_suffix : Runes → Runes → Option Runes
unfolding cut_prefix reversed
cut_suffix suffix s = reversed (cut_prefix (reverse suffix) (reverse s))

-- `strings.Cut` at a separator of one code point: what is before and after the first one, and
-- whether there is one.
pub record Cut : Type 0 where
  pub before : Runes
  pub after : Runes
  pub found : Bool

unfoldable pub cut : ℕ → Runes → Cut
cut sep [] = record { before = []; after = []; found = false }
cut sep (r ∷ s) =
    let rest = cut sep s in
    if r == sep
    then record { before = []; after = s; found = true }
    else record { before = r ∷ rest.before; after = rest.after; found = rest.found }

-- `unicode.IsSpace`.
unfoldable pub is_space : ℕ → Bool
is_space r =
    (leb 9 r && leb r 13)
    || (r == 32)
    || (r == 133)
    || (r == 160)
    || (r == 5760)
    || (leb 8192 r && leb r 8202)
    || (r == 8232)
    || (r == 8233)
    || (r == 8239)
    || (r == 8287)
    || (r == 12288)

unfoldable pub trim_left : (ℕ → Bool) → Runes → Runes
trim_left p [] = []
trim_left p (r ∷ s) = let rest = trim_left p s in if p r then rest else r ∷ s

unfoldable pub trim_right : (ℕ → Bool) → Runes → Runes
unfolding trim_left
trim_right p s = reverse (trim_left p (reverse s))

-- `strings.TrimSpace`.
unfoldable pub trim_space : Runes → Runes
unfolding is_space trim_left trim_right
trim_space s = trim_right is_space (trim_left is_space s)

-- `strings.ToLower` on ASCII letters; the other code points stay, as the program lowers nothing
-- that holds one.
unfoldable pub to_lower : Runes → Runes
to_lower s = map (λ r. if leb b'A' r && leb r b'Z' then r + 32 else r) s
