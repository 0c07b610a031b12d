-- ===== src/Compose/Interpolate.antt =====
-- internal/compose/interpolate.go. The index of a loop is the rest of the text after it; all that
-- the code looks for is ASCII, so that code points do for its bytes. `variable` is the `Lookup`.
use dicer.Prelude.{
  ℕ, zero, suc, ◌+◌, ◌-◌, Bool, true, false, not, ◌&&◌, ◌||◌, Option, none, some, [], ◌∷◌, ◌++◌,
  ◌==◌, nat_Eq, if◌then◌else◌, leb, length,
}
use dicer.Text.{Runes, runes_Eq, codes}
use dicer.Compose.{
  Interpolated, text, failed, out_of_fuel, no_closing_brace, no_name, no_operator, bad_operator,
  required,
}

unfoldable pub is_name_start : ℕ → Bool
is_name_start c = (c == b'_') || (leb b'a' c && leb c b'z') || (leb b'A' c && leb c b'Z')

unfoldable pub is_name_character : ℕ → Bool
unfolding is_name_start
is_name_character c = is_name_start c || (leb b'0' c && leb c b'9')

-- The characters of a name that a text begins with, and the rest.
pub record Split : Type 0 where
  pub before : Runes
  pub after : Runes

abbrev pub put_before : ℕ → Split → Split
put_before c p = record { before = c ∷ p.before; after = p.after }

unfoldable pub split_name : Runes → Split
unfolding is_name_character
split_name [] = record { before = []; after = [] }
split_name (c ∷ s) =
    let rest = split_name s in
    if is_name_character c then put_before c rest else record { before = []; after = c ∷ s }

abbrev pub before? : ℕ → Option Split → Option Split
before? c none = none
before? c (some p) = some (put_before c p)

-- `closingBrace`, at a depth: what is before the brace that closes, and after it.
unfoldable pub closing_brace : ℕ → Runes → Option Split
closing_brace depth [] = none
closing_brace depth (c ∷ []) =
    if c == b'}'
    then (if depth - 1 == 0 then some (record { before = []; after = [] }) else none)
    else none
closing_brace depth (c ∷ d ∷ s) =
    let nested = closing_brace (depth + 1) s in
    let closed = closing_brace (depth - 1) (d ∷ s) in
    let other = closing_brace depth (d ∷ s) in
    if c == b'$' && d == b'{'
    then before? c (before? d nested)
    else if c == b'}'
    then (if depth - 1 == 0 then some (record { before = []; after = d ∷ s }) else before? c closed)
    else before? c other

-- `strings.Builder`: a text written before what follows.
abbrev pub write : Runes → Interpolated → Interpolated
write s (text t) = text (s ++ t)
write s (failed e) = failed e
write s out_of_fuel = out_of_fuel

-- What a value is followed by; an error ends it.
abbrev pub then_write : Interpolated → Interpolated → Interpolated
then_write (text s) rest = write s rest
then_write (failed e) rest = failed e
then_write out_of_fuel rest = out_of_fuel

abbrev pub value_of : Option Runes → Runes
value_of none = []
value_of (some v) = v

abbrev pub is_set : Option Runes → Bool
is_set none = false
is_set (some v) = true

-- Whether a variable counts as present, where an empty value counts as unset or not.
unfoldable pub present : Bool → Option Runes → Bool
present empty_counts v = is_set v && (not empty_counts || not (value_of v == []))

-- The message of a required variable.
unfoldable pub missing : Runes → Interpolated → Interpolated
missing name (text []) = failed (required name (codes "it is not set"))
missing name (text (c ∷ s)) = failed (required name (c ∷ s))
missing name (failed e) = failed e
missing name out_of_fuel = out_of_fuel

module _ (variable : Runes → Option Runes) (again : Runes → Interpolated) where
  -- The `switch` of `expand`, for the operator, its argument and whether a `:` is before it.
  unfoldable pub operate : Runes → Bool → ℕ → Runes → Interpolated
  unfolding present missing
  operate name empty_counts op arg =
      let value = text (value_of (variable name)) in
      if op == b'-'
      then (if present empty_counts (variable name) then value else again arg)
      else if op == b'?'
      then (if present empty_counts (variable name) then value else missing name (again arg))
      else if op == b'+'
      then (if present empty_counts (variable name) then again arg else text [])
      else failed bad_operator

  unfoldable pub expand_rest : Runes → Runes → Interpolated
  unfolding operate
  expand_rest name [] = text (value_of (variable name))
  expand_rest name (c ∷ []) = if c == b':' then failed no_operator else operate name false c []
  expand_rest name (c ∷ d ∷ s) =
      if c == b':' then operate name true d s else operate name false c (d ∷ s)

  unfoldable pub starts_name : Runes → Bool
  unfolding is_name_start
  starts_name [] = false
  starts_name (c ∷ s) = is_name_start c

  -- `expand`.
  unfoldable pub expand : Runes → Interpolated
  unfolding split_name expand_rest starts_name
  expand body =
      let p = split_name body in
      if not (starts_name p.before) then failed no_name else expand_rest p.before p.after

module _ (variable : Runes → Option Runes) where
  unfoldable pub expand_to : (Runes → Interpolated) → Option Split → Interpolated
  unfolding expand
  expand_to again none = failed no_closing_brace
  expand_to again (some p) = then_write (expand variable again p.before) (again p.after)

  -- A variable without braces.
  unfoldable pub bare : (Runes → Interpolated) → Split → Interpolated
  bare again p = write (value_of (variable p.before)) (again p.after)

  -- The loop of `interpolate`: each round takes at least one character, and so does each nested
  -- call, so that the length of the text and one more is enough fuel.
  unfoldable pub interpolate_in : ℕ → Runes → Interpolated
  unfolding closing_brace expand_to split_name bare is_name_start
  interpolate_in zero s = out_of_fuel
  interpolate_in (suc fuel) [] = text []
  interpolate_in (suc fuel) (c ∷ []) = text (c ∷ [])
  interpolate_in (suc fuel) (c ∷ next ∷ s) =
      let again = interpolate_in fuel in
      if not (c == b'$')
      then write (c ∷ []) (again (next ∷ s))
      else if next == b'$'
      then write (b'$' ∷ []) (again s)
      else if next == b'{'
      then expand_to again (closing_brace 1 s)
      else if is_name_start next
      then bare again (split_name (next ∷ s))
      else write (b'$' ∷ []) (again (next ∷ s))

  unfoldable pub interpolate : Runes → Interpolated
  unfolding interpolate_in
  interpolate s = interpolate_in (length s + 1) s
