-- ===== src/Compose/Template.antt =====
-- What a text with variables is: a template, how it is written, and what it means. This is the
-- description in the comment of `interpolate`, apart from the code.
use dicer.Prelude.{ℕ, ◌≡◌, ◌≢◌, Bool, true, false, not, Option, none, some, [], ◌∷◌, ◌++◌, All}
use dicer.Text.{Runes, codes}
use dicer.Compose.{Interpolated, text, failed, required}
use dicer.Compose.Interpolate.{is_name_start, is_name_character, write, then_write, value_of}

-- `-`, `?` and `+`.
pub data Operator : Type 0 where
  default_to require alternative : Operator

-- A character, `$$`, `$VAR`, `${VAR}`, or `${VAR:-template}` and so on, where the colon may be left
-- out; and what follows it.
pub data Template : Type 0 where
  end : Template
  literal : ℕ → Template → Template
  dollar : Template → Template
  bare_variable braced_variable : (name : Runes) → Template → Template
  choice : (name : Runes) → (colon : Bool) → Operator → Template → Template → Template

abbrev pub operator_code : Operator → ℕ
operator_code default_to = b'-'
operator_code require = b'?'
operator_code alternative = b'+'

abbrev pub colon_text : Bool → Runes
colon_text true = b':' ∷ []
colon_text false = []

unfoldable pub print : Template → Runes
print end = []
print (literal c t) = c ∷ print t
print (dollar t) = b'$' ∷ b'$' ∷ print t
print (bare_variable name t) = b'$' ∷ (name ++ print t)
print (braced_variable name t) = b'$' ∷ b'{' ∷ (name ++ b'}' ∷ print t)
print (choice name colon op arg t) =
    b'$' ∷ b'{' ∷ (name ++ (colon_text colon ++ operator_code op ∷ (print arg ++ b'}' ∷ print t)))

-- Whether a variable counts: it is set, and with a colon not empty.
abbrev pub counts : Bool → Option Runes → Bool
counts colon none = false
counts colon (some []) = not colon
counts colon (some (c ∷ s)) = true

-- An unset variable's error, with its message or the usual one.
abbrev pub fails_with : Runes → Interpolated → Interpolated
fails_with name (text []) = failed (required name (codes "it is not set"))
fails_with name (text (c ∷ s)) = failed (required name (c ∷ s))
fails_with name r = r

abbrev pub choose : Operator → Bool → Runes → Runes → Interpolated → Interpolated
choose default_to true name value other = text value
choose default_to false name value other = other
choose require true name value other = text value
choose require false name value other = fails_with name other
choose alternative true name value other = other
choose alternative false name value other = text []

module _ (variable : Runes → Option Runes) where
  unfoldable pub meaning : Template → Interpolated
  meaning end = text []
  meaning (literal c t) = write (c ∷ []) (meaning t)
  meaning (dollar t) = write (b'$' ∷ []) (meaning t)
  meaning (bare_variable name t) = write (value_of (variable name)) (meaning t)
  meaning (braced_variable name t) = write (value_of (variable name)) (meaning t)
  meaning (choice name colon op arg t) =
      then_write
        (choose op (counts colon (variable name)) name (value_of (variable name)) (meaning arg))
        (meaning t)

-- A name: letters, digits and underscores, no digit first.
abbrev pub IsName : Runes → Type 0
IsName [] = ⊥
IsName (c ∷ s) = (is_name_start c ≡ true) × All (λ d. is_name_character d ≡ true) s

-- What does not go on with a name.
abbrev pub EndsName : Runes → Type 0
EndsName [] = Unit
EndsName (c ∷ s) = is_name_character c ≡ false

-- Templates whose characters are not those that the notation uses, and whose names are names.
abbrev pub IsTemplate : Template → Type 0
IsTemplate end = Unit
IsTemplate (literal c t) = (c ≢ b'$') × (c ≢ b'{') × (c ≢ b'}') × IsTemplate t
IsTemplate (dollar t) = IsTemplate t
IsTemplate (bare_variable name t) = IsName name × EndsName (print t) × IsTemplate t
IsTemplate (braced_variable name t) = IsName name × IsTemplate t
IsTemplate (choice name colon op arg t) = IsName name × IsTemplate arg × IsTemplate t
