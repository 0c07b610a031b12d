-- ===== src/Compose/Bodies.antt =====
-- What `expand` makes of the body that a template writes between braces.
use dicer.Prelude.{
  ◌≡◌, refl, ap, ◌∙◌, Bool, true, false, Option, none, some, [], ◌∷◌, ◌++◌, nat_Eq, if◌then◌else◌,
  arith, All, append_assoc, append-nil,
}
use dicer.Text.{Runes, runes_Eq}
use dicer.Compose.{Interpolated, text, failed, out_of_fuel}
use dicer.Compose.Interpolate.{
  is_name_start, is_name_character, split_name, closing_brace, value_of, present, missing, operate,
  expand_rest, starts_name, expand,
}
use dicer.Compose.Template.{
  Template, print, Operator, default_to, require, alternative, operator_code, colon_text, counts,
  fails_with, choose, IsName, EndsName, IsTemplate,
}
use dicer.Compose.Braces.{
  prefix, prefix-some, closing-end, name-characters, closing-print, closing-name, closing-operator,
}

pub split_name-append :
    (name s : Runes)
    → All (λ c. is_name_character c ≡ true) name
    → EndsName s
    → split_name (name ++ s) ≡ record { before = name; after = s }
unfolding split_name
split_name-append [] [] h e = refl
split_name-append [] (c ∷ s) h e = rw e refl
split_name-append (c ∷ name) s h e = rw (h.0, split_name-append name s h.1 e) refl

present-counts : (colon : Bool) (v : Option Runes) → present colon v ≡ counts colon v
unfolding present
present-counts colon none = refl
present-counts true (some []) = refl
present-counts false (some []) = refl
present-counts true (some (c ∷ s)) = refl
present-counts false (some (c ∷ s)) = refl

missing-fails_with : (name : Runes) (r : Interpolated) → missing name r ≡ fails_with name r
unfolding missing
missing-fails_with name (text []) = refl
missing-fails_with name (text (c ∷ s)) = refl
missing-fails_with name (failed x) = refl
missing-fails_with name out_of_fuel = refl

module _ (variable : Runes → Option Runes) (again : Runes → Interpolated) where
  operate-choose :
      (name : Runes) (colon : Bool) (op : Operator) (arg : Runes)
      → operate variable again name colon (operator_code op) arg
        ≡ choose op (counts colon (variable name)) name (value_of (variable name)) (again arg)
  unfolding operate
  operate-choose name colon default_to arg =
      rw (present-counts colon (variable name)) (pick (counts colon (variable name)))
    where
      pick :
          (b : Bool)
          → (if b then text (value_of (variable name)) else again arg)
            ≡ choose default_to b name (value_of (variable name)) (again arg)
      pick true = refl
      pick false = refl
  operate-choose name colon require arg =
      rw (present-counts colon (variable name), missing-fails_with name (again arg))
        (pick (counts colon (variable name)))
    where
      pick :
          (b : Bool)
          → (if b then text (value_of (variable name)) else fails_with name (again arg))
            ≡ choose require b name (value_of (variable name)) (again arg)
      pick true = refl
      pick false = refl
  operate-choose name colon alternative arg =
      rw (present-counts colon (variable name)) (pick (counts colon (variable name)))
    where
      pick :
          (b : Bool)
          → (if b then again arg else text [])
            ≡ choose alternative b name (value_of (variable name)) (again arg)
      pick true = refl
      pick false = refl

  pub expand_rest-choose :
      (name : Runes) (colon : Bool) (op : Operator) (arg : Runes)
      → expand_rest variable again name (colon_text colon ++ operator_code op ∷ arg)
        ≡ choose op (counts colon (variable name)) name (value_of (variable name)) (again arg)
  unfolding expand_rest
  expand_rest-choose name true op arg = operate-choose name true op arg
  expand_rest-choose name false default_to [] = operate-choose name false default_to []
  expand_rest-choose name false default_to (c ∷ s) = operate-choose name false default_to (c ∷ s)
  expand_rest-choose name false require [] = operate-choose name false require []
  expand_rest-choose name false require (c ∷ s) = operate-choose name false require (c ∷ s)
  expand_rest-choose name false alternative [] = operate-choose name false alternative []
  expand_rest-choose name false alternative (c ∷ s) = operate-choose name false alternative (c ∷ s)

  pub expand-name :
      (name rest : Runes)
      → IsName name
      → EndsName rest
      → expand variable again (name ++ rest) ≡ expand_rest variable again name rest
  unfolding expand starts_name
  expand-name [] rest h e = absurd h
  expand-name (c ∷ name) rest h e =
      rw (split_name-append (c ∷ name) rest (name-characters (c ∷ name) h) e, h.0) refl

-- What stands between the braces of a choice.
abbrev pub choice_text : Runes → Bool → Operator → Template → Runes
choice_text name colon op arg = name ++ (colon_text colon ++ operator_code op ∷ print arg)

pub EndsName-operator :
    (colon : Bool) (op : Operator) (s : Runes) → EndsName (colon_text colon ++ operator_code op ∷ s)
unfolding is_name_character is_name_start
EndsName-operator true op s = refl
EndsName-operator false default_to s = refl
EndsName-operator false require s = refl
EndsName-operator false alternative s = refl

pub closing_variable :
    (name s : Runes)
    → IsName name
    → closing_brace 1 (name ++ b'}' ∷ s) ≡ some (record { before = name; after = s })
closing_variable name s h =
    closing-name 1 name (b'}' ∷ s) (name-characters name h)
    ∙ ap (prefix name) (closing-end s)
    ∙ prefix-some name _
    ∙ ap (λ b. some (record { before = b; after = s })) (append-nil name)

pub closing_choice :
    (name : Runes) (colon : Bool) (op : Operator) (arg : Template) (s : Runes)
    → IsName name
    → IsTemplate arg
    → closing_brace 1 (name ++ (colon_text colon ++ operator_code op ∷ (print arg ++ b'}' ∷ s)))
      ≡ some (record { before = choice_text name colon op arg; after = s })
closing_choice name colon op arg s h k =
    closing-name 1 name _ (name-characters name h)
    ∙ ap (prefix name) (
        closing-operator 1 colon op (print arg ++ b'}' ∷ s)
        ∙ ap (prefix (colon_text colon ++ operator_code op ∷ [])) (
            closing-print 0 arg (b'}' ∷ s) k (λ e. absurd (omega (arith, e)))
            ∙ ap (prefix (print arg)) (closing-end s)
            ∙ prefix-some (print arg) _)
        ∙ prefix-some (colon_text colon ++ operator_code op ∷ []) _)
    ∙ prefix-some name _
    ∙ ap (λ b. some (record { before = b; after = s })) (simp (append_assoc, append-nil))
