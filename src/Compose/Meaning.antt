-- ===== src/Compose/Meaning.antt =====
-- The interpolation of a written template is what the template means.
use dicer.Prelude.{
  ℕ, suc, ◌≤◌, ◌<◌, ◌≡◌, ◌≢◌, refl, sym, ap, ◌∙◌, true, false, Option, some, [], ◌∷◌, ◌++◌, ◌==◌,
  nat_Eq, length, arith, append-nil,
}
use dicer.Text.{Runes, runes_Eq}
use dicer.Compose.{text}
use dicer.Compose.Interpolate.{
  is_name_start, Split, split_name, closing_brace, write, then_write, value_of, expand_rest, expand,
  expand_to, bare, interpolate_in, interpolate,
}
use dicer.Compose.Fuel.{split_length-closing_brace, expand-Agree}
use dicer.Compose.Ends.{interpolate-Ends}
use dicer.Compose.Template.{
  Template, end, literal, dollar, bare_variable, braced_variable, choice, print, counts, choose,
  meaning, IsName, EndsName, IsTemplate,
}
use dicer.Compose.Braces.{name-characters}
use dicer.Compose.Bodies.{
  split_name-append, closing_variable, closing_choice, EndsName-operator, expand_rest-choose,
  expand-name,
}

name_start-plain : (c : ℕ) → is_name_start c ≡ true → ((c == b'$') ≡ false) × ((c == b'{') ≡ false)
unfolding is_name_start
name_start-plain c h = (ground (arith, h), ground (arith, h))

length-rest : (name s : Runes) → length s ≤ length (name ++ s)
length-rest [] s = omega arith
length-rest (c ∷ name) s = omega (arith, length-rest name s)

module _ (variable : Runes → Option Runes) where
  -- The rounds of the loop.
  enough : (n : ℕ) (s : Runes) → length s < n → interpolate_in variable n s ≡ interpolate variable s
  enough n s l = (interpolate-Ends variable n s l).0

  interpolate-nil : interpolate variable [] ≡ text []
  unfolding interpolate interpolate_in
  interpolate-nil = refl

  interpolate-plain :
      (c : ℕ) (s : Runes)
      → c ≢ b'$'
      → interpolate variable (c ∷ s) ≡ write (c ∷ []) (interpolate variable s)
  unfolding interpolate_in
  interpolate-plain c [] h = sym (enough 2 (c ∷ []) (omega arith)) ∙ rw interpolate-nil refl
  interpolate-plain c (d ∷ s) h =
      let n : (c == b'$') ≡ false = ground arith in
      sym (enough (suc (suc (suc (length s)))) (c ∷ d ∷ s) (omega arith))
      ∙ rw (n, enough (suc (suc (length s))) (d ∷ s) (omega arith)) refl

  interpolate-dollar :
      (s : Runes)
      → interpolate variable (b'$' ∷ b'$' ∷ s) ≡ write (b'$' ∷ []) (interpolate variable s)
  unfolding interpolate_in
  interpolate-dollar s =
      sym (enough (suc (suc (suc (length s)))) (b'$' ∷ b'$' ∷ s) (omega arith))
      ∙ rw (enough (suc (suc (length s))) s (omega arith)) refl

  interpolate-braces :
      (s : Runes) (p : Split)
      → closing_brace 1 s ≡ some p
      → interpolate variable (b'$' ∷ b'{' ∷ s)
        ≡ then_write
            (expand variable (interpolate variable) p.before)
            (interpolate variable p.after)
  unfolding interpolate_in expand_to
  interpolate-braces s p h =
      let size = split_length-closing_brace 1 s h in
      let fuel = suc (suc (length s)) in
      let body : expand variable (interpolate_in variable fuel) p.before
          ≡ expand variable (interpolate variable) p.before =
        expand-Agree variable _ _ p.before (λ t l. enough fuel t (omega (arith, l, size))) in
      sym (enough (suc fuel) (b'$' ∷ b'{' ∷ s) (omega arith))
      ∙ rw (h, body, enough fuel p.after (omega (arith, size))) refl

  interpolate_in-bare :
      (fuel c : ℕ) (s : Runes)
      → is_name_start c ≡ true
      → interpolate_in variable (suc fuel) (b'$' ∷ c ∷ s)
        ≡ bare variable (interpolate_in variable fuel) (split_name (c ∷ s))
  unfolding interpolate_in
  interpolate_in-bare fuel c s h = let (n, m) = name_start-plain c h in rw (n, m, h) refl

  bare-write :
      (fuel : ℕ) (name s : Runes)
      → bare variable (interpolate_in variable fuel) (record { before = name; after = s })
        ≡ write (value_of (variable name)) (interpolate_in variable fuel s)
  unfolding bare
  bare-write fuel name s = refl

  interpolate-bare :
      (name s : Runes)
      → IsName name
      → EndsName s
      → interpolate variable (b'$' ∷ (name ++ s))
        ≡ write (value_of (variable name)) (interpolate variable s)
  interpolate-bare [] s h e = absurd h
  interpolate-bare (c ∷ name) s h e =
      let shorter : length s ≤ length (name ++ s) = length-rest name s in
      let fuel = suc (suc (length (name ++ s))) in
      sym (enough (suc fuel) (b'$' ∷ c ∷ (name ++ s)) (omega arith))
      ∙ interpolate_in-bare fuel c (name ++ s) h.0
      ∙ ap (bare variable (interpolate_in variable fuel))
          (split_name-append (c ∷ name) s (name-characters (c ∷ name) h) e)
      ∙ bare-write fuel (c ∷ name) s
      ∙ ap (write (value_of (variable (c ∷ name)))) (enough fuel s (omega (arith, shorter)))

  expand-variable :
      (name : Runes)
      → IsName name
      → expand variable (interpolate variable) name ≡ text (value_of (variable name))
  unfolding expand_rest
  expand-variable name h =
      ap (expand variable (interpolate variable)) (sym (append-nil name))
      ∙ expand-name variable (interpolate variable) name [] h tt

  -- A text is read as what it says: a template that is written out, of plain characters, `$$`,
  -- variables with and without braces, and defaults, messages and alternatives that are
  -- templates themselves, is interpolated to its meaning. Plain characters are other than `$` and
  -- braces, names are names, and what follows a name without braces does not go on with it.
  pub interpolate-print :
      (t : Template) → IsTemplate t → interpolate variable (print t) ≡ meaning variable t
  unfolding print meaning
  interpolate-print end h = interpolate-nil
  interpolate-print (literal c t) h =
      interpolate-plain c (print t) h.0 ∙ ap (write (c ∷ [])) (interpolate-print t h.3)
  interpolate-print (dollar t) h =
      interpolate-dollar (print t) ∙ ap (write (b'$' ∷ [])) (interpolate-print t h)
  interpolate-print (bare_variable name t) h =
      interpolate-bare name (print t) h.0 h.1
      ∙ ap (write (value_of (variable name))) (interpolate-print t h.2)
  interpolate-print (braced_variable name t) h =
      interpolate-braces (name ++ b'}' ∷ print t) _ (closing_variable name (print t) h.0)
      ∙ ap (λ r. then_write r (interpolate variable (print t))) (expand-variable name h.0)
      ∙ ap (write (value_of (variable name))) (interpolate-print t h.1)
  interpolate-print (choice name colon op arg t) h =
      interpolate-braces _ _ (closing_choice name colon op arg (print t) h.0 h.1)
      ∙ ap (λ r. then_write r (interpolate variable (print t)))
          (expand-name variable (interpolate variable) name _ h.0
              (EndsName-operator colon op (print arg))
            ∙ expand_rest-choose variable (interpolate variable) name colon op (print arg)
            ∙ ap (choose op (counts colon (variable name)) name (value_of (variable name)))
                (interpolate-print arg h.1))
      ∙ ap
          (then_write (
            choose op (counts colon (variable name)) name (value_of (variable name))
              (meaning variable arg)))
          (interpolate-print t h.2)
