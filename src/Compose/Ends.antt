-- ===== src/Compose/Ends.antt =====
-- An interpolation always answers.
use dicer.Prelude.{
  ℕ, zero, suc, ◌+◌, ◌≤◌, ◌<◌, ◌≡◌, ◌≢◌, refl, inl, inr, Bool, true, false, not, Option, none, some,
  [], ◌∷◌, ◌++◌, ◌==◌, nat_Eq, if◌then◌else◌, length, arith, Bool-cases,
}
use dicer.Text.{Runes, runes_Eq}
use dicer.Compose.{
  Interpolated, text, failed, out_of_fuel, Failure, no_operator, bad_operator, no_name,
  no_closing_brace,
}
use dicer.Compose.Interpolate.{
  is_name_start, Split, split_name, closing_brace, write, then_write, value_of, present, missing,
  operate, expand_rest, starts_name, expand, expand_to, bare, interpolate_in, interpolate,
}
use dicer.Compose.Fuel.{
  length-split_name, length-split_name_start, split_length-closing_brace, interpolate_in-same,
}

abbrev Ends : Interpolated → Type 0
Ends r = r ≢ out_of_fuel

text-Ends : (s : Runes) → Ends (text s)
text-Ends s e = cc

failed-Ends : (x : Failure) → Ends (failed x)
failed-Ends x e = cc

write-Ends : (s : Runes) (r : Interpolated) → Ends r → Ends (write s r)
write-Ends s (text t) h = text-Ends (s ++ t)
write-Ends s (failed x) h = failed-Ends x
write-Ends s out_of_fuel h = h

then_write-Ends : (r q : Interpolated) → Ends r → Ends q → Ends (then_write r q)
then_write-Ends (text s) q h k = write-Ends s q k
then_write-Ends (failed x) q h k = failed-Ends x
then_write-Ends out_of_fuel q h k = h

missing-Ends : (name : Runes) (r : Interpolated) → Ends r → Ends (missing name r)
unfolding missing
missing-Ends name (text []) h = λ e. cc
missing-Ends name (text (c ∷ s)) h = λ e. cc
missing-Ends name (failed x) h = failed-Ends x
missing-Ends name out_of_fuel h = h

if-Ends : (b : Bool) (r q : Interpolated) → Ends r → Ends q → Ends (if b then r else q)
if-Ends true r q h k = h
if-Ends false r q h k = k

module _ (variable : Runes → Option Runes) (again : Runes → Interpolated) where
  abbrev Goes : ℕ → Type 0
  Goes n = (s : Runes) → length s ≤ n → Ends (again s)

  operate-Ends :
      (name : Runes) (empty_counts : Bool) (op : ℕ) (arg : Runes)
      → Ends (again arg)
      → Ends (operate variable again name empty_counts op arg)
  unfolding operate
  operate-Ends name empty_counts op arg h =
      let v = text-Ends (value_of (variable name)) in
      let b = present empty_counts (variable name) in
      if-Ends (op == b'-') _ _ (if-Ends b _ _ v h) (
        if-Ends (op == b'?') _ _ (if-Ends b _ _ v (missing-Ends name (again arg) h))
          (if-Ends (op == b'+') _ _ (if-Ends b _ _ h (text-Ends [])) (failed-Ends bad_operator)))

  expand_rest-Ends :
      (name rest : Runes) → Goes (length rest) → Ends (expand_rest variable again name rest)
  unfolding expand_rest
  expand_rest-Ends name [] h = text-Ends (value_of (variable name))
  expand_rest-Ends name (c ∷ []) h =
      if-Ends (c == b':') _ _ (failed-Ends no_operator)
        (operate-Ends name false c [] (h [] (omega arith)))
  expand_rest-Ends name (c ∷ d ∷ s) h =
      if-Ends (c == b':') _ _ (operate-Ends name true d s (h s (omega arith)))
        (operate-Ends name false c (d ∷ s) (h (d ∷ s) (omega arith)))

  expand-Ends : (body : Runes) → Goes (length body) → Ends (expand variable again body)
  unfolding expand
  expand-Ends body h =
      if-Ends (not (starts_name variable again (split_name body).before)) _ _ (failed-Ends no_name)
        (expand_rest-Ends (split_name body).before (split_name body).after
          (λ s l. h s (omega (arith, l, length-split_name body))))

  expand_to-Ends :
      (o : Option Split) (n : ℕ)
      → Goes n
      → ((p : Split) → o ≡ some p → length p.before + length p.after ≤ n)
      → Ends (expand_to variable again o)
  unfolding expand_to
  expand_to-Ends none n h l = failed-Ends no_closing_brace
  expand_to-Ends (some p) n h l =
      let size = l p refl in
      then_write-Ends _ _ (expand-Ends p.before (λ s k. h s (omega (arith, k, size))))
        (h p.after (omega (arith, size)))

  bare-Ends : (p : Split) → Ends (again p.after) → Ends (bare variable again p)
  unfolding bare
  bare-Ends p h = write-Ends (value_of (variable p.before)) (again p.after) h

  name-Ends :
      (d : ℕ) (s : Runes)
      → Goes (length s + 1)
      → Ends (
          if is_name_start d
          then bare variable again (split_name (d ∷ s))
          else write (b'$' ∷ []) (again (d ∷ s)))
  name-Ends d s goes = elim (Bool-cases (is_name_start d)) [
    | inl y ↦ rw y (
        bare-Ends (split_name (d ∷ s))
          (goes (split_name (d ∷ s)).after (omega (arith, length-split_name_start d s y))))
    | inr n ↦ rw n (write-Ends (b'$' ∷ []) _ (goes (d ∷ s) (omega arith)))
  ]

module _ (variable : Runes → Option Runes) where
  interpolate_in-Ends : (f : ℕ) (s : Runes) → length s < f → Ends (interpolate_in variable f s)
  unfolding interpolate_in
  interpolate_in-Ends zero s l = absurd (omega arith)
  interpolate_in-Ends (suc f) [] l = text-Ends []
  interpolate_in-Ends (suc f) (c ∷ []) l = text-Ends (c ∷ [])
  interpolate_in-Ends (suc f) (c ∷ d ∷ s) l =
      let goes : Goes variable (interpolate_in variable f) (length s + 1) =
        λ t k. interpolate_in-Ends f t (omega (arith, k)) in
      if-Ends (not (c == b'$')) _ _ (write-Ends (c ∷ []) _ (goes (d ∷ s) (omega arith))) (
        if-Ends (d == b'$') _ _ (write-Ends (b'$' ∷ []) _ (goes s (omega arith))) (
          if-Ends (d == b'{') _ _
            (expand_to-Ends variable (interpolate_in variable f) (closing_brace 1 s) (length s + 1)
              goes (λ p e. omega (arith, split_length-closing_brace 1 s e)))
            (name-Ends variable (interpolate_in variable f) d s goes)))

  -- An interpolation of any text ends, with a text or an error of the code: any fuel above the
  -- length of the text gives the same answer, which is not that the fuel ran out.
  pub interpolate-Ends :
      (f : ℕ) (s : Runes)
      → length s < f
      → (interpolate_in variable f s ≡ interpolate variable s)
        × (interpolate variable s ≢ out_of_fuel)
  unfolding interpolate
  interpolate-Ends f s l = (
    interpolate_in-same variable f (length s + 1) s l (omega arith),
    interpolate_in-Ends (length s + 1) s (omega arith),
  )
