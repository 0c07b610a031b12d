-- ===== src/Compose/Fuel.antt =====
-- An interpolation ends: the length of the text and one more is enough fuel, and more fuel changes
-- nothing.
use dicer.Prelude.{
  ℕ, zero, suc, ◌+◌, ◌-◌, ◌≤◌, ◌<◌, ◌≡◌, refl, sym, ap, ◌∙◌, inl, inr, Bool, true, false, ◌&&◌,
  Option, none, some, [], ◌∷◌, ◌==◌, nat_Eq, length, arith, Bool-cases, some_eq,
}
use dicer.Text.{Runes, runes_Eq}
use dicer.Compose.{Interpolated}
use dicer.Compose.Interpolate.{
  is_name_start, is_name_character, Split, split_name, closing_brace, operate, expand_rest, expand,
  expand_to, bare, before?, interpolate_in,
}

pub length-split_name : (s : Runes) → length (split_name s).after ≤ length s
unfolding split_name
length-split_name [] = omega arith
length-split_name (c ∷ s) = elim (Bool-cases (is_name_character c)) [
  | inl y ↦ rw y (omega (arith, length-split_name s))
  | inr n ↦ rw n (omega arith)
]

pub length-split_name_start :
    (c : ℕ) (s : Runes) → is_name_start c ≡ true → length (split_name (c ∷ s)).after ≤ length s
unfolding split_name is_name_character
length-split_name_start c s h = rw h (length-split_name s)

abbrev split_length : Split → ℕ
split_length p = length p.before + length p.after

split_length-before? :
    (c : ℕ) (o : Option Split) {p : Split}
    → before? c o ≡ some p
    → (q : Split) × (o ≡ some q) × (split_length p ≡ split_length q + 1)
split_length-before? c none h = cc
split_length-before? c (some q) h = (q, refl, ap split_length (sym (some_eq h)) ∙ omega arith)

split_length_here :
    (rest : Runes) {p : Split}
    → some (record { before = []; after = rest }) ≡ some p
    → split_length p ≡ length rest
split_length_here rest h = ap split_length (sym (some_eq h)) ∙ omega arith

pub split_length-closing_brace :
    (depth : ℕ) (s : Runes) {p : Split} → closing_brace depth s ≡ some p → split_length p < length s
unfolding closing_brace
split_length-closing_brace depth [] h = cc
split_length-closing_brace depth (c ∷ []) h = elim (Bool-cases (c == b'}')) [
  | inr n ↦ cc (rw n at h)
  | inl y ↦ elim (Bool-cases (depth - 1 == 0)) [
    | inr n ↦ cc (rw (y, n) at h)
    | inl z ↦ omega (arith, split_length_here [] (rw (y, z) at h))
  ]
]
split_length-closing_brace depth (c ∷ d ∷ s) h = elim (Bool-cases (c == b'$' && d == b'{')) [
  | inl y ↦
      let (p, e, l) = split_length-before? c _ (rw y at h) in
      let (q, f, m) = split_length-before? d _ e in
      omega (arith, split_length-closing_brace (depth + 1) s f, l, m)
  | inr n ↦ elim (Bool-cases (c == b'}')) [
    | inr other ↦
        let (p, e, l) = split_length-before? c _ (rw (n, other) at h) in
        omega (arith, split_length-closing_brace depth (d ∷ s) e, l)
    | inl y ↦ elim (Bool-cases (depth - 1 == 0)) [
      | inl z ↦ omega (arith, split_length_here (d ∷ s) (rw (n, y, z) at h))
      | inr z ↦
          let (p, e, l) = split_length-before? c _ (rw (n, y, z) at h) in
          omega (arith, split_length-closing_brace (depth - 1) (d ∷ s) e, l)
    ]
  ]
]

-- Two ways to go on agree on short texts, so that what calls them agrees.
module _ (variable : Runes → Option Runes) (f g : Runes → Interpolated) where
  abbrev Agree : ℕ → Type 0
  Agree n = (s : Runes) → length s ≤ n → f s ≡ g s

  operate-Agree :
      (name : Runes) (empty_counts : Bool) (op : ℕ) (arg : Runes)
      → f arg ≡ g arg
      → operate variable f name empty_counts op arg ≡ operate variable g name empty_counts op arg
  unfolding operate
  operate-Agree name empty_counts op arg h = rw h refl

  expand_rest-Agree :
      (name rest : Runes)
      → Agree (length rest)
      → expand_rest variable f name rest ≡ expand_rest variable g name rest
  unfolding expand_rest
  expand_rest-Agree name [] h = refl
  expand_rest-Agree name (c ∷ []) h = rw (operate-Agree name false c [] (h [] (omega arith))) refl
  expand_rest-Agree name (c ∷ d ∷ s) h =
      rw
        (
          operate-Agree name true d s (h s (omega arith)),
          operate-Agree name false c (d ∷ s) (h (d ∷ s) (omega arith)),
        )
        refl

  pub expand-Agree :
      (body : Runes) → Agree (length body) → expand variable f body ≡ expand variable g body
  unfolding expand
  expand-Agree body h =
      rw
        (expand_rest-Agree (split_name body).before (split_name body).after
          (λ s l. h s (omega (arith, l, length-split_name body))))
        refl

  expand_to-Agree :
      (o : Option Split) (n : ℕ)
      → Agree n
      → ((p : Split) → o ≡ some p → split_length p ≤ n)
      → expand_to variable f o ≡ expand_to variable g o
  unfolding expand_to
  expand_to-Agree none n h l = refl
  expand_to-Agree (some p) n h l =
      let size = l p refl in
      rw
        (
          expand-Agree p.before (λ s k. h s (omega (arith, k, size))),
          h p.after (omega (arith, size)),
        )
        refl

module _ (variable : Runes → Option Runes) where
  -- Any fuel that is enough gives the same.
  pub interpolate_in-same :
      (f g : ℕ) (s : Runes)
      → length s < f
      → length s < g
      → interpolate_in variable f s ≡ interpolate_in variable g s
  unfolding interpolate_in bare
  interpolate_in-same zero g s l m = absurd (omega arith)
  interpolate_in-same (suc f) zero s l m = absurd (omega arith)
  interpolate_in-same (suc f) (suc g) [] l m = refl
  interpolate_in-same (suc f) (suc g) (c ∷ []) l m = refl
  interpolate_in-same (suc f) (suc g) (c ∷ d ∷ s) l m =
      let same : (t : Runes)
          → length t ≤ length s + 1
          → interpolate_in variable f t ≡ interpolate_in variable g t =
        λ t k. interpolate_in-same f g t (omega (arith, k)) (omega (arith, k)) in
      let braces : expand_to variable (interpolate_in variable f) (closing_brace 1 s)
          ≡ expand_to variable (interpolate_in variable g) (closing_brace 1 s) =
        expand_to-Agree variable _ _ (closing_brace 1 s) (length s + 1) same
          (λ p e. omega (arith, split_length-closing_brace 1 s e)) in
      elim (Bool-cases (is_name_start d)) [
        | inl y ↦
            let rest =
              same (split_name (d ∷ s)).after (omega (arith, length-split_name_start d s y)) in
            rw (same (d ∷ s) (omega arith), same s (omega arith), braces, rest) refl
        | inr n ↦ rw (same (d ∷ s) (omega arith), same s (omega arith), braces, n) refl
      ]
