-- ===== src/Text/Laws.antt =====
-- Cutting and trimming of texts.
use dicer.Prelude.{
  ℕ, ◌≡◌, ◌≢◌, ◌≤◌, refl, sym, ap, ◌∙◌, ◌⊎◌, inl, inr, Bool, true, false, some, [], ◌∷◌, ◌++◌,
  length, arith, Bool-cases, some_eq, ◌==◌, nat_Eq, All, All-append, subst,
}
use mathlib.Core.List.{reverse, reverse-append, reverse-reverse}
use dicer.Text.{Runes, byte_length, cut_prefix, cut, trim_left, trim_right, trim_space, is_space}

pub cut_prefix-append : (prefix s : Runes) → cut_prefix prefix (prefix ++ s) ≡ some s
unfolding cut_prefix
cut_prefix-append [] s = refl
cut_prefix-append (p ∷ prefix) s = ground (arith, cut_prefix-append prefix s)

pub cut_prefix-some :
    (prefix s : Runes) {t : Runes} → cut_prefix prefix s ≡ some t → s ≡ prefix ++ t
unfolding cut_prefix
cut_prefix-some [] s h = some_eq h
cut_prefix-some (p ∷ prefix) [] h = cc
cut_prefix-some (p ∷ prefix) (r ∷ s) {t} h = elim (Bool-cases (p == r)) [
  | inl same ↦
      let e : r ≡ p = ground arith in
      ap (λ x. x ∷ s) e ∙ ap (λ x. p ∷ x) (cut_prefix-some prefix s (rw same at h))
  | inr other ↦ cc (rw other at h)
]

module _ (sep : ℕ) where
  -- A cut at the only separator before `t`.
  pub cut-append :
      (s t : Runes)
      → All (λ r. r ≢ sep) s
      → cut sep (s ++ sep ∷ t) ≡ record { before = s; after = t; found = true }
  unfolding cut
  cut-append [] t h = ground arith
  cut-append (r ∷ s) t h = ground (arith, cut-append s t h.1)

  pub cut-lacking :
      (s : Runes)
      → All (λ r. r ≢ sep) s
      → cut sep s ≡ record { before = s; after = []; found = false }
  unfolding cut
  cut-lacking [] h = refl
  cut-lacking (r ∷ s) h = ground (arith, cut-lacking s h.1)

  -- What was cut: the text is what is before, with a separator and what is after if one was found.
  pub cut-joins :
      (s : Runes)
      → (((cut sep s).found ≡ true) × (s ≡ (cut sep s).before ++ sep ∷ (cut sep s).after))
        ⊎ (((cut sep s).found ≡ false) × ((cut sep s).after ≡ []) × (s ≡ (cut sep s).before))
  unfolding cut
  cut-joins [] = inr (refl, refl, refl)
  cut-joins (r ∷ s) = elim (Bool-cases (r == sep)) [
    | inl same ↦ let e : r ≡ sep = ground arith in rw same (inl (refl, ap (λ x. x ∷ s) e))
    | inr other ↦ rw other (elim (cut-joins s) [
      | inl (f, e) ↦ inl (f, ap (λ x. r ∷ x) e)
      | inr (f, a, e) ↦ inr (f, a, ap (λ x. r ∷ x) e)
    ])
  ]

module _ (P : ℕ → Type 0) where
  pub All-reverse : (s : Runes) → All P s → All P (reverse s)
  All-reverse [] h = tt
  All-reverse (r ∷ s) h =
      subst (All P) (sym (reverse-append (r ∷ []) s))
        (All-append P (reverse s) (r ∷ []) (All-reverse s h.1) (h.0, tt))

pub trim_left-none : (p : ℕ → Bool) (s : Runes) → All (λ r. p r ≡ false) s → trim_left p s ≡ s
unfolding trim_left
trim_left-none p [] h = refl
trim_left-none p (r ∷ s) h = rw h.0

-- A text with no white space is not trimmed.
pub trim_space-none : (s : Runes) → All (λ r. is_space r ≡ false) s → trim_space s ≡ s
unfolding trim_space trim_right
trim_space-none s h =
    ap (λ t. reverse (trim_left is_space (reverse t))) (trim_left-none is_space s h)
    ∙ ap reverse (trim_left-none is_space (reverse s) (All-reverse _ s h))
    ∙ reverse-reverse s

pub byte_length-ascii : (s : Runes) → All (λ r. r ≤ 127) s → byte_length s ≡ length s
unfolding byte_length
byte_length-ascii [] h = refl
byte_length-ascii (r ∷ s) h = ground (arith, byte_length-ascii s h.1)
