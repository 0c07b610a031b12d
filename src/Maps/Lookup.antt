-- ===== src/Maps/Lookup.antt =====
-- What a lookup finds after a change of a map.
use dicer.Prelude.{
  ◌≡◌, ◌≢◌, refl, sym, ◌∙◌, ◌⊎◌, inl, inr, true, false, none, some, List, [], ◌∷◌, Eq, ◌==◌,
  Bool-cases, some_eq, subst, All,
}
use dicer.Maps.{lookup, put, remove}

module _ {ℓ} {K : Type ℓ} ⦃e : Eq K⦄ where
  pub ne_of_beq : (j k : K) → (j == k) ≡ false → j ≢ k
  ne_of_beq j k h q = false_is_true (sym h ∙ (e.same_iff j k).1 q)
    where
      false_is_true : false ≡ true → ⊥
      false_is_true f = cc

module _ {ℓ κ} {K : Type ℓ} {V : Type κ} ⦃e : Eq K⦄ where
  pub lookup-nil : (k : K) → lookup {V = V} k [] ≡ none
  unfolding lookup
  lookup-nil k = refl

  pub lookup-cons :
      (k j : K) (v : V) (m : List (K × V))
      → ((j ≡ k) × (lookup k ((j, v) ∷ m) ≡ some v))
        ⊎ ((j ≢ k) × (lookup k ((j, v) ∷ m) ≡ lookup k m))
  unfolding lookup
  lookup-cons k j v m = elim (Bool-cases (j == k)) [
    | inl same ↦ inl ((e.same_iff j k).0 same, rw same)
    | inr other ↦ inr (ne_of_beq j k other, rw other)
  ]

  pub lookup-put_self : (k : K) (v : V) (m : List (K × V)) → lookup k (put k v m) ≡ some v
  unfolding put
  lookup-put_self k v m = elim (lookup-cons k k v m) [
    | inl (_, f) ↦ f
    | inr (ne, _) ↦ absurd (ne refl)
  ]

  pub lookup-put_ne :
      (k j : K) (v : V) (m : List (K × V)) → j ≢ k → lookup k (put j v m) ≡ lookup k m
  unfolding put
  lookup-put_ne k j v m h = elim (lookup-cons k j v m) [
    | inl (q, _) ↦ absurd (h q)
    | inr (_, f) ↦ f
  ]

  pub lookup-All {μ} :
      (P : K × V → Type μ) (k : K) (m : List (K × V)) {v : V}
      → All P m
      → lookup k m ≡ some v
      → P (k, v)
  lookup-All P k [] h f = cc (lookup-nil k)
  lookup-All P k ((j, w) ∷ m) {v} h f = elim (lookup-cons k j w m) [
    | inl (q, g) ↦ subst P (λ i. (q i, some_eq (sym g ∙ f) i)) h.0
    | inr (_, g) ↦ lookup-All P k m h.1 (sym g ∙ f)
  ]

  pub remove-All {μ} :
      (P : K × V → Type μ) (k : K) (m : List (K × V)) → All P m → All P (remove k m)
  unfolding remove
  remove-All P k [] h = tt
  remove-All P k ((j, w) ∷ m) h = elim (Bool-cases (j == k)) [
    | inl same ↦ rw same (remove-All P k m h.1)
    | inr other ↦ rw other (h.0, remove-All P k m h.1)
  ]
