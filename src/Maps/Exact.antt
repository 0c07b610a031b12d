-- ===== src/Maps/Exact.antt =====
-- Maps without shadowed entries: a change leaves one entry to each key, so that a loop over the
-- entries sees what a lookup finds.
use dicer.Prelude.{
  ◌≡◌, ◌≢◌, refl, sym, ap, ◌∙◌, ◌⊎◌, inl, inr, none, some, List, [], ◌∷◌, Eq, ◌==◌, Bool-cases,
  some_eq, subst, In, All, All-In,
}
use dicer.Maps.{lookup, put, remove, assign}
use dicer.Maps.Lookup.{
  ne_of_beq, lookup-nil, lookup-cons, lookup-put_self, lookup-put_ne, remove-All,
}

module _ {ℓ κ} {K : Type ℓ} {V : Type κ} ⦃e : Eq K⦄ where
  pub lookup-remove_self : (k : K) (m : List (K × V)) → lookup k (remove k m) ≡ none
  unfolding remove
  lookup-remove_self k [] = lookup-nil k
  lookup-remove_self k ((j, v) ∷ m) = elim (Bool-cases (j == k)) [
    | inl same ↦ rw same (lookup-remove_self k m)
    | inr other ↦ rw other (elim (lookup-cons k j v (remove k m)) [
      | inl (q, _) ↦ absurd (ne_of_beq j k other q)
      | inr (_, f) ↦ f ∙ lookup-remove_self k m
    ])
  ]

  pub lookup-remove_ne : (k j : K) (m : List (K × V)) → j ≢ k → lookup k (remove j m) ≡ lookup k m
  unfolding remove lookup
  lookup-remove_ne k j [] ne = refl
  lookup-remove_ne k j ((i, v) ∷ m) ne = elim (Bool-cases (i == j)) [
    | inl same ↦ rw same (elim (Bool-cases (i == k)) [
      | inl q ↦ absurd (ne (sym ((e.same_iff i j).0 same) ∙ (e.same_iff i k).0 q))
      | inr n ↦ rw n (lookup-remove_ne k j m ne)
    ])
    | inr other ↦ rw other (elim (Bool-cases (i == k)) [
      | inl q ↦ rw q refl
      | inr n ↦ rw n (lookup-remove_ne k j m ne)
    ])
  ]

  pub lookup-assign_self : (k : K) (v : V) (m : List (K × V)) → lookup k (assign k v m) ≡ some v
  unfolding assign
  lookup-assign_self k v m = lookup-put_self k v (remove k m)

  pub lookup-assign_ne :
      (k j : K) (v : V) (m : List (K × V)) → j ≢ k → lookup k (assign j v m) ≡ lookup k m
  unfolding assign
  lookup-assign_ne k j v m ne = lookup-put_ne k j v (remove j m) ne ∙ lookup-remove_ne k j m ne

  -- What a lookup finds after an assignment, or after a removal.
  pub assign-cases :
      (k j : K) (v : V) (m : List (K × V))
      → ((j ≡ k) × (lookup k (assign j v m) ≡ some v))
        ⊎ ((j ≢ k) × (lookup k (assign j v m) ≡ lookup k m))
  assign-cases k j v m = elim (Bool-cases (j == k)) [
    | inl same ↦
        let q = (e.same_iff j k).0 same in
        inl (q, subst (λ i. lookup i (assign j v m) ≡ some v) q (lookup-assign_self j v m))
    | inr other ↦ let ne = ne_of_beq j k other in inr (ne, lookup-assign_ne k j v m ne)
  ]

  pub remove-cases :
      (k j : K) (m : List (K × V))
      → ((j ≡ k) × (lookup k (remove j m) ≡ none))
        ⊎ ((j ≢ k) × (lookup k (remove j m) ≡ lookup k m))
  remove-cases k j m = elim (Bool-cases (j == k)) [
    | inl same ↦
        let q = (e.same_iff j k).0 same in
        inl (q, subst (λ i. lookup i (remove j m) ≡ none) q (lookup-remove_self j m))
    | inr other ↦ let ne = ne_of_beq j k other in inr (ne, lookup-remove_ne k j m ne)
  ]

  abbrev pub Exact : List (K × V) → Type (ℓ ⊔ κ)
  Exact [] = Unit
  Exact ((k, v) ∷ m) = All (λ (f : K × V). f.0 ≢ k) m × Exact m

  pub remove-gone : (k : K) (m : List (K × V)) → All (λ (f : K × V). f.0 ≢ k) (remove k m)
  unfolding remove
  remove-gone k [] = tt
  remove-gone k ((j, v) ∷ m) = elim (Bool-cases (j == k)) [
    | inl same ↦ rw same (remove-gone k m)
    | inr other ↦ rw other (ne_of_beq j k other, remove-gone k m)
  ]

  pub remove-Exact : (k : K) (m : List (K × V)) → Exact m → Exact (remove k m)
  unfolding remove
  remove-Exact k [] h = tt
  remove-Exact k ((j, v) ∷ m) h = elim (Bool-cases (j == k)) [
    | inl same ↦ rw same (remove-Exact k m h.1)
    | inr other ↦ rw other (remove-All _ k m h.0, remove-Exact k m h.1)
  ]

  pub assign-Exact : (k : K) (v : V) (m : List (K × V)) → Exact m → Exact (assign k v m)
  unfolding assign put
  assign-Exact k v m h = (remove-gone k m, remove-Exact k m h)

  pub In-lookup : (k : K) (v : V) (m : List (K × V)) → Exact m → In (k, v) m → lookup k m ≡ some v
  In-lookup k v [] h i = absurd i.1
  In-lookup k v ((j, w) ∷ m) h (inl q) = elim (lookup-cons k j w m) [
    | inl (_, f) ↦ f ∙ ap (λ (x : K × V). some x.1) (sym q)
    | inr (ne, _) ↦ absurd (ne (ap (λ (x : K × V). x.0) (sym q)))
  ]
  In-lookup k v ((j, w) ∷ m) h (inr i) = elim (lookup-cons k j w m) [
    | inl (q, _) ↦ absurd (All-In _ (k, v) m h.0 i (sym q))
    | inr (_, f) ↦ f ∙ In-lookup k v m h.1 i
  ]

  pub lookup-In : (k : K) (m : List (K × V)) {v : V} → lookup k m ≡ some v → In (k, v) m
  lookup-In k [] h = absurd (cc_none h)
    where
      cc_none : {v : V} → lookup k [] ≡ some v → ⊥
      cc_none h = cc (lookup-nil {V = V} k)
  lookup-In k ((j, w) ∷ m) h = elim (lookup-cons k j w m) [
    | inl (q, f) ↦ inl (λ i. (sym q i, some_eq (sym h ∙ f) i))
    | inr (_, f) ↦ inr (lookup-In k m (sym f ∙ h))
  ]

  remove-gone_same : (k : K) (m : List (K × V)) → All (λ (f : K × V). f.0 ≢ k) m → remove k m ≡ m
  unfolding remove
  remove-gone_same k [] h = refl
  remove-gone_same k ((j, v) ∷ m) h = elim (Bool-cases (j == k)) [
    | inl same ↦ absurd (h.0 ((e.same_iff j k).0 same))
    | inr other ↦ rw other (ap (λ x. (j, v) ∷ x) (remove-gone_same k m h.1))
  ]

  pub assign-remove : (k : K) (v : V) (m : List (K × V)) → assign k v (remove k m) ≡ assign k v m
  unfolding assign
  assign-remove k v m = ap (put k v) (remove-gone_same k (remove k m) (remove-gone k m))
