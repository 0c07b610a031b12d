-- ===== src/Network/Finding.antt =====
-- A search of a list of allocations by the index of a key, and its laws when the key is unique.
use dicer.Prelude.{
  ◌≡◌, ◌≢◌, refl, sym, ap, ◌∙◌, inl, inr, Option, none, some, List, [], Eq, subst, Option-cases,
  some_eq, In, All, All-In, Distinct, Distinct-eq,
}
use dicer.Network.{Allocation}
use dicer.Network.Table.{lookup, new_table, index_from}
use dicer.Network.Lookup.{index-cases}
use dicer.Network.Manager.{at_index}

module _ {ℓ} {K : Type ℓ} ⦃e : Eq K⦄ (key : Allocation → K) where
  abbrev pub find : K → List Allocation → Option Allocation
  find k es = at_index (lookup k (index_from key 0 es [])) (new_table es)

  pub find-some :
      (k : K) (es : List Allocation) {a : Allocation} → find k es ≡ some a → In a es × (key a ≡ k)
  unfolding new_table
  find-some k es h = elim (index-cases key k es (new_table es) refl) [
    | inl (_, f, _) ↦ cc
    | inr (b, _, _, _, f, x, y) ↦
        let q = some_eq (sym f ∙ h) in (subst (λ c. In c es) q x, ap key (sym q) ∙ y)
  ]

  pub find-none : (k : K) (es : List Allocation) → find k es ≡ none → All (λ a. key a ≢ k) es
  unfolding new_table
  find-none k es h = elim (index-cases key k es (new_table es) refl) [
    | inl (_, _, f) ↦ f
    | inr (b, _, _, _, f, _, _) ↦ cc
  ]

  pub find-gone : (k : K) (es : List Allocation) → All (λ a. key a ≢ k) es → find k es ≡ none
  find-gone k es h = elim (Option-cases (find k es)) [
    | inl f ↦ f
    | inr (a, f) ↦ let (x, y) = find-some k es f in absurd (All-In _ _ es h x y)
  ]

  pub find-In :
      (k : K) (es : List Allocation) {a : Allocation}
      → Distinct key es
      → In a es
      → key a ≡ k
      → find k es ≡ some a
  find-In k es {a} d x y = elim (Option-cases (find k es)) [
    | inl f ↦ absurd (All-In _ _ es (find-none k es f) x y)
    | inr (b, f) ↦
        let (z, w) = find-some k es f in f ∙ ap some (Distinct-eq key es _ _ d z x (w ∙ sym y))
  ]

  -- Two lists with the same entries of a key have the same answer for it.
  pub find-same :
      (k : K) (es fs : List Allocation)
      → Distinct key es
      → Distinct key fs
      → ((a : Allocation) → key a ≡ k → In a es → In a fs)
      → ((a : Allocation) → key a ≡ k → In a fs → In a es)
      → find k es ≡ find k fs
  find-same k es fs d d' there back = elim (Option-cases (find k es)) [
    | inr (a, f) ↦ let (x, y) = find-some k es f in f ∙ sym (find-In k fs d' (there a y x) y)
    | inl f ↦ elim (Option-cases (find k fs)) [
      | inl g ↦ f ∙ sym g
      | inr (a, g) ↦
          let (x, y) = find-some k fs g in absurd (All-In _ _ es (find-none k es f) (back a y x) y)
    ]
  ]
