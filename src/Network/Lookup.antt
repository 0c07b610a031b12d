-- ===== src/Network/Lookup.antt =====
-- The indexes of an allocation table find what a search of its allocations would.
use dicer.Prelude.{
  ℕ, zero, suc, ◌+◌, ◌≡◌, ◌≢◌, refl, sym, ap, ◌∙◌, ◌⊎◌, inl, inr, false, none, some, List, [], ◌∷◌,
  map, Eq, nat_Eq, string_Eq, arith, some_eq, Option-cases, get_elem?, In, All,
}
use dicer.Network.{Allocation}
use dicer.Network.Address.{taken}
use dicer.Network.Table.{AllocationTable, lookup, index_from}
use dicer.Network.Manager.{at_index}
use dicer.Maps.Lookup.{lookup-nil}
pub use dicer.Maps.Lookup.{
  ne_of_beq, lookup-cons, lookup-put_self, lookup-put_ne, lookup-All, remove-All,
}

module _ {ℓ} {K : Type ℓ} ⦃e : Eq K⦄ (key : Allocation → K) (k : K) where
  -- What an index built from `i` on says of a key.
  index_from-some :
      (i : ℕ) (es : List Allocation) (m : List (K × ℕ)) {j : ℕ}
      → lookup k (index_from key i es m) ≡ some j
      → (lookup k m ≡ some j)
        ⊎ ((a : Allocation) × (d : ℕ) × (j ≡ i + d) × (get_elem? es d ≡ some a) × (key a ≡ k))
  unfolding index_from
  index_from-some i [] m h = inl h
  index_from-some i (a ∷ es) m h = elim (index_from-some (i + 1) es ((key a, i) ∷ m) h) [
    | inr (b, d, x, y, z) ↦ inr (b, suc d, omega arith, y, z)
    | inl f ↦ elim (lookup-cons k (key a) i m) [
      | inl (q, g) ↦ inr (a, 0, omega (arith, some_eq (sym f ∙ g)), refl, q)
      | inr (_, g) ↦ inl (sym g ∙ f)
    ]
  ]

  index_from-none :
      (i : ℕ) (es : List Allocation) (m : List (K × ℕ))
      → lookup k (index_from key i es m) ≡ none
      → (lookup k m ≡ none) × All (λ a. key a ≢ k) es
  unfolding index_from
  index_from-none i [] m h = (h, tt)
  index_from-none i (a ∷ es) m h =
      let (f, rest) = index_from-none (i + 1) es ((key a, i) ∷ m) h in
      elim (lookup-cons k (key a) i m) [ inl (q, g) ↦ cc | inr (ne, g) ↦ (sym g ∙ f, (ne, rest)) ]

  abbrev index : List Allocation → List (K × ℕ)
  index es = index_from key 0 es []

  pub get_elem?-In :
      (es : List Allocation) (i : ℕ) {a : Allocation} → get_elem? es i ≡ some a → In a es
  get_elem?-In [] i h = cc
  get_elem?-In (b ∷ es) zero h = inl (sym (some_eq h))
  get_elem?-In (b ∷ es) (suc i) h = inr (get_elem?-In es i h)

  -- A lookup in an index that the table was made with finds an allocation with the key, or there
  -- is none.
  pub index-cases :
      (es : List Allocation) (t : AllocationTable)
      → t.allocations ≡ es
      → ((lookup k (index es) ≡ none)
          × (at_index (lookup k (index es)) t ≡ none)
          × All (λ a. key a ≢ k) es)
        ⊎ ((a : Allocation) × (j : ℕ) × (lookup k (index es) ≡ some j)
            × (get_elem? es j ≡ some a)
            × (at_index (lookup k (index es)) t ≡ some a)
            × In a es
            × (key a ≡ k))
  unfolding at_index
  index-cases es t shape = elim (Option-cases (lookup k (index es))) [
    | inl f ↦ inl (f, rw f, (index_from-none 0 es [] f).1)
    | inr (j, f) ↦ elim (index_from-some 0 es [] f) [
      | inl g ↦ cc (lookup-nil {V = ℕ} k)
      | inr (a, d, x, y, z) ↦
          let y' : get_elem? es j ≡ some a = ap (get_elem? es) (x ∙ omega arith) ∙ y in
          inr (a, j, f, y', rw f (ap (λ l. get_elem? l j) shape ∙ y'), get_elem?-In es d y, z)
    ]
  ]

-- An address that is not in `used` is that of no allocation.
pub taken_index :
    (ip i : ℕ) (es : List Allocation) (m : List (ℕ × ℕ))
    → taken (map (λ (entry : ℕ × ℕ). entry.0) (index_from (λ a. a.ip) i es m)) ip ≡ false
    → (taken (map (λ (entry : ℕ × ℕ). entry.0) m) ip ≡ false) × All (λ a. a.ip ≢ ip) es
unfolding index_from taken
taken_index ip i [] m h = (h, tt)
taken_index ip i (a ∷ es) m h =
    let (f, rest) = taken_index ip (i + 1) es ((a.ip, i) ∷ m) h in
    (ground arith, (ground arith, rest))
