-- ===== src/Prelude/Keys.antt =====
-- What filters and deletions keep of a list, and lists whose elements' keys differ.
use Prim.Native.Nat.{ℕ, zero, suc}
use mathlib.Core.Path.{◌≡◌, sym, ap, subst, ◌∙◌}
use mathlib.Core.Bool.{Bool}
use mathlib.Core.Option.{some}
use mathlib.Core.Logic.{◌≢◌, inl, inr}
use mathlib.Core.List.{List, [], ◌∷◌, ◌++◌}
use dicer.Prelude.Lists.{filter, delete_at, get_elem?}
use dicer.Prelude.Tests.{Bool-cases, some_eq}
use dicer.Prelude.Mems.{In, All, All-append, All-In}

-- The keys of a list's elements differ.
abbrev pub Distinct {ℓ κ} : {A : Type ℓ} {K : Type κ} → (A → K) → List A → Type (ℓ ⊔ κ)
Distinct key [] = Unit
Distinct key (x ∷ xs) = All (λ y. key y ≢ key x) xs × Distinct key xs

module _ {ℓ κ} {A : Type ℓ} (P : A → Type κ) where
  pub All-filter : (p : A → Bool) (xs : List A) → All P xs → All P (filter p xs)
  All-filter p [] h = tt
  All-filter p (x ∷ xs) h = elim (Bool-cases (p x)) [
    | inl yes_ ↦ rw yes_ (h.0, All-filter p xs h.1)
    | inr no_ ↦ rw no_ (All-filter p xs h.1)
  ]

  pub All-delete_at : (i : ℕ) (xs : List A) → All P xs → All P (delete_at i xs)
  All-delete_at i [] h = tt
  All-delete_at zero (x ∷ xs) h = h.1
  All-delete_at (suc i) (x ∷ xs) h = (h.0, All-delete_at i xs h.1)

  pub All-get_elem? : (xs : List A) (i : ℕ) {a : A} → All P xs → get_elem? xs i ≡ some a → P a
  All-get_elem? [] i h e = cc
  All-get_elem? (x ∷ xs) zero h e = subst P (some_eq e) h.0
  All-get_elem? (x ∷ xs) (suc i) h e = All-get_elem? xs i h.1 e

module _ {ℓ κ} {A : Type ℓ} {K : Type κ} (key : A → K) where
  pub Distinct-filter : (p : A → Bool) (xs : List A) → Distinct key xs → Distinct key (filter p xs)
  Distinct-filter p [] h = tt
  Distinct-filter p (x ∷ xs) h = elim (Bool-cases (p x)) [
    | inl yes_ ↦ rw yes_ (All-filter _ p xs h.0, Distinct-filter p xs h.1)
    | inr no_ ↦ rw no_ (Distinct-filter p xs h.1)
  ]

  pub Distinct-delete_at : (i : ℕ) (xs : List A) → Distinct key xs → Distinct key (delete_at i xs)
  Distinct-delete_at i [] h = tt
  Distinct-delete_at zero (x ∷ xs) h = h.1
  Distinct-delete_at (suc i) (x ∷ xs) h = (All-delete_at _ i xs h.0, Distinct-delete_at i xs h.1)

  pub Distinct-snoc :
      (xs : List A) (a : A)
      → Distinct key xs
      → All (λ y. key y ≢ key a) xs
      → Distinct key (xs ++ a ∷ [])
  Distinct-snoc [] a h k = (tt, tt)
  Distinct-snoc (x ∷ xs) a h k =
      (All-append _ xs (a ∷ []) h.0 ((λ e. k.0 (sym e)), tt), Distinct-snoc xs a h.1 k.1)

  -- At most one element has a key.
  pub Distinct-eq :
      (xs : List A) (a b : A) → Distinct key xs → In a xs → In b xs → key a ≡ key b → a ≡ b
  Distinct-eq [] a b d m n e = absurd m.1
  Distinct-eq (x ∷ xs) a b d (inl p) (inl q) e = p ∙ sym q
  Distinct-eq (x ∷ xs) a b d (inl p) (inr n) e = absurd (All-In _ b xs d.0 n (sym e ∙ ap key p))
  Distinct-eq (x ∷ xs) a b d (inr m) (inl q) e = absurd (All-In _ a xs d.0 m (e ∙ ap key q))
  Distinct-eq (x ∷ xs) a b d (inr m) (inr n) e = Distinct-eq xs a b d.1 m n e

  -- What a deletion takes: the one element at the index, which had the only occurrence of its key.
  pub In-delete_at : (xs : List A) (i : ℕ) (a : A) → In a (delete_at i xs) → In a xs
  In-delete_at [] i a h = h
  In-delete_at (x ∷ xs) zero a h = inr h
  In-delete_at (x ∷ xs) (suc i) a (inl e) = inl e
  In-delete_at (x ∷ xs) (suc i) a (inr h) = inr (In-delete_at xs i a h)

  pub delete_at-In :
      (xs : List A) (i : ℕ) (a : A) {b : A}
      → get_elem? xs i ≡ some b
      → In a xs
      → key a ≢ key b
      → In a (delete_at i xs)
  delete_at-In [] i a f h ne = h
  delete_at-In (x ∷ xs) zero a f (inl e) ne = absurd (ne (ap key (e ∙ some_eq f)))
  delete_at-In (x ∷ xs) zero a f (inr h) ne = h
  delete_at-In (x ∷ xs) (suc i) a f (inl e) ne = inl e
  delete_at-In (x ∷ xs) (suc i) a f (inr h) ne = inr (delete_at-In xs i a f h ne)

  pub delete_at-gone :
      (xs : List A) (i : ℕ) {b : A}
      → Distinct key xs
      → get_elem? xs i ≡ some b
      → All (λ y. key y ≢ key b) (delete_at i xs)
  delete_at-gone [] i d f = tt
  delete_at-gone (x ∷ xs) zero d f = subst (λ c. All (λ y. key y ≢ key c) xs) (some_eq f) d.0
  delete_at-gone (x ∷ xs) (suc i) {b} d f =
      ((λ e. All-get_elem? _ xs i d.0 f (sym e)), delete_at-gone xs i d.1 f)
