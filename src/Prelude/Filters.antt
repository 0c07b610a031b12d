-- ===== src/Prelude/Filters.antt =====
-- Which elements a filter keeps.
use Prim.Native.Nat.{◌≤◌}
use mathlib.Core.Path.{◌≡◌, refl}
use mathlib.Core.Bool.{Bool, true}
use mathlib.Core.Logic.{inl, inr}
use mathlib.Core.List.{List, [], ◌∷◌}
use native.Mathlib.Omega.{arith}
use dicer.Prelude.Lists.{filter, length}
use dicer.Prelude.Tests.{Bool-cases}
use dicer.Prelude.Mems.{In, All}

module _ {ℓ} {A : Type ℓ} (p : A → Bool) where
  pub length-filter : (xs : List A) → length (filter p xs) ≤ length xs
  length-filter [] = omega arith
  length-filter (x ∷ xs) = elim (Bool-cases (p x)) [
    | inl yes_ ↦ rw yes_ (omega (arith, length-filter xs))
    | inr no_ ↦ rw no_ (omega (arith, length-filter xs))
  ]

  -- A filter that keeps the length keeps every element.
  pub full-filter : (xs : List A) → length (filter p xs) ≡ length xs → All (λ x. p x ≡ true) xs
  full-filter [] h = tt
  full-filter (x ∷ xs) h = elim (Bool-cases (p x)) [
    | inl yes_ ↦ (yes_, full-filter xs (omega (arith, rw yes_ at h)))
    | inr no_ ↦ absurd (omega (arith, rw no_ at h, length-filter xs))
  ]

  pub filter-In : (a : A) (xs : List A) → In a (filter p xs) → In a xs × (p a ≡ true)
  filter-In a [] h = absurd h.1
  filter-In a (x ∷ xs) h = elim (Bool-cases (p x)) [
    | inl yes_ ↦ elim (rw yes_ at h) [
      | inl e ↦ (inl e, rw e yes_)
      | inr m ↦ let (k, l) = filter-In a xs m in (inr k, l)
    ]
    | inr no_ ↦ let (k, l) = filter-In a xs (rw no_ at h) in (inr k, l)
  ]

  pub In-filter : (a : A) (xs : List A) → p a ≡ true → In a xs → In a (filter p xs)
  In-filter a [] q h = h
  In-filter a (x ∷ xs) q (inl e) = rw (← e, q) (inl refl)
  In-filter a (x ∷ xs) q (inr h) = elim (Bool-cases (p x)) [
    | inl yes_ ↦ rw yes_ (inr (In-filter a xs q h))
    | inr no_ ↦ rw no_ (In-filter a xs q h)
  ]
