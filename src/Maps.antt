-- ===== src/Maps.antt =====
-- Go maps: the list of a map's entries, newest first, of which a key's first one counts.
pub mod Lookup
pub mod Exact
use dicer.Prelude.{Option, none, some, List, [], ◌∷◌, Eq, ◌==◌, if◌then◌else◌}

module _ {ℓ κ} {K : Type ℓ} {V : Type κ} ⦃e : Eq K⦄ where
  unfoldable pub lookup : K → List (K × V) → Option V
  lookup k [] = none
  lookup k ((j, v) ∷ m) = if j == k then some v else lookup k m

  unfoldable pub put : K → V → List (K × V) → List (K × V)
  put k v m = (k, v) ∷ m

  -- `delete(m, k)`.
  unfoldable pub remove : K → List (K × V) → List (K × V)
  remove k [] = []
  remove k ((j, v) ∷ m) = let rest = remove k m in if j == k then rest else (j, v) ∷ rest

  -- `m[k] = v`, with one entry to each key.
  unfoldable pub assign : K → V → List (K × V) → List (K × V)
  unfolding put remove
  assign k v m = put k v (remove k m)
