-- ===== src/Network/Table.antt =====
-- internal/network/manager.go: a network's allocation table and its two indexes.
use dicer.Prelude.{ℕ, ◌+◌, String, List, [], ◌∷◌, nat_Eq, string_Eq}
unfoldable pub use dicer.Maps.{lookup, put, remove, assign}
use dicer.Network.{Allocation}

pub record AllocationTable : Type 0 where
  pub allocations : List Allocation
  pub by_instance : List (String × ℕ)
  pub by_ip : List (ℕ × ℕ)

-- The loop of `newAllocationTable`, over the allocations from index `i` on.
unfoldable pub index_from {ℓ} :
    {K : Type ℓ} → (Allocation → K) → ℕ → List Allocation → List (K × ℕ) → List (K × ℕ)
index_from key i [] m = m
index_from key i (a ∷ entries) m = index_from key (i + 1) entries ((key a, i) ∷ m)

unfoldable pub new_table : List Allocation → AllocationTable
unfolding index_from
new_table entries = record {
  allocations = entries;
  by_instance = index_from (λ a. a.instance_id) 0 entries [];
  by_ip = index_from (λ a. a.ip) 0 entries [];
}

abbrev pub empty_table : AllocationTable
empty_table = record { allocations = []; by_instance = []; by_ip = [] }
