-- ===== src/Network/Tables.antt =====
-- What holds of every allocation table of a Manager, and what the tables' changes keep of it.
use dicer.Prelude.{
  ℕ, ◌<◌, ◌≡◌, ◌≢◌, refl, ap, ◌⊎◌, inl, inr, Bool, true, false, Option, none, some, List, [], ◌∷◌,
  ◌++◌, map, String, string_Eq, nat_Eq, arith, subst, Option-cases, delete_at, filter, All,
  All-append, All-filter, All-delete_at, Distinct, Distinct-snoc, Distinct-filter,
  Distinct-delete_at,
}
use dicer.Network.{Network, Subnet, Allocation, Result, ok}
use dicer.Network.Address.{taken, assignable, free_ip, last_host}
use dicer.Network.Free.{IsHost, IsMasked, assignable-IsHost, Finds, free_ip-Finds}
use dicer.Network.Table.{AllocationTable, lookup, put, assign, new_table, empty_table, index_from}
use dicer.Network.Lookup.{remove-All, lookup-All, taken_index}
use dicer.Network.Manager.{
  Manager, StaticIp, unset, malformed, address, table_of, save_table, choose_ip, choose_in,
  used_ips,
}

-- An address that instances of the network may have: a host address of its subnet, and not the
-- gateway.
abbrev pub InNetwork : Network → ℕ → Type 0
InNetwork n ip = (s : Subnet) × (n.subnet ≡ some s) × IsHost s ip × (ip ≢ n.gateway)

-- No two allocations share an instance or an address, and each address is one of the network.
pub record AreSound (n : Network) (entries : List Allocation) : Type 0 where
  pub instances : Distinct (λ a. a.instance_id) entries
  pub ips : Distinct (λ a. a.ip) entries
  pub in_network : All (λ a. InNetwork n a.ip) entries

-- A table is the one made of its allocations, and they are sound.
pub record IsGood (n : Network) (t : AllocationTable) : Type 0 where
  pub made : t ≡ new_table t.allocations
  pub sound : AreSound n t.allocations

-- Every table of the Manager is good, for the networks' definitions by name.
abbrev pub AreGood : (String → Network) → Manager → Type 0
AreGood nets m = All (λ (entry : String × AllocationTable). IsGood (nets entry.0) entry.1) m.tables

empty-IsGood : (n : Network) → IsGood n empty_table
unfolding new_table
empty-IsGood n = record {
  made = refl;
  sound = record { instances = tt; ips = tt; in_network = tt };
}

pub new_table-IsGood :
    (n : Network) (entries : List Allocation) → AreSound n entries → IsGood n (new_table entries)
unfolding new_table
new_table-IsGood n entries s = record { made = refl; sound = s }

ok_eq : {t u : AllocationTable} → ◌≡◌ {A = Result AllocationTable} (ok t) (ok u) → t ≡ u
ok_eq h = cc

pub table_of-IsGood :
    (nets : String → Network) (network : String) (m : Manager) {t : AllocationTable}
    → AreGood nets m
    → table_of network m ≡ ok t
    → IsGood (nets network) t
unfolding table_of
table_of-IsGood nets network m {t} g h = elim (Option-cases (lookup network m.table_errors)) [
  | inr (e, f) ↦ cc (rw f at h)
  | inl f ↦ elim (Option-cases (lookup network m.tables)) [
    | inl n ↦ subst (IsGood (nets network)) (ok_eq (rw (f, n) at h)) (empty-IsGood (nets network))
    | inr (u, s) ↦ subst (IsGood (nets network)) (ok_eq (rw (f, s) at h)) (
        lookup-All (λ (entry : String × AllocationTable). IsGood (nets entry.0) entry.1) network
          m.tables g s)
  ]
]

pub save_table-AreGood :
    (nets : String → Network) (network : String) (entries : List Allocation) (saved : Bool)
    (m : Manager)
    → AreGood nets m
    → AreSound (nets network) entries
    → AreGood nets (save_table network entries saved m).0
unfolding save_table assign put
save_table-AreGood nets network entries true m g s =
    (new_table-IsGood (nets network) entries s, remove-All _ network m.tables g)
save_table-AreGood nets network entries false m g s = g

pub filter-AreSound :
    (n : Network) (p : Allocation → Bool) (entries : List Allocation)
    → AreSound n entries
    → AreSound n (filter p entries)
filter-AreSound n p entries s = record {
  instances = Distinct-filter _ p entries s.instances;
  ips = Distinct-filter _ p entries s.ips;
  in_network = All-filter _ p entries s.in_network;
}

pub delete_at-AreSound :
    (n : Network) (i : ℕ) (entries : List Allocation)
    → AreSound n entries
    → AreSound n (delete_at i entries)
delete_at-AreSound n i entries s = record {
  instances = Distinct-delete_at _ i entries s.instances;
  ips = Distinct-delete_at _ i entries s.ips;
  in_network = All-delete_at _ i entries s.in_network;
}

pub snoc-AreSound :
    (n : Network) (a : Allocation) (entries : List Allocation)
    → AreSound n entries
    → All (λ b. b.instance_id ≢ a.instance_id) entries
    → All (λ b. b.ip ≢ a.ip) entries
    → InNetwork n a.ip
    → AreSound n (entries ++ a ∷ [])
snoc-AreSound n a entries s new_id new_ip inside = record {
  instances = Distinct-snoc _ entries a s.instances new_id;
  ips = Distinct-snoc _ entries a s.ips new_ip;
  in_network = All-append _ entries (a ∷ []) s.in_network (inside, tt);
}

-- The draws of `rand.IntN` are in range.
abbrev pub InRange : Network → (ℕ → ℕ) → Type 0
InRange n draw = (s : Subnet) → n.subnet ≡ some s → 0 < last_host s → (i : ℕ) → draw i < last_host s

-- The subnet of a network is masked and in the 32-bit range.
abbrev pub HasMasked : Network → Type 0
HasMasked n = (s : Subnet) → n.subnet ≡ some s → IsMasked s

chosen-cases :
    (s : Subnet) (static : StaticIp) (draw : ℕ → ℕ) (used : List ℕ) {ip : ℕ}
    → choose_ip s static draw used ≡ ok ip
    → ((assignable s ip ≡ true) × (taken used ip ≡ false)) ⊎ (free_ip s draw used ≡ some ip)
unfolding choose_ip
chosen-cases s malformed draw used h = cc
chosen-cases s (address a) draw used h = ground arith
chosen-cases s unset draw used h = ground arith

-- An address that is free in `used_ips` is neither the gateway nor that of an allocation.
free_in_table :
    (n : Network) (t : AllocationTable) (ip : ℕ)
    → t ≡ new_table t.allocations
    → taken (used_ips n t) ip ≡ false
    → (ip ≢ n.gateway) × All (λ a. a.ip ≢ ip) t.allocations
unfolding used_ips new_table taken
free_in_table n t ip made h =
    let by_ip : t.by_ip ≡ index_from (λ a. a.ip) 0 t.allocations [] =
      ap (λ (u : AllocationTable). u.by_ip) made in
    let rest : taken (map (λ (entry : ℕ × ℕ). entry.0) t.by_ip) ip ≡ false = ground arith in
    (ground arith, (taken_index ip 0 t.allocations [] (rw by_ip at rest)).1)

-- The address that Allocate chooses is one of the network that no allocation has.
pub choose_in-lem :
    (n : Network) (static : StaticIp) (draw : ℕ → ℕ) (t : AllocationTable) {ip : ℕ}
    → t ≡ new_table t.allocations
    → HasMasked n
    → InRange n draw
    → choose_in n.subnet static draw (used_ips n t) ≡ ok ip
    → InNetwork n ip × All (λ a. a.ip ≢ ip) t.allocations
unfolding choose_in
choose_in-lem n static draw t {ip} made masked range h = chosen n.subnet refl h
  where
    chosen :
        (o : Option Subnet)
        → n.subnet ≡ o
        → choose_in o static draw (used_ips n t) ≡ ok ip
        → InNetwork n ip × All (λ a. a.ip ≢ ip) t.allocations
    chosen none e f = cc
    chosen (some s) e f = elim (chosen-cases s static draw (used_ips n t) f) [
      | inl (host, free) ↦
          let (not_gateway, others) = free_in_table n t ip made free in
          ((s, e, (assignable-IsHost s ip (masked s e)).0 host, not_gateway), others)
      | inr found ↦
          let (host, free) =
            subst (Finds s (used_ips n t)) found
              (free_ip-Finds s draw (used_ips n t) (range s e)) in
          let (not_gateway, others) = free_in_table n t ip made free in
          ((s, e, host, not_gateway), others)
    ]
