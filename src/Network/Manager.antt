-- ===== src/Network/Manager.antt =====
-- internal/network/manager.go: the calls of a Manager about addresses. Each holds `writeMu` for
-- its whole length, so that a run is a sequence of calls. `saved` is whether the write of the
-- table's file succeeds.
use dicer.Prelude.{
  ℕ, ◌+◌, ◌-◌, String, Bool, true, false, not, ◌||◌, Option, none, some, List, [], ◌∷◌, ◌++◌, map,
  filter, get_elem?, delete_at, length, ◌==◌, nat_Eq, string_Eq, if◌then◌else◌,
}
use dicer.Network.{
  Network, Subnet, Allocation, Error, Result, ok, err, invalid_subnet, not_assignable,
  already_in_use, no_available_ips, no_randomness, write_failed, not_found, unreadable_table,
}
use dicer.Network.Address.{taken, free_ip, assignable, random_mac}
use dicer.Network.Table.{AllocationTable, lookup, assign, remove, new_table, empty_table}

-- The tables in memory, the networks whose file could not be read, and the files by network, where
-- `none` is one that cannot be read.
pub record Manager : Type 0 where
  pub tables : List (String × AllocationTable)
  pub table_errors : List (String × Error)
  pub files : List (String × Option (List Allocation))

table_or_empty : Option AllocationTable → AllocationTable
table_or_empty (some t) = t
table_or_empty none = empty_table

table_unless : Option Error → AllocationTable → Result AllocationTable
table_unless (some e) t = err e
table_unless none t = ok t

-- `allocationTableOf`.
unfoldable pub table_of : String → Manager → Result AllocationTable
unfolding table_or_empty table_unless
table_of network m =
    table_unless (lookup network m.table_errors) (table_or_empty (lookup network m.tables))

-- `saveAllocationTable`: a failed write changes nothing.
unfoldable pub save_table : String → List Allocation → Bool → Manager → Manager × Result (Unit {0})
save_table network entries true m = (
  record m {
    files = assign network (some entries) m.files;
    tables = assign network (new_table entries) m.tables;
  },
  ok tt,
)
save_table network entries false m = (m, err write_failed)

-- The allocation at an index that a map of the table holds.
unfoldable pub at_index : Option ℕ → AllocationTable → Option Allocation
at_index none t = none
at_index (some i) t = get_elem? t.allocations i

unfoldable pub find_instance : String → AllocationTable → Option Allocation
unfolding at_index
find_instance id t = at_index (lookup id t.by_instance) t

unfoldable pub or_not_found : Option Allocation → Result Allocation
or_not_found (some a) = ok a
or_not_found none = err not_found

-- `Manager.Allocation`.
unfoldable pub allocation : String → String → Manager → Result Allocation
unfolding or_not_found
allocation network id m = elim (table_of network m) [
  | ok t ↦ or_not_found (find_instance id t)
  | err e ↦ err e
]

unfoldable pub id_of : Option Allocation → Option String
id_of none = none
id_of (some a) = some a.instance_id

-- `Manager.InstanceAt`.
unfoldable pub instance_at : String → ℕ → Manager → Option String
unfolding at_index
instance_at network ip m = elim (table_of network m) [
  | ok t ↦ id_of (at_index (lookup ip t.by_ip) t)
  | err e ↦ none
]

-- What a caller asks for: any address, one that is no IPv4 address, or one.
pub data StaticIp : Type 0 where
  unset : StaticIp
  malformed : StaticIp
  address : ℕ → StaticIp

-- The address to give out, of those not in `used`.
unfoldable pub choose_ip : Subnet → StaticIp → (ℕ → ℕ) → List ℕ → Result ℕ
choose_ip s malformed draw used = err not_assignable
choose_ip s (address ip) draw used =
    if not (assignable s ip)
    then err not_assignable
    else (if taken used ip then err already_in_use else ok ip)
choose_ip s unset draw used = elim (free_ip s draw used) [
  | some ip ↦ ok ip
  | none ↦ err no_available_ips
]

-- What is written for a new allocation; `none` for the bytes is an error of `crypto/rand`.
unfoldable pub save_allocation :
    Network
    → String
    → Result ℕ
    → Option (List ℕ)
    → Bool
    → AllocationTable
    → Manager
    → Manager × Result Allocation
save_allocation n id (err e) bytes saved t m = (m, err e)
save_allocation n id (ok ip) none saved t m = (m, err no_randomness)
save_allocation n id (ok ip) (some bytes) saved t m =
    let a : Allocation = record {
      network_id = n.id;
      instance_id = id;
      ip = ip;
      mac = random_mac bytes;
    } in
    let (m', r) = save_table n.name (t.allocations ++ a ∷ []) saved m in
    (m', elim r [ ok _ ↦ ok a | err e ↦ err e ])

-- The keys of `used`: the gateway, and every address of the table.
unfoldable pub used_ips : Network → AllocationTable → List ℕ
used_ips n t = n.gateway ∷ map (λ (entry : ℕ × ℕ). entry.0) t.by_ip

unfoldable pub choose_in : Option Subnet → StaticIp → (ℕ → ℕ) → List ℕ → Result ℕ
choose_in none static draw used = err invalid_subnet
choose_in (some s) static draw used = choose_ip s static draw used

-- An instance that holds an address keeps it; another is given one.
unfoldable pub allocate_in :
    Option Allocation
    → Network
    → String
    → StaticIp
    → (ℕ → ℕ)
    → Option (List ℕ)
    → Bool
    → AllocationTable
    → Manager
    → Manager × Result Allocation
unfolding choose_in
allocate_in (some a) n id static draw bytes saved t m = (m, ok a)
allocate_in none n id static draw bytes saved t m =
    save_allocation n id (choose_in n.subnet static draw (used_ips n t)) bytes saved t m

-- `Manager.Allocate`.
unfoldable pub allocate :
    Network
    → String
    → StaticIp
    → (ℕ → ℕ)
    → Option (List ℕ)
    → Bool
    → Manager
    → Manager × Result Allocation
allocate n id static draw bytes saved m = elim (table_of n.name m) [
  | err e ↦ (m, err e)
  | ok t ↦ allocate_in (find_instance id t) n id static draw bytes saved t m
]

unfoldable pub release_at :
    Option ℕ → String → Bool → AllocationTable → Manager → Manager × Result (Unit {0})
release_at none network saved t m = (m, ok tt)
release_at (some i) network saved t m = save_table network (delete_at i t.allocations) saved m

-- `Manager.Release`.
unfoldable pub release : String → String → Bool → Manager → Manager × Result (Unit {0})
unfolding release_at
release network id saved m = elim (table_of network m) [
  | err e ↦ (m, err e)
  | ok t ↦ release_at (lookup id t.by_instance) network saved t m
]

-- `Manager.Forget`; `removed` is whether the file is gone afterwards.
unfoldable pub forget : String → Bool → Manager → Manager × Result (Unit {0})
forget network false m = (m, err write_failed)
forget network true m = (
  record {
    tables = remove network m.tables;
    table_errors = remove network m.table_errors;
    files = remove network m.files;
  },
  ok tt,
)

-- The map `live`.
unfoldable pub is_live : List String → String → Bool
is_live [] id = false
is_live (l ∷ live) id = l == id || is_live live id

unfoldable pub kept : List String → List Allocation → List Allocation
unfolding is_live
kept live entries = filter (λ a. is_live live a.instance_id) entries

-- What one round of the loop of `Reconcile` saves, if it drops any allocation.
unfoldable pub reconcile_table :
    String → List String → Bool → AllocationTable → Manager → Manager × Result (Unit {0})
unfolding kept
reconcile_table network live saved t m =
    if length (kept live t.allocations) == length t.allocations
    then (m, ok tt)
    else save_table network (kept live t.allocations) saved m

-- `Reconcile`, with how many allocations it released; `saved` says which writes succeed.
unfoldable pub reconcile :
    List String → List String → (String → Bool) → ℕ → Manager → Manager × ℕ × Result (Unit {0})
unfolding reconcile_table
reconcile [] live saved released m = (m, released, ok tt)
reconcile (network ∷ networks) live saved released m = elim (table_of network m) [
  | err e ↦ (m, released, err e)
  | ok t ↦
      let (m', r) = reconcile_table network live (saved network) t m in
      let now : ℕ = released + (length t.allocations - length (kept live t.allocations)) in
      elim r [ err e ↦ (m', now, err e) | ok _ ↦ reconcile networks live saved now m' ]
]

-- The loop of `NewManager` over the files: the tables that it could read, and the errors of those
-- that it could not.
unfoldable pub read_tables :
    List (String × Option (List Allocation)) → List (String × AllocationTable)
read_tables [] = []
read_tables ((network, some entries) ∷ files) = (network, new_table entries) ∷ read_tables files
read_tables ((network, none) ∷ files) = read_tables files

unfoldable pub read_errors : List (String × Option (List Allocation)) → List (String × Error)
read_errors [] = []
read_errors ((network, some entries) ∷ files) = read_errors files
read_errors ((network, none) ∷ files) = (network, unreadable_table) ∷ read_errors files

-- `NewManager`, from the directory of the files.
unfoldable pub new_manager : List (String × Option (List Allocation)) → Manager
unfolding read_tables read_errors
new_manager files = record {
  tables = read_tables files;
  table_errors = read_errors files;
  files = files;
}
