-- ===== src/Network/Tests.antt =====
-- Concrete runs of the network manager.
use dicer.Prelude.{
  none, Option, ℕ, ◌≡◌, refl, true, some, List, [], ◌∷◌, String, arith, some_eq, subst,
}
use dicer.Network.{Network, Subnet, Allocation, Result, ok}
use dicer.Network.Address.{
  size, last_host, taken, free_ip, try_random, scan, increment_ip, random_mac, or_else,
}
use dicer.Network.Free.{IsMasked, Finds, free_ip-Finds}
use dicer.Network.Table.{lookup, new_table, index_from, empty_table}
use dicer.Network.Manager.{
  Manager, unset, address, allocate, allocate_in, release, table_of, save_table, save_allocation,
  choose_in, choose_ip, used_ips, find_instance, at_index, instance_at, new_manager, reconcile,
  id_of,
}
use dicer.Network.Tables.{AreGood, HasMasked, InRange}
use dicer.Network.Calls.{allocate-AreGood}
use dicer.Network.Allocates.{Allocates, allocate-Allocates}
use dicer.Network.Releases.{Releases, release-Releases}
use dicer.Network.Room.{HasRoom, allocate-HasRoom}
use dicer.Network.Reconciled.{Reconciles, reconcile-Reconciles}
use dicer.Network.Runs.{
  forgets, Call, allocates, releases, run, AreDefined, run-AreGood, run-restart,
}

-- 10.0.0.0/24.
abbrev subnet : Subnet
subnet = record { base = 167772160; ones = 24 }

abbrev network_named : String → Network
network_named name = record { id = "n"; name = name; gateway = 167772161; subnet = some subnet }

abbrev first : ℕ → ℕ
first i = 0

abbrev start : Manager
start = record { tables = []; table_errors = []; files = [] }

subnet-IsMasked : IsMasked subnet
unfolding size
subnet-IsMasked = record { aligned = refl; fits = omega arith }

all-HasMasked : (name : String) → HasMasked (network_named name)
all-HasMasked name s h = subst IsMasked (some_eq h) subnet-IsMasked

all-AreDefined : AreDefined network_named
all-AreDefined = record { named = λ name. refl; masked = all-HasMasked }

first-InRange : (name : String) → InRange (network_named name) first
first-InRange name s h pos i = pos

-- With every random address taken, the scan finds the first free one; 10.0.0.1 is the gateway.
abbrev given : Manager × Result Allocation
given = allocate (network_named "web") "i1" unset first (some (1 ∷ 2 ∷ [])) true start

given-ok :
    given.1 ≡ ok (record { network_id = "n"; instance_id = "i1"; ip = 167772162; mac = 2 ∷ 2 ∷ [] })
unfolding allocate allocate_in save_allocation save_table choose_in choose_ip free_ip try_random
    scan taken used_ips increment_ip last_host size table_of lookup find_instance at_index new_table
    index_from or_else random_mac
given-ok = refl

allocate-Allocates_example : Allocates (network_named "web") "i1" start given
allocate-Allocates_example =
    allocate-Allocates network_named (network_named "web") "i1" unset first (some (1 ∷ 2 ∷ [])) true
      start tt refl (all-HasMasked "web") (first-InRange "web")

start-HasRoom : HasRoom (network_named "web") start
unfolding table_of lookup last_host size increment_ip instance_at at_index id_of
start-HasRoom = record {
  table = empty_table;
  readable = refl;
  subnet = subnet;
  valid = refl;
  offset = 2;
  first = omega arith;
  last = omega arith;
  not_gateway = λ e. omega arith;
  free = refl;
}

allocate-HasRoom_example :
    (a : Allocation) × ((allocate
        (network_named "web")
        "i1"
        unset
        first
        (some (1 ∷ []))
        true
        start).1
      ≡ ok a)
allocate-HasRoom_example =
    allocate-HasRoom network_named (network_named "web") "i1" first (1 ∷ []) start tt refl
      (first-InRange "web") start-HasRoom

given-AreGood : AreGood network_named given.0
given-AreGood =
    allocate-AreGood network_named "web" "i1" unset first (some (1 ∷ 2 ∷ [])) true start refl
      (all-HasMasked "web") (first-InRange "web") tt

release-Releases_example : Releases "web" "i1" given.0 (release "web" "i1" true given.0)
release-Releases_example = release-Releases network_named "web" "i1" true given.0 given-AreGood

free_ip-Finds_example : Finds subnet (167772161 ∷ []) (free_ip subnet first (167772161 ∷ []))
free_ip-Finds_example = free_ip-Finds subnet first (167772161 ∷ []) (λ pos i. pos)

-- Two instances get addresses, the first one gives its address up, and a third one takes it.
abbrev calls : List Call
calls =
    allocates "web" "i1" unset first (some (1 ∷ [])) true
    ∷ allocates "web" "i2" unset first (some (1 ∷ [])) true
    ∷ releases "web" "i1" true
    ∷ allocates "web" "i3" (address 167772162) first (some (1 ∷ [])) true
    ∷ allocates "db" "i4" unset first (some (1 ∷ [])) true
    ∷ forgets "db" true
    ∷ []

-- The file of one network cannot be read.
abbrev files : List (String × Option (List Allocation))
files = ("db", none) ∷ []

run-AreGood_example : AreGood network_named (run network_named calls (new_manager files))
run-AreGood_example =
    run-AreGood network_named files calls all-AreDefined (tt, tt)
      (
        first-InRange "web",
        (first-InRange "web", (tt, (first-InRange "web", (first-InRange "db", (tt, tt))))),
      )

run-restart_example : let m = run network_named calls (new_manager files) in new_manager m.files ≡ m
run-restart_example = run-restart network_named files calls

reconcile-Reconciles_example :
    Reconciles network_named
      ("web" ∷ [])
      ("i2" ∷ [])
      (run network_named calls (new_manager files))
      (reconcile
        ("web" ∷ [])
        ("i2" ∷ [])
        (λ n. true)
        0
        (run network_named calls (new_manager files)))
reconcile-Reconciles_example =
    reconcile-Reconciles network_named ("web" ∷ []) ("i2" ∷ []) (λ n. true) 0
      (run network_named calls (new_manager files)) run-AreGood_example
