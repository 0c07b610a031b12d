-- ===== src/Network/Runs.antt =====
-- Runs of a Manager: any sequence of its calls, from the files it was started with.
use dicer.Prelude.{
  none, some, ℕ, ◌≡◌, refl, Bool, true, false, Option, List, [], ◌∷◌, String, string_Eq, All,
}
use dicer.Network.{Network, Allocation}
use dicer.Network.Manager.{Manager, StaticIp, allocate, release, forget, reconcile, new_manager}
use dicer.Network.Tables.{AreGood, AreSound, HasMasked, InRange, new_table-IsGood}
use dicer.Network.Lookup.{remove-All}
use dicer.Network.Calls.{allocate-AreGood}
use dicer.Network.Releases.{release-AreGood}
use dicer.Network.Reconciled.{reconcile-Reconciles}
use dicer.Network.Restart.{
  IsLoaded, allocate-IsLoaded, release-IsLoaded, forget-IsLoaded, reconcile-IsLoaded,
}

-- A call, with the network's name where the source takes its definition, and what the random
-- numbers and the file system answer in it.
pub data Call : Type 0 where
  allocates : String → String → StaticIp → (ℕ → ℕ) → Option (List ℕ) → Bool → Call
  releases : String → String → Bool → Call
  forgets : String → Bool → Call
  reconciles : List String → List String → (String → Bool) → Call

-- One call, for the networks' definitions by name.
unfoldable pub perform : (String → Network) → Call → Manager → Manager
perform nets (allocates network id static draw bytes saved) m =
    (allocate (nets network) id static draw bytes saved m).0
perform nets (releases network id saved) m = (release network id saved m).0
perform nets (forgets network removed) m = (forget network removed m).0
perform nets (reconciles networks live saved) m = (reconcile networks live saved 0 m).0

unfoldable pub run : (String → Network) → List Call → Manager → Manager
run nets [] m = m
run nets (c ∷ calls) m = run nets calls (perform nets c m)

-- The random numbers of a call are in the range asked for.
abbrev pub DrawsInRange : (String → Network) → Call → Type 0
DrawsInRange nets (allocates network id static draw bytes saved) = InRange (nets network) draw
DrawsInRange nets (releases network id saved) = Unit
DrawsInRange nets (forgets network removed) = Unit
DrawsInRange nets (reconciles networks live saved) = Unit

forget-AreGood :
    (nets : String → Network) (network : String) (removed : Bool) (m : Manager)
    → AreGood nets m
    → AreGood nets (forget network removed m).0
unfolding forget
forget-AreGood nets network false m g = g
forget-AreGood nets network true m g = remove-All _ network m.tables g

-- The definitions are stored by name, and their subnets are masked.
pub record AreDefined (nets : String → Network) : Type 0 where
  pub named : (network : String) → (nets network).name ≡ network
  pub masked : (network : String) → HasMasked (nets network)

module _ (nets : String → Network) (d : AreDefined nets) where
  perform-AreGood :
      (c : Call) (m : Manager)
      → DrawsInRange nets c
      → AreGood nets m
      → AreGood nets (perform nets c m)
  unfolding perform
  perform-AreGood (allocates network id static draw bytes saved) m r g =
      allocate-AreGood nets network id static draw bytes saved m (d.named network)
        (d.masked network) r g
  perform-AreGood (releases network id saved) m r g = release-AreGood nets network id saved m g
  perform-AreGood (forgets network removed) m r g = forget-AreGood nets network removed m g
  perform-AreGood (reconciles networks live saved) m r g =
      (reconcile-Reconciles nets networks live saved 0 m g).good

  run_from-AreGood :
      (calls : List Call) (m : Manager)
      → All (DrawsInRange nets) calls
      → AreGood nets m
      → AreGood nets (run nets calls m)
  unfolding run
  run_from-AreGood [] m r g = g
  run_from-AreGood (c ∷ calls) m (r, rs) g =
      run_from-AreGood calls (perform nets c m) rs (perform-AreGood c m r g)

perform-IsLoaded :
    (nets : String → Network) (c : Call) (m : Manager) → IsLoaded m → IsLoaded (perform nets c m)
unfolding perform
perform-IsLoaded nets (allocates network id static draw bytes saved) m h =
    allocate-IsLoaded (nets network) id static draw bytes saved m h
perform-IsLoaded nets (releases network id saved) m h = release-IsLoaded network id saved m h
perform-IsLoaded nets (forgets network removed) m h = forget-IsLoaded network removed m h
perform-IsLoaded nets (reconciles networks live saved) m h =
    reconcile-IsLoaded networks live saved 0 m h

run-IsLoaded :
    (nets : String → Network) (calls : List Call) (m : Manager)
    → IsLoaded m
    → IsLoaded (run nets calls m)
unfolding run
run-IsLoaded nets [] m h = h
run-IsLoaded nets (c ∷ calls) m h =
    run-IsLoaded nets calls (perform nets c m) (perform-IsLoaded nets c m h)

-- What a file that can be read holds is sound.
abbrev pub SoundFile : Network → Option (List Allocation) → Type 0
SoundFile n none = Unit
SoundFile n (some entries) = AreSound n entries

new_manager-AreGood :
    (nets : String → Network) (files : List (String × Option (List Allocation)))
    → All (λ (f : String × Option (List Allocation)). SoundFile (nets f.0) f.1) files
    → AreGood nets (new_manager files)
unfolding new_manager
new_manager-AreGood nets [] h = tt
new_manager-AreGood nets ((network, some es) ∷ files) h =
    (new_table-IsGood (nets network) es h.0, new_manager-AreGood nets files h.1)
new_manager-AreGood nets ((network, none) ∷ files) h = new_manager-AreGood nets files h.1

-- After any sequence of calls on a Manager started from files of which those that can be read hold
-- sound allocations, with random numbers in range and whatever the file system answers, every table
-- in memory is sound: no two allocations of a network share an instance or an address, each address
-- is a host address of the subnet other than the gateway, and the indexes are those of the
-- allocations.
pub run-AreGood :
    (nets : String → Network) (files : List (String × Option (List Allocation))) (calls : List Call)
    → AreDefined nets
    → All (λ (f : String × Option (List Allocation)). SoundFile (nets f.0) f.1) files
    → All (DrawsInRange nets) calls
    → AreGood nets (run nets calls (new_manager files))
run-AreGood nets files calls d h r =
    run_from-AreGood nets d calls (new_manager files) r (new_manager-AreGood nets files h)

-- After any sequence of calls, whatever the file system answers, a Manager started from the files
-- as they are then, those that cannot be read included, is the one that made the calls: it has the
-- same tables, and fails for the same networks.
pub run-restart :
    (nets : String → Network) (files : List (String × Option (List Allocation))) (calls : List Call)
    → let m = run nets calls (new_manager files) in new_manager m.files ≡ m
unfolding new_manager
run-restart nets files calls = run-IsLoaded nets calls (new_manager files) refl
