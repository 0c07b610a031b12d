-- ===== src/Store/Tests.antt =====
-- Runs of the store, and of the theorems.
use dicer.Prelude.{◌≡◌, ◌≢◌, refl, false, List, [], ◌∷◌, string_Eq, nat_Eq}
use dicer.Maps.{lookup, assign, put, remove}
use dicer.Maps.Lookup.{ne_of_beq, lookup-nil}
use dicer.Naming.{validate_name}
use dicer.Errors.{ok, err, invalid_state, not_found}
use dicer.Instance.Host.{volume}
use dicer.Store.{Kind, Catalogue}
use dicer.Store.Definitions.{
  Disk, done, half, find, is_found, create, delete, rename, write_definition, remove_definition,
  load,
}
use dicer.Store.Sound.{is_none}
use dicer.Store.Calls.{empty-IsSound}
use dicer.Store.Files.{Mirrors}
use dicer.Store.Kinds.{
  Definition, Snapshot, Named, FileStore, definition_Kind, snapshot_Kind, named_Kind, token_Kind,
  Call, create_instance, create_network, create_kernel, create_volume, delete_network,
  rename_instance, dispatch, run, new_store,
}
use dicer.Store.Runs.{AreSound, AllGiven, run-AreSound}
use dicer.Store.Restart.{AreMirrored, SameAnswers, AllWhole, run-restarts}
use dicer.Store.Referenced.{AreReferenced}
use dicer.Store.Integrity.{AllByName, run-AreReferenced}

abbrev nothing_of : (V : Type 0) → Catalogue V
nothing_of V = record { by_name = []; names_by_id = []; files = [] }

abbrev empty_store : FileStore
empty_store = record {
  instances = nothing_of Definition;
  snapshots = nothing_of Snapshot;
  networks = nothing_of Named;
  volumes = nothing_of Named;
  kernels = nothing_of Named;
  tokens = nothing_of _;
}

abbrev linux : Named
linux = record { id = "k1"; name = "linux" }

abbrev lan : Named
lan = record { id = "n1"; name = "lan" }

abbrev data_volume : Named
data_volume = record { id = "v1"; name = "data" }

abbrev web : Definition
web = record {
  id = "i1";
  name = "web";
  kernel_name = "linux";
  network_name = "lan";
  mounts = record { kind = volume; source = "data"; read_only = false } ∷ [];
}

abbrev by_id : Definition
by_id = record web { network_name = "n1" }

abbrev setting_up : List (Call × Disk)
setting_up =
    (create_kernel linux, done)
    ∷ (create_network lan, done)
    ∷ (create_volume data_volume, done)
    ∷ []

abbrev calls : List (Call × Disk)
calls =
    (create_kernel linux, done)
    ∷ (create_network lan, done)
    ∷ (create_volume data_volume, done)
    ∷ (create_instance web, done)
    ∷ (delete_network "lan", done)
    ∷ []

network_in_use : (dispatch (run calls empty_store) (delete_network "n1") done).1 ≡ err invalid_state
unfolding dispatch run find is_found create delete write_definition remove_definition validate_name
    lookup assign put remove
network_in_use = refl

-- An instance that gives its network by ID is accepted, and does not keep the network from being
-- deleted.
given_by_id :
    (dispatch
      (run ((create_instance by_id, done) ∷ []) (run setting_up empty_store))
      (delete_network "lan")
      done).1
    ≡ ok tt
unfolding dispatch run find is_found create delete write_definition remove_definition validate_name
    lookup assign put remove
given_by_id = refl

-- A rename that is left half done: the store in memory has the instance, and the files do not.
half_renamed :
    (find "web"
        (run
          ((rename_instance "web" (record web { name = "site" }), half) ∷ [])
          (run calls empty_store)).instances
      ≡ ok web)
    × (find "site"
          (new_store (
            run
              ((rename_instance "web" (record web { name = "site" }), half) ∷ [])
              (run calls empty_store))).instances
        ≡ err not_found)
    × (find "web"
          (new_store (
            run
              ((rename_instance "web" (record web { name = "site" }), half) ∷ [])
              (run calls empty_store))).instances
        ≡ err not_found)
unfolding dispatch run new_store load find is_found create rename delete write_definition
    remove_definition validate_name lookup assign put remove
half_renamed = (refl, refl, refl)

calls-AllGiven : AllGiven calls empty_store
unfolding dispatch run find is_found create delete write_definition remove_definition validate_name
    lookup assign put remove
calls-AllGiven = (
  record {
    some_id = ne_of_beq "k1" "" refl;
    not_name = ne_of_beq "k1" "linux" refl;
    free_name = refl;
    free_id = refl;
  },
  (
    record {
      some_id = ne_of_beq "n1" "" refl;
      not_name = ne_of_beq "n1" "lan" refl;
      free_name = refl;
      free_id = refl;
    },
    (
      record {
        some_id = ne_of_beq "v1" "" refl;
        not_name = ne_of_beq "v1" "data" refl;
        free_name = refl;
        free_id = refl;
      },
      (
        record {
          some_id = ne_of_beq "i1" "" refl;
          not_name = ne_of_beq "i1" "web" refl;
          free_name = refl;
          free_id = refl;
        },
        (tt, tt),
      ),
    ),
  ),
)

empty_AreSound : AreSound empty_store
empty_AreSound = record {
  instances = empty-IsSound [];
  snapshots = empty-IsSound [];
  networks = empty-IsSound [];
  volumes = empty-IsSound [];
  kernels = empty-IsSound [];
  tokens = empty-IsSound [];
}

empty_Mirrors : {V : Type 0} ⦃kind : Kind V⦄ → Mirrors (nothing_of V)
unfolding lookup
empty_Mirrors = record { files_exact = tt; mirrored = λ n. refl }

empty_AreMirrored : AreMirrored empty_store
empty_AreMirrored = record {
  instances = empty_Mirrors;
  snapshots = empty_Mirrors;
  networks = empty_Mirrors;
  volumes = empty_Mirrors;
  kernels = empty_Mirrors;
  tokens = empty_Mirrors;
}

empty_AreReferenced : AreReferenced empty_store
empty_AreReferenced = record {
  instances = λ n v h. absurd (is_none (lookup-nil n) h);
  snapshots = λ n v h. absurd (is_none (lookup-nil n) h);
}

calls-AllByName : AllByName calls empty_store
unfolding dispatch run find is_found create delete write_definition remove_definition validate_name
    lookup assign put remove
calls-AllByName = (
  tt,
  (tt, (tt, (record { kernel = refl; network = refl; mounted = ((λ _. refl), tt) }, (tt, tt)))),
)

not_half : done ≢ half
not_half e = cc

calls-AllWhole : AllWhole calls
calls-AllWhole = (not_half, (not_half, (not_half, (not_half, (not_half, tt)))))

run-AreSound_example : AreSound (run calls empty_store)
run-AreSound_example = run-AreSound calls empty_store empty_AreSound calls-AllGiven

run-restarts_example : SameAnswers (new_store (run calls empty_store)) (run calls empty_store)
run-restarts_example =
    run-restarts calls empty_store empty_AreSound empty_AreMirrored calls-AllGiven calls-AllWhole

run-AreReferenced_example : AreReferenced (run calls empty_store)
run-AreReferenced_example =
    run-AreReferenced calls empty_store empty_AreSound empty_AreReferenced calls-AllGiven
      calls-AllByName
