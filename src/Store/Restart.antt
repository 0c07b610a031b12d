-- ===== src/Store/Restart.antt =====
-- A store that New makes of the files answers as the one that was in memory.
use dicer.Prelude.{ℕ, String, ◌≡◌, ◌≢◌, inl, inr, none, List, [], ◌∷◌, All, string_Eq}
use dicer.Token.{Token}
use dicer.Store.{Catalogue}
use dicer.Store.Definitions.{Disk, done, failed, half, find, write_definition}
use dicer.Store.Sound.{IsSound}
use dicer.Store.Calls.{find-cases}
use dicer.Store.Files.{Mirrors, load-same}
use dicer.Store.Mirrored.{
  create-Mirrors, update-Mirrors, delete-Mirrors, rename-Mirrors, with_definition-Mirrors,
}
use dicer.Store.Kinds.{
  Definition, Snapshot, Named, FileStore, definition_Kind, snapshot_Kind, named_Kind, token_Kind,
  Call, create_instance, update_instance, rename_instance, delete_instance, create_snapshot,
  delete_snapshot, create_network, create_volume, create_kernel, update_kernel, delete_network,
  delete_volume, delete_kernel, create_token, update_token, use_token, delete_token, dispatch,
  record_token_use, record_use, new_store, run, check_references, in_use, on_network, mounts_volume,
  boots_kernel,
}
use dicer.Store.Runs.{AreSound, AllGiven, dispatch-AreSound, run-AreSound}

pub record AreMirrored (s : FileStore) : Type 0 where
  pub instances : Mirrors s.instances
  pub snapshots : Mirrors s.snapshots
  pub networks : Mirrors s.networks
  pub volumes : Mirrors s.volumes
  pub kernels : Mirrors s.kernels
  pub tokens : Mirrors s.tokens

module _ (s : FileStore) (a : AreMirrored s) where
  with_instances : (c : Catalogue Definition) → Mirrors c → AreMirrored (record s { instances = c })
  with_instances c g = record {
    instances = g;
    snapshots = a.snapshots;
    networks = a.networks;
    volumes = a.volumes;
    kernels = a.kernels;
    tokens = a.tokens;
  }

  with_snapshots : (c : Catalogue Snapshot) → Mirrors c → AreMirrored (record s { snapshots = c })
  with_snapshots c g = record {
    instances = a.instances;
    snapshots = g;
    networks = a.networks;
    volumes = a.volumes;
    kernels = a.kernels;
    tokens = a.tokens;
  }

  with_networks : (c : Catalogue Named) → Mirrors c → AreMirrored (record s { networks = c })
  with_networks c g = record {
    instances = a.instances;
    snapshots = a.snapshots;
    networks = g;
    volumes = a.volumes;
    kernels = a.kernels;
    tokens = a.tokens;
  }

  with_volumes : (c : Catalogue Named) → Mirrors c → AreMirrored (record s { volumes = c })
  with_volumes c g = record {
    instances = a.instances;
    snapshots = a.snapshots;
    networks = a.networks;
    volumes = g;
    kernels = a.kernels;
    tokens = a.tokens;
  }

  with_kernels : (c : Catalogue Named) → Mirrors c → AreMirrored (record s { kernels = c })
  with_kernels c g = record {
    instances = a.instances;
    snapshots = a.snapshots;
    networks = a.networks;
    volumes = a.volumes;
    kernels = g;
    tokens = a.tokens;
  }

  with_tokens : (c : Catalogue Token) → Mirrors c → AreMirrored (record s { tokens = c })
  with_tokens c g = record {
    instances = a.instances;
    snapshots = a.snapshots;
    networks = a.networks;
    volumes = a.volumes;
    kernels = a.kernels;
    tokens = g;
  }

use_token-Mirrors :
    (k : String) (at : ℕ) (disk : Disk) (c : Catalogue Token)
    → IsSound c
    → Mirrors c
    → Mirrors (record_token_use k at disk c).0
unfolding record_token_use record_use write_definition
use_token-Mirrors k at disk c s m = elim (find-cases k c s) [
  | inl (f, _, _) ↦ rw f m
  | inr (v, f, l, _) ↦ rw f (used disk v)
]
  where
    used :
        (disk : Disk) (v : Token)
        → Mirrors (write_definition (record v { last_used_at = at }) disk c).0
    used done v = with_definition-Mirrors (record v { last_used_at = at }) c m
    used failed v = m
    used half v = m

dispatch-AreMirrored :
    (s : FileStore) (call : Call) (disk : Disk)
    → AreSound s
    → disk ≢ half
    → AreMirrored s
    → AreMirrored (dispatch s call disk).0
unfolding dispatch
dispatch-AreMirrored s (create_instance v) disk b w a =
    with_instances s a _
      (create-Mirrors (check_references v s) v disk s.instances b.instances a.instances)
dispatch-AreMirrored s (update_instance v) disk b w a =
    with_instances s a _ (update-Mirrors (check_references v s) v disk s.instances a.instances)
dispatch-AreMirrored s (rename_instance k v) disk b w a =
    with_instances s a _
      (rename-Mirrors (check_references v s) k v disk s.instances b.instances w a.instances)
dispatch-AreMirrored s (delete_instance k) disk b w a =
    with_instances s a _ (delete-Mirrors (λ v. none) k disk s.instances b.instances w a.instances)
dispatch-AreMirrored s (create_snapshot v) disk b w a =
    with_snapshots s a _
      (create-Mirrors (check_references v.instance_of s) v disk s.snapshots b.snapshots a.snapshots)
dispatch-AreMirrored s (delete_snapshot k) disk b w a =
    with_snapshots s a _ (delete-Mirrors (λ v. none) k disk s.snapshots b.snapshots w a.snapshots)
dispatch-AreMirrored s (create_network v) disk b w a =
    with_networks s a _ (create-Mirrors none v disk s.networks b.networks a.networks)
dispatch-AreMirrored s (create_volume v) disk b w a =
    with_volumes s a _ (create-Mirrors none v disk s.volumes b.volumes a.volumes)
dispatch-AreMirrored s (create_kernel v) disk b w a =
    with_kernels s a _ (create-Mirrors none v disk s.kernels b.kernels a.kernels)
dispatch-AreMirrored s (create_token v) disk b w a =
    with_tokens s a _ (create-Mirrors none v disk s.tokens b.tokens a.tokens)
dispatch-AreMirrored s (update_kernel v) disk b w a =
    with_kernels s a _ (update-Mirrors none v disk s.kernels a.kernels)
dispatch-AreMirrored s (update_token v) disk b w a =
    with_tokens s a _ (update-Mirrors none v disk s.tokens a.tokens)
dispatch-AreMirrored s (delete_network k) disk b w a =
    with_networks s a _
      (delete-Mirrors (λ v. in_use (on_network v) s) k disk s.networks b.networks w a.networks)
dispatch-AreMirrored s (delete_volume k) disk b w a =
    with_volumes s a _
      (delete-Mirrors (λ v. in_use (mounts_volume v) s) k disk s.volumes b.volumes w a.volumes)
dispatch-AreMirrored s (delete_kernel k) disk b w a =
    with_kernels s a _
      (delete-Mirrors (λ v. in_use (boots_kernel v) s) k disk s.kernels b.kernels w a.kernels)
dispatch-AreMirrored s (delete_token k) disk b w a =
    with_tokens s a _ (delete-Mirrors (λ v. none) k disk s.tokens b.tokens w a.tokens)
dispatch-AreMirrored s (use_token k at) disk b w a =
    with_tokens s a _ (use_token-Mirrors k at disk s.tokens b.tokens a.tokens)

-- No removal of a directory and no rename is left half done.
abbrev pub AllWhole : List (Call × Disk) → Type 0
AllWhole calls = All (λ (c : Call × Disk). c.1 ≢ half) calls

run-AreMirrored :
    (calls : List (Call × Disk)) (s : FileStore)
    → AreSound s
    → AllGiven calls s
    → AllWhole calls
    → AreMirrored s
    → AreMirrored (run calls s)
unfolding run
run-AreMirrored [] s b g w a = a
run-AreMirrored ((call, disk) ∷ calls) s b g w a =
    run-AreMirrored calls (dispatch s call disk).0 (dispatch-AreSound s call disk b g.0) g.1 w.1
      (dispatch-AreMirrored s call disk b w.0 a)

-- Two stores that answer every lookup by name or ID alike.
pub record SameAnswers (s t : FileStore) : Type 0 where
  pub instances : (name_or_id : String) → find name_or_id s.instances ≡ find name_or_id t.instances
  pub snapshots : (name_or_id : String) → find name_or_id s.snapshots ≡ find name_or_id t.snapshots
  pub networks : (name_or_id : String) → find name_or_id s.networks ≡ find name_or_id t.networks
  pub volumes : (name_or_id : String) → find name_or_id s.volumes ≡ find name_or_id t.volumes
  pub kernels : (name_or_id : String) → find name_or_id s.kernels ≡ find name_or_id t.kernels
  pub tokens : (name_or_id : String) → find name_or_id s.tokens ≡ find name_or_id t.tokens

-- After any calls, whichever of them the disk fails, a store that New makes of the files answers
-- every lookup of every kind as the store in memory does; as long as none is left half done on
-- the disk, new definitions have new IDs, and one that replaces another has its ID.
pub run-restarts :
    (calls : List (Call × Disk)) (s : FileStore)
    → AreSound s
    → AreMirrored s
    → AllGiven calls s
    → AllWhole calls
    → SameAnswers (new_store (run calls s)) (run calls s)
unfolding new_store
run-restarts calls s b a g w =
    let b' = run-AreSound calls s b g in
    let a' = run-AreMirrored calls s b g w a in
    record {
      instances = load-same (run calls s).instances b'.instances a'.instances;
      snapshots = load-same (run calls s).snapshots b'.snapshots a'.snapshots;
      networks = load-same (run calls s).networks b'.networks a'.networks;
      volumes = load-same (run calls s).volumes b'.volumes a'.volumes;
      kernels = load-same (run calls s).kernels b'.kernels a'.kernels;
      tokens = load-same (run calls s).tokens b'.tokens a'.tokens;
    }
