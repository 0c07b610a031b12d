-- ===== src/Store/Runs.antt =====
-- Whatever calls are made, the store of every kind stays sound, and New reads it back.
use dicer.Prelude.{
  ℕ, String, ◌≡◌, refl, sym, ap, ◌∙◌, inl, inr, Option, none, some, List, [], ◌∷◌, string_Eq,
}
use dicer.Maps.{lookup}
use dicer.Errors.{Error, ok}
use dicer.Token.{Token}
use dicer.Store.{Kind, Catalogue}
use dicer.Store.Definitions.{Disk, done, failed, half, find, update, is_found, write_definition}
use dicer.Store.Sound.{IsSound}
use dicer.Store.Calls.{IsFresh, find-cases, kept-Fits}
use dicer.Store.Kept.{create-IsSound, update-IsSound, delete-IsSound, with_definition-IsSound}
use dicer.Store.Renamed.{rename-IsSound}
use dicer.Store.Kinds.{
  Definition, Snapshot, Named, FileStore, definition_Kind, snapshot_Kind, named_Kind, token_Kind,
  Call, create_instance, update_instance, rename_instance, delete_instance, create_snapshot,
  delete_snapshot, create_network, create_volume, create_kernel, update_kernel, delete_network,
  delete_volume, delete_kernel, create_token, update_token, use_token, delete_token, dispatch,
  record_token_use, record_use, run, check_references, in_use, on_network, mounts_volume,
  boots_kernel,
}

module _ {V : Type 0} ⦃kind : Kind V⦄ where
  -- A definition that replaces the one found by its name has its name and ID.
  abbrev pub Replaces : V → Catalogue V → Type 0
  Replaces v c =
      (u : V)
      → find (kind.name_of v) c ≡ ok u
      → (kind.name_of u ≡ kind.name_of v) × (kind.id_of u ≡ kind.id_of v)

  replace-IsSound :
      (refused : Option Error) (v : V) (disk : Disk) (c : Catalogue V)
      → IsSound c
      → Replaces v c
      → IsSound (update refused v disk c).0
  unfolding update is_found
  replace-IsSound refused v disk c s r = elim (find-cases (kind.name_of v) c s) [
    | inl (f, _, _) ↦ rw f s
    | inr (u, f, l, _) ↦
        let (n, i) = r u f in
        update-IsSound refused v u disk c s (ap (λ x. lookup x c.by_name) (sym n) ∙ l) i
  ]

-- What the callers of the store see to: a new definition has a new ID, and one that replaces another
-- has its ID.
abbrev pub Given : Call → FileStore → Type 0
Given (create_instance v) s = IsFresh v s.instances
Given (update_instance v) s = Replaces v s.instances
Given (rename_instance k v) s = (u : Definition) → find k s.instances ≡ ok u → v.id ≡ u.id
Given (create_snapshot v) s = IsFresh v s.snapshots
Given (create_network v) s = IsFresh v s.networks
Given (create_volume v) s = IsFresh v s.volumes
Given (create_kernel v) s = IsFresh v s.kernels
Given (update_kernel v) s = Replaces v s.kernels
Given (create_token v) s = IsFresh v s.tokens
Given (update_token v) s = Replaces v s.tokens
Given _ s = Unit

pub record AreSound (s : FileStore) : Type 0 where
  pub instances : IsSound s.instances
  pub snapshots : IsSound s.snapshots
  pub networks : IsSound s.networks
  pub volumes : IsSound s.volumes
  pub kernels : IsSound s.kernels
  pub tokens : IsSound s.tokens

module _ (s : FileStore) (a : AreSound s) where
  with_instances : (c : Catalogue Definition) → IsSound c → AreSound (record s { instances = c })
  with_instances c g = record {
    instances = g;
    snapshots = a.snapshots;
    networks = a.networks;
    volumes = a.volumes;
    kernels = a.kernels;
    tokens = a.tokens;
  }

  with_snapshots : (c : Catalogue Snapshot) → IsSound c → AreSound (record s { snapshots = c })
  with_snapshots c g = record {
    instances = a.instances;
    snapshots = g;
    networks = a.networks;
    volumes = a.volumes;
    kernels = a.kernels;
    tokens = a.tokens;
  }

  with_networks : (c : Catalogue Named) → IsSound c → AreSound (record s { networks = c })
  with_networks c g = record {
    instances = a.instances;
    snapshots = a.snapshots;
    networks = g;
    volumes = a.volumes;
    kernels = a.kernels;
    tokens = a.tokens;
  }

  with_volumes : (c : Catalogue Named) → IsSound c → AreSound (record s { volumes = c })
  with_volumes c g = record {
    instances = a.instances;
    snapshots = a.snapshots;
    networks = a.networks;
    volumes = g;
    kernels = a.kernels;
    tokens = a.tokens;
  }

  with_kernels : (c : Catalogue Named) → IsSound c → AreSound (record s { kernels = c })
  with_kernels c g = record {
    instances = a.instances;
    snapshots = a.snapshots;
    networks = a.networks;
    volumes = a.volumes;
    kernels = g;
    tokens = a.tokens;
  }

  with_tokens : (c : Catalogue Token) → IsSound c → AreSound (record s { tokens = c })
  with_tokens c g = record {
    instances = a.instances;
    snapshots = a.snapshots;
    networks = a.networks;
    volumes = a.volumes;
    kernels = a.kernels;
    tokens = g;
  }

pub use_token-IsSound :
    (k : String) (at : ℕ) (disk : Disk) (c : Catalogue Token)
    → IsSound c
    → IsSound (record_token_use k at disk c).0
unfolding record_token_use record_use write_definition
use_token-IsSound k at disk c s = elim (find-cases k c s) [
  | inl (f, _, _) ↦ rw f s
  | inr (v, f, l, _) ↦ rw f (used disk v l)
]
  where
    used :
        (disk : Disk) (v : Token)
        → lookup v.name c.by_name ≡ some v
        → IsSound (write_definition (record v { last_used_at = at }) disk c).0
    used done v l =
        let v' : Token = record v { last_used_at = at } in
        with_definition-IsSound v' c s (kept-Fits v' v c s l refl)
    used failed v l = s
    used half v l = s

pub dispatch-AreSound :
    (s : FileStore) (call : Call) (disk : Disk)
    → AreSound s
    → Given call s
    → AreSound (dispatch s call disk).0
unfolding dispatch
dispatch-AreSound s (create_instance v) disk a g =
    with_instances s a _ (create-IsSound (check_references v s) v disk s.instances a.instances g)
dispatch-AreSound s (update_instance v) disk a g =
    with_instances s a _ (replace-IsSound (check_references v s) v disk s.instances a.instances g)
dispatch-AreSound s (rename_instance k v) disk a g =
    with_instances s a _ (rename-IsSound (check_references v s) k v disk s.instances a.instances g)
dispatch-AreSound s (delete_instance k) disk a g =
    with_instances s a _ (delete-IsSound (λ v. none) k disk s.instances a.instances)
dispatch-AreSound s (create_snapshot v) disk a g =
    with_snapshots s a _
      (create-IsSound (check_references v.instance_of s) v disk s.snapshots a.snapshots g)
dispatch-AreSound s (delete_snapshot k) disk a g =
    with_snapshots s a _ (delete-IsSound (λ v. none) k disk s.snapshots a.snapshots)
dispatch-AreSound s (create_network v) disk a g =
    with_networks s a _ (create-IsSound none v disk s.networks a.networks g)
dispatch-AreSound s (create_volume v) disk a g =
    with_volumes s a _ (create-IsSound none v disk s.volumes a.volumes g)
dispatch-AreSound s (create_kernel v) disk a g =
    with_kernels s a _ (create-IsSound none v disk s.kernels a.kernels g)
dispatch-AreSound s (update_kernel v) disk a g =
    with_kernels s a _ (replace-IsSound none v disk s.kernels a.kernels g)
dispatch-AreSound s (delete_network k) disk a g =
    with_networks s a _ (delete-IsSound (λ v. in_use (on_network v) s) k disk s.networks a.networks)
dispatch-AreSound s (delete_volume k) disk a g =
    with_volumes s a _ (delete-IsSound (λ v. in_use (mounts_volume v) s) k disk s.volumes a.volumes)
dispatch-AreSound s (delete_kernel k) disk a g =
    with_kernels s a _ (delete-IsSound (λ v. in_use (boots_kernel v) s) k disk s.kernels a.kernels)
dispatch-AreSound s (create_token v) disk a g =
    with_tokens s a _ (create-IsSound none v disk s.tokens a.tokens g)
dispatch-AreSound s (update_token v) disk a g =
    with_tokens s a _ (replace-IsSound none v disk s.tokens a.tokens g)
dispatch-AreSound s (use_token k at) disk a g =
    with_tokens s a _ (use_token-IsSound k at disk s.tokens a.tokens)
dispatch-AreSound s (delete_token k) disk a g =
    with_tokens s a _ (delete-IsSound (λ v. none) k disk s.tokens a.tokens)

-- The calls of a run, each as its callers make it.
abbrev pub AllGiven : List (Call × Disk) → FileStore → Type 0
AllGiven [] s = Unit
AllGiven ((call, disk) ∷ calls) s = Given call s × AllGiven calls (dispatch s call disk).0

-- Over any calls, whatever the disk makes of them, no two definitions of a kind share a name or an
-- ID, no ID is a name, and the index leads from each ID to its definition; as long as new
-- definitions have new IDs, and one that replaces another has its ID.
pub run-AreSound :
    (calls : List (Call × Disk)) (s : FileStore)
    → AreSound s
    → AllGiven calls s
    → AreSound (run calls s)
unfolding run
run-AreSound [] s a g = a
run-AreSound ((call, disk) ∷ calls) s a g =
    run-AreSound calls (dispatch s call disk).0 (dispatch-AreSound s call disk a g.0) g.1
