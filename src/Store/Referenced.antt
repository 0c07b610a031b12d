-- ===== src/Store/Referenced.antt =====
-- No call takes away what a definition names.
use dicer.Prelude.{
  String, ◌≡◌, sym, ◌⊎◌, inl, inr, true, Option, none, some, subst, string_Eq, false, All,
  All-of_In, All-In,
}
use dicer.Maps.{lookup}
use dicer.Errors.{Error}
use dicer.Instance.Host.{is_volume}
use dicer.Token.{Token}
use dicer.Store.{Catalogue}
use dicer.Store.Definitions.{Disk, delete}
use dicer.Store.Kinds.{
  Definition, Snapshot, Named, FileStore, definition_Kind, snapshot_Kind, named_Kind, token_Kind,
  in_use, on_network, mounts_volume, boots_kernel,
}
use dicer.Store.Runs.{AreSound}
use dicer.Store.Found.{Has, delete-Keeps}
use dicer.Store.References.{AreThere, in_use-none, on_network-ne, boots_kernel-ne, mounts_volume-ne}

-- What every definition of an instance, and every one that a snapshot keeps, names is in the store.
pub record AreReferenced (s : FileStore) : Type 0 where
  pub instances :
      (n : String) (v : Definition)
      → lookup n s.instances.by_name ≡ some v
      → AreThere v s.kernels s.networks s.volumes
  pub snapshots :
      (n : String) (v : Snapshot)
      → lookup n s.snapshots.by_name ≡ some v
      → AreThere v.instance_of s.kernels s.networks s.volumes

-- The volumes of a definition are there.
abbrev pub Mounts : Definition → Catalogue Named → Type 0
Mounts v c = All (λ m. is_volume m ≡ true → Has m.source c) v.mounts

module _ (s : FileStore) (b : AreSound s) (a : AreReferenced s) where
  pub of_instance :
      (refused : Option Error) (v : Definition) (c : Catalogue Definition)
      → ((n : String) (w : Definition)
          → lookup n c.by_name ≡ some w
          → (lookup n s.instances.by_name ≡ some w) ⊎ ((w ≡ v) × (refused ≡ none)))
      → (refused ≡ none → AreThere v s.kernels s.networks s.volumes)
      → AreReferenced (record s { instances = c })
  of_instance refused v c from there = record {
    instances = λ n w h. elim (from n w h) [
      | inl f ↦ a.instances n w f
      | inr (e, r) ↦ subst (λ x. AreThere x s.kernels s.networks s.volumes) (sym e) (there r)
    ];
    snapshots = a.snapshots;
  }

  pub fewer_instances :
      (c : Catalogue Definition)
      → ((n : String) (w : Definition)
          → lookup n c.by_name ≡ some w
          → lookup n s.instances.by_name ≡ some w)
      → AreReferenced (record s { instances = c })
  fewer_instances c from = record {
    instances = λ n w h. a.instances n w (from n w h);
    snapshots = a.snapshots;
  }

  pub of_snapshot :
      (refused : Option Error) (v : Snapshot) (c : Catalogue Snapshot)
      → ((n : String) (w : Snapshot)
          → lookup n c.by_name ≡ some w
          → (lookup n s.snapshots.by_name ≡ some w) ⊎ ((w ≡ v) × (refused ≡ none)))
      → (refused ≡ none → AreThere v.instance_of s.kernels s.networks s.volumes)
      → AreReferenced (record s { snapshots = c })
  of_snapshot refused v c from there = record {
    instances = a.instances;
    snapshots = λ n w h. elim (from n w h) [
      | inl f ↦ a.snapshots n w f
      | inr (e, r) ↦
          subst (λ x. AreThere x.instance_of s.kernels s.networks s.volumes) (sym e) (there r)
    ];
  }

  pub fewer_snapshots :
      (c : Catalogue Snapshot)
      → ((n : String) (w : Snapshot)
          → lookup n c.by_name ≡ some w
          → lookup n s.snapshots.by_name ≡ some w)
      → AreReferenced (record s { snapshots = c })
  fewer_snapshots c from = record {
    instances = a.instances;
    snapshots = λ n w h. a.snapshots n w (from n w h);
  }

  pub of_token : (c : Catalogue Token) → AreReferenced (record s { tokens = c })
  of_token c = record { instances = a.instances; snapshots = a.snapshots }

  -- What is referred to may change as long as each definition's references stay.
  pub networks_kept :
      (c : Catalogue Named)
      → ((n : String) (v : Definition)
          → lookup n s.instances.by_name ≡ some v
          → Has v.network_name c)
      → ((n : String) (v : Snapshot)
          → lookup n s.snapshots.by_name ≡ some v
          → Has v.instance_of.network_name c)
      → AreReferenced (record s { networks = c })
  networks_kept c i j = record {
    instances = λ n v h.
        let t = a.instances n v h in
        record { kernel = t.kernel; network = i n v h; mounted = t.mounted };
    snapshots = λ n v h.
        let t = a.snapshots n v h in
        record { kernel = t.kernel; network = j n v h; mounted = t.mounted };
  }

  pub kernels_kept :
      (c : Catalogue Named)
      → ((n : String) (v : Definition)
          → lookup n s.instances.by_name ≡ some v
          → Has v.kernel_name c)
      → ((n : String) (v : Snapshot)
          → lookup n s.snapshots.by_name ≡ some v
          → Has v.instance_of.kernel_name c)
      → AreReferenced (record s { kernels = c })
  kernels_kept c i j = record {
    instances = λ n v h.
        let t = a.instances n v h in
        record { kernel = i n v h; network = t.network; mounted = t.mounted };
    snapshots = λ n v h.
        let t = a.snapshots n v h in
        record { kernel = j n v h; network = t.network; mounted = t.mounted };
  }

  pub volumes_kept :
      (c : Catalogue Named)
      → ((n : String) (v : Definition) → lookup n s.instances.by_name ≡ some v → Mounts v c)
      → ((n : String) (v : Snapshot)
          → lookup n s.snapshots.by_name ≡ some v
          → Mounts v.instance_of c)
      → AreReferenced (record s { volumes = c })
  volumes_kept c i j = record {
    instances = λ n v h.
        let t = a.instances n v h in
        record { kernel = t.kernel; network = t.network; mounted = i n v h };
    snapshots = λ n v h.
        let t = a.snapshots n v h in
        record { kernel = t.kernel; network = t.network; mounted = j n v h };
  }

  -- Deletions that are not refused.
  pub delete_network-AreReferenced :
      (k : String) (disk : Disk)
      → AreReferenced
          (record s { networks = (delete (λ v. in_use (on_network v) s) k disk s.networks).0 })
  delete_network-AreReferenced k disk =
      networks_kept _
        (λ n v h.
          delete-Keeps _ k disk s.networks b.networks v.network_name
            (λ u r. on_network-ne u v ((in_use-none (on_network u) s r).0 n v h))
            (a.instances n v h).network)
        (λ n v h.
          delete-Keeps _ k disk s.networks b.networks v.instance_of.network_name
            (λ u r. on_network-ne u v.instance_of ((in_use-none (on_network u) s r).1 n v h))
            (a.snapshots n v h).network)

  pub delete_kernel-AreReferenced :
      (k : String) (disk : Disk)
      → AreReferenced
          (record s { kernels = (delete (λ v. in_use (boots_kernel v) s) k disk s.kernels).0 })
  delete_kernel-AreReferenced k disk =
      kernels_kept _
        (λ n v h.
          delete-Keeps _ k disk s.kernels b.kernels v.kernel_name
            (λ u r. boots_kernel-ne u v ((in_use-none (boots_kernel u) s r).0 n v h))
            (a.instances n v h).kernel)
        (λ n v h.
          delete-Keeps _ k disk s.kernels b.kernels v.instance_of.kernel_name
            (λ u r. boots_kernel-ne u v.instance_of ((in_use-none (boots_kernel u) s r).1 n v h))
            (a.snapshots n v h).kernel)

  mounted_left :
      (spec : Definition) (k : String) (disk : Disk)
      → ((u : Named) → in_use (mounts_volume u) s ≡ none → mounts_volume u spec ≡ false)
      → Mounts spec s.volumes
      → Mounts spec (delete (λ v. in_use (mounts_volume v) s) k disk s.volumes).0
  mounted_left spec k disk unused there = All-of_In _ spec.mounts (λ m i vol.
      delete-Keeps _ k disk s.volumes b.volumes m.source
        (λ u r. All-In _ m spec.mounts (mounts_volume-ne u spec (unused u r)) i vol)
        (All-In _ m spec.mounts there i vol))

  pub delete_volume-AreReferenced :
      (k : String) (disk : Disk)
      → AreReferenced
          (record s { volumes = (delete (λ v. in_use (mounts_volume v) s) k disk s.volumes).0 })
  delete_volume-AreReferenced k disk =
      volumes_kept _
        (λ n v h.
          mounted_left v k disk (λ u r. (in_use-none (mounts_volume u) s r).0 n v h)
            (a.instances n v h).mounted)
        (λ n v h.
          mounted_left v.instance_of k disk (λ u r. (in_use-none (mounts_volume u) s r).1 n v h)
            (a.snapshots n v h).mounted)
