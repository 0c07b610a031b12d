-- ===== src/Store/References.antt =====
-- What the definitions of instances and snapshots name stays in the store.
use dicer.Prelude.{
  String, ◌≡◌, ◌≢◌, sym, ap, ◌∙◌, inl, inr, Bool, true, false, ◌&&◌, none, some, List, [], ◌∷◌,
  ◌==◌, string_Eq, Bool-cases, All, In,
}
use dicer.Maps.{lookup}
use dicer.Maps.Lookup.{ne_of_beq}
use dicer.Maps.Exact.{lookup-In}
use dicer.Instance.Host.{Mount, is_volume, volume_mount}
use dicer.Store.{Catalogue}
use dicer.Store.Definitions.{find, is_found}
use dicer.Store.Sound.{IsSound, is_none}
use dicer.Store.Calls.{find-cases}
use dicer.Store.Kinds.{
  Definition, Snapshot, Named, FileStore, definition_Kind, snapshot_Kind, named_Kind, token_Kind,
  mounts_found, check_references, any_instance, any_snapshot, in_use, on_network, boots_kernel,
  mounts_volume, is_some,
}
use dicer.Store.Runs.{AreSound}
use dicer.Store.Found.{Has}

-- The kernel, the network and the volumes of a definition are in the store under the names that it
-- gives.
pub record AreThere (spec : Definition) (kernels networks volumes : Catalogue Named) : Type 0 where
  pub kernel : Has spec.kernel_name kernels
  pub network : Has spec.network_name networks
  pub mounted : All (λ m. is_volume m ≡ true → Has m.source volumes) spec.mounts

-- None of them is given by its ID.
pub record GivesNames (spec : Definition) (s : FileStore) : Type 0 where
  pub kernel : lookup spec.kernel_name s.kernels.names_by_id ≡ none
  pub network : lookup spec.network_name s.networks.names_by_id ≡ none
  pub mounted :
      All (λ m. is_volume m ≡ true → lookup m.source s.volumes.names_by_id ≡ none) spec.mounts

found-Has :
    (k : String) (c : Catalogue Named)
    → IsSound c
    → is_found (find k c) ≡ true
    → lookup k c.names_by_id ≡ none
    → Has k c
unfolding is_found
found-Has k c s h no_id = elim (find-cases k c s) [
  | inl (f, _, _) ↦ cc (rw f at h)
  | inr (v, f, l, inl e) ↦ (v, ap (λ x. lookup x c.by_name) (sym e) ∙ l)
  | inr (v, f, l, inr e) ↦
      absurd (is_none no_id (ap (λ x. lookup x c.names_by_id) (sym e) ∙ s.indexed v.name l))
]

mounts_found-Has :
    (mounts : List Mount) (c : Catalogue Named)
    → IsSound c
    → mounts_found mounts c ≡ true
    → All (λ m. is_volume m ≡ true → lookup m.source c.names_by_id ≡ none) mounts
    → All (λ m. is_volume m ≡ true → Has m.source c) mounts
unfolding mounts_found
mounts_found-Has [] c s h n = tt
mounts_found-Has (m ∷ mounts) c s h n = elim (Bool-cases (is_volume m)) [
  | inr other ↦ ((λ v. absurd (different v other)), mounts_found-Has mounts c s (rw other at h) n.1)
  | inl vol ↦ elim (Bool-cases (is_found (find m.source c))) [
    | inl f ↦ (
      (λ v. found-Has m.source c s f (n.0 v)),
      mounts_found-Has mounts c s (rw (vol, f) at h) n.1,
    )
    | inr f ↦ cc (rw (vol, f) at h)
  ]
]
  where
    different : {b : Bool} → b ≡ true → b ≡ false → ⊥
    different p q = cc

pub check_references-AreThere :
    (spec : Definition) (s : FileStore)
    → AreSound s
    → GivesNames spec s
    → check_references spec s ≡ none
    → AreThere spec s.kernels s.networks s.volumes
unfolding check_references
check_references-AreThere spec s a g h =
    elim (Bool-cases (is_found (find spec.kernel_name s.kernels))) [
      | inr f ↦ cc (rw f at h)
      | inl f ↦ elim (Bool-cases (is_found (find spec.network_name s.networks))) [
        | inr n ↦ cc (rw (f, n) at h)
        | inl n ↦ elim (Bool-cases (mounts_found spec.mounts s.volumes)) [
          | inr m ↦ cc (rw (f, n, m) at h)
          | inl m ↦ record {
            kernel = found-Has spec.kernel_name s.kernels a.kernels f g.kernel;
            network = found-Has spec.network_name s.networks a.networks n g.network;
            mounted = mounts_found-Has spec.mounts s.volumes a.volumes m g.mounted;
          }
        ]
      ]
    ]

module _ (p : Definition → Bool) where
  any_instance-none :
      (entries : List (String × Definition)) (n : String) (v : Definition)
      → any_instance p entries ≡ false
      → In (n, v) entries
      → p v ≡ false
  unfolding any_instance
  any_instance-none [] n v h i = absurd i.1
  any_instance-none (e ∷ entries) n v h i = elim (Bool-cases (p e.1)) [
    | inl y ↦ cc (rw y at h)
    | inr no_ ↦ elim i [
      | inl q ↦ ap (λ (x : String × Definition). p x.1) q ∙ no_
      | inr j ↦ any_instance-none entries n v (rw no_ at h) j
    ]
  ]

  any_snapshot-none :
      (entries : List (String × Snapshot)) (n : String) (v : Snapshot)
      → any_snapshot p entries ≡ false
      → In (n, v) entries
      → p v.instance_of ≡ false
  unfolding any_snapshot
  any_snapshot-none [] n v h i = absurd i.1
  any_snapshot-none (e ∷ entries) n v h i = elim (Bool-cases (p e.1.instance_of)) [
    | inl y ↦ cc (rw y at h)
    | inr no_ ↦ elim i [
      | inl q ↦ ap (λ (x : String × Snapshot). p x.1.instance_of) q ∙ no_
      | inr j ↦ any_snapshot-none entries n v (rw no_ at h) j
    ]
  ]

  -- A deletion that is not refused: no definition passes the test.
  pub in_use-none :
      (s : FileStore)
      → in_use p s ≡ none
      → ((n : String) (v : Definition) → lookup n s.instances.by_name ≡ some v → p v ≡ false)
        × ((n : String) (v : Snapshot)
            → lookup n s.snapshots.by_name ≡ some v
            → p v.instance_of ≡ false)
  unfolding in_use
  in_use-none s h = elim (Bool-cases (any_instance p s.instances.by_name)) [
    | inl y ↦ cc (rw y at h)
    | inr i ↦ elim (Bool-cases (any_snapshot p s.snapshots.by_name)) [
      | inl y ↦ cc (rw (i, y) at h)
      | inr j ↦ (
        (λ n v l. any_instance-none s.instances.by_name n v i (lookup-In n s.instances.by_name l)),
        (λ n v l. any_snapshot-none s.snapshots.by_name n v j (lookup-In n s.snapshots.by_name l)),
      )
    ]
  ]

pub on_network-ne :
    (v : Named) (spec : Definition) → on_network v spec ≡ false → v.name ≢ spec.network_name
unfolding on_network
on_network-ne v spec h e = ne_of_beq spec.network_name v.name h (sym e)

pub boots_kernel-ne :
    (v : Named) (spec : Definition) → boots_kernel v spec ≡ false → v.name ≢ spec.kernel_name
unfolding boots_kernel
boots_kernel-ne v spec h e = ne_of_beq spec.kernel_name v.name h (sym e)

volume_mount-ne :
    (name : String) (mounts : List Mount)
    → is_some (volume_mount name mounts) ≡ false
    → All (λ m. is_volume m ≡ true → name ≢ m.source) mounts
unfolding volume_mount is_some
volume_mount-ne name [] h = tt
volume_mount-ne name (m ∷ mounts) h = elim (Bool-cases (is_volume m && m.source == name)) [
  | inl y ↦ cc (rw y at h)
  | inr n ↦ (
    (λ v e. ne_of_beq m.source name (rw v at n) (sym e)),
    volume_mount-ne name mounts (rw n at h),
  )
]

pub mounts_volume-ne :
    (v : Named) (spec : Definition)
    → mounts_volume v spec ≡ false
    → All (λ m. is_volume m ≡ true → v.name ≢ m.source) spec.mounts
unfolding mounts_volume
mounts_volume-ne v spec h = volume_mount-ne v.name spec.mounts h
