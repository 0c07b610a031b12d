-- ===== src/Store/Integrity.antt =====
-- Referential integrity of the store, over every call.
use dicer.Prelude.{none, List, [], ◌∷◌, string_Eq, All-map, String}
use dicer.Store.{Catalogue}
use dicer.Store.Definitions.{Disk, create}
use dicer.Store.Kinds.{
  Definition, Named, FileStore, definition_Kind, snapshot_Kind, named_Kind, token_Kind, Call,
  create_instance, update_instance, rename_instance, delete_instance, create_snapshot,
  delete_snapshot, create_network, create_volume, create_kernel, update_kernel, delete_network,
  delete_volume, delete_kernel, create_token, update_token, use_token, delete_token, dispatch, run,
  check_references,
}
use dicer.Store.Runs.{AreSound, AllGiven, dispatch-AreSound}
use dicer.Store.Found.{
  Has, create-From, create-Keeps, update-From, update-Keeps, rename-From, delete-From,
}
use dicer.Store.References.{GivesNames, check_references-AreThere}
use dicer.Store.Referenced.{
  AreReferenced, Mounts, of_instance, fewer_instances, of_snapshot, fewer_snapshots, of_token,
  networks_kept, kernels_kept, volumes_kept, delete_network-AreReferenced,
  delete_kernel-AreReferenced, delete_volume-AreReferenced,
}

-- A call whose definition names a kernel, a network and volumes by their names.
abbrev pub ByName : Call → FileStore → Type 0
ByName (create_instance v) s = GivesNames v s
ByName (update_instance v) s = GivesNames v s
ByName (rename_instance k v) s = GivesNames v s
ByName (create_snapshot v) s = GivesNames v.instance_of s
ByName _ s = Unit

Mounts-map :
    (v : Definition) (c d : Catalogue Named)
    → ((n : String) → Has n c → Has n d)
    → Mounts v c
    → Mounts v d
Mounts-map v c d k h = All-map _ _ (λ m f vol. k m.source (f vol)) v.mounts h

dispatch-AreReferenced :
    (s : FileStore) (call : Call) (disk : Disk)
    → AreSound s
    → AreReferenced s
    → ByName call s
    → AreReferenced (dispatch s call disk).0
unfolding dispatch
dispatch-AreReferenced s (create_instance v) disk b a g =
    of_instance s b a (check_references v s) v _
      (create-From (check_references v s) v disk s.instances b.instances)
      (check_references-AreThere v s b g)
dispatch-AreReferenced s (update_instance v) disk b a g =
    of_instance s b a (check_references v s) v _
      (update-From (check_references v s) v disk s.instances) (check_references-AreThere v s b g)
dispatch-AreReferenced s (rename_instance k v) disk b a g =
    of_instance s b a (check_references v s) v _
      (rename-From (check_references v s) k v disk s.instances b.instances)
      (check_references-AreThere v s b g)
dispatch-AreReferenced s (delete_instance k) disk b a g =
    fewer_instances s b a _ (delete-From (λ v. none) k disk s.instances b.instances)
dispatch-AreReferenced s (create_snapshot v) disk b a g =
    of_snapshot s b a (check_references v.instance_of s) v _
      (create-From (check_references v.instance_of s) v disk s.snapshots b.snapshots)
      (check_references-AreThere v.instance_of s b g)
dispatch-AreReferenced s (delete_snapshot k) disk b a g =
    fewer_snapshots s b a _ (delete-From (λ v. none) k disk s.snapshots b.snapshots)
dispatch-AreReferenced s (create_network v) disk b a g =
    let keep = create-Keeps none v disk s.networks b.networks in
    networks_kept s b a _ (λ n u h. keep u.network_name (a.instances n u h).network)
      (λ n u h. keep u.instance_of.network_name (a.snapshots n u h).network)
dispatch-AreReferenced s (create_kernel v) disk b a g =
    let keep = create-Keeps none v disk s.kernels b.kernels in
    kernels_kept s b a _ (λ n u h. keep u.kernel_name (a.instances n u h).kernel)
      (λ n u h. keep u.instance_of.kernel_name (a.snapshots n u h).kernel)
dispatch-AreReferenced s (update_kernel v) disk b a g =
    let keep = update-Keeps none v disk s.kernels in
    kernels_kept s b a _ (λ n u h. keep u.kernel_name (a.instances n u h).kernel)
      (λ n u h. keep u.instance_of.kernel_name (a.snapshots n u h).kernel)
dispatch-AreReferenced s (create_volume v) disk b a g =
    let keep = create-Keeps none v disk s.volumes b.volumes in
    volumes_kept s b a _
      (λ n u h.
        Mounts-map u s.volumes (create none v disk s.volumes).0 keep (a.instances n u h).mounted)
      (λ n u h.
        Mounts-map u.instance_of s.volumes (create none v disk s.volumes).0 keep
          (a.snapshots n u h).mounted)
dispatch-AreReferenced s (delete_network k) disk b a g = delete_network-AreReferenced s b a k disk
dispatch-AreReferenced s (delete_kernel k) disk b a g = delete_kernel-AreReferenced s b a k disk
dispatch-AreReferenced s (delete_volume k) disk b a g = delete_volume-AreReferenced s b a k disk
dispatch-AreReferenced s (create_token v) disk b a g = of_token s b a _
dispatch-AreReferenced s (update_token v) disk b a g = of_token s b a _
dispatch-AreReferenced s (use_token k at) disk b a g = of_token s b a _
dispatch-AreReferenced s (delete_token k) disk b a g = of_token s b a _

-- The calls of a run, each of which gives names.
abbrev pub AllByName : List (Call × Disk) → FileStore → Type 0
AllByName [] s = Unit
AllByName ((call, disk) ∷ calls) s = ByName call s × AllByName calls (dispatch s call disk).0

-- Over any calls, whatever the disk makes of them, the kernel, the network and every volume that an
-- instance or a snapshot names stay in the store, as long as the definitions of the calls give
-- them by their names and not by their IDs, new definitions have new IDs, and one that replaces
-- another has its ID.
pub run-AreReferenced :
    (calls : List (Call × Disk)) (s : FileStore)
    → AreSound s
    → AreReferenced s
    → AllGiven calls s
    → AllByName calls s
    → AreReferenced (run calls s)
unfolding run
run-AreReferenced [] s b a g n = a
run-AreReferenced ((call, disk) ∷ calls) s b a g n =
    run-AreReferenced calls (dispatch s call disk).0 (dispatch-AreSound s call disk b g.0)
      (dispatch-AreReferenced s call disk b a n.0) g.1 n.1
