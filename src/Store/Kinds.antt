-- ===== src/Store/Kinds.antt =====
-- internal/filestore: the store of every kind of definition. A call holds `writeMu` from its start
-- to its end, so that a run is a list of calls.
use dicer.Prelude.{
  ℕ, String, Bool, true, false, not, ◌||◌, Option, none, some, List, [], ◌∷◌, ◌==◌, string_Eq,
  if◌then◌else◌,
}
use dicer.Errors.{Error, Result, ok, err, invalid_argument, invalid_state}
use dicer.Instance.Host.{Mount, is_volume, volume_mount}
use dicer.Token.{Token}
use dicer.Store.{Kind, Catalogue}
use dicer.Store.Definitions.{
  Disk, find, is_found, write_definition, create, update, delete, rename, load,
}

-- The fields of a `Spec` that the store reads.
pub record Definition : Type 0 where
  pub id : String
  pub name : String
  pub kernel_name : String
  pub network_name : String
  pub mounts : List Mount

pub record Snapshot : Type 0 where
  pub id : String
  pub name : String
  pub instance_of : Definition

-- The fields of a `Network`, a `Volume` or a `Kernel` that the store reads.
pub record Named : Type 0 where
  pub id : String
  pub name : String

instance abbrev pub definition_Kind : Kind Definition
definition_Kind = record {
  name_of = λ v. v.name;
  id_of = λ v. v.id;
  zero_value = record { id = ""; name = ""; kernel_name = ""; network_name = ""; mounts = [] };
}

instance abbrev pub snapshot_Kind : Kind Snapshot
snapshot_Kind = record {
  name_of = λ v. v.name;
  id_of = λ v. v.id;
  zero_value = record {
    id = "";
    name = "";
    instance_of = record { id = ""; name = ""; kernel_name = ""; network_name = ""; mounts = [] };
  };
}

instance abbrev pub named_Kind : Kind Named
named_Kind = record {
  name_of = λ v. v.name;
  id_of = λ v. v.id;
  zero_value = record { id = ""; name = "" };
}

instance abbrev pub token_Kind : Kind Token
token_Kind = record {
  name_of = λ v. v.name;
  id_of = λ v. v.id;
  zero_value = record { id = ""; name = ""; secret_sha256 = []; scopes = []; last_used_at = 0 };
}

pub record FileStore : Type 0 where
  pub instances : Catalogue Definition
  pub snapshots : Catalogue Snapshot
  pub networks : Catalogue Named
  pub volumes : Catalogue Named
  pub kernels : Catalogue Named
  pub tokens : Catalogue Token

-- The loop of `checkReferences` over the mounts.
unfoldable pub mounts_found : List Mount → Catalogue Named → Bool
unfolding is_found is_volume
mounts_found [] volumes = true
mounts_found (m ∷ mounts) volumes =
    let rest = mounts_found mounts volumes in
    if not (is_volume m) then rest else if is_found (find m.source volumes) then rest else false

-- `checkReferences`.
unfoldable pub check_references : Definition → FileStore → Option Error
unfolding mounts_found is_found
check_references spec s =
    if not (is_found (find spec.kernel_name s.kernels))
    then some invalid_argument
    else if not (is_found (find spec.network_name s.networks))
    then some invalid_argument
    else if mounts_found spec.mounts s.volumes
    then none
    else some invalid_argument

-- Whether a definition of an instance passes a test, and one that a snapshot keeps.
unfoldable pub any_instance : (Definition → Bool) → List (String × Definition) → Bool
any_instance p [] = false
any_instance p (e ∷ entries) = p e.1 || any_instance p entries

unfoldable pub any_snapshot : (Definition → Bool) → List (String × Snapshot) → Bool
any_snapshot p [] = false
any_snapshot p (e ∷ entries) = p e.1.instance_of || any_snapshot p entries

-- The loops of `DeleteNetwork`, `DeleteVolume` and `DeleteKernel`.
unfoldable pub in_use : (Definition → Bool) → FileStore → Option Error
unfolding any_instance any_snapshot
in_use p s =
    if any_instance p s.instances.by_name
    then some invalid_state
    else if any_snapshot p s.snapshots.by_name
    then some invalid_state
    else none

unfoldable pub is_some : Option Mount → Bool
is_some none = false
is_some (some m) = true

unfoldable pub on_network : Named → Definition → Bool
on_network v spec = spec.network_name == v.name

unfoldable pub boots_kernel : Named → Definition → Bool
boots_kernel v spec = spec.kernel_name == v.name

unfoldable pub mounts_volume : Named → Definition → Bool
unfolding volume_mount is_some
mounts_volume v spec = is_some (volume_mount v.name spec.mounts)

unfoldable pub record_use :
    ℕ → Result Token → Disk → Catalogue Token → Catalogue Token × Result (Unit {0})
unfolding write_definition
record_use at (err e) disk c = (c, err e)
record_use at (ok v) disk c = write_definition (record v { last_used_at = at }) disk c

-- `RecordTokenUse`.
unfoldable pub record_token_use :
    String → ℕ → Disk → Catalogue Token → Catalogue Token × Result (Unit {0})
unfolding record_use
record_token_use name_or_id at disk c = record_use at (find name_or_id c) disk c

pub data Call : Type 0 where
  create_instance update_instance : Definition → Call
  rename_instance : String → Definition → Call
  delete_instance : String → Call
  create_snapshot : Snapshot → Call
  delete_snapshot : String → Call
  create_network create_volume create_kernel update_kernel : Named → Call
  delete_network delete_volume delete_kernel : String → Call
  create_token update_token : Token → Call
  use_token : String → ℕ → Call
  delete_token : String → Call

module _ (s : FileStore) where
  unfoldable pub dispatch : Call → Disk → FileStore × Result (Unit {0})
  unfolding check_references in_use on_network boots_kernel mounts_volume record_token_use
  dispatch (create_instance v) disk =
      let (c, e) = create (check_references v s) v disk s.instances in
      (record s { instances = c }, e)
  dispatch (update_instance v) disk =
      let (c, e) = update (check_references v s) v disk s.instances in
      (record s { instances = c }, e)
  dispatch (rename_instance k v) disk =
      let (c, e) = rename (check_references v s) k v disk s.instances in
      (record s { instances = c }, e)
  dispatch (delete_instance k) disk =
      let (c, e) = delete (λ v. none) k disk s.instances in (record s { instances = c }, e)
  dispatch (create_snapshot v) disk =
      let (c, e) = create (check_references v.instance_of s) v disk s.snapshots in
      (record s { snapshots = c }, e)
  dispatch (delete_snapshot k) disk =
      let (c, e) = delete (λ v. none) k disk s.snapshots in (record s { snapshots = c }, e)
  dispatch (create_network v) disk =
      let (c, e) = create none v disk s.networks in (record s { networks = c }, e)
  dispatch (create_volume v) disk =
      let (c, e) = create none v disk s.volumes in (record s { volumes = c }, e)
  dispatch (create_kernel v) disk =
      let (c, e) = create none v disk s.kernels in (record s { kernels = c }, e)
  dispatch (update_kernel v) disk =
      let (c, e) = update none v disk s.kernels in (record s { kernels = c }, e)
  dispatch (delete_network k) disk =
      let (c, e) = delete (λ v. in_use (on_network v) s) k disk s.networks in
      (record s { networks = c }, e)
  dispatch (delete_volume k) disk =
      let (c, e) = delete (λ v. in_use (mounts_volume v) s) k disk s.volumes in
      (record s { volumes = c }, e)
  dispatch (delete_kernel k) disk =
      let (c, e) = delete (λ v. in_use (boots_kernel v) s) k disk s.kernels in
      (record s { kernels = c }, e)
  dispatch (create_token v) disk =
      let (c, e) = create none v disk s.tokens in (record s { tokens = c }, e)
  dispatch (update_token v) disk =
      let (c, e) = update none v disk s.tokens in (record s { tokens = c }, e)
  dispatch (use_token k at) disk =
      let (c, e) = record_token_use k at disk s.tokens in (record s { tokens = c }, e)
  dispatch (delete_token k) disk =
      let (c, e) = delete (λ v. none) k disk s.tokens in (record s { tokens = c }, e)

-- `New` on the files of a store.
unfoldable pub new_store : FileStore → FileStore
unfolding load
new_store s = record {
  instances = load s.instances.files;
  snapshots = load s.snapshots.files;
  networks = load s.networks.files;
  volumes = load s.volumes.files;
  kernels = load s.kernels.files;
  tokens = load s.tokens.files;
}

unfoldable pub run : List (Call × Disk) → FileStore → FileStore
unfolding dispatch
run [] s = s
run ((call, disk) ∷ calls) s = run calls (dispatch s call disk).0
