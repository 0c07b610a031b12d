-- ===== src/Instance/Host.antt =====
-- internal/instance: the definitions in the store, and what is kept of each instance by its ID: the
-- status file in its runtime directory, whether a guest frozen on standby is in its directory, and
-- the start under way, which holds the instance's lock from its admission on.
use dicer.Prelude.{
  String, Bool, true, false, ◌&&◌, Option, none, some, List, [], ◌∷◌, ◌==◌, nat_Eq, string_Eq,
  if◌then◌else◌,
}
use dicer.Network.Port.{PortMapping}
use dicer.Instance.{Resources, State, stopped, starting, running, paused, standby, stopping, failed}

pub data MountType : Type 0 where
  volume file directory tmpfs : MountType

pub record Mount : Type 0 where
  pub kind : MountType
  pub source : String
  pub read_only : Bool

-- The fields of a Spec that admission reads.
pub record Spec : Type 0 where
  pub id : String
  pub resources : Resources
  pub ports : List PortMapping
  pub mounts : List Mount

-- The fields of a Status that admission reads.
pub record Status : Type 0 where
  pub state : State
  pub held : Resources

pub record Cell : Type 0 where
  pub status : Option Status
  pub frozen : Bool
  pub booting : Option Resources

pub record Host : Type 0 where
  pub instances : List Spec
  pub cells : String → Cell

abbrev pub nothing : Resources
nothing = record { vcpus = 0; memory_bytes = 0 }

unfoldable pub is_active : State → Bool
is_active running = true
is_active paused = true
is_active _ = false

unfoldable pub holds_resources : State → Bool
unfolding is_active
holds_resources starting = true
holds_resources s = is_active s

unfoldable pub holds_ports_and_volumes : State → Bool
unfolding holds_resources
holds_ports_and_volumes stopping = true
holds_ports_and_volumes standby = true
holds_ports_and_volumes s = holds_resources s

-- `readStatus`: no file is an instance that is stopped.
unfoldable pub read_status : Option Status → Status
read_status none = record { state = stopped; held = nothing }
read_status (some status) = status

-- A stopped or failed instance that has a frozen guest is on standby.
unfoldable pub or_standby : Bool → State → State
or_standby true stopped = standby
or_standby true failed = standby
or_standby frozen s = s

-- `statusOf`.
unfoldable pub status_of : Cell → Status
unfolding read_status or_standby
status_of c = record (read_status c.status) {
  state = or_standby c.frozen (read_status c.status).state;
}

-- `HeldResources`.
unfoldable pub held_resources : Status → Resources
unfolding holds_resources
held_resources s = if holds_resources s.state then s.held else nothing

unfoldable pub is_volume : Mount → Bool
is_volume m = elim m.kind [ volume ↦ true | _ ↦ false ]

-- `VolumeMount`, of the mounts of a Spec.
unfoldable pub volume_mount : String → List Mount → Option Mount
unfolding is_volume
volume_mount name [] = none
volume_mount name (m ∷ mounts) =
    let rest = volume_mount name mounts in if is_volume m && m.source == name then some m else rest

-- The store's instance of an ID.
unfoldable pub stored : String → List Spec → Option Spec
stored id [] = none
stored id (s ∷ instances) = let rest = stored id instances in if s.id == id then some s else rest

unfoldable pub set : String → Cell → (String → Cell) → String → Cell
set id c cells other = if other == id then c else cells other
