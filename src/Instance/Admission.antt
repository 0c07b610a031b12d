-- ===== src/Instance/Admission.antt =====
-- internal/instance/admission.go and state.go, under `admissionMu`. `readStatus` answers a status
-- for whatever it reads, so that the loops over the instances have no error of their own.
-- `capacity` is what `Allocatable` gives, `none` if the host is unlimited.
use dicer.Prelude.{
  ℕ, String, Bool, true, false, not, ◌&&◌, ◌||◌, Option, none, some, List, [], ◌∷◌, ◌==◌, nat_Eq,
  string_Eq, if◌then◌else◌,
}
use dicer.Network.Port.{PortMapping, overlaps}
use dicer.Instance.{
  Resources, add, fits, State, stopped, starting, running, paused, standby, stopping, restarting,
  failed, can_transition_to,
}
use dicer.Instance.Host.{
  Mount, Spec, Cell, Host, nothing, holds_ports_and_volumes, status_of, held_resources, is_volume,
  volume_mount, stored, set,
}

pub data AdmissionError : Type 0 where
  not_found resource_exhausted port_in_use volume_in_use invalid_state : AdmissionError

pub data Outcome : Type 0 where
  done : Outcome
  refused : AdmissionError → Outcome

-- `allocated`: what the instances other than one hold.
unfoldable pub allocated : List Spec → String → (String → Cell) → Resources
allocated [] excluded cells = nothing
allocated (s ∷ instances) excluded cells =
    let rest = allocated instances excluded cells in
    if s.id == excluded then rest else add rest (held_resources (status_of (cells s.id)))

-- `checkRoom`.
unfoldable pub has_room : Option Resources → List Spec → String → Resources → (String → Cell) → Bool
has_room none instances id need cells = true
has_room (some allocatable) instances id need cells =
    fits (add (allocated instances id cells) need) allocatable

unfoldable pub any_overlaps : PortMapping → List PortMapping → Bool
any_overlaps p [] = false
any_overlaps p (q ∷ ports) = overlaps p q || any_overlaps p ports

unfoldable pub ports_overlap : List PortMapping → List PortMapping → Bool
unfolding any_overlaps
ports_overlap [] theirs = false
ports_overlap (p ∷ mine) theirs = any_overlaps p theirs || ports_overlap mine theirs

-- A mount of theirs that does not let one of mine share its volume.
unfoldable pub refuses : Mount → Option Mount → Bool
refuses mine none = false
refuses mine (some theirs) = not mine.read_only || not theirs.read_only

unfoldable pub volumes_clash : List Mount → List Mount → Bool
unfolding refuses
volumes_clash [] theirs = false
volumes_clash (m ∷ mine) theirs =
    is_volume m && refuses m (volume_mount m.source theirs) || volumes_clash mine theirs

-- Another instance that holds its ports and volumes.
unfoldable pub is_holder : String → Spec → (String → Cell) → Bool
is_holder id other cells =
    not (other.id == id) && holds_ports_and_volumes (status_of (cells other.id)).state

-- `checkPorts`: whether a port is taken.
unfoldable pub ports_taken : Spec → List Spec → (String → Cell) → Bool
unfolding is_holder ports_overlap
ports_taken s [] cells = false
ports_taken s (other ∷ instances) cells =
    is_holder s.id other cells && ports_overlap s.ports other.ports || ports_taken s instances cells

-- `checkVolumes`: whether a volume is taken.
unfoldable pub volumes_taken : Spec → List Spec → (String → Cell) → Bool
unfolding is_holder volumes_clash
volumes_taken s [] cells = false
volumes_taken s (other ∷ instances) cells =
    is_holder s.id other cells && volumes_clash s.mounts other.mounts
    || volumes_taken s instances cells

abbrev state_code : State → ℕ
state_code stopped = 0
state_code starting = 1
state_code running = 2
state_code paused = 3
state_code standby = 4
state_code stopping = 5
state_code restarting = 6
state_code failed = 7

-- The test of `transitionWith`.
unfoldable pub may_become : State → State → Bool
may_become from to = state_code from == state_code to || can_transition_to from to

-- `transitionWith`, with what the instance then holds.
unfoldable pub transition_with : State → Resources → Cell → Option Cell
unfolding may_become
transition_with to held c =
    if may_become (status_of c).state to
    then some (record c { status = some (record { state = to; held = held }) })
    else none

unfoldable pub put_cell : String → Option Cell → Host → Host × Outcome
put_cell id none h = (h, refused invalid_state)
put_cell id (some c) h = (record h { cells = set id c h.cells }, done)

-- `admit`, of the instance that the store has.
unfoldable pub admit_stored : Option Resources → Option Spec → Resources → Host → Host × Outcome
unfolding has_room ports_taken volumes_taken put_cell transition_with
admit_stored capacity none need h = (h, refused not_found)
admit_stored capacity (some s) need h =
    if not (has_room capacity h.instances s.id need h.cells)
    then (h, refused resource_exhausted)
    else (if ports_taken s h.instances h.cells
        then (h, refused port_in_use)
        else (if volumes_taken s h.instances h.cells
            then (h, refused volume_in_use)
            else put_cell s.id (transition_with starting need (h.cells s.id)) h))

unfoldable pub admit : Option Resources → String → Resources → Host → Host × Outcome
unfolding admit_stored
admit capacity id need h = admit_stored capacity (stored id h.instances) need h

-- `reserve`.
unfoldable pub reserve : Option Resources → String → Resources → Host → Host × Outcome
unfolding has_room put_cell transition_with
reserve capacity id need h =
    if not (has_room capacity h.instances id need h.cells)
    then (h, refused resource_exhausted)
    else put_cell id (transition_with running need (h.cells id)) h
