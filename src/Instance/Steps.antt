-- ===== src/Instance/Steps.antt =====
-- internal/instance: the operations of a Manager as steps that callers, the watchers of VMMs and a
-- restart of the daemon take in any order. An operation on an instance holds the instance's lock;
-- a start holds it from its admission to its end, which `booting` records. Removing files succeeds,
-- but for the runtime directory of a standby.
use dicer.Prelude.{
  ℕ, String, Bool, true, false, not, ◌&&◌, Option, none, some, List, [], ◌∷◌, map, filter, ◌==◌,
  nat_Eq, string_Eq, if◌then◌else◌,
}
use dicer.Instance.{
  Resources, State, stopped, starting, running, paused, standby, stopping, restarting, failed,
}
use dicer.Instance.Restart.{RestartPolicy, RestartDecision, decide_restart}
use dicer.Instance.Host.{Spec, Cell, Host, nothing, is_active, status_of, stored, set}
use dicer.Instance.Admission.{Outcome, done, refused, admit, reserve, transition_with}

-- What an operation does that needs no admission. `half_freezes` is a standby that stops before the
-- removal of the runtime directory: the daemon crashes there, or the removal fails. `discards` is the
-- removal of the frozen guest by a stop, a start or a resume that gets no further.
pub data Change : Type 0 where
  records_running pauses resumes stops fails freezes half_freezes discards removes : Change
  ends : RestartPolicy → Bool → ℕ → ℕ → Change

-- The state after an end, of what the policy decided and whether the end was clean.
unfoldable pub ended_state : RestartDecision → Bool → State
ended_state d clean = if d.restart then restarting else (if clean then stopped else failed)

-- `fail`, and what `ended` records, leave the instance with nothing.
abbrev forget_process : State → Cell → Cell
forget_process s c = record c { status = some (record { state = s; held = nothing }) }

-- Where `ended` finds an instance: its VMM ended, or its restart was refused or failed to boot. An
-- instance with a frozen guest is resumed, which `fails` where it fails.
unfoldable pub may_end : State → Bool → Bool
may_end running frozen = true
may_end paused frozen = true
may_end restarting frozen = true
may_end starting frozen = not frozen
may_end _ frozen = false

-- `recordRunning`, at the end of a boot or of a resume, which removed what was frozen.
unfoldable pub record_running : Option Resources → Cell → Cell
record_running none c = c
record_running (some need) c = record {
  status = some (record { state = running; held = need });
  frozen = false;
  booting = none;
}

unfoldable pub or_same : Option Cell → Cell → Cell
or_same none c = c
or_same (some c') c = c'

-- `transition` keeps what the instance holds.
unfoldable pub move : State → Cell → Cell
unfolding or_same transition_with
move to c = or_same (transition_with to (status_of c).held c) c

-- `discardStandby`.
abbrev discard_standby : Cell → Cell
discard_standby c = record c { frozen = false }

-- `stop`, up to the transition to Stopping.
unfoldable pub stop_cell : State → Cell → Cell
unfolding move
stop_cell stopped c = discard_standby c
stop_cell standby c = discard_standby c
stop_cell _ c = move stopping (discard_standby c)

-- `setPaused`.
unfoldable pub pause_cell : State → Cell → Cell
unfolding move
pause_cell running c = move paused c
pause_cell _ c = c

unfoldable pub resume_cell : State → Cell → Cell
unfolding move
resume_cell paused c = move running c
resume_cell _ c = c

-- `standby`, from the moment that its VMM has ended with the guest frozen: the frozen guest is moved
-- into place, and then the runtime directory is removed, with the status in it.
abbrev place_frozen : Cell → Cell
place_frozen c = record c { frozen = true }

abbrev remove_runtime : Cell → Cell
remove_runtime c = record c { status = none }

unfoldable pub freeze_cell : State → Cell → Cell
unfolding is_active
freeze_cell s c = if is_active s then remove_runtime (place_frozen c) else c

unfoldable pub half_freeze_cell : State → Cell → Cell
unfolding is_active
half_freeze_cell s c = if is_active s then place_frozen c else c

unfoldable pub change : Change → Cell → Cell
unfolding record_running pause_cell resume_cell stop_cell freeze_cell half_freeze_cell ended_state
    may_end
change records_running c = record_running c.booting c
change pauses c = pause_cell (status_of c).state c
change resumes c = resume_cell (status_of c).state c
change stops c = stop_cell (status_of c).state c
change fails c = record (forget_process failed c) { booting = none }
change freezes c = freeze_cell (status_of c).state c
change half_freezes c = half_freeze_cell (status_of c).state c
change discards c = discard_standby c
change removes c = record c { status = none; booting = none }
change (ends policy clean restarts ran_for) c =
    if may_end (status_of c).state c.frozen
    then record (forget_process (ended_state (decide_restart policy clean restarts ran_for) clean)
        c) { booting = none }
    else c

pub data Action : Type 0 where
  admits : String → Resources → Action
  reserves : String → Resources → Action
  changes : String → Change → Action
  creates : Spec → Action
  updates : Spec → Action
  deletes : String → Action
  crashes : Action

abbrev pub empty_cell : Cell
empty_cell = record { status = none; frozen = false; booting = none }

-- A start that was admitted holds the instance's lock.
unfoldable pub begin_boot : String → Resources → Host × Outcome → Host
begin_boot id need (h, done) = record h {
  cells = set id (record (h.cells id) { booting = some need }) h.cells;
}
begin_boot id need (h, refused e) = h

unfoldable pub is_idle : Option Resources → Bool
is_idle none = true
is_idle (some need) = false

unfoldable pub is_running : State → Bool
is_running running = true
is_running _ = false

unfoldable pub is_stopped : State → Bool
is_stopped stopped = true
is_stopped _ = false

unfoldable pub replace : Spec → Spec → Spec
replace updated s = if s.id == updated.id then updated else s

-- One step. An ID is new when an instance is created: nothing is kept of it. `Update` refuses any
-- change of ports, mounts and sizes to an instance that is not stopped.
unfoldable pub step : Option Resources → Action → Host → Host
unfolding change begin_boot replace is_idle is_running is_stopped
step capacity (admits id need) h =
    if is_idle (h.cells id).booting && not (is_active (status_of (h.cells id)).state)
    then begin_boot id need (admit capacity id need h)
    else h
step capacity (reserves id need) h =
    if is_running (status_of (h.cells id)).state then (reserve capacity id need h).0 else h
step capacity (changes id c) h = record h { cells = set id (change c (h.cells id)) h.cells }
step capacity (creates s) h = elim (stored s.id h.instances) [
  | none ↦ record { instances = s ∷ h.instances; cells = set s.id empty_cell h.cells }
  | some _ ↦ h
]
step capacity (updates s) h =
    if is_stopped (status_of (h.cells s.id)).state && is_idle (h.cells s.id).booting
    then record h { instances = map (replace s) h.instances }
    else h
step capacity (deletes id) h =
    if is_idle (h.cells id).booting
    then record {
      instances = filter (λ s. not (s.id == id)) h.instances;
      cells = set id empty_cell h.cells;
    }
    else h
step capacity crashes h = record h { cells = λ id. record (h.cells id) { booting = none } }

unfoldable pub run : Option Resources → List Action → Host → Host
unfolding step
run capacity [] h = h
run capacity (a ∷ actions) h = run capacity actions (step capacity a h)
