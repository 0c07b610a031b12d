-- ===== src/Instance.antt =====
-- internal/instance: what an instance is asked to be and the state it is in. The sizes are not
-- negative, as `Spec.Validate` asks, and their sums do not overflow.
pub mod Restart
pub mod Backoff
pub mod Host
pub mod Admission
pub mod Steps
pub mod Cells
pub mod Changes
pub mod Shrinking
pub mod Holdings
pub mod Claims
pub mod Safe
pub mod Admitted
pub mod Starts
pub mod Edits
pub mod Runs
mod Tests
use dicer.Prelude.{
  ℕ, ◌+◌, String, Bool, true, false, ◌&&◌, ◌||◌, List, Option, leb, Eq, ◌==◌, nat_Eq, string_Eq,
  ◌≡◌, ◌↔◌, refl,
}

pub record Resources : Type 0 where
  pub vcpus : ℕ
  pub memory_bytes : ℕ

unfoldable pub add : Resources → Resources → Resources
add r o = record { vcpus = r.vcpus + o.vcpus; memory_bytes = r.memory_bytes + o.memory_bytes }

unfoldable pub fits : Resources → Resources → Bool
fits r limit = leb r.vcpus limit.vcpus && leb r.memory_bytes limit.memory_bytes

pub data State : Type 0 where
  stopped starting running paused standby stopping restarting failed : State

-- `allowedTransitions`.
unfoldable pub can_transition_to : State → State → Bool
can_transition_to stopped starting = true
can_transition_to starting running = true
can_transition_to starting restarting = true
can_transition_to starting failed = true
can_transition_to running paused = true
can_transition_to running stopping = true
can_transition_to running stopped = true
can_transition_to running restarting = true
can_transition_to running failed = true
can_transition_to paused running = true
can_transition_to paused stopping = true
can_transition_to paused stopped = true
can_transition_to paused restarting = true
can_transition_to paused failed = true
can_transition_to standby starting = true
can_transition_to stopping stopped = true
can_transition_to stopping failed = true
can_transition_to restarting starting = true
can_transition_to restarting stopping = true
can_transition_to restarting failed = true
can_transition_to failed starting = true
can_transition_to failed stopping = true
can_transition_to failed stopped = true
can_transition_to _ _ = false
