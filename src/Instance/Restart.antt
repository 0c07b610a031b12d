-- ===== src/Instance/Restart.antt =====
-- internal/instance/restart.go: what a restart policy decides. Times are in nanoseconds, the unit
-- of time.Duration.
use dicer.Prelude.{ℕ, zero, suc, ◌+◌, ◌*◌, Bool, true, false, not, ◌&&◌, ltb, leb, if◌then◌else◌}

pub data RestartMode : Type 0 where
  unset no on_failure unless_stopped always : RestartMode

pub record RestartPolicy : Type 0 where
  pub mode : RestartMode
  pub max_retries : ℕ

pub record RestartDecision : Type 0 where
  pub restart : Bool
  pub delay : ℕ
  pub restarts : ℕ
  pub gave_up : Bool

abbrev pub restart_backoff_base : ℕ
restart_backoff_base = 1000000000

abbrev pub restart_backoff_max : ℕ
restart_backoff_max = 300000000000

abbrev pub restart_backoff_reset : ℕ
restart_backoff_reset = 600000000000

-- The loop of `backoff`, with `left` rounds to go.
unfoldable pub double : ℕ → ℕ → ℕ
double zero delay = delay
double (suc left) delay =
    let rest = double left (delay * 2) in
    if leb restart_backoff_max (delay * 2) then restart_backoff_max else rest

unfoldable pub backoff : ℕ → ℕ
unfolding double
backoff restarts = double restarts restart_backoff_base

-- `wanted`, for a mode and whether the end was clean.
unfoldable pub wanted : RestartMode → Bool → Bool
wanted always clean = true
wanted unless_stopped clean = true
wanted on_failure clean = not clean
wanted unset clean = false
wanted no clean = false

-- The restarts in a row that count: none after a long run.
unfoldable pub counted : ℕ → ℕ → ℕ
counted restarts ran_for = if leb restart_backoff_reset ran_for then 0 else restarts

abbrev nothing_to_do : ℕ → Bool → RestartDecision
nothing_to_do restarts gave_up = record {
  restart = false;
  delay = 0;
  restarts = restarts;
  gave_up = gave_up;
}

-- `decideRestart`.
unfoldable pub decide_restart : RestartPolicy → Bool → ℕ → ℕ → RestartDecision
unfolding backoff wanted counted
decide_restart policy clean restarts ran_for =
    let so_far = counted restarts ran_for in
    if not (wanted policy.mode clean)
    then nothing_to_do so_far false
    else (if ltb 0 policy.max_retries && leb policy.max_retries so_far
        then nothing_to_do so_far true
        else record {
          restart = true;
          delay = backoff so_far;
          restarts = so_far + 1;
          gave_up = false;
        })
