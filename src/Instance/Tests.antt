-- ===== src/Instance/Tests.antt =====
-- Restart policies and admission at concrete inputs.
use dicer.Prelude.{◌≡◌, refl, false, [], ◌∷◌, arith}
use dicer.Prelude.{String, Option, some, List, take}
use dicer.Network.Port.{overlaps, effective_protocol}
use dicer.Instance.{Resources, add, fits, can_transition_to, stopped, starting, standby}
use dicer.Instance.Host.{
  Spec, Host, status_of, read_status, or_standby, held_resources, holds_resources,
  holds_ports_and_volumes, is_active, stored, set,
}
use dicer.Instance.Admission.{
  admit, admit_stored, has_room, ports_taken, volumes_taken, put_cell, transition_with, may_become,
  is_holder, ports_overlap, any_overlaps, volumes_clash, allocated,
}
use dicer.Instance.Steps.{
  Action, creates, admits, changes, records_running, fails, half_freezes, ends, empty_cell, run,
  step, change, begin_boot, half_freeze_cell, may_end, ended_state, replace, is_idle, is_running,
  is_stopped, record_running,
}
use dicer.Instance.Cells.{plain}
use dicer.Instance.Safe.{IsSafe}
use dicer.Instance.Runs.{run-IsSafe}
use dicer.Instance.Restart.{
  RestartPolicy, on_failure, decide_restart, backoff, double, wanted, counted,
}
use dicer.Instance.Backoff.{End, FailsSoon, restarts_over, backoff-min, restarts_over-limit}

abbrev twice : RestartPolicy
twice = record { mode = on_failure; max_retries = 2 }

abbrev failure : End
failure = record { clean = false; ran_for = 5 }

failure-FailsSoon : FailsSoon failure
failure-FailsSoon = record { unclean = refl; soon = omega arith }

-- Two restarts, and then none.
two_restarts : restarts_over twice 0 (failure ∷ failure ∷ failure ∷ []) ≡ 2
unfolding restarts_over decide_restart backoff double wanted counted
two_restarts = refl

backoff-min_example : backoff 3 ≡ 8000000000
backoff-min_example = backoff-min 3

restarts_over-limit_example : restarts_over twice 0 (failure ∷ failure ∷ failure ∷ []) ≡ 2
restarts_over-limit_example =
    restarts_over-limit twice 0 (failure ∷ failure ∷ failure ∷ []) refl (omega arith)
      (failure-FailsSoon, (failure-FailsSoon, (failure-FailsSoon, tt)))

-- Two instances that publish the same port on a host with four vCPUs.
abbrev publishes : String → Spec
publishes id = record {
  id = id;
  resources = record { vcpus = 2; memory_bytes = 1024 };
  ports = record { host_ip = ""; host_port = 80; guest_port = 80; protocol = "" } ∷ [];
  mounts = [];
}

abbrev four : Option Resources
four = some (record { vcpus = 4; memory_bytes = 4096 })

abbrev no_instances : Host
no_instances = record { instances = []; cells = λ id. empty_cell }

no_instances-IsSafe : IsSafe four no_instances
no_instances-IsSafe = record {
  distinct = tt;
  kept = λ id. plain empty_cell refl refl;
  room = (omega arith, omega arith);
  exclusive = λ a b x y ne p q. absurd x.1;
}

-- The first one starts and runs; the second one is refused while it does, and starts after it has
-- failed.
abbrev actions : List Action
actions =
    creates (publishes "a")
    ∷ creates (publishes "b")
    ∷ admits "a" (publishes "a").resources
    ∷ changes "a" records_running
    ∷ admits "b" (publishes "b").resources
    ∷ changes "a" fails
    ∷ admits "b" (publishes "b").resources
    ∷ []

abbrev half : List Action
half = take 5 actions

b_refused : (status_of ((run four half no_instances).cells "b")).state ≡ stopped
unfolding run step change begin_boot replace is_idle is_running is_stopped admit admit_stored
    has_room ports_taken volumes_taken put_cell transition_with may_become can_transition_to
    is_holder ports_overlap any_overlaps overlaps effective_protocol volumes_clash
    holds_ports_and_volumes holds_resources is_active status_of read_status or_standby
    held_resources allocated add fits stored set record_running
b_refused = refl

b_starts : (status_of ((run four actions no_instances).cells "b")).state ≡ starting
unfolding run step change begin_boot replace is_idle is_running is_stopped admit admit_stored
    has_room ports_taken volumes_taken put_cell transition_with may_become can_transition_to
    is_holder ports_overlap any_overlaps overlaps effective_protocol volumes_clash
    holds_ports_and_volumes holds_resources is_active status_of read_status or_standby
    held_resources allocated add fits stored set record_running
b_starts = refl

run-IsSafe_example : IsSafe four (run four actions no_instances)
run-IsSafe_example =
    run-IsSafe four actions no_instances (tt, (tt, (tt, (tt, (tt, (tt, (tt, tt)))))))
      no_instances-IsSafe

-- A standby of the first one is left half done; it ends, and is to be restarted; the second one
-- starts with the port of both; and when the first one fails, it is taken for one on standby.
abbrev once : RestartPolicy
once = record { mode = on_failure; max_retries = 1 }

abbrev half_done : List Action
half_done =
    creates (publishes "a")
    ∷ creates (publishes "b")
    ∷ admits "a" (publishes "a").resources
    ∷ changes "a" records_running
    ∷ changes "a" half_freezes
    ∷ changes "a" (ends once false 0 5)
    ∷ admits "b" (publishes "b").resources
    ∷ changes "a" (ends once false 1 0)
    ∷ []

both_claim :
    let h = run four half_done no_instances in
    ((status_of (h.cells "a")).state ≡ standby) × ((status_of (h.cells "b")).state ≡ starting)
unfolding run step change begin_boot replace is_idle is_running is_stopped admit admit_stored
    has_room ports_taken volumes_taken put_cell transition_with may_become can_transition_to
    is_holder ports_overlap any_overlaps overlaps effective_protocol volumes_clash
    holds_ports_and_volumes holds_resources is_active status_of read_status or_standby
    held_resources allocated add fits stored set record_running half_freeze_cell may_end ended_state
    decide_restart backoff double wanted counted
both_claim = (refl, refl)
