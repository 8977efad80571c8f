-- ===== src/Worker/Tests.antt =====
-- One worker on its way through the states, and the theorems about it at that worker.
use aether_runner.Base.{◌≡◌, refl, true, none, some, List, [], ◌∷◌}
use aether_runner.Base.Assoc.{lookup}
use aether_runner.Base.Clock.{time_sub, milliseconds}
use aether_runner.Worker.{
  WorkerState, allows, new_worker_state, zero_metrics, status_pending, status_starting,
  status_running, status_idle, status_terminating, transition_to, is_valid_transition,
  can_accept_work, log_transition,
}
use aether_runner.Worker.History.{Attempt, Chain, run, run-Chain}

abbrev fresh : WorkerState
fresh = record {
  worker_id = "w-1";
  tenant_id = "acme";
  status = status_pending;
  model = none;
  gpu_assignment = none;
  metrics = some zero_metrics;
  container_id = "";
  created_at = 5000000;
  updated_at = 5000000;
  last_heartbeat = 0;
}

fresh_is_new : (new_worker_state 5000000 5000001 "w-1" "acme" none).0 ≡ fresh
unfolding new_worker_state
fresh_is_new = refl

-- A start, a call that the table refuses, and the container coming up.
abbrev up : List Attempt
up =
    (7000000, 7000001, status_starting)
    ∷ (7500000, 7500001, status_idle)
    ∷ (9000000, 9000001, status_running)
    ∷ []

up_runs :
    ((run fresh up).0.status ≡ status_running)
    × ((run fresh up).0.updated_at ≡ 9000000)
    × (can_accept_work (run fresh up).0 ≡ true)
unfolding run transition_to is_valid_transition allows lookup log_transition milliseconds time_sub
    can_accept_work
up_runs = (refl, refl, refl)

run-Chain_example : Chain fresh.status (run fresh up).1 (run fresh up).0.status
run-Chain_example = run-Chain fresh up

abbrev ended : WorkerState
ended = record fresh { status = status_terminating }
