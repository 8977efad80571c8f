-- ===== src/Demo/Tests.antt =====
-- Runs of the demonstration of cmd/demo/main.go.
use aether_runner.Base.{
  ◌≡◌, refl, ℕ, String, true, false, none, some, List, [], ◌∷◌, ◌+◌, Bool, Option,
}
use aether_runner.Base.Int.{◌+ℤ◌, ◌-ℤ◌}
use aether_runner.Worker.{
  WorkerState, new_worker_state, allows, get_status, is_valid_transition, log_transition,
  set_container_id, set_gpu_assignment, transition_to,
}
use aether_runner.Selection.{select_worker, first_warm, first_idle}
use aether_runner.Pool.{Heap, Ref, list_workers, add_worker, count, has_model, new_worker_pool}
use aether_runner.Docker.Mock.{
  info_of, launch_container, new_container, new_mock_client_with_delays, wait_on,
}
use aether_runner.Demo.Launching.{
  Moments, launch_worker, worker_options, place_worker, start_worker, unix_nano, worker_name,
}
use aether_runner.Demo.Scenarios.{
  DemoClock, run_demo, run_parallel_demo, run_warm_pool_demo, demo_system, idle_first, interleave,
  step_phi, next_step, step_llama, run_multi_tenant_demo,
}
use aether_runner.Demo.Isolation.{run_demo-verified}
use aether_runner.Scheduler.{
  schedule, first_candidate, sort_slice, collect, register_gpu, new_scheduler, classify, available,
  allocate, get_gpu_stats, has_available_gpu, insert_sorted, is_loaded, more_available, reserve,
  stats_of, to_result,
}
use aether_runner.Base.Assoc.{insert, lookup}
use aether_runner.Base.Clock.{milliseconds, time_sub}
use aether_runner.Base.Decimal.{decimal, decimal_from, digit_text, itoa}
use aether_runner.Base.Machine.{add64, sub64, wrap}

-- One launch, which begins at `t` nanoseconds since 1970.
abbrev launch_at : ℕ → String → Moments
launch_at t container_id =
    let now = 62135596800000000000 + t in
    record {
      named = now;
      created = now;
      starting = now;
      launched = now;
      ended = now + 1500000000;
      container_id = container_id;
    }

abbrev clock : DemoClock
clock = record {
  llama = launch_at 1 "c-1";
  phi = launch_at 2 "c-2";
  mistral = launch_at 3 "c-3";
  idle = 62135596810000000000;
  gpt_neo = launch_at 4 "c-4";
  bert = launch_at 5 "c-5";
}

abbrev blank : WorkerState
blank = (new_worker_state 0 0 "" "" none).0

abbrev empty : Heap
empty = λ r. blank

run_demo-verified_example :
    ((run_demo clock (true ∷ []) empty).1.result_a.worker ≡ none)
    × ((run_demo clock (true ∷ []) empty).1.verified ≡ false)
run_demo-verified_example = run_demo-verified clock (true ∷ []) empty

-- Whether each of the second part's decisions is a warm hit.
abbrev warm_hits : List Bool → Bool × Bool × Bool
warm_hits turns =
    let s = (run_parallel_demo clock.llama clock.phi turns (demo_system empty)).0 in
    let (result₁, result₂, result₃) = (run_warm_pool_demo clock.mistral clock.idle s).1 in
    (result₁.is_warm_hit, result₂.is_warm_hit, result₃.is_warm_hit)

abbrev last_b : List Bool → Option Ref
last_b turns = (run_demo clock turns empty).1.result_b.worker

-- The turns decide about the second part. When both goroutines have asked before either takes memory,
-- or the smaller model is placed first, both models are on the larger GPU and the other is free for
-- the second part's worker: a warm hit, and then a worker to load another model into. When the larger
-- model is placed first, the other GPU takes the smaller one, and the second part has no GPU at all.
warm_hits_by_turns :
    (warm_hits (true ∷ false ∷ []) ≡ (false, true, false))
    × (warm_hits (false ∷ false ∷ []) ≡ (false, true, false))
    × (warm_hits [] ≡ (false, false, false))
unfolding run_warm_pool_demo select_worker first_warm list_workers run_parallel_demo idle_first
    interleave launch_worker step_phi schedule next_step first_candidate step_llama sort_slice
    collect demo_system register_gpu insert new_scheduler classify available lookup milliseconds
    time_sub decimal decimal_from digit_text itoa ◌+ℤ◌ ◌-ℤ◌ add64 sub64 wrap worker_options
    place_worker start_worker unix_nano worker_name info_of launch_container new_container
    new_mock_client_with_delays wait_on add_worker count has_model new_worker_pool allocate
    get_gpu_stats has_available_gpu insert_sorted is_loaded more_available reserve stats_of
    to_result first_idle allows get_status is_valid_transition log_transition new_worker_state
    set_container_id set_gpu_assignment transition_to
warm_hits_by_turns = (refl, refl, refl)

-- With an idle worker of the other tenant, the last decision gives that tenant a worker.
last_b_together : last_b (true ∷ false ∷ []) ≡ some 2
unfolding run_demo run_multi_tenant_demo run_warm_pool_demo select_worker first_warm list_workers
    run_parallel_demo idle_first interleave launch_worker step_phi schedule next_step
    first_candidate step_llama sort_slice collect demo_system register_gpu insert new_scheduler
    classify available lookup milliseconds time_sub decimal decimal_from digit_text itoa ◌+ℤ◌ ◌-ℤ◌
    add64 sub64 wrap worker_options place_worker start_worker unix_nano worker_name info_of
    launch_container new_container new_mock_client_with_delays wait_on add_worker count has_model
    new_worker_pool allocate get_gpu_stats has_available_gpu insert_sorted is_loaded more_available
    reserve stats_of to_result first_idle allows get_status is_valid_transition log_transition
    new_worker_state set_container_id set_gpu_assignment transition_to
last_b_together = refl
