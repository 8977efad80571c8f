-- ===== src/Pool/Tests.antt =====
-- A pool of three workers of two tenants, and the theorems about the pool there.
use aether_runner.Base.{
  inl, inr, ℕ, zero, suc, ◌+◌, ◌≡◌, refl, ◌≢◌, String, ◌==◌, false, none, some, List, [], ◌∷◌,
  arith, length, text_ne, text_cases, if◌then◌else◌,
}
use aether_runner.Base.Int.{pos, ◌≤ℤ◌}
use aether_runner.Base.Assoc.{Map, lookup, insert, delete, Distinct}
use aether_runner.Base.Clock.{time_sub}
use aether_runner.Worker.{
  WorkerState, ModelConfig, zero_metrics, status_running, status_idle, status_terminating,
  WorkerStatus,
}
use aether_runner.Pool.{
  Ref, Heap, WorkerPool, WorkerPoolConfig, new_worker_pool, count, add_worker, get_worker,
  remove_worker,
}
use aether_runner.Pool.Health.{Terminator, check_heartbeats, get_healthy_worker_count}
use aether_runner.Pool.Registry.{
  Call, adds, removes, step, run, Bounded, run-new_worker_pool-Bounded,
}
use aether_runner.Pool.Balance.{AllProper, Balanced, run-new_worker_pool-Balanced}
use aether_runner.Pool.Heartbeats.{number_ending, heartbeat_partition}

abbrev llama : ModelConfig
llama = record { name = "llama"; version = "3"; vram_requirement = pos 8000 }

abbrev made : String → String → WorkerStatus → ℕ → WorkerState
made id tenant_id status beat = record {
  worker_id = id;
  tenant_id = tenant_id;
  status = status;
  model = some llama;
  gpu_assignment = none;
  metrics = some zero_metrics;
  container_id = "";
  created_at = 1000;
  updated_at = 1000;
  last_heartbeat = beat;
}

abbrev heap : Heap
heap zero = made "w-0" "acme" status_idle 5000
heap (suc zero) = made "w-1" "acme" status_terminating 5000
heap (suc (suc n)) = made "w-2" "beta" status_running 90000

abbrev pool : WorkerPool
pool = record {
  workers = ("w-0", 0) ∷ ("w-1", 1) ∷ ("w-2", 2) ∷ [];
  state_updates = [];
  stopped = false;
  idle_timeout = pos 300;
  max_workers = pos 4;
  total_created = pos 3;
  total_terminated = pos 0;
}

abbrev two_at_most : WorkerPoolConfig
two_at_most = record { idle_timeout = pos 300; max_workers = pos 2 }

-- The third worker does not fit until one is removed.
abbrev calls : List Call
calls = adds heap 0 ∷ adds heap 1 ∷ removes "w-0" ∷ adds heap 2 ∷ []

after_calls : get_worker (run (new_worker_pool two_at_most) calls) "w-2" ≡ some 2
unfolding run step new_worker_pool add_worker remove_worker get_worker count insert delete lookup
after_calls = refl

run-new_worker_pool-Bounded_example : Bounded two_at_most (run (new_worker_pool two_at_most) calls)
run-new_worker_pool-Bounded_example = run-new_worker_pool-Bounded two_at_most calls (omega arith)

calls-proper : AllProper (new_worker_pool two_at_most) calls
unfolding run step new_worker_pool add_worker remove_worker get_worker count insert delete lookup
calls-proper = (refl, (refl, ((0, refl), (refl, tt))))

run-new_worker_pool-Balanced_example : Balanced (run (new_worker_pool two_at_most) calls)
run-new_worker_pool-Balanced_example = run-new_worker_pool-Balanced two_at_most calls calls-proper

heartbeat_partition_example :
    get_healthy_worker_count 90000 heap pool.workers (pos 10000)
      + length (check_heartbeats 90000 heap pool.workers (pos 10000))
      + number_ending heap pool.workers
    ≡ count pool.workers
heartbeat_partition_example = heartbeat_partition 90000 heap pool (pos 10000)

w0_known : get_worker pool "w-0" ≡ some 0
unfolding get_worker lookup
w0_known = refl

soon : time_sub 95000 90000 ≤ℤ pos 10000
unfolding time_sub
soon = omega arith

-- Termination as one write to the worker that has the ID.
abbrev ended : Heap → String → Heap
ended h id q = if (h q).worker_id == id then record (h q) { status = status_terminating } else h q

abbrev marker : Terminator Heap String
marker = record { heap = λ h. h; terminate = λ h id. (ended h id, none) }

ended-alone : (h : Heap) (id : String) (r : Ref) → (h r).worker_id ≢ id → ended h id r ≡ h r
ended-alone h id r n = elim (text_cases (h r).worker_id id) [
  | inl (e, _) ↦ absurd (n e)
  | inr (_, q) ↦ rw q
]

abbrev waiting : Map Ref
waiting = ("w-0", 0) ∷ ("w-1", 1) ∷ []

waiting-Distinct : Distinct waiting
waiting-Distinct = ((text_ne "w-1" "w-0" refl, tt), (tt, tt))
