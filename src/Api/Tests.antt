-- ===== src/Api/Tests.antt =====
-- A server with one GPU and a daemon that counts its containers, and the theorems about the API there.
use aether_runner.Base.{ℕ, zero, suc, ◌≡◌, refl, inr, String, false, none, some, [], ◌∷◌, arith}
use aether_runner.Base.Int.{pos, ◌-ℤ◌, ◌+ℤ◌}
use aether_runner.Base.Machine.{add64, sub64, wrap}
use aether_runner.Base.Assoc.{lookup, insert}
use aether_runner.Worker.{
  WorkerState, status_pending, status_idle, zero_metrics, new_worker_state, set_gpu_assignment,
}
use aether_runner.Scheduler.{
  GpuResidency, ScheduleResult, schedule, allocate, collect, classify, sort_slice, insert_sorted,
  first_candidate, to_result, available, is_loaded, reserve,
}
use aether_runner.Scheduler.Agreement.{IsKeyed}
use aether_runner.Scheduler.Accounting.{Inv}
use aether_runner.Scheduler.Ledger.{Books, total, on, workers}
use aether_runner.Pool.{WorkerPool, get_worker, add_worker, count}
use aether_runner.Docker.{Docker}
use aether_runner.Api.{
  System, CreateWorkerRequest, Job, create_worker, enlist, terminate_worker, inl,
}
use aether_runner.Api.Creation.{Enlisted}
use aether_runner.Api.Lifecycle.{terminate_worker-restores}
use aether_runner.Api.Start.{starting, start_worker_container}
use aether_runner.Api.Startup.{Ended, start_worker_container-Ended}

-- The daemon's state is the number of its containers, and no container becomes healthy.
abbrev pub daemon : Docker ℕ
daemon = record {
  pull_image = λ n image. (n, none);
  launch_container = λ n opts. (
    suc n,
    inr (record {
      id = "c-1";
      ip_address = "172.17.0.2";
      port = pos 8000;
      status = "running";
      started_at = 0;
    }),
  );
  wait_for_healthy = λ n id timeout. (n, some "container did not become healthy");
  terminate_container = λ n id. (0, none);
  get_container_info = λ n id. (n, inl "no such container");
  ping = λ n. none;
}

abbrev pub gpu : GpuResidency
gpu = record {
  gpu_uuid = "GPU-0";
  gpu_index = pos 0;
  total_vram_mb = pos 24000;
  allocated_vram = pos 0;
  loaded_models = [];
  active_workers = [];
}

abbrev pub worker : WorkerState
worker = record {
  worker_id = "w-0";
  tenant_id = "acme";
  status = status_pending;
  model = none;
  gpu_assignment = none;
  metrics = some zero_metrics;
  container_id = "";
  created_at = 1000;
  updated_at = 1000;
  last_heartbeat = 0;
}

abbrev pub empty_pool : WorkerPool
empty_pool = record {
  workers = [];
  state_updates = [];
  stopped = false;
  idle_timeout = pos 300;
  max_workers = pos 4;
  total_created = pos 0;
  total_terminated = pos 0;
}

abbrev pub server : System ℕ
server = record {
  heap = λ r. worker;
  fresh = 1;
  pool = empty_pool;
  scheduler = record { gpus = ("GPU-0", gpu) ∷ [] };
  docker = 0;
}

abbrev pub request : CreateWorkerRequest
request = record { model_image = "llama"; tenant_id = "acme"; model = none; gpu_count = pos 0 }

pub server-IsKeyed : IsKeyed server.scheduler.gpus
server-IsKeyed = record { distinct = (tt, tt); uuids = (refl, tt) }

abbrev after : System ℕ
after = (create_worker 2000 "w-9" (inr request) server).0

abbrev pub chosen : ScheduleResult
chosen = record {
  gpu_uuid = "GPU-0";
  gpu_index = pos 0;
  is_warm_start = false;
  available_ram = pos 24000;
}

abbrev pub job : Job
job = record { worker = 1; image = "llama"; gpu = chosen }

pub enlisted : Enlisted server after "w-9" request job
unfolding create_worker enlist schedule collect classify sort_slice insert_sorted first_candidate
    to_result available is_loaded sub64 add64 wrap ◌-ℤ◌ ◌+ℤ◌ lookup insert allocate reserve
    add_worker get_worker count new_worker_state set_gpu_assignment
enlisted = record {
  scheduled = refl;
  allocated = refl;
  room = omega arith;
  known = λ k. refl;
  worker_id = refl;
  tenant_id = refl;
  status = refl;
  container = refl;
  metrics = refl;
  model = refl;
  gpu = refl;
}

pub server-Inv : Inv server.scheduler
server-Inv = record { keyed = server-IsKeyed; sound = (omega arith, tt) }

server-Books : Books server.scheduler []
unfolding total on workers
server-Books = ((refl, refl), tt)

nobody : get_worker server.pool "w-9" ≡ none
unfolding get_worker lookup
nobody = refl

terminate_worker-restores_example :
    let s'' = terminate_worker daemon 3000 job.worker after in
    Books s''.scheduler []
    × Inv s''.scheduler
    × ((k : String) → get_worker s''.pool k ≡ get_worker server.pool k)
terminate_worker-restores_example =
    terminate_worker-restores daemon server after "w-9" request job enlisted 3000 [] server-Inv tt
      server-Books tt nobody (omega arith)

start_worker_container-Ended_example :
    let (s', left) = start_worker_container daemon (λ n. 9000) 7 job starting server in
    (left ≡ none) × Ended daemon job server s'
start_worker_container-Ended_example =
    start_worker_container-Ended daemon job server (λ n. 9000) refl

-- Two workers that wait since long.
abbrev waiting_since : String → WorkerState
waiting_since id = record worker { worker_id = id; status = status_idle }

abbrev two_waiting : System ℕ
two_waiting = record server {
  heap = λ r. elim r [ zero ↦ waiting_since "w-0" | suc n ↦ waiting_since "w-1" ];
  pool = record empty_pool { workers = ("w-0", 0) ∷ ("w-1", 1) ∷ [] };
}
