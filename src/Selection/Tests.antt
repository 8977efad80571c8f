-- ===== src/Selection/Tests.antt =====
-- Two idle workers of one tenant and a free GPU, and the theorems about the selection there.
use aether_runner.Base.{◌≡◌, refl, inl, String, true, false, some, [], ◌∷◌, text_ne, zero, suc}
use aether_runner.Base.Int.{pos, ◌-ℤ◌}
use aether_runner.Base.Machine.{sub64, wrap}
use aether_runner.Worker.{WorkerState, get_status, status_idle, zero_metrics}
use aether_runner.Scheduler.{GpuResidency, Scheduler, has_available_gpu, available}
use aether_runner.Pool.{Heap, WorkerPool, list_workers, has_model}
use aether_runner.Selection.{
  select_worker, select_worker_for_model, first_warm, first_idle_with_room, has_room,
}
use aether_runner.Selection.Passes.{IsIdle, HasRoom}
use aether_runner.Selection.Preference.{
  Preference, Candidate, HasFree, select_worker-Preference, select_worker_for_model-Preference,
}
use aether_runner.Selection.Agreement.{Serves, select_worker-Serves}

abbrev waiting : String → String → WorkerState
waiting id model_name = record {
  worker_id = id;
  tenant_id = "acme";
  status = status_idle;
  model = some (record { name = model_name; version = "1"; vram_requirement = pos 8000 });
  gpu_assignment = some (record { index = pos 0; uuid = "GPU-0"; memory_allocated_mb = pos 8000 });
  metrics = some zero_metrics;
  container_id = "";
  created_at = 1000;
  updated_at = 1000;
  last_heartbeat = 0;
}

abbrev heap : Heap
heap zero = waiting "w-0" "phi"
heap (suc n) = waiting "w-1" "llama"

abbrev pool : WorkerPool
pool = record {
  workers = ("w-0", 0) ∷ ("w-1", 1) ∷ [];
  state_updates = [];
  stopped = false;
  idle_timeout = pos 300;
  max_workers = pos 4;
  total_created = pos 2;
  total_terminated = pos 0;
}

abbrev gpu : GpuResidency
gpu = record {
  gpu_uuid = "GPU-0";
  gpu_index = pos 0;
  total_vram_mb = pos 24000;
  allocated_vram = pos 10000;
  loaded_models = [];
  active_workers = [];
}

abbrev host : Scheduler
host = record { gpus = ("GPU-0", gpu) ∷ [] }

-- The second worker has the model, and the first could only be reused.
picks_warm : (select_worker host heap pool "llama" "acme").worker ≡ some 1
unfolding select_worker list_workers first_warm get_status has_model
picks_warm = refl

reuses : (select_worker_for_model host heap pool "gemma" (pos 8000) "acme").worker ≡ some 0
unfolding select_worker_for_model list_workers first_warm get_status has_model first_idle_with_room
    has_room
reuses = refl

starts_cold : (select_worker_for_model host heap pool "gemma" (pos 12000) "acme").is_cold_hit ≡ true
unfolding select_worker_for_model list_workers first_warm get_status has_model first_idle_with_room
    has_room has_available_gpu available sub64 wrap ◌-ℤ◌
starts_cold = refl

select_worker-Preference_example :
    Preference heap
      (Candidate heap pool "acme")
      "llama"
      IsIdle
      (HasFree host.gpus (pos 8000))
      (select_worker host heap pool "llama" "acme")
select_worker-Preference_example = select_worker-Preference host heap pool "llama" "acme"

select_worker_for_model-Preference_example :
    Preference heap
      (Candidate heap pool "acme")
      "gemma"
      (HasRoom (pos 12000))
      (HasFree host.gpus (pos 12000))
      (select_worker_for_model host heap pool "gemma" (pos 12000) "acme")
select_worker_for_model-Preference_example =
    select_worker_for_model-Preference host heap pool "gemma" (pos 12000) "acme"

select_worker-Serves_example : Serves heap pool "acme" 1
select_worker-Serves_example =
    select_worker-Serves host heap pool "llama" "acme" (pos 8000) 1 (text_ne "acme" "" refl)
      (inl picks_warm)
