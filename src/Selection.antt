-- ===== src/Selection.antt =====
pub mod Passes
pub mod Routing
pub mod Agreement
pub mod Preference
mod Tests
-- pkg/orchestrator/scheduler.go, the lower half: `SelectWorker` and `SelectWorkerForModel`, which
-- look for an idle worker in the pool before they ask the scheduler for a GPU.
use aether_runner.Base.{
  ℕ, String, ◌==◌, Bool, true, false, Option, none, some, List, [], ◌∷◌, if◌then◌else◌,
}
use aether_runner.Base.Int.{ℤ, pos, leb_ℤ}
use aether_runner.Worker.{get_status, status_idle, GpuAssignment}
use aether_runner.Scheduler.{Scheduler, has_available_gpu}
use aether_runner.Pool.{Ref, Heap, WorkerPool, list_workers, has_model}

pub record SelectWorkerResult : Type 0 where
  pub worker : Option Ref
  pub is_warm_hit : Bool
  pub is_cold_hit : Bool
  pub reason : String

-- The first pass, the same in both functions: an idle worker that holds the model.
unfoldable pub first_warm : Heap → List Ref → String → Option Ref
first_warm h [] model_name = none
first_warm h (r ∷ workers) model_name =
    let rest = first_warm h workers model_name in
    if get_status (h r) == status_idle
    then if has_model (h r).model model_name then some r else rest
    else rest

-- The second pass of `SelectWorker`.
unfoldable pub first_idle : Heap → List Ref → Option Ref
first_idle h [] = none
first_idle h (r ∷ workers) =
    let rest = first_idle h workers in if get_status (h r) == status_idle then some r else rest

-- `w.GPUAssignment != nil && w.GPUAssignment.MemoryAllocatedMB >= vramRequirement`
unfoldable pub has_room : Option GpuAssignment → ℤ → Bool
has_room none vram_requirement = false
has_room (some g) vram_requirement = leb_ℤ vram_requirement g.memory_allocated_mb

-- The second pass of `SelectWorkerForModel`.
unfoldable pub first_idle_with_room : Heap → List Ref → ℤ → Option Ref
first_idle_with_room h [] vram_requirement = none
first_idle_with_room h (r ∷ workers) vram_requirement =
    let rest = first_idle_with_room h workers vram_requirement in
    if get_status (h r) == status_idle
    then if has_room (h r).gpu_assignment vram_requirement then some r else rest
    else rest

-- `vramRequired := 8000`
abbrev pub default_vram_required : ℤ
default_vram_required = pos 8000

unfoldable pub select_worker : Scheduler → Heap → WorkerPool → String → String → SelectWorkerResult
select_worker s h p model_name tenant_id =
    let workers = list_workers h p.workers tenant_id in
    elim (first_warm h workers model_name) [
      | some r ↦ record {
        worker = some r;
        is_warm_hit = true;
        is_cold_hit = false;
        reason = "WARM_HIT: Found IDLE worker with model already in VRAM";
      }
      | none ↦ elim (first_idle h workers) [
        | some r ↦ record {
          worker = some r;
          is_warm_hit = false;
          is_cold_hit = false;
          reason = "REPURPOSE: Found IDLE worker, will swap model in VRAM";
        }
        | none ↦
            if has_available_gpu s.gpus default_vram_required
            then record {
              worker = none;
              is_warm_hit = false;
              is_cold_hit = true;
              reason = "COLD_START: No idle workers, will launch new container";
            }
            else record {
              worker = none;
              is_warm_hit = false;
              is_cold_hit = false;
              reason = "RESOURCE_EXHAUSTED: No available GPUs or warm workers found";
            }
      ]
    ]

unfoldable pub select_worker_for_model :
    Scheduler → Heap → WorkerPool → String → ℤ → String → SelectWorkerResult
select_worker_for_model s h p model_name vram_requirement tenant_id =
    let workers = list_workers h p.workers tenant_id in
    elim (first_warm h workers model_name) [
      | some r ↦ record {
        worker = some r;
        is_warm_hit = true;
        is_cold_hit = false;
        reason = "WARM_HIT: Model weights already in VRAM";
      }
      | none ↦ elim (first_idle_with_room h workers vram_requirement) [
        | some r ↦ record {
          worker = some r;
          is_warm_hit = false;
          is_cold_hit = false;
          reason = "REPURPOSE: IDLE worker with sufficient VRAM";
        }
        | none ↦
            if has_available_gpu s.gpus vram_requirement
            then record {
              worker = none;
              is_warm_hit = false;
              is_cold_hit = true;
              reason = "COLD_START: Launching new container with GPU";
            }
            else record {
              worker = none;
              is_warm_hit = false;
              is_cold_hit = false;
              reason = "RESOURCE_EXHAUSTED: No GPU with sufficient VRAM available";
            }
      ]
    ]
