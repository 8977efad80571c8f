-- ===== src/Scheduler.antt =====
pub mod Sorting
pub mod Placement
pub mod Agreement
pub mod Accounting
pub mod Ledger
pub mod Books
pub mod History
mod Tests
-- pkg/orchestrator/scheduler.go: the GPUs, what is reserved on them, and the choice of one.
-- A method that takes the locks is one step. The map of GPUs is a list of entries in the order in
-- which `range` visits them; each `*GPUResidency` is reached through that map only, so it is a value.
use aether_runner.Base.{
  ◌≡◌, String, ◌==◌, Bool, true, false, Option, none, some, List, [], ◌∷◌, ◌++◌, if◌then◌else◌, ℕ,
  length,
}
use aether_runner.Base.Int.{ℤ, pos, leb_ℤ, ltb_ℤ}
use aether_runner.Base.Machine.{add64, sub64}
use aether_runner.Base.Assoc.{Map, lookup, insert, keys}

pub record GpuResidency : Type 0 where
  pub gpu_uuid : String
  pub gpu_index : ℤ
  pub total_vram_mb : ℤ
  pub allocated_vram : ℤ
  pub loaded_models : Map Bool
  pub active_workers : List String

pub record Scheduler : Type 0 where
  pub gpus : Map GpuResidency

pub record ScheduleResult : Type 0 where
  pub gpu_uuid : String
  pub gpu_index : ℤ
  pub is_warm_start : Bool
  pub available_ram : ℤ

pub record GpuStats : Type 0 where
  pub gpu_uuid : String
  pub gpu_index : ℤ
  pub total_vram_mb : ℤ
  pub allocated_vram : ℤ
  pub loaded_models : List String
  pub active_workers : List String

unfoldable pub new_scheduler : Scheduler
new_scheduler = record { gpus = [] }

unfoldable pub register_gpu : Scheduler → String → ℤ → ℤ → Scheduler
register_gpu s uuid index total_vram_mb = record s {
  gpus =
      insert uuid
        (record {
          gpu_uuid = uuid;
          gpu_index = index;
          total_vram_mb = total_vram_mb;
          allocated_vram = pos 0;
          loaded_models = [];
          active_workers = [];
        })
        s.gpus;
}

-- `gpu.TotalVRAMMB - gpu.AllocatedVRAM`
unfoldable pub available : GpuResidency → ℤ
available gpu = sub64 gpu.total_vram_mb gpu.allocated_vram

-- `gpu.LoadedModels[modelName]`: a missing key reads as false.
unfoldable pub is_loaded : GpuResidency → String → Bool
unfolding lookup
is_loaded gpu model_name = elim (lookup model_name gpu.loaded_models) [
  | none ↦ false
  | some loaded ↦ loaded
]

abbrev pub Candidates : Type 0
Candidates = List GpuResidency × List GpuResidency

-- One round of the loop over the GPUs: warm candidates, then cold ones.
unfoldable pub classify : String → ℤ → GpuResidency → Candidates → Candidates
classify model_name vram_requirement gpu (warm, cold) =
    if leb_ℤ vram_requirement (available gpu)
    then if is_loaded gpu model_name then (warm ++ gpu ∷ [], cold) else (warm, cold ++ gpu ∷ [])
    else (warm, cold)

unfoldable pub collect : String → ℤ → Map GpuResidency → Candidates → Candidates
collect model_name vram_requirement [] cs = cs
collect model_name vram_requirement ((uuid, gpu) ∷ gpus) cs =
    collect model_name vram_requirement gpus (classify model_name vram_requirement gpu cs)

-- The comparison that `sort.Slice` is given: more available memory comes first.
unfoldable pub more_available : GpuResidency → GpuResidency → Bool
more_available a b = ltb_ℤ (available b) (available a)

-- `sort.Slice` as a stable insertion sort. Go leaves the order of ties open, and so is the order of
-- the map that the candidates come from: every choice among ties is met at some order of the map.
unfoldable pub insert_sorted : GpuResidency → List GpuResidency → List GpuResidency
insert_sorted gpu [] = gpu ∷ []
insert_sorted gpu (g ∷ gs) = if more_available gpu g then gpu ∷ g ∷ gs else g ∷ insert_sorted gpu gs

unfoldable pub sort_slice : List GpuResidency → List GpuResidency → List GpuResidency
sort_slice sorted [] = sorted
sort_slice sorted (g ∷ gs) = sort_slice (insert_sorted g sorted) gs

unfoldable pub to_result : Bool → GpuResidency → ScheduleResult
to_result is_warm_start gpu = record {
  gpu_uuid = gpu.gpu_uuid;
  gpu_index = gpu.gpu_index;
  is_warm_start = is_warm_start;
  available_ram = available gpu;
}

unfoldable pub first_candidate : Bool → List GpuResidency → Option ScheduleResult
first_candidate is_warm_start [] = none
first_candidate is_warm_start (gpu ∷ gpus) = some (to_result is_warm_start gpu)

abbrev pub or_else {ℓ} : {A : Type ℓ} → Option A → Option A → Option A
or_else none o = o
or_else (some a) o = some a

unfoldable pub schedule : Scheduler → String → ℤ → Option ScheduleResult
schedule s model_name vram_requirement =
    let (warm, cold) = collect model_name vram_requirement s.gpus ([], []) in
    or_else (first_candidate true (sort_slice [] warm)) (first_candidate false (sort_slice [] cold))

unfoldable pub reserve : GpuResidency → String → String → ℤ → GpuResidency
reserve gpu worker_id model_name vram_mb = record gpu {
  allocated_vram = add64 gpu.allocated_vram vram_mb;
  loaded_models = insert model_name true gpu.loaded_models;
  active_workers = gpu.active_workers ++ worker_id ∷ [];
}

unfoldable pub allocate : Scheduler → String → String → String → ℤ → Scheduler × Bool
allocate s gpu_uuid worker_id model_name vram_mb = elim (lookup gpu_uuid s.gpus) [
  | none ↦ (s, false)
  | some gpu ↦ if ltb_ℤ (available gpu) vram_mb then (s, false) else (
    record s { gpus = insert gpu_uuid (reserve gpu worker_id model_name vram_mb) s.gpus },
    true,
  )
]

-- The loop that copies the other workers.
unfoldable pub without_worker : String → List String → List String
without_worker worker_id [] = []
without_worker worker_id (w ∷ ws) =
    let rest = without_worker worker_id ws in if w == worker_id then rest else w ∷ rest

unfoldable pub free : GpuResidency → String → ℤ → GpuResidency
free gpu worker_id vram_mb =
    let left = sub64 gpu.allocated_vram vram_mb in
    record gpu {
      allocated_vram = if ltb_ℤ left (pos 0) then pos 0 else left;
      active_workers = without_worker worker_id gpu.active_workers;
    }

unfoldable pub release : Scheduler → String → String → ℤ → Scheduler
release s gpu_uuid worker_id vram_mb = elim (lookup gpu_uuid s.gpus) [
  | none ↦ s
  | some gpu ↦ record s { gpus = insert gpu_uuid (free gpu worker_id vram_mb) s.gpus }
]

unfoldable pub stats_of : GpuResidency → GpuStats
stats_of gpu = record {
  gpu_uuid = gpu.gpu_uuid;
  gpu_index = gpu.gpu_index;
  total_vram_mb = gpu.total_vram_mb;
  allocated_vram = gpu.allocated_vram;
  loaded_models = keys gpu.loaded_models;
  active_workers = gpu.active_workers;
}

unfoldable pub get_gpu_stats : Map GpuResidency → List GpuStats
get_gpu_stats [] = []
get_gpu_stats ((uuid, gpu) ∷ gpus) = stats_of gpu ∷ get_gpu_stats gpus

unfoldable pub has_available_gpu : Map GpuResidency → ℤ → Bool
has_available_gpu [] vram_requirement = false
has_available_gpu ((uuid, gpu) ∷ gpus) vram_requirement =
    if leb_ℤ vram_requirement (available gpu) then true else has_available_gpu gpus vram_requirement

unfoldable pub can_slice_gpu : Scheduler → String → ℤ → Bool
can_slice_gpu s gpu_uuid additional_vram = elim (lookup gpu_uuid s.gpus) [
  | none ↦ false
  | some gpu ↦ leb_ℤ additional_vram (available gpu)
]

unfoldable pub get_gpu_vram_usage : Scheduler → String → ℤ × ℤ × Bool
get_gpu_vram_usage s gpu_uuid = elim (lookup gpu_uuid s.gpus) [
  | none ↦ (pos 0, pos 0, false)
  | some gpu ↦ (gpu.allocated_vram, gpu.total_vram_mb, true)
]

unfoldable pub count_models_on_gpu : Scheduler → String → ℕ
count_models_on_gpu s gpu_uuid = elim (lookup gpu_uuid s.gpus) [
  | none ↦ 0
  | some gpu ↦ length gpu.loaded_models
]
