-- ===== src/Api/Reports/Gpus.antt =====
-- ListGPUs of pkg/api/handlers.go against HasAvailableGPU of pkg/orchestrator/scheduler.go.
use aether_runner.Base.{
  ◌≡◌, refl, ap, String, Bool, true, false, Option, some, List, [], ◌∷◌, if◌then◌else◌,
}
use aether_runner.Base.Int.{ℤ, leb_ℤ}
use aether_runner.Base.Json.{
  Json, Items, number, object, array, nil, cons, write_list, write_items, get_member,
}
use aether_runner.Scheduler.{
  Scheduler, GpuResidency, stats_of, get_gpu_stats, has_available_gpu, available,
}
use aether_runner.Api.Reports.{write_gpu_report, handle_list_gpus, sub64}

abbrev pub at_least : ℤ → Option Json → Bool
at_least vram (some (number z)) = leb_ℤ vram z
at_least vram _ = false

-- The entry of a GPU says that so much memory is available.
abbrev pub reports_room : ℤ → Json → Bool
reports_room vram (object members) = at_least vram (get_member "available_mb" members)
reports_room vram _ = false

abbrev pub any_item : (Json → Bool) → Items → Bool
any_item p nil = false
any_item p (cons j js) = if p j then true else any_item p js

abbrev pub any_entry : (Json → Bool) → Option Json → Bool
any_entry p (some (array items)) = any_item p items
any_entry p _ = false

gpus_report :
    (gpus : List (String × GpuResidency)) (vram : ℤ)
    → any_item (reports_room vram) (write_items write_gpu_report (get_gpu_stats gpus))
      ≡ has_available_gpu gpus vram
unfolding write_items write_gpu_report get_gpu_stats stats_of has_available_gpu get_member available
gpus_report [] vram = refl
gpus_report ((uuid, gpu) ∷ gpus) vram =
    ap (λ rest. if leb_ℤ vram (sub64 gpu.total_vram_mb gpu.allocated_vram) then true else rest)
      (gpus_report gpus vram)

-- The list of GPUs that ListGPUs answers with has an entry with so much memory available exactly if HasAvailableGPU says that there is such a GPU.
pub handle_list_gpus-has_available_gpu :
    (s : Scheduler) (vram : ℤ)
    → any_entry (reports_room vram) (handle_list_gpus s).body ≡ has_available_gpu s.gpus vram
unfolding handle_list_gpus write_list
handle_list_gpus-has_available_gpu s vram = gpus_report s.gpus vram
