-- ===== src/Demo/Launching.antt =====
-- `launchWorker` of cmd/demo/main.go, on the simulated Docker client.
use Prim.Native.String.{◌++◌ as ◌<>◌}
use aether_runner.Base.{suc, String, none, some, false, [], ◌∷◌, inl, inr, ◌-◌}
use aether_runner.Base.Int.{ℤ, pos, sub_ℕ}
use aether_runner.Base.Machine.{half_range}
use aether_runner.Base.Clock.{Time}
use aether_runner.Base.Decimal.{itoa}
use aether_runner.Worker.{
  ModelConfig, GpuAssignment, new_worker_state, transition_to, set_gpu_assignment, set_container_id,
  status_starting, status_running, status_terminating,
}
use aether_runner.Scheduler.{ScheduleResult, schedule, allocate}
use aether_runner.Pool.{Ref, store, add_worker}
use aether_runner.Docker.{LaunchOptions, ContainerInfo}
use aether_runner.Docker.Mock.{Context, MockClient, launch_container}
use aether_runner.Api.{System, write}

-- The readings of the clock in one launch, and the ID that the client makes.
pub record Moments : Type 0 where
  pub named : Time
  pub created : Time
  pub starting : Time
  pub launched : Time
  pub ended : Time
  pub container_id : String

pub data Launch : Type 0 where
  no_gpu : Launch
  failed : String → Launch
  running_on : ScheduleResult → ContainerInfo → Launch

-- `context.Background()` has no deadline.
abbrev pub no_deadline : Context
no_deadline = record { left = pos (half_range - 1); ends_first = false }

-- `UnixNano()`: the zero time is 62135596800 seconds before 1970.
unfoldable pub unix_nano : Time → ℤ
unix_nano t = sub_ℕ t 62135596800000000000

unfoldable pub worker_name : Time → String
worker_name t = "worker-" <> itoa (unix_nano t)

unfoldable pub worker_options : String → String → String → LaunchOptions
worker_options tenant_id model_name gpu_uuid = record {
  model_image = "model/" <> model_name;
  gpu_count = pos 0;
  gpu_device_ids = gpu_uuid ∷ [];
  memory = pos 0;
  cpu_shares = pos 0;
  network_mode = "";
  env = [];
  labels = ("tenant", tenant_id) ∷ ("model", model_name) ∷ [];
  exposed_port = pos 0;
}

-- `launchWorker` from the transition to STARTING on. Pulling changes nothing, and its error is dropped.
unfoldable pub start_worker :
    Moments
    → String
    → String
    → ScheduleResult
    → Ref
    → System MockClient
    → System MockClient × Launch
start_worker at tenant_id model_name chosen r s =
    let w = (transition_to at.starting at.starting (s.heap r) status_starting).worker in
    let (c, answer) =
      launch_container no_deadline at.launched at.container_id s.docker
        (worker_options tenant_id model_name chosen.gpu_uuid) in
    elim answer [
      | inl err ↦ (
        record (write s r (transition_to at.ended at.ended w status_terminating).worker) {
          docker = c;
        },
        failed err,
      )
      | inr info ↦ (
        record (write s r
            (transition_to at.ended at.ended (set_container_id w info.id) status_running).worker) {
              docker = c;
            },
        running_on chosen info,
      )
    ]

-- `launchWorker` for the GPU that `Schedule` chose. The error of `AddWorker` and the answer of
-- `Allocate` are dropped.
unfoldable pub place_worker :
    Moments → String → String → ℤ → ScheduleResult → System MockClient → System MockClient × Launch
place_worker at tenant_id model_name vram_mb chosen s =
    let worker_id = worker_name at.named in
    let model : ModelConfig = record {
      name = model_name;
      version = "";
      vram_requirement = vram_mb;
    } in
    let w = (new_worker_state at.created at.created worker_id tenant_id (some model)).0 in
    let gpu : GpuAssignment = record {
      index = chosen.gpu_index;
      uuid = chosen.gpu_uuid;
      memory_allocated_mb = vram_mb;
    } in
    let h = store s.heap s.fresh w in
    start_worker at tenant_id model_name chosen s.fresh (record s {
      heap = store h s.fresh (set_gpu_assignment w (some gpu));
      fresh = suc s.fresh;
      pool = (add_worker h s.pool s.fresh).0;
      scheduler = (allocate s.scheduler chosen.gpu_uuid worker_id model_name vram_mb).0;
    })

unfoldable pub launch_worker :
    Moments → String → String → ℤ → System MockClient → System MockClient × Launch
launch_worker at tenant_id model_name vram_mb s = elim (schedule s.scheduler model_name vram_mb) [
  | none ↦ (s, no_gpu)
  | some chosen ↦ place_worker at tenant_id model_name vram_mb chosen s
]
