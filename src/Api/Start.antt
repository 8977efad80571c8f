-- ===== src/Api/Start.antt =====
-- `startWorkerContainer` of pkg/api/handlers.go: the goroutine that starts a worker's container,
-- step by step, so that other steps can come between two of its own.
use Prim.Native.String.{◌++◌ as ◌<>◌}
use aether_runner.Base.{ℕ, zero, suc, String, Option, none, some, [], ◌∷◌, inl, inr}
use aether_runner.Base.Int.{pos}
use aether_runner.Base.Clock.{Time, Duration}
use aether_runner.Worker.{
  WorkerState, transition_to, set_container_id, status_starting, status_running,
}
use aether_runner.Docker.{Docker, LaunchOptions}
use aether_runner.Api.{System, Job, write, terminate_worker}

-- Where the goroutine is: before a call that it makes.
pub data Stage : Type 0 where
  starting : Stage
  pulling : Stage
  launching : Stage
  storing : String → Stage
  waiting : String → Stage
  running : Stage
  cleaning : Stage

unfoldable pub launch_options : Job → WorkerState → LaunchOptions
launch_options job w = record {
  model_image = job.image;
  gpu_count = pos 0;
  gpu_device_ids = job.gpu.gpu_uuid ∷ [];
  memory = pos 0;
  cpu_shares = pos 0;
  network_mode = "";
  env = ("NVIDIA_VISIBLE_DEVICES=" <> job.gpu.gpu_uuid) ∷ [];
  labels = ("aether.worker_id", w.worker_id) ∷ ("aether.tenant_id", w.tenant_id) ∷ [];
  exposed_port = pos 0;
}

-- `60*time.Second`
abbrev pub health_timeout : Duration
health_timeout = pos 60000000000

module _ {W : Type 0} (docker : Docker W) where
  -- One call, and where the goroutine is then; `none`: it has returned.
  unfoldable pub advance : Time → Job → Stage → System W → System W × Option Stage
  advance now job starting s =
      let o = transition_to now now (s.heap job.worker) status_starting in
      elim o.error [ some e ↦ (s, none) | none ↦ (write s job.worker o.worker, some pulling) ]
  advance now job pulling s =
      let (d, err) = docker.pull_image s.docker job.image in
      (record s { docker = d }, some (elim err [ some e ↦ cleaning | none ↦ launching ]))
  advance now job launching s =
      let opts = launch_options job (s.heap job.worker) in
      let (d, result) = docker.launch_container s.docker opts in
      (
        record s { docker = d },
        some (elim result [ inl e ↦ cleaning | inr info ↦ storing info.id ]),
      )
  advance now job (storing id) s =
      (write s job.worker (set_container_id (s.heap job.worker) id), some (waiting id))
  advance now job (waiting id) s =
      let (d, err) = docker.wait_for_healthy s.docker id health_timeout in
      (record s { docker = d }, some (elim err [ some e ↦ cleaning | none ↦ running ]))
  advance now job running s =
      let o = transition_to now now (s.heap job.worker) status_running in
      elim o.error [ some e ↦ (s, some cleaning) | none ↦ (write s job.worker o.worker, none) ]
  advance now job cleaning s = (terminate_worker docker now job.worker s, none)

  -- After a call: the end, or what the next stage leads to.
  abbrev pub and_then :
      (Stage → System W → System W × Option Stage)
      → System W × Option Stage
      → System W × Option Stage
  and_then k (s, none) = (s, none)
  and_then k (s, some stage) = k stage s

  -- The goroutine alone, for so many calls at most; `clock` is read once at each.
  unfoldable pub start_worker_container :
      (ℕ → Time) → ℕ → Job → Stage → System W → System W × Option Stage
  start_worker_container clock zero job stage s = (s, some stage)
  start_worker_container clock (suc n) job stage s =
      and_then (λ stage' s'. start_worker_container clock n job stage' s')
        (advance (clock n) job stage s)
