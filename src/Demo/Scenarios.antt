-- ===== src/Demo/Scenarios.antt =====
-- The three parts of cmd/demo/main.go. The two launches of the first part run at once: each asks for a
-- GPU and then takes it, and an argument says in which order these steps come.
use aether_runner.Base.{ℕ, String, Bool, true, false, Option, none, some, List, [], ◌∷◌, length}
use aether_runner.Base.Int.{ℤ, pos}
use aether_runner.Base.Clock.{Time}
use aether_runner.Worker.{WorkerState, transition_to, status_idle}
use aether_runner.Scheduler.{
  ScheduleResult, GpuStats, new_scheduler, register_gpu, schedule, get_gpu_stats,
}
use aether_runner.Selection.{SelectWorkerResult, select_worker}
use aether_runner.Pool.{Ref, new_worker_pool, list_workers}
use aether_runner.Docker.Mock.{MockClient, new_mock_client_with_delays}
use aether_runner.Api.{System, write}
use aether_runner.Demo.Launching.{Moments, Launch, place_worker, launch_worker, no_gpu}

-- How far a goroutine of the first part is with its `launchWorker`.
pub data LaunchStage : Type 0 where
  starts : LaunchStage
  answered : Option ScheduleResult → LaunchStage
  ends : Launch → LaunchStage

-- Its next step: it asks the scheduler, and then it uses the answer.
unfoldable pub next_step :
    Moments
    → String
    → String
    → ℤ
    → LaunchStage
    → System MockClient
    → System MockClient × LaunchStage
next_step at tenant_id model_name vram_mb starts s =
    (s, answered (schedule s.scheduler model_name vram_mb))
next_step at tenant_id model_name vram_mb (answered none) s = (s, ends no_gpu)
next_step at tenant_id model_name vram_mb (answered (some chosen)) s =
    let (s', launch) = place_worker at tenant_id model_name vram_mb chosen s in (s', ends launch)
next_step at tenant_id model_name vram_mb (ends launch) s = (s, ends launch)

-- The system and the two goroutines.
pub record Pair : Type 0 where
  pub system : System MockClient
  pub llama : LaunchStage
  pub phi : LaunchStage

unfoldable pub step_llama : Moments → Pair → Pair
step_llama at m =
    let (s, stage) = next_step at "acme-corp" "llama-7b" (pos 14000) m.llama m.system in
    record m { system = s; llama = stage }

unfoldable pub step_phi : Moments → Pair → Pair
step_phi at m =
    let (s, stage) = next_step at "acme-corp" "phi-2" (pos 6000) m.phi m.system in
    record m { system = s; phi = stage }

-- The goroutines in the order of the turns, `true` for the first one's. Each has two steps to take,
-- and what is left of them when the turns are over is taken at the end, for `wg.Wait`.
unfoldable pub interleave : Moments → Moments → List Bool → Pair → Pair
interleave at₁ at₂ [] m = step_phi at₂ (step_phi at₂ (step_llama at₁ (step_llama at₁ m)))
interleave at₁ at₂ (true ∷ turns) m = interleave at₁ at₂ turns (step_llama at₁ m)
interleave at₁ at₂ (false ∷ turns) m = interleave at₁ at₂ turns (step_phi at₂ m)

-- "Demo 1": how the launches and the GPUs as they are reported.
unfoldable pub run_parallel_demo :
    Moments
    → Moments
    → List Bool
    → System MockClient
    → System MockClient × (LaunchStage × LaunchStage × List GpuStats)
run_parallel_demo at₁ at₂ turns s =
    let m = interleave at₁ at₂ turns (record { system = s; llama = starts; phi = starts }) in
    (m.system, (m.llama, m.phi, get_gpu_stats m.system.scheduler.gpus))

abbrev pub decide : System MockClient → String → String → SelectWorkerResult
decide s model_name tenant_id = select_worker s.scheduler s.heap s.pool model_name tenant_id

-- `workers[0].TransitionTo(orchestrator.StatusIdle)`, if there is one.
unfoldable pub idle_first : Time → List Ref → System MockClient → System MockClient
idle_first now [] s = s
idle_first now (r ∷ workers) s = write s r (transition_to now now (s.heap r) status_idle).worker

-- "Demo 2", with the three decisions.
unfoldable pub run_warm_pool_demo :
    Moments
    → Time
    → System MockClient
    → System MockClient × (SelectWorkerResult × SelectWorkerResult × SelectWorkerResult)
run_warm_pool_demo at idle_at s =
    let result₁ = decide s "mistral-7b" "globex-inc" in
    let s₁ = (launch_worker at "globex-inc" "mistral-7b" (pos 14000) s).0 in
    let s₂ = idle_first idle_at (list_workers s₁.heap s₁.pool.workers "globex-inc") s₁ in
    (s₂, (result₁, decide s₂ "mistral-7b" "globex-inc", decide s₂ "codellama-7b" "globex-inc"))

-- What "Demo 3" shows: the numbers of workers, the decisions, and whether it says that isolation is verified.
pub record IsolationReport : Type 0 where
  pub workers_a : ℕ
  pub workers_b : ℕ
  pub all_workers : ℕ
  pub result_a : SelectWorkerResult
  pub result_b : SelectWorkerResult
  pub verified : Bool

-- `resultA.Worker != nil && resultB.Worker == nil`
unfoldable pub only_first : Option Ref → Option Ref → Bool
only_first (some r) none = true
only_first _ _ = false

unfoldable pub run_multi_tenant_demo :
    Moments → Moments → System MockClient → System MockClient × IsolationReport
run_multi_tenant_demo at₁ at₂ s =
    let s₁ = (launch_worker at₁ "acme-corp" "gpt-neo-2.7b" (pos 6000) s).0 in
    let s₂ = (launch_worker at₂ "globex-inc" "bert-large" (pos 4000) s₁).0 in
    let result_a = decide s₂ "gpt-neo-2.7b" "acme-corp" in
    let result_b = decide s₂ "gpt-neo-2.7b" "globex-inc" in
    (
      s₂,
      record {
        workers_a = length (list_workers s₂.heap s₂.pool.workers "acme-corp");
        workers_b = length (list_workers s₂.heap s₂.pool.workers "globex-inc");
        all_workers = length (list_workers s₂.heap s₂.pool.workers "");
        result_a = result_a;
        result_b = result_b;
        verified = only_first result_a.worker result_b.worker;
      },
    )

-- The system that the demonstration begins with; `h` is what its memory has before any worker is in it.
unfoldable pub demo_system : (Ref → WorkerState) → System MockClient
demo_system h = record {
  heap = h;
  fresh = 0;
  pool = new_worker_pool (record { idle_timeout = pos 300000000000; max_workers = pos 10 });
  scheduler =
      register_gpu (register_gpu new_scheduler "GPU-0" (pos 0) (pos 24000)) "GPU-1" (pos 1)
        (pos 16000);
  docker = new_mock_client_with_delays (pos 500000000) (pos 1000000000);
}

-- The readings of the clock in the five launches, and of the transition to IDLE.
pub record DemoClock : Type 0 where
  pub llama : Moments
  pub phi : Moments
  pub mistral : Moments
  pub idle : Time
  pub gpt_neo : Moments
  pub bert : Moments

-- `main`: the three parts, and what the last one shows.
unfoldable pub run_demo :
    DemoClock → List Bool → (Ref → WorkerState) → System MockClient × IsolationReport
run_demo at turns h =
    let s₁ = (run_parallel_demo at.llama at.phi turns (demo_system h)).0 in
    let s₂ = (run_warm_pool_demo at.mistral at.idle s₁).0 in
    run_multi_tenant_demo at.gpt_neo at.bert s₂
