-- ===== src/Main.antt =====
pub mod Gpus
pub mod Startup
pub mod Process
pub mod Shutdown
mod Tests
-- cmd/aether/main.go: the configuration from the environment, the simulated GPUs, and the server
-- that `main` puts together before it serves.
-- The environment is a function, in which a variable that is not set has the empty text.
use Prim.Native.String.{◌++◌ as ◌<>◌}
use aether_runner.Base.{
  ℕ, zero, suc, String, ◌==◌, Bool, true, false, ◌&&◌, Option, none, some, List, [], ◌∷◌,
  if◌then◌else◌,
}
use aether_runner.Base.Int.{ℤ, pos, pos_part, ltb_ℤ}
use aether_runner.Base.Clock.{Time, Duration}
use aether_runner.Base.Decimal.{itoa, atoi}
use aether_runner.Base.Json.{Json, Members, text, object, member, end, set_member}
use aether_runner.Worker.{WorkerState}
use aether_runner.Scheduler.{Scheduler, new_scheduler, register_gpu}
use aether_runner.Pool.{WorkerPoolConfig, new_worker_pool}
use aether_runner.Wire.{Rfc3339}
use aether_runner.Api.{System}

pub record Config : Type 0 where
  pub port : ℤ
  pub idle_timeout : Duration
  pub max_workers : ℤ
  pub log_level : String

abbrev pub Environment : Type 0
Environment = String → String

-- `if v := os.Getenv(...); v != ""`, and then what the parser makes of it, unless it fails.
unfoldable pub setting : {A : Type 0} → (String → Option A) → A → String → A
setting parse default value =
    if value == "" then default else elim (parse value) [ none ↦ default | some x ↦ x ]

-- The same with the test for a positive number.
unfoldable pub positive_setting : ℤ → String → ℤ
positive_setting default value =
    if value == ""
    then default
    else elim (atoi value) [ none ↦ default | some c ↦ if ltb_ℤ (pos 0) c then c else default ]

-- `time.ParseDuration` is a parameter.
unfoldable pub load_config : (String → Option Duration) → Environment → Config
load_config parse_duration getenv = record {
  port = setting atoi (pos 8080) (getenv "AETHER_PORT");
  idle_timeout = setting parse_duration (pos 300000000000) (getenv "AETHER_IDLE_TIMEOUT");
  max_workers = setting atoi (pos 100) (getenv "AETHER_MAX_WORKERS");
  log_level = setting (λ level. some level) "info" (getenv "AETHER_LOG_LEVEL");
}

unfoldable pub gpu_count : Environment → ℤ
gpu_count getenv = positive_setting (pos 1) (getenv "AETHER_GPU_COUNT")

unfoldable pub vram_mb : Environment → ℤ
vram_mb getenv = positive_setting (pos 24000) (getenv "AETHER_GPU_VRAM_MB")

unfoldable pub simulated_uuid : ℕ → String
simulated_uuid i = "GPU-" <> (itoa (pos i) <> "-simulated")

-- The loop from `i` on, for the rounds that are left; `gpu_lines` of Main/Process is what it logs.
unfoldable pub register_gpus : ℕ → ℕ → ℤ → Scheduler → Scheduler
register_gpus zero i vram scheduler = scheduler
register_gpus (suc rounds) i vram scheduler =
    register_gpus rounds (suc i) vram (register_gpu scheduler (simulated_uuid i) (pos i) vram)

unfoldable pub setup_simulated_gpus : Environment → Scheduler → Scheduler
setup_simulated_gpus getenv scheduler =
    register_gpus (pos_part (gpu_count getenv)) 0 (vram_mb getenv) scheduler

-- `server.Addr`
unfoldable pub server_address : Config → String
server_address config = ":" <> itoa config.port

abbrev pub pool_config : Config → WorkerPoolConfig
pool_config config = record { idle_timeout = config.idle_timeout; max_workers = config.max_workers }

-- No worker yet: what stands where none is allocated.
abbrev pub no_worker : WorkerState
no_worker = record {
  worker_id = "";
  tenant_id = "";
  status = "";
  model = none;
  gpu_assignment = none;
  metrics = none;
  container_id = "";
  created_at = 0;
  updated_at = 0;
  last_heartbeat = 0;
}

-- What the handlers of `main` share when it begins to serve, with the daemon as it is.
unfoldable pub start_up : {W : Type 0} → (String → Option Duration) → Environment → W → System W
start_up parse_duration getenv docker = record {
  heap = λ r. no_worker;
  fresh = 0;
  pool = new_worker_pool (pool_config (load_config parse_duration getenv));
  scheduler = setup_simulated_gpus getenv new_scheduler;
  docker = docker;
}

-- `for k, v := range data`: each entry over what is there under its key.
unfoldable pub add_data : List (String × Json) → Members → Members
add_data [] entry = entry
add_data ((key, value) ∷ rest) entry = add_data rest (set_member key value entry)

-- The line that `logEvent` prints, as a value.
unfoldable pub log_event : Rfc3339 → Time → String → String → List (String × Json) → Json
log_event clock now level event fields = object (
    add_data fields (
      member "timestamp" (text (clock.format now))
        (member "level" (text level) (member "event" (text event) end))))
