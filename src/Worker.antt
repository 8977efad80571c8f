-- ===== src/Worker.antt =====
pub mod Transitions
pub mod History
mod Tests
-- pkg/orchestrator/state.go: the state of one worker, its transitions and its counters.
-- A method that takes the lock is one step; `time.Now()` is an argument, in nanoseconds since the
-- zero time, which is 0. Texts such as a status are compared as texts, as in Go.
use Prim.Native.String.{◌++◌ as ◌<>◌}
use aether_runner.Base.{
  ℕ, ◌/◌, ◌≡◌, String, ◌==◌, Bool, true, false, not, ◌||◌, Option, none, some, List, [], ◌∷◌,
  if◌then◌else◌, leb,
}
use aether_runner.Base.Int.{ℤ, pos, negsuc, pos_part, neg_part, sub_ℕ, ltb_ℤ}
use aether_runner.Base.Machine.{add64}
use aether_runner.Base.Clock.{Time, Duration, time_sub, milliseconds}
use aether_runner.Base.Assoc.{Map, lookup}

abbrev pub WorkerStatus : Type 0
WorkerStatus = String

abbrev pub status_pending : WorkerStatus
status_pending = "PENDING"

abbrev pub status_starting : WorkerStatus
status_starting = "STARTING"

abbrev pub status_running : WorkerStatus
status_running = "RUNNING"

abbrev pub status_idle : WorkerStatus
status_idle = "IDLE"

abbrev pub status_terminating : WorkerStatus
status_terminating = "TERMINATING"

abbrev pub valid_transitions : Map (List WorkerStatus)
valid_transitions =
    (status_pending, status_starting ∷ status_terminating ∷ [])
    ∷ (status_starting, status_running ∷ status_terminating ∷ [])
    ∷ (status_running, status_idle ∷ status_terminating ∷ [])
    ∷ (status_idle, status_running ∷ status_terminating ∷ [])
    ∷ (status_terminating, [])
    ∷ []

pub record ModelConfig : Type 0 where
  pub name : String
  pub version : String
  pub vram_requirement : ℤ

pub record GpuAssignment : Type 0 where
  pub index : ℤ
  pub uuid : String
  pub memory_allocated_mb : ℤ

pub record WorkerMetrics : Type 0 where
  pub uptime_seconds : ℤ
  pub last_request_at : Option Time
  pub total_requests : ℤ

pub record WorkerState : Type 0 where
  pub worker_id : String
  pub tenant_id : String
  pub status : WorkerStatus
  pub model : Option ModelConfig
  pub gpu_assignment : Option GpuAssignment
  pub metrics : Option WorkerMetrics
  pub container_id : String
  pub created_at : Time
  pub updated_at : Time
  pub last_heartbeat : Time

pub record StateTransitionEvent : Type 0 where
  pub timestamp : Time
  pub level : String
  pub event : String
  pub worker_id : String
  pub tenant_id : String
  pub from_state : WorkerStatus
  pub to_state : WorkerStatus
  pub duration_ms : ℤ

-- The entry that `logTransition` writes; `at` is its own `time.Now()`.
unfoldable pub log_transition :
    Time → WorkerState → WorkerStatus → WorkerStatus → ℤ → StateTransitionEvent
log_transition at w from_state to_state duration_ms = record {
  timestamp = at;
  level = "info";
  event = "state_transition";
  worker_id = w.worker_id;
  tenant_id = w.tenant_id;
  from_state = from_state;
  to_state = to_state;
  duration_ms = duration_ms;
}

abbrev pub zero_metrics : WorkerMetrics
zero_metrics = record { uptime_seconds = pos 0; last_request_at = none; total_requests = pos 0 }

-- The new worker and the entry that it logs.
unfoldable pub new_worker_state :
    Time → Time → String → String → Option ModelConfig → WorkerState × StateTransitionEvent
new_worker_state now at worker_id tenant_id model =
    let w : WorkerState = record {
      worker_id = worker_id;
      tenant_id = tenant_id;
      status = status_pending;
      model = model;
      gpu_assignment = none;
      metrics = some zero_metrics;
      container_id = "";
      created_at = now;
      updated_at = now;
      last_heartbeat = 0;
    } in
    (w, log_transition at w "" status_pending (pos 0))

-- The loop over the allowed targets.
unfoldable pub allows : List WorkerStatus → WorkerStatus → Bool
allows [] new_status = false
allows (s ∷ rest) new_status = if s == new_status then true else allows rest new_status

unfoldable pub is_valid_transition : WorkerState → WorkerStatus → Bool
unfolding lookup allows
is_valid_transition w new_status = elim (lookup w.status valid_transitions) [
  | none ↦ false
  | some allowed ↦ allows allowed new_status
]

-- What `TransitionTo` leaves: the worker, the error if there is one, and what it logged.
pub record Outcome : Type 0 where
  pub worker : WorkerState
  pub error : Option String
  pub logged : List StateTransitionEvent

unfoldable pub transition_to : Time → Time → WorkerState → WorkerStatus → Outcome
transition_to now at w new_status =
    let w' = record w { status = new_status; updated_at = now } in
    let duration_ms = milliseconds (time_sub now w.updated_at) in
    if not (is_valid_transition w new_status)
    then record {
      worker = w;
      error = some ("invalid state transition from " <> w.status <> " to " <> new_status);
      logged = [];
    }
    else record {
      worker = w';
      error = none;
      logged = log_transition at w' w.status new_status duration_ms ∷ [];
    }

unfoldable pub get_status : WorkerState → WorkerStatus
get_status w = w.status

unfoldable pub set_container_id : WorkerState → String → WorkerState
set_container_id w container_id = record w { container_id = container_id }

unfoldable pub get_container_id : WorkerState → String
get_container_id w = w.container_id

unfoldable pub set_gpu_assignment : WorkerState → Option GpuAssignment → WorkerState
set_gpu_assignment w gpu = record w { gpu_assignment = gpu }

-- `if w.Metrics == nil { w.Metrics = &WorkerMetrics{} }`
abbrev pub metrics_or_new : Option WorkerMetrics → WorkerMetrics
metrics_or_new none = zero_metrics
metrics_or_new (some m) = m

unfoldable pub increment_requests : Time → WorkerState → WorkerState
increment_requests now w =
    let m = metrics_or_new w.metrics in
    record w {
      metrics = some (record m {
        total_requests = add64 m.total_requests (pos 1);
        last_request_at = some now;
      });
    }

unfoldable pub is_terminal : WorkerState → Bool
is_terminal w = w.status == status_terminating

unfoldable pub can_accept_work : WorkerState → Bool
can_accept_work w = w.status == status_running || w.status == status_idle

-- `int(time.Since(t).Seconds())` goes through a float; its rounding is a parameter.
module _ (whole_seconds : Duration → ℤ) where
  unfoldable pub update_uptime : Time → WorkerState → WorkerState
  update_uptime now w = record w {
    metrics = some (record (metrics_or_new w.metrics) {
      uptime_seconds = whole_seconds (time_sub now w.created_at);
    });
  }

  -- `ToJSON` writes the uptime into the metrics that are there before it serialises the worker.
  unfoldable pub refresh_for_json : Time → WorkerState → WorkerState
  refresh_for_json now w = elim w.metrics [
    | none ↦ w
    | some m ↦ record w {
      metrics = some (record m { uptime_seconds = whole_seconds (time_sub now w.created_at) });
    }
  ]
