-- ===== src/Wire/Payloads.antt =====
pub mod RoundTrip
-- pkg/orchestrator/wire.go: the payloads of the messages as JSON, by the tags of their types.
use aether_runner.Base.{
  String, ◌==◌, Bool, true, false, not, Option, none, some, List, [], ◌∷◌, map, ◌⊎◌, inl, inr,
  if◌then◌else◌, ◌>>=◌,
}
use aether_runner.Base.Int.{ℤ, pos}
use aether_runner.Base.Clock.{Time, Duration}
use aether_runner.Base.Json.{
  Json, null, boolean, number, text, object, end, member, omit_if, omit_nil, same_key, write_list,
  read_text, read_bool, read_int, read_struct, read_pointer, read_list,
}
use aether_runner.Scheduler.{GpuStats}
use aether_runner.Worker.{WorkerState}
use aether_runner.Wire.{WireWorkerState, Rfc3339, to_wire}
use aether_runner.Wire.Encoding.{write_worker, worker_field, zero_worker}

pub record WireGpuStats : Type 0 where
  pub uuid : String
  pub index : ℤ
  pub total_vram_mb : ℤ
  pub allocated_mb : ℤ
  pub loaded_models : List String
  pub active_workers : List String

-- A worker that came as null is a nil pointer.
pub record HeartbeatPayload : Type 0 where
  pub node_id : String
  pub workers : List (Option WireWorkerState)
  pub gpu_stats : List WireGpuStats

pub record CommandPayload : Type 0 where
  pub command_id : String
  pub command_type : String
  pub target_gpu : String
  pub worker_spec : Option WireWorkerState

pub record AckPayload : Type 0 where
  pub command_id : String
  pub success : Bool
  pub error : String
  pub worker_id : String

unfoldable pub is_empty : {A : Type 0} → List A → Bool
is_empty [] = true
is_empty (x ∷ xs) = false

unfoldable pub write_gpu_stats : WireGpuStats → Json
write_gpu_stats g = object (
    member "uuid" (text g.uuid) (
      member "index" (number g.index) (
        member "total_vram_mb" (number g.total_vram_mb) (
          member "allocated_mb" (number g.allocated_mb) (
            member "loaded_models" (write_list text g.loaded_models)
              (member "active_workers" (write_list text g.active_workers) end))))))

unfoldable pub write_pointer : {A : Type 0} → (A → Json) → Option A → Json
write_pointer write none = null
write_pointer write (some x) = write x

unfoldable pub write_heartbeat : HeartbeatPayload → Json
write_heartbeat p = object (
    member "node_id" (text p.node_id) (
      member "workers" (write_list (write_pointer write_worker) p.workers)
        (omit_if (is_empty p.gpu_stats) "gpu_stats" (write_list write_gpu_stats p.gpu_stats) end)))

unfoldable pub write_command : CommandPayload → Json
write_command p = object (
    member "command_id" (text p.command_id) (
      member "command_type" (text p.command_type) (
        omit_if (p.target_gpu == "") "target_gpu" (text p.target_gpu)
          (omit_nil write_worker "worker_spec" p.worker_spec end))))

unfoldable pub write_ack : AckPayload → Json
write_ack p = object (
    member "command_id" (text p.command_id) (
      member "success" (boolean p.success) (
        omit_if (p.error == "") "error" (text p.error)
          (omit_if (p.worker_id == "") "worker_id" (text p.worker_id) end))))

abbrev pub zero_gpu_stats : WireGpuStats
zero_gpu_stats = record {
  uuid = "";
  index = pos 0;
  total_vram_mb = pos 0;
  allocated_mb = pos 0;
  loaded_models = [];
  active_workers = [];
}

abbrev pub zero_heartbeat : HeartbeatPayload
zero_heartbeat = record { node_id = ""; workers = []; gpu_stats = [] }

abbrev pub zero_command : CommandPayload
zero_command = record { command_id = ""; command_type = ""; target_gpu = ""; worker_spec = none }

abbrev pub zero_ack : AckPayload
zero_ack = record { command_id = ""; success = false; error = ""; worker_id = "" }

unfoldable pub gpu_stats_field : String → Json → WireGpuStats → Option WireGpuStats
gpu_stats_field key value g =
    if same_key key "uuid"
    then read_text value g.uuid >>= (λ x. some (record g { uuid = x }))
    else if same_key key "index"
    then read_int value g.index >>= (λ x. some (record g { index = x }))
    else if same_key key "total_vram_mb"
    then read_int value g.total_vram_mb >>= (λ x. some (record g { total_vram_mb = x }))
    else if same_key key "allocated_mb"
    then read_int value g.allocated_mb >>= (λ x. some (record g { allocated_mb = x }))
    else if same_key key "loaded_models"
    then read_list (λ j. read_text j "") value >>= (λ x. some (record g { loaded_models = x }))
    else if same_key key "active_workers"
    then read_list (λ j. read_text j "") value >>= (λ x. some (record g { active_workers = x }))
    else some g

unfoldable pub read_worker : Json → Option (Option WireWorkerState)
read_worker j = read_pointer (read_struct worker_field) zero_worker j none

unfoldable pub heartbeat_field : String → Json → HeartbeatPayload → Option HeartbeatPayload
heartbeat_field key value p =
    if same_key key "node_id"
    then read_text value p.node_id >>= (λ x. some (record p { node_id = x }))
    else if same_key key "workers"
    then read_list read_worker value >>= (λ x. some (record p { workers = x }))
    else if same_key key "gpu_stats"
    then read_list (λ j. read_struct gpu_stats_field j zero_gpu_stats) value
      >>= (λ x. some (record p { gpu_stats = x }))
    else some p

unfoldable pub command_field : String → Json → CommandPayload → Option CommandPayload
command_field key value p =
    if same_key key "command_id"
    then read_text value p.command_id >>= (λ x. some (record p { command_id = x }))
    else if same_key key "command_type"
    then read_text value p.command_type >>= (λ x. some (record p { command_type = x }))
    else if same_key key "target_gpu"
    then read_text value p.target_gpu >>= (λ x. some (record p { target_gpu = x }))
    else if same_key key "worker_spec"
    then read_pointer (read_struct worker_field) zero_worker value p.worker_spec
      >>= (λ x. some (record p { worker_spec = x }))
    else some p

unfoldable pub ack_field : String → Json → AckPayload → Option AckPayload
ack_field key value p =
    if same_key key "command_id"
    then read_text value p.command_id >>= (λ x. some (record p { command_id = x }))
    else if same_key key "success"
    then read_bool value p.success >>= (λ x. some (record p { success = x }))
    else if same_key key "error"
    then read_text value p.error >>= (λ x. some (record p { error = x }))
    else if same_key key "worker_id"
    then read_text value p.worker_id >>= (λ x. some (record p { worker_id = x }))
    else some p
