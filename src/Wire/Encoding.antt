-- ===== src/Wire/Encoding.antt =====
pub mod RoundTrip
-- pkg/orchestrator/wire.go: the worker as JSON, by the tags of its wire types.
use aether_runner.Base.{String, ◌==◌, Bool, true, false, Option, none, some, if◌then◌else◌, ◌>>=◌}
use aether_runner.Base.Int.{ℤ, pos}
use aether_runner.Base.Json.{
  Json, Members, null, number, text, object, end, member, omit_if, omit_nil, same_key, read_text,
  read_int, read_struct, read_pointer,
}
use aether_runner.Wire.{WireModel, WireGpu, WireMetrics, WireWorkerState}

unfoldable pub write_model : WireModel → Json
write_model m = object (
    member "name" (text m.name) (
      omit_if (m.version == "") "version" (text m.version)
        (member "vram_requirement_mb" (number m.vram_requirement) end)))

unfoldable pub write_gpu : WireGpu → Json
write_gpu g = object (
    member "index" (number g.index) (
      member "uuid" (text g.uuid)
        (member "memory_allocated_mb" (number g.memory_allocated_mb) end)))

unfoldable pub write_metrics : WireMetrics → Json
write_metrics m = object (
    member "uptime_seconds" (number m.uptime_seconds) (
      omit_nil text "last_request_at" m.last_request_at
        (member "total_requests" (number m.total_requests) end)))

unfoldable pub write_worker : WireWorkerState → Json
write_worker w = object (
    member "worker_id" (text w.worker_id) (
      member "tenant_id" (text w.tenant_id) (
        member "status" (text w.status) (
          omit_nil write_model "model" w.model (
            omit_nil write_gpu "gpu_assignment" w.gpu_assignment
              (omit_nil write_metrics "metrics" w.metrics end))))))

abbrev pub zero_model : WireModel
zero_model = record { name = ""; version = ""; vram_requirement = pos 0 }

abbrev pub zero_gpu : WireGpu
zero_gpu = record { index = pos 0; uuid = ""; memory_allocated_mb = pos 0 }

abbrev pub zero_wire_metrics : WireMetrics
zero_wire_metrics = record {
  uptime_seconds = pos 0;
  last_request_at = none;
  total_requests = pos 0;
}

abbrev pub zero_worker : WireWorkerState
zero_worker = record {
  worker_id = "";
  tenant_id = "";
  status = "";
  model = none;
  gpu_assignment = none;
  metrics = none;
}

-- One member into the field that its key names; another is passed over.
unfoldable pub model_field : String → Json → WireModel → Option WireModel
model_field key value m =
    if same_key key "name"
    then read_text value m.name >>= (λ x. some (record m { name = x }))
    else if same_key key "version"
    then read_text value m.version >>= (λ x. some (record m { version = x }))
    else if same_key key "vram_requirement_mb"
    then read_int value m.vram_requirement >>= (λ x. some (record m { vram_requirement = x }))
    else some m

unfoldable pub gpu_field : String → Json → WireGpu → Option WireGpu
gpu_field key value g =
    if same_key key "index"
    then read_int value g.index >>= (λ x. some (record g { index = x }))
    else if same_key key "uuid"
    then read_text value g.uuid >>= (λ x. some (record g { uuid = x }))
    else if same_key key "memory_allocated_mb"
    then read_int value g.memory_allocated_mb >>= (λ x. some (record g { memory_allocated_mb = x }))
    else some g

unfoldable pub metrics_field : String → Json → WireMetrics → Option WireMetrics
metrics_field key value m =
    if same_key key "uptime_seconds"
    then read_int value m.uptime_seconds >>= (λ x. some (record m { uptime_seconds = x }))
    else if same_key key "last_request_at"
    then read_pointer read_text "" value m.last_request_at
      >>= (λ x. some (record m { last_request_at = x }))
    else if same_key key "total_requests"
    then read_int value m.total_requests >>= (λ x. some (record m { total_requests = x }))
    else some m

unfoldable pub worker_field : String → Json → WireWorkerState → Option WireWorkerState
worker_field key value w =
    if same_key key "worker_id"
    then read_text value w.worker_id >>= (λ x. some (record w { worker_id = x }))
    else if same_key key "tenant_id"
    then read_text value w.tenant_id >>= (λ x. some (record w { tenant_id = x }))
    else if same_key key "status"
    then read_text value w.status >>= (λ x. some (record w { status = x }))
    else if same_key key "model"
    then read_pointer (read_struct model_field) zero_model value w.model
      >>= (λ x. some (record w { model = x }))
    else if same_key key "gpu_assignment"
    then read_pointer (read_struct gpu_field) zero_gpu value w.gpu_assignment
      >>= (λ x. some (record w { gpu_assignment = x }))
    else if same_key key "metrics"
    then read_pointer (read_struct metrics_field) zero_wire_metrics value w.metrics
      >>= (λ x. some (record w { metrics = x }))
    else some w
