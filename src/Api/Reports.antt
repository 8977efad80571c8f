-- ===== src/Api/Reports.antt =====
pub mod Gpus
pub mod Floats
pub mod Workers
pub mod Shown
pub mod Answers
mod Tests
-- pkg/api/handlers.go: the handlers that report on workers, GPUs and the server, and their answers; and
-- `ToJSON` of pkg/orchestrator/state.go.
use aether_runner.Base.{
  ℕ, String, ◌==◌, Bool, true, false, not, ◌&&◌, Option, none, some, List, [], ◌∷◌, ◌⊎◌, inl, inr,
  if◌then◌else◌, ◌>>=◌,
}
use aether_runner.Base.Int.{ℤ, pos}
use aether_runner.Base.Machine.{sub64}
use aether_runner.Base.Clock.{Time, Duration}
use aether_runner.Base.Json.{
  Json, Items, null, boolean, number, text, object, array, nil, cons, end, member, write_list,
  write_items, untyped, set_in,
}
use aether_runner.Worker.{
  WorkerState, WorkerMetrics, get_container_id, update_uptime, refresh_for_json,
}
use aether_runner.Scheduler.{Scheduler, GpuStats, get_gpu_stats}
use aether_runner.Pool.{Ref, Heap, store, WorkerPool, get_worker, list_workers, count}
use aether_runner.Wire.{WireMetrics, WireWorkerState, to_wire_model, to_wire_gpu}
use aether_runner.Wire.Encoding.{write_worker}
use aether_runner.Docker.{Docker, ContainerInfo}
use aether_runner.Api.{System, write}
use aether_runner.Api.Errors.{
  ApiError, Response, literal, with_message, write_error, err_invalid_request, err_worker_not_found,
  err_internal_error,
}

pub record Endpoint : Type 0 where
  pub ip : String
  pub port : ℤ

unfoldable pub write_endpoint : Endpoint → Json
write_endpoint e = object (member "ip" (text e.ip) (member "port" (number e.port) end))

-- `err == nil`
abbrev pub is_nil : Option String → Bool
is_nil none = true
is_nil (some err) = false

abbrev pub answer : Json → Response
answer j = record { status_code = 200; body = some j }

unfoldable pub write_gpu_report : GpuStats → Json
write_gpu_report gpu = object (
    member "uuid" (text gpu.gpu_uuid) (
      member "index" (number gpu.gpu_index) (
        member "total_vram_mb" (number gpu.total_vram_mb) (
          member "allocated_mb" (number gpu.allocated_vram) (
            member "available_mb" (number (sub64 gpu.total_vram_mb gpu.allocated_vram)) (
              member "loaded_models" (write_list text gpu.loaded_models)
                (member "active_workers" (write_list text gpu.active_workers) end)))))))

unfoldable pub handle_list_gpus : Scheduler → Response
handle_list_gpus s = answer (write_list write_gpu_report (get_gpu_stats s.gpus))

-- "Get container info if available"
unfoldable pub endpoint_of : {W : Type 0} → Docker W → W → WorkerState → W × Option Endpoint
endpoint_of docker d w =
    let container_id = get_container_id w in
    if container_id == ""
    then (d, none)
    else (let (d', info) = docker.get_container_info d container_id in
        (
          d',
          elim info [
            | inl err ↦ none
            | inr i ↦
                if not (i.ip_address == "")
                then some (record { ip = i.ip_address; port = i.port })
                else none
          ],
        ))

unfoldable pub add_endpoint : Option Endpoint → Json → Json
add_endpoint none response = response
add_endpoint (some e) response = set_in "endpoint" (write_endpoint e) response

-- `time.Time` as JSON; `none`: its year has more than four digits.
module _ (marshal_time : Time → Option String) where
  unfoldable pub json_metrics : Option WorkerMetrics → Option (Option WireMetrics)
  json_metrics none = some none
  json_metrics (some m) = elim m.last_request_at [
    | none ↦ some (
        some (record {
          uptime_seconds = m.uptime_seconds;
          last_request_at = none;
          total_requests = m.total_requests;
        }))
    | some t ↦ marshal_time t >>= λ s. some (
        some (record {
          uptime_seconds = m.uptime_seconds;
          last_request_at = some s;
          total_requests = m.total_requests;
        }))
  ]

  -- The tags of a `WorkerState` are those of the wire type; the internal fields have none.
  unfoldable pub json_state : WorkerState → Option WireWorkerState
  json_state w = json_metrics w.metrics >>= λ metrics. some (record {
    worker_id = w.worker_id;
    tenant_id = w.tenant_id;
    status = w.status;
    model = elim w.model [ none ↦ none | some m ↦ some (to_wire_model m) ];
    gpu_assignment = elim w.gpu_assignment [ none ↦ none | some g ↦ some (to_wire_gpu g) ];
    metrics = metrics;
  })

  -- "status", "docker", "worker_count" and "timestamp".
  unfoldable pub handle_health_check : {W : Type 0} → Docker W → Time → System W → Response
  handle_health_check docker now s =
      let docker_ok = is_nil (docker.ping s.docker) in
      record {
        status_code = if docker_ok then 200 else 503;
        body = marshal_time now >>= λ timestamp. some (
            object (
              member "status" (text (if docker_ok then "healthy" else "degraded")) (
                member "docker" (boolean docker_ok) (
                  member "worker_count" (number (pos (count s.pool.workers)))
                    (member "timestamp" (text timestamp) end)))));
      }

  module _ (whole_seconds : Duration → ℤ) where
    unfoldable pub to_json : Time → WorkerState → WorkerState × Option Json
    to_json now w =
        let w' = refresh_for_json whole_seconds now w in
        (w', json_state w' >>= λ j. some (write_worker j))

    -- `UpdateUptime` and `ToJSON`, each at its own time.
    unfoldable pub report_worker : Time × Time → WorkerState → WorkerState × Option Json
    report_worker (updated, marshalled) w =
        to_json marshalled (update_uptime whole_seconds updated w)

    -- The loop of `ListWorkers`. A worker that has no JSON leaves a nil map, which is null.
    unfoldable pub report_workers : (Ref → Time × Time) → Heap → List Ref → Heap × List Json
    report_workers times h [] = (h, [])
    report_workers times h (r ∷ refs) =
        let (w, j) = report_worker (times r) (h r) in
        let (h', entries) = report_workers times (store h r w) refs in
        (h', elim j [ none ↦ null | some value ↦ untyped value ] ∷ entries)

    unfoldable pub handle_list_workers :
        {W : Type 0} → (Ref → Time × Time) → String → System W → System W × Response
    handle_list_workers times tenant_id s =
        let (h, entries) =
          report_workers times s.heap (list_workers s.heap s.pool.workers tenant_id) in
        (record s { heap = h }, answer (write_list (λ j. j) entries))

    unfoldable pub handle_get_worker :
        {W : Type 0} → Docker W → Time × Time → String → System W → System W × Response
    handle_get_worker docker times worker_id s =
        if worker_id == ""
        then (s, write_error (with_message err_invalid_request (literal "worker ID is required")))
        else elim (get_worker s.pool worker_id) [
          | none ↦ (s, write_error err_worker_not_found)
          | some r ↦
              let (d, endpoint) = endpoint_of docker s.docker (s.heap r) in
              let (w, j) = report_worker times (s.heap r) in
              let s' = record (write s r w) { docker = d } in
              elim j [
                | none ↦ (
                  s',
                  write_error (
                      with_message err_internal_error (literal "failed to serialize worker state")),
                )
                | some value ↦ (s', answer (add_endpoint endpoint (untyped value)))
              ]
        ]
