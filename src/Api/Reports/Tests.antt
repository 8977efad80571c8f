-- ===== src/Api/Reports/Tests.antt =====
-- A server with one worker, and the theorems about the reports of the API there.
use Prim.Native.Nat.{◌/◌}
use aether_runner.Base.{
  ◌≡◌, ◌≢◌, ◌↔◌, ◌∙◌, ap, Memᴰ, refl, ℕ, String, Option, none, some, List, [], ◌∷◌, arith, text_ne,
  map,
}
use aether_runner.Base.Int.{ℤ, pos, pos_part}
use aether_runner.Base.Clock.{Time, Duration, time_sub}
use aether_runner.Base.Assoc.{lookup}
use aether_runner.Base.Json.{Json, read_struct, write_list, float64, float_at, nearest}
use aether_runner.Pool.{Ref, get_worker}
use aether_runner.Scheduler.{has_available_gpu}
use aether_runner.Worker.{WorkerMetrics, zero_metrics, status_pending}
use aether_runner.Wire.{WireWorkerState}
use aether_runner.Wire.Encoding.{worker_field, zero_worker}
use aether_runner.Api.{System}
use aether_runner.Api.Errors.{write_error, with_message}
use aether_runner.Api.Tests.{daemon, server, empty_pool}
use aether_runner.Api.Reports.{handle_get_worker, handle_list_workers, handle_list_gpus}
use aether_runner.Api.Reports.Gpus.{any_entry, reports_room, handle_list_gpus-has_available_gpu}
use aether_runner.Api.Reports.Workers.{read_worker_entry}
use aether_runner.Api.Reports.Shown.{Shown}
use aether_runner.Api.Reports.Answers.{handle_get_worker-Shown, handle_list_workers-Shown}
use aether_runner.Pool.Queries.{Belongs}

abbrev marshal_time : Time → Option String
marshal_time t = some "a time"

abbrev seconds : Duration → ℤ
seconds d = pos (pos_part d / 1000000000)

abbrev busy : System ℕ
busy = record server { pool = record empty_pool { workers = ("w-0", 0) ∷ [] } }

abbrev entry : WireWorkerState
entry = record {
  worker_id = "w-0";
  tenant_id = "acme";
  status = status_pending;
  model = none;
  gpu_assignment = none;
  metrics =
      some (record { uptime_seconds = pos 2; last_request_at = none; total_requests = pos 0 });
}

abbrev times : Time × Time
times = (1000001000, 2000001000)

entry-Shown : Shown marshal_time seconds 2000001000 (busy.heap 0) entry
unfolding time_sub
entry-Shown = record {
  worker_id = refl;
  tenant_id = refl;
  status = refl;
  no_model = λ e. refl;
  model = λ m e. let bad : none ≡ some m = e in cc;
  no_gpu = λ e. refl;
  gpu = λ g e. let bad : none ≡ some g = e in cc;
  metrics = (
    record { uptime_seconds = pos 2; last_request_at = none; total_requests = pos 0 },
    refl,
    record {
      uptime_seconds = refl;
      no_metrics = λ e. (refl, refl);
      total = λ m e. let same : zero_metrics ≡ m = cc in rw (← same) refl;
      no_request = λ m e q. refl;
      request = λ m t e q.
          let same : zero_metrics ≡ m = cc in
          let bad : none ≡ some t = ap (λ (x : WorkerMetrics). x.last_request_at) same ∙ q in cc;
    },
  );
}

found : get_worker busy.pool "w-0" ≡ some 0
unfolding get_worker lookup
found = refl

handle_get_worker-Shown_example :
    let (s', response) =
      handle_get_worker marshal_time seconds daemon (1000001000, 2000001000) "w-0" busy in
    (response.status_code ≡ 200)
    × ((body : Json) × (response.body ≡ some body)
        × (read_struct worker_field body zero_worker ≡ some entry))
    × ((q : Ref) → q ≢ 0 → s'.heap q ≡ busy.heap q)
    × ((m : WorkerMetrics) × (s'.heap 0 ≡ record (busy.heap 0) { metrics = some m }))
    × (s'.pool ≡ busy.pool)
    × (s'.scheduler ≡ busy.scheduler)
handle_get_worker-Shown_example =
    handle_get_worker-Shown marshal_time seconds daemon 1000001000 2000001000 "w-0" busy 0 entry
      (text_ne "w-0" "" refl) found entry-Shown (omega arith)

handle_list_workers-Shown_example :
    let response = (handle_list_workers marshal_time seconds (λ r. times) "acme" busy).1 in
    (response.status_code ≡ 200)
    × ((entries : List Json) × (refs : List Ref) × (response.body
          ≡ some (write_list (λ j. j) entries))
        × (map read_worker_entry entries ≡ map (λ r. some entry) refs)
        × ((r : Ref)
            → Memᴰ r refs
              ↔ (((id : String) × Memᴰ (id, r) busy.pool.workers) × Belongs busy.heap "acme" r)))
handle_list_workers-Shown_example =
    handle_list_workers-Shown marshal_time seconds (λ r. times) "acme" busy (λ r. entry)
      (λ id r m b. (entry-Shown, omega arith))

handle_list_gpus-has_available_gpu_example :
    any_entry (reports_room (pos 24000)) (handle_list_gpus server.scheduler).body
    ≡ has_available_gpu server.scheduler.gpus (pos 24000)
handle_list_gpus-has_available_gpu_example =
    handle_list_gpus-has_available_gpu server.scheduler (pos 24000)

-- A part of 2 ^ 53 + 1 has no float64.
rounded : float64 (pos 9007199254740993) ≡ pos 9007199254740992
unfolding float64 float_at nearest
rounded = refl

not_named : (handle_get_worker marshal_time seconds daemon times "" busy).1.status_code ≡ 400
unfolding handle_get_worker write_error with_message
not_named = refl

unknown : (handle_get_worker marshal_time seconds daemon times "w-1" busy).1.status_code ≡ 404
unfolding handle_get_worker write_error get_worker lookup
unknown = refl
