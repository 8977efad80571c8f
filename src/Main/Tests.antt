-- ===== src/Main/Tests.antt =====
-- An environment, and the theorems about cmd/aether there.
use aether_runner.Base.{
  ◌≡◌, refl, ℕ, String, ◌==◌, Option, none, some, [], ◌∷◌, arith, if◌then◌else◌, ltb, All, inl, inr,
  List, false, true,
}
use aether_runner.Base.Int.{pos, pos_part, ◌-ℤ◌}
use aether_runner.Base.Clock.{Duration}
use aether_runner.Base.Assoc.{lookup, insert}
use aether_runner.Base.Decimal.{
  itoa, atoi, decimal, read_int, decimal_from, digit_text, read_digits, read_number,
}
use aether_runner.Base.Json.{text, object, member, end, number, set_member}
use aether_runner.Docker.{Docker}
use aether_runner.Docker.Mock.{MockClient, mock_docker, new_mock_client}
use aether_runner.Api.Server.Sanity.{IsSane}
use aether_runner.Main.{
  Environment, load_config, setting, gpu_count, vram_mb, simulated_uuid, setup_simulated_gpus,
  register_gpus, pool_config, start_up, log_event, positive_setting, add_data,
}
use aether_runner.Main.Gpus.{Simulated, registered, setup_simulated_gpus-lookup}
use aether_runner.Main.Startup.{start_up-IsSane}
use aether_runner.Scheduler.{
  new_scheduler, ScheduleResult, schedule, first_candidate, sort_slice, collect, register_gpu,
  classify, available, insert_sorted, is_loaded, more_available, to_result,
}
use aether_runner.Base.Machine.{sub64, wrap}
use aether_runner.Api.{System, CreateWorkerRequest}
use aether_runner.Api.Server.{
  Task, admitted, Steps, here, then_step, admits, enrolls, first, enroll,
}
use aether_runner.Main.Process.{Outside, run_main}
use aether_runner.Main.Shutdown.{Ends, run_main-Ends}

abbrev parse_duration : String → Option Duration
parse_duration s = none

abbrev getenv : Environment
getenv name =
    if name == "AETHER_PORT"
    then "9000"
    else if name == "AETHER_MAX_WORKERS"
    then "12"
    else if name == "AETHER_GPU_COUNT"
    then "2"
    else ""

setup_simulated_gpus-lookup_example :
    (lookup (simulated_uuid 1) (setup_simulated_gpus getenv new_scheduler).gpus ≡ (
      if ltb 1 (pos_part (gpu_count getenv)) then some (registered 1 (vram_mb getenv)) else none))
    × All
        (λ e. Simulated (pos_part (gpu_count getenv)) e.0)
        (setup_simulated_gpus getenv new_scheduler).gpus
setup_simulated_gpus-lookup_example = setup_simulated_gpus-lookup getenv 1 (omega arith)

two_gpus : gpu_count getenv ≡ pos 2
unfolding gpu_count positive_setting atoi read_int
two_gpus = refl

twelve : (load_config parse_duration getenv).max_workers ≡ pos 12
unfolding load_config setting atoi read_int
twelve = refl

printed_port : getenv "AETHER_PORT" ≡ itoa (pos 9000)
unfolding itoa
printed_port = refl

printed_max : getenv "AETHER_MAX_WORKERS" ≡ itoa (pos 12)
unfolding itoa
printed_max = refl

abbrev empty_daemon : MockClient × ℕ
empty_daemon = (new_mock_client, 0)

abbrev daemon : Docker (MockClient × ℕ)
daemon = mock_docker (λ n. decimal n) 0 (record { left = pos 1000000000; ends_first = true })

start_up-IsSane_example :
    IsSane
      (pool_config (load_config parse_duration getenv))
      (start_up parse_duration getenv empty_daemon)
start_up-IsSane_example =
    start_up-IsSane parse_duration getenv empty_daemon (rw twelve (omega arith))

-- An entry of its own replaces the level.
overwritten :
    log_event
      (record { format = λ t. "now"; parse = λ s. inl s })
      0
      "info"
      "startup"
      (("port", number (pos 80)) ∷ ("level", text "x") ∷ [])
    ≡ object (
        member "timestamp" (text "now") (
          member "level"
            (text "x")
            (member "event" (text "startup") (member "port" (number (pos 80)) end))))
unfolding log_event add_data set_member
overwritten = refl

abbrev request : CreateWorkerRequest
request = record { model_image = "llama"; tenant_id = "acme"; model = none; gpu_count = pos 0 }

abbrev first_gpu : ScheduleResult
first_gpu = record {
  gpu_uuid = "GPU-0-simulated";
  gpu_index = pos 0;
  is_warm_start = false;
  available_ram = pos 24000;
}

-- Until the signal comes, one request gets as far as `AddWorker`.
abbrev one_request : System (MockClient × ℕ) → System (MockClient × ℕ)
one_request s = (enroll 5 "w-1" request first_gpu s).0

scheduled :
    (client : MockClient × ℕ)
    → schedule (start_up parse_duration getenv client).scheduler "llama" (pos 8000) ≡ some first_gpu
unfolding schedule start_up first_candidate sort_slice collect setup_simulated_gpus register_gpus
    gpu_count positive_setting atoi register_gpu insert new_scheduler simulated_uuid itoa classify
    available sub64 wrap lookup decimal decimal_from digit_text read_digits read_int read_number
    ◌-ℤ◌ vram_mb insert_sorted is_loaded more_available to_result
scheduled client = refl

reached :
    (client : MockClient × ℕ)
    → (ts : List Task) × Steps daemon
        (record { system = start_up parse_duration getenv client; tasks = [] })
        (record { system = one_request (start_up parse_duration getenv client); tasks = ts })
reached client =
    let s = start_up parse_duration getenv client in
    (
      _,
      then_step {s' = record { system = s; tasks = admitted "w-1" request first_gpu ∷ [] }}
          (then_step here (admits "w-1" request first_gpu (scheduled client) refl refl))
          (enrolls 5 "w-1" request first_gpu [] first (omega arith, omega arith) refl refl),
    )

abbrev outside : Outside (MockClient × ℕ)
outside = record {
  new_client = inr empty_daemon;
  listen_and_serve = none;
  shutdown = some "context deadline exceeded";
}

run_main-Ends_example :
    Ends daemon outside
      (pos_part (gpu_count getenv))
      (λ client. one_request (start_up parse_duration getenv client))
      (run_main (λ d. "5m0s") parse_duration getenv daemon outside one_request)
run_main-Ends_example =
    run_main-Ends (λ d. "5m0s") parse_duration getenv daemon outside one_request reached
