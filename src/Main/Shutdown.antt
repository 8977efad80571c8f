-- ===== src/Main/Shutdown.antt =====
-- How a run of `main` of cmd/aether/main.go ends.
use aether_runner.Base.{
  ◌≡◌, refl, ap, String, true, false, Option, none, some, List, [], ◌∷◌, ◌++◌, inl, inr, map,
  outcome, Option-cases, ◌∙◌, ℕ, zero, suc,
}
use aether_runner.Base.Clock.{Duration}
use aether_runner.Pool.{stop, new_worker_pool}
use aether_runner.Docker.{Docker}
use aether_runner.Api.{System}
use aether_runner.Api.Server.{Steps, Task}
use aether_runner.Api.Server.Running.{Steps-stopped}
use aether_runner.Base.Int.{ℤ, pos_part}
use aether_runner.Main.{Environment, start_up, gpu_count, vram_mb}
use aether_runner.Main.Process.{
  gpu_lines, plain_line, LogLine, exits, returns, Run, Outside, startup_line, shutdown_lines,
  shut_down, listen, run_with, run_main,
}

abbrev pub events : List LogLine → List String
events lines = map (λ (l : LogLine). l.event) lines

last_events :
    (err : Option String)
    → events (shutdown_lines err ++ plain_line "info" "shutdown_complete" ∷ [])
      ≡ events (shutdown_lines err) ++ "shutdown_complete" ∷ []
last_events none = refl
last_events (some err) = refl

-- One event for each GPU, and then others.
abbrev pub then_gpus : ℕ → List String → List String
then_gpus zero es = es
then_gpus (suc n) es = "gpu_registered" ∷ then_gpus n es

events-gpu_lines :
    (n i : ℕ) (vram : ℤ) (lines : List LogLine)
    → events (gpu_lines n i vram ++ lines) ≡ then_gpus n (events lines)
unfolding gpu_lines
events-gpu_lines zero i vram lines = refl
events-gpu_lines (suc n) i vram lines =
    ap (λ es. "gpu_registered" ∷ es) (events-gpu_lines n (suc i) vram lines)

-- The ways in which a run ends, with the events that it logs.
pub data Ends {W : Type 0} (docker : Docker W) (outside : Outside W) (gpus : ℕ)
    (served : W → System W) (run : Run W) : Type 0 where
  no_client :
      (err : String)
      → outside.new_client ≡ inl err
      → run.ending ≡ exits 1
      → events run.lines ≡ "startup" ∷ "docker_init_failed" ∷ []
      → Ends docker outside gpus served run
  no_daemon :
      (client : W) (err : String)
      → outside.new_client ≡ inr client
      → docker.ping client ≡ some err
      → run.ending ≡ exits 1
      → events run.lines ≡ "startup" ∷ "docker_ping_failed" ∷ []
      → Ends docker outside gpus served run
  no_listener :
      (client : W) (err : String)
      → outside.new_client ≡ inr client
      → docker.ping client ≡ none
      → outside.listen_and_serve ≡ some err
      → run.ending ≡ exits 1
      → events run.lines
        ≡ "startup" ∷ "docker_connected" ∷ then_gpus gpus ("server_started" ∷ "server_error" ∷ [])
      → Ends docker outside gpus served run
  shut :
      (client : W)
      → outside.new_client ≡ inr client
      → docker.ping client ≡ none
      → outside.listen_and_serve ≡ none
      → run.ending ≡ returns
      → events run.lines
        ≡ "startup"
          ∷ "docker_connected"
          ∷ then_gpus gpus (
              "server_started" ∷ "shutdown_initiated" ∷ events (shutdown_lines outside.shutdown)
              ++ "shutdown_complete" ∷ [])
      → run.system
        ≡ some (record (served client) { pool = record (served client).pool { stopped = true } })
      → Ends docker outside gpus served run

module _ {W : Type 0} (duration_text : Duration → String)
    (parse_duration : String → Option Duration) (getenv : Environment) (docker : Docker W)
    (outside : Outside W) (served : System W → System W) where
  abbrev began : W → System W
  began client = start_up parse_duration getenv client

  with_gpus :
      (lines : List LogLine)
      → events (gpu_lines (pos_part (gpu_count getenv)) 0 (vram_mb getenv) ++ lines)
        ≡ then_gpus (pos_part (gpu_count getenv)) (events lines)
  with_gpus lines = events-gpu_lines (pos_part (gpu_count getenv)) 0 (vram_mb getenv) lines

  -- If what is served is steps of the server, a run of main ends in one of four ways: with status 1 when there is no Docker client, no daemon that answers or no port to listen on, and otherwise by returning with the pool stopped. It never panics, and each way logs its own events in this order, with one for each simulated GPU between those of the client and of the listener.
  pub run_main-Ends :
      ((client : W)
        → (ts : List Task) × Steps docker
            (record { system = began client; tasks = [] })
            (record { system = served (began client); tasks = ts }))
      → Ends docker outside
          (pos_part (gpu_count getenv))
          (λ client. served (began client))
          (run_main duration_text parse_duration getenv docker outside served)
  unfolding run_main run_with listen shut_down stop start_up new_worker_pool startup_line
  run_main-Ends reached = elim (outcome outside.new_client) [
    | inl (err, e) ↦ no_client err e (rw (e, run_main) refl) (rw (e, run_main) refl)
    | inr (client, e) ↦ elim (Option-cases (docker.ping client)) [
      | inr (err, p) ↦
          no_daemon client err e p (rw (e, p, run_main, run_with) refl)
            (rw (e, p, run_main, run_with) refl)
      | inl p ↦ elim (Option-cases outside.listen_and_serve) [
        | inr (err, l) ↦
            no_listener client err e p l (rw (e, p, l, run_main, run_with, listen) refl) (
              rw (e, p, l, run_main, run_with, listen)
                (ap (λ es. "startup" ∷ "docker_connected" ∷ es) (with_gpus _)))
        | inl l ↦
            let going : (served (began client)).pool.stopped ≡ false =
              Steps-stopped docker (reached client).1 in
            shut client e p l
              (rw (e, p, l, going, run_main, run_with, listen, shut_down, stop) refl)
              (rw (e, p, l, going, run_main, run_with, listen, shut_down, stop)
                (ap (λ es. "startup" ∷ "docker_connected" ∷ es)
                  (with_gpus _
                    ∙ ap
                        (λ es.
                          then_gpus (pos_part (gpu_count getenv))
                            ("server_started" ∷ "shutdown_initiated" ∷ es))
                        (last_events outside.shutdown))))
              (rw (e, p, l, going, run_main, run_with, listen, shut_down, stop) refl)
      ]
    ]
  ]
