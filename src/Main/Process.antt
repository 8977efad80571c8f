-- ===== src/Main/Process.antt =====
-- `main` of cmd/aether/main.go from its first line to its end. What it calls outside is in `Outside`;
-- what requests, goroutines and idle checks make of the system until a signal comes is a function.
-- The goroutine that listens is taken to have begun before the signal. Cancelling the idle checker and
-- closing the client leave the system as it is.
use aether_runner.Base.{
  String, Option, none, some, List, [], ◌∷◌, ◌++◌, ◌⊎◌, inl, inr, ℕ, zero, suc,
}
use aether_runner.Base.Int.{ℤ, pos, pos_part}
use aether_runner.Base.Clock.{Duration}
use aether_runner.Base.Json.{Json, text, number}
use aether_runner.Pool.{stop}
use aether_runner.Docker.{Docker}
use aether_runner.Api.{System}
use aether_runner.Main.{
  Config, Environment, load_config, server_address, start_up, simulated_uuid, gpu_count, vram_mb,
}

-- The arguments of one `logEvent`.
pub record LogLine : Type 0 where
  pub level : String
  pub event : String
  pub fields : List (String × Json)

pub data Ending : Type 0 where
  exits : ℕ → Ending
  panics : Ending
  returns : Ending

-- The fields of the `http.Server` that `main` sets.
pub record HttpServer : Type 0 where
  pub addr : String
  pub read_timeout : Duration
  pub write_timeout : Duration
  pub idle_timeout : Duration

-- What `main` prints, how it ends, and the system at its end, once there is one.
pub record Run (W : Type 0) : Type 0 where
  pub lines : List LogLine
  pub ending : Ending
  pub system : Option (System W)

-- The answers of `docker.NewClient`, of `ListenAndServe`, `none` for `ErrServerClosed`, and of
-- `Shutdown`.
pub record Outside (W : Type 0) : Type 0 where
  pub new_client : String ⊎ W
  pub listen_and_serve : Option String
  pub shutdown : Option String

abbrev pub plain_line : String → String → LogLine
plain_line level event = record { level = level; event = event; fields = [] }

abbrev pub error_line : String → String → LogLine
error_line event err = record { level = "error"; event = event; fields = ("error", text err) ∷ [] }

unfoldable pub http_server : Config → HttpServer
http_server config = record {
  addr = server_address config;
  read_timeout = pos 30000000000;
  write_timeout = pos 30000000000;
  idle_timeout = pos 60000000000;
}

-- `String()` of a duration is a parameter.
unfoldable pub startup_line : (Duration → String) → Config → LogLine
startup_line duration_text config = record {
  level = "info";
  event = "startup";
  fields =
      ("port", number config.port)
      ∷ ("idle_timeout", text (duration_text config.idle_timeout))
      ∷ ("max_workers", number config.max_workers)
      ∷ [];
}

abbrev pub shutdown_lines : Option String → List LogLine
shutdown_lines none = []
shutdown_lines (some err) = error_line "shutdown_error" err ∷ []

-- What `setupSimulatedGPUs` logs, a line in each round of its loop.
unfoldable pub gpu_lines : ℕ → ℕ → ℤ → List LogLine
gpu_lines zero i vram = []
gpu_lines (suc rounds) i vram =
    record {
      level = "info";
      event = "gpu_registered";
      fields =
          ("uuid", text (simulated_uuid i))
          ∷ ("index", number (pos i))
          ∷ ("vram_mb", number vram)
          ∷ [];
    }
    ∷ gpu_lines rounds (suc i) vram

module _ {W : Type 0} where
  -- From the signal on. Stopping a pool that is stopped panics.
  unfoldable pub shut_down : Option String → System W → Run W
  shut_down shutdown s =
      let lines = plain_line "info" "shutdown_initiated" ∷ shutdown_lines shutdown in
      elim (stop s.pool) [
        | none ↦ record { lines = lines; ending = panics; system = some s }
        | some pool ↦ record {
          lines = lines ++ plain_line "info" "shutdown_complete" ∷ [];
          ending = returns;
          system = some (record s { pool = pool });
        }
      ]

  -- What the goroutine that listens comes to: it ends the process, or the signal does.
  unfoldable pub listen : Outside W → HttpServer → System W → Run W
  listen outside server s =
      let started : LogLine = record {
        level = "info";
        event = "server_started";
        fields = ("address", text server.addr) ∷ [];
      } in
      elim outside.listen_and_serve [
        | some err ↦ record {
          lines = started ∷ error_line "server_error" err ∷ [];
          ending = exits 1;
          system = some s;
        }
        | none ↦
            let rest = shut_down outside.shutdown s in record rest { lines = started ∷ rest.lines }
      ]

  module _ (duration_text : Duration → String) (parse_duration : String → Option Duration)
      (getenv : Environment) (docker : Docker W) (outside : Outside W)
      (served : System W → System W) where
    -- From the client on, which a ping tries out.
    unfoldable pub run_with : W → Run W
    run_with client = elim (docker.ping client) [
      | some err ↦ record {
        lines = error_line "docker_ping_failed" err ∷ [];
        ending = exits 1;
        system = none;
      }
      | none ↦
          let config = load_config parse_duration getenv in
          let rest =
            listen outside (http_server config) (served (start_up parse_duration getenv client)) in
          record rest {
            lines =
                plain_line "info" "docker_connected"
                  ∷ gpu_lines (pos_part (gpu_count getenv)) 0 (vram_mb getenv)
                ++ rest.lines;
          }
    ]

    unfoldable pub run_main : Run W
    run_main =
        let rest : Run W = elim outside.new_client [
          | inl err ↦ record {
            lines = error_line "docker_init_failed" err ∷ [];
            ending = exits 1;
            system = none;
          }
          | inr client ↦ run_with client
        ] in
        record rest {
          lines = startup_line duration_text (load_config parse_duration getenv) ∷ rest.lines;
        }
