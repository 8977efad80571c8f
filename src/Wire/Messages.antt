-- ===== src/Wire/Messages.antt =====
pub mod RoundTrip
-- pkg/orchestrator/wire.go: the messages between the control plane and a node agent, their
-- constructors and their parsers. A payload is the JSON value that its bytes stand for; `none` is no
-- bytes, as in a message that came without a payload.
use aether_runner.Base.{
  String, ◌==◌, Bool, true, false, not, Option, none, some, List, [], ◌∷◌, map, ◌⊎◌, inl, inr,
  if◌then◌else◌, ◌>>=◌,
}
use aether_runner.Base.Int.{ℤ, pos}
use aether_runner.Base.Clock.{Time, Duration}
use aether_runner.Base.Json.{
  Json, null, boolean, number, text, object, end, member, omit_if, omit_nil, same_key, write_list,
  read_text, read_bool, read_int, read_struct, read_pointer, read_list,
}
use aether_runner.Scheduler.{GpuStats}
use aether_runner.Worker.{WorkerState}
use aether_runner.Wire.{WireWorkerState, Rfc3339, to_wire}
use aether_runner.Wire.Encoding.{write_worker, worker_field, zero_worker}
use aether_runner.Wire.Payloads.{
  WireGpuStats, HeartbeatPayload, CommandPayload, AckPayload, write_heartbeat, write_command,
  write_ack, heartbeat_field, command_field, ack_field, zero_heartbeat, zero_command, zero_ack,
}

-- `MessageType` and its constants.
abbrev pub heartbeat : String
heartbeat = "HEARTBEAT"

abbrev pub command : String
command = "COMMAND"

abbrev pub ack : String
ack = "ACK"

pub record WireMessage : Type 0 where
  pub type : String
  pub timestamp : String
  pub payload : Option Json

-- The errors of the parsers: of another type than expected, or with a payload that does not read.
pub data ParseError : Type 0 where
  wrong_type : String → String → ParseError
  bad_payload : ParseError

unfoldable pub to_gpu_stats : GpuStats → WireGpuStats
to_gpu_stats g = record {
  uuid = g.gpu_uuid;
  index = g.gpu_index;
  total_vram_mb = g.total_vram_mb;
  allocated_mb = g.allocated_vram;
  loaded_models = g.loaded_models;
  active_workers = g.active_workers;
}

module _ (clock : Rfc3339) where
  unfoldable pub new_heartbeat_message :
      (Duration → ℤ) → Time → String → List WorkerState → List GpuStats → WireMessage
  new_heartbeat_message whole_seconds now node_id workers gpu_stats = record {
    type = heartbeat;
    timestamp = clock.format now;
    payload = some (
        write_heartbeat (record {
          node_id = node_id;
          workers = map (λ w. some (to_wire clock whole_seconds now w)) workers;
          gpu_stats = map to_gpu_stats gpu_stats;
        }));
  }

  unfoldable pub new_command_message :
      Time → String → String → String → Option WireWorkerState → WireMessage
  new_command_message now command_id cmd_type target_gpu spec = record {
    type = command;
    timestamp = clock.format now;
    payload = some (
        write_command (record {
          command_id = command_id;
          command_type = cmd_type;
          target_gpu = target_gpu;
          worker_spec = spec;
        }));
  }

  unfoldable pub new_ack_message : Time → String → Bool → String → String → WireMessage
  new_ack_message now command_id success error_msg worker_id = record {
    type = ack;
    timestamp = clock.format now;
    payload = some (
        write_ack (record {
          command_id = command_id;
          success = success;
          error = error_msg;
          worker_id = worker_id;
        }));
  }

-- `json.Unmarshal` into a new zero value: no bytes are an error.
unfoldable pub unmarshal :
    {A : Type 0} → (String → Json → A → Option A) → A → Option Json → ParseError ⊎ A
unmarshal into zero_value none = inl bad_payload
unmarshal into zero_value (some j) = elim (read_struct into j zero_value) [
  | none ↦ inl bad_payload
  | some x ↦ inr x
]

unfoldable pub parse_heartbeat : WireMessage → ParseError ⊎ HeartbeatPayload
parse_heartbeat m =
    if not (m.type == heartbeat)
    then inl (wrong_type m.type heartbeat)
    else unmarshal heartbeat_field zero_heartbeat m.payload

unfoldable pub parse_command : WireMessage → ParseError ⊎ CommandPayload
parse_command m =
    if not (m.type == command)
    then inl (wrong_type m.type command)
    else unmarshal command_field zero_command m.payload

unfoldable pub parse_ack : WireMessage → ParseError ⊎ AckPayload
parse_ack m =
    if not (m.type == ack)
    then inl (wrong_type m.type ack)
    else unmarshal ack_field zero_ack m.payload
