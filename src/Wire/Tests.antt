-- ===== src/Wire/Tests.antt =====
-- A worker on its way over the wire, and the theorems about wire.go there.
use Prim.Native.Nat.{◌/◌, ◌*◌}
use aether_runner.Base.{
  ℕ, zero, suc, ◌≡◌, ◌+◌, ◌≤◌, refl, ap, ◌≢◌, ◌⊎◌, inr, ◌↔◌, String, true, false, none, some, [],
  ◌∷◌, length, arith, Memᴰ, text_ne, map, inl,
}
use aether_runner.Base.Int.{ℤ, pos, pos_part}
use aether_runner.Base.Clock.{Duration, time_sub}
use aether_runner.Worker.{
  WorkerState, status_pending, status_starting, status_running, status_idle, status_terminating,
}
use aether_runner.Base.Decimal.{runes}
use aether_runner.Wire.{
  Rfc3339, WireWorkerState, is_hex, hex_run, dash, group, match_uuid, at_end, validate_uuid,
  validate, from_wire, to_wire, tenant_id_required, to_wire_metrics, to_wire_model,
}
use aether_runner.Wire.Uuid.{IsUuid, validate_uuid-IsUuid}
use aether_runner.Wire.Schema.{Conforms, validate-Conforms}
use aether_runner.Wire.Exchange.{SameIdentity, from_wire_lem}
use aether_runner.Wire.Delivery.{ReadsBack, Sendable, delivered, from_wire-to_wire}
use aether_runner.Scheduler.{GpuStats}
use aether_runner.Base.Machine.{InRange}
use aether_runner.Base.Json.{
  object, member, end, text, null, real, number, read_struct, read_members, same_key, read_text,
  read_bool,
}
use aether_runner.Wire.Encoding.RoundTrip.{WorkerFits}
use aether_runner.Wire.Payloads.{HeartbeatPayload, ack_field}
use aether_runner.Wire.Messages.{
  new_heartbeat_message, new_ack_message, parse_heartbeat, parse_command, parse_ack, unmarshal,
  to_gpu_stats, bad_payload,
}
use aether_runner.Wire.Messages.RoundTrip.{
  accepted, accepted_once, parse_ack-new_ack_message, heartbeat_arrives,
}

abbrev id : String
id = "550e8400-e29b-41d4-A716-446655440000"

id_accepted : validate_uuid id ≡ true
unfolding validate_uuid match_uuid group hex_run dash is_hex at_end
id_accepted = refl

too_long_refused : validate_uuid "550e8400-e29b-41d4-a716-4466554400000" ≡ false
unfolding validate_uuid match_uuid group hex_run dash is_hex at_end
too_long_refused = refl

validate_uuid-IsUuid_example : (validate_uuid id ≡ true) ↔ IsUuid id
validate_uuid-IsUuid_example = validate_uuid-IsUuid id

-- A clock's texts that count the seconds in strokes.
abbrev strokes : ℕ → String
strokes zero = String.[]
strokes (suc n) = String.◌∷◌ "x" (strokes n)

count_strokes : (n : ℕ) → length (runes (strokes n)) ≡ n
count_strokes zero = refl
count_strokes (suc n) = ap suc (count_strokes n)

abbrev clock : Rfc3339
clock = record {
  format = λ t. strokes (t / 1000000000);
  parse = λ s. inr (length (runes s) * 1000000000);
}

clock-ReadsBack : ReadsBack clock
clock-ReadsBack t _ = ap (λ n. inr (n * 1000000000)) (count_strokes (t / 1000000000))

abbrev seconds : Duration → ℤ
seconds d = pos (pos_part d / 1000000000)

abbrev sender : WorkerState
sender = record {
  worker_id = id;
  tenant_id = "acme";
  status = status_running;
  model = some (record { name = "llama"; version = "3"; vram_requirement = pos 8000 });
  gpu_assignment = none;
  metrics = some (record {
    uptime_seconds = pos 0;
    last_request_at = some 3500000000;
    total_requests = pos 7;
  });
  container_id = "c-1";
  created_at = 1000000000;
  updated_at = 1000000000;
  last_heartbeat = 0;
}

abbrev receiver : WorkerState
receiver = record sender { status = status_terminating; model = none; metrics = none }

abbrev message : WireWorkerState
message = record {
  worker_id = id;
  tenant_id = "acme";
  status = status_running;
  model = some (record { name = "llama"; version = "3"; vram_requirement = pos 8000 });
  gpu_assignment = none;
  metrics = none;
}

validate-Conforms_example : (validate clock message ≡ none) ↔ Conforms clock message
validate-Conforms_example = validate-Conforms clock message

-- The first check that fails names the error.
no_tenant :
    validate clock (record message { tenant_id = ""; status = "" }) ≡ some tenant_id_required
unfolding validate validate_uuid match_uuid group hex_run dash is_hex at_end
no_tenant = refl

running-listed :
    Memᴰ status_running
      (status_pending ∷ status_starting ∷ status_running ∷ status_idle ∷ status_terminating ∷ [])
running-listed = Memᴰ.tail (Memᴰ.tail (Memᴰ.head refl))

sender-Sendable : Sendable sender
sender-Sendable = record {
  worker_id = (validate_uuid-IsUuid id).0 id_accepted;
  tenant_id = text_ne "acme" "" refl;
  status = running-listed;
  model = (text_ne "llama" "" refl, omega arith);
  metrics = omega arith;
}

message-Conforms : Conforms clock message
message-Conforms = record {
  worker_id = (validate_uuid-IsUuid id).0 id_accepted;
  tenant_id = text_ne "acme" "" refl;
  status = running-listed;
  model = (text_ne "llama" "" refl, omega arith);
  metrics = tt;
}

from_wire_lem_example :
    let (w', e) = from_wire clock 9000000000 receiver (some message) in
    (((wire : WireWorkerState) × (some message ≡ some wire)
        × Conforms clock wire
        × (e ≡ none)
        × (w'.status ≡ wire.status)
        × (w'.updated_at ≡ 9000000000))
      ⊎ (((wire : WireWorkerState) → some message ≡ some wire → ¬ Conforms clock wire)
          × (e ≢ none)
          × (w' ≡ receiver)))
    × SameIdentity receiver w'
from_wire_lem_example = from_wire_lem clock 9000000000 receiver (some message)

from_wire-to_wire_example :
    from_wire clock 9000000000 receiver (some (to_wire clock seconds 8000000000 sender))
    ≡ (delivered 9000000000 receiver sender, none)
from_wire-to_wire_example =
    from_wire-to_wire clock seconds clock-ReadsBack 8000000000 9000000000 receiver sender
      sender-Sendable

abbrev gpu_report : GpuStats
gpu_report = record {
  gpu_uuid = "GPU-1";
  gpu_index = pos 0;
  total_vram_mb = pos 24000;
  allocated_vram = pos 8000;
  loaded_models = "llama" ∷ [];
  active_workers = id ∷ [];
}

seconds_fit : InRange (seconds (pos 7000000000)) × InRange (pos 7)
seconds_fit = omega arith

sender_fits : WorkerFits (to_wire clock seconds 8000000000 sender)
unfolding to_wire to_wire_metrics to_wire_model time_sub
sender_fits = (omega arith, tt, seconds_fit)

heartbeat_arrives_example :
    (p : HeartbeatPayload) × (parse_heartbeat
        (new_heartbeat_message clock seconds 8000000000 "node-1" (sender ∷ []) (gpu_report ∷ []))
      ≡ inr p)
    × (p.node_id ≡ "node-1")
    × (p.gpu_stats ≡ to_gpu_stats gpu_report ∷ [])
    × (map (from_wire clock 9000000000 receiver) p.workers
        ≡ (delivered 9000000000 receiver sender, none) ∷ [])
heartbeat_arrives_example =
    heartbeat_arrives clock seconds clock-ReadsBack 8000000000 9000000000 receiver "node-1"
      (sender ∷ []) (gpu_report ∷ []) (sender-Sendable, tt) (sender_fits, tt) (omega arith, tt)

parse_ack-new_ack_message_example :
    parse_ack (new_ack_message clock 0 "cmd-1" false "no GPU" "")
    ≡ inr (record { command_id = "cmd-1"; success = false; error = "no GPU"; worker_id = "" })
parse_ack-new_ack_message_example = parse_ack-new_ack_message clock 0 "cmd-1" false "no GPU" ""

accepted_once_example :
    let m = new_ack_message clock 0 "cmd-1" true "" id in
    accepted (parse_heartbeat m) + accepted (parse_command m) + accepted (parse_ack m) ≤ 1
accepted_once_example = accepted_once (new_ack_message clock 0 "cmd-1" true "" id)

-- Keys in any case, a null, and one that no field has.
lenient :
    parse_ack (record {
      type = "ACK";
      timestamp = "";
      payload = some (
          object (
            member "COMMAND_ID"
              (text "c")
              (member "success" null (member "extra" (real "1.5") end))));
    })
    ≡ inr (record { command_id = "c"; success = false; error = ""; worker_id = "" })
unfolding parse_ack unmarshal read_struct read_members ack_field same_key read_text read_bool
lenient = refl

-- A number where a text belongs, and no payload at all.
mistyped :
    parse_ack (record {
      type = "ACK";
      timestamp = "";
      payload = some (object (member "command_id" (number (pos 3)) end));
    })
    ≡ inl bad_payload
unfolding parse_ack unmarshal read_struct read_members ack_field same_key read_text
mistyped = refl

unpaid : parse_ack (record { type = "ACK"; timestamp = ""; payload = none }) ≡ inl bad_payload
unfolding parse_ack unmarshal
unpaid = refl
