-- ===== src/Wire/Messages/RoundTrip.antt =====
-- What the parsers of pkg/orchestrator/wire.go make of the messages that its constructors build.
use aether_runner.Base.{
  ◌≡◌, refl, ℕ, ◌+◌, ◌≤◌, String, ◌==◌, Bool, Option, none, some, List, [], ◌∷◌, map, ◌⊎◌, inl, inr,
  arith, All, false, true, subst, sym, eq_iff,
}
use aether_runner.Base.Int.{ℤ}
use aether_runner.Base.Clock.{Time, Duration}
use aether_runner.Base.Machine.{InRange}
use aether_runner.Scheduler.{GpuStats}
use aether_runner.Worker.{WorkerState}
use aether_runner.Wire.{WireWorkerState, Rfc3339, to_wire, from_wire}
use aether_runner.Wire.Delivery.{Sendable, ReadsBack, delivered, from_wire-to_wire}
use aether_runner.Wire.Encoding.RoundTrip.{WorkerFits}
use aether_runner.Wire.Payloads.{HeartbeatPayload, zero_heartbeat}
use aether_runner.Wire.Payloads.RoundTrip.{
  SpecFits, ack_back, command_back, heartbeat_back, StatsFit,
}
use aether_runner.Wire.Messages.{
  WireMessage, ParseError, to_gpu_stats, new_heartbeat_message, new_command_message,
  new_ack_message, unmarshal, parse_heartbeat, parse_command, parse_ack, command_field, Json,
  heartbeat_field, heartbeat, ack_field, read_struct, zero_ack, command, zero_command, ack,
}

-- The integers of a GPU's statistics are those of Go's `int`.
abbrev pub GpuFits : GpuStats → Type 0
GpuFits g = InRange g.gpu_index × InRange g.total_vram_mb × InRange g.allocated_vram

-- 1 for a payload and 0 for an error.
abbrev pub accepted : {A : Type 0} → ParseError ⊎ A → ℕ
accepted (inl e) = 0
accepted (inr x) = 1

differ : (t a b : String) → (a == b) ≡ false → (t == a) ≡ true → (t == b) ≡ false
differ t a b apart e = subst (λ x. (x == b) ≡ false) (sym ((eq_iff t a).0 e)) apart

unmarshal-some :
    {A : Type 0} (into : String → Json → A → Option A) (zero_value : A) (j : Json) (x : A)
    → read_struct into j zero_value ≡ some x
    → unmarshal into zero_value (some j) ≡ inr x
unfolding unmarshal
unmarshal-some into zero_value j x h = rw (unmarshal, h)

-- No message is accepted by two of the three parsers.
pub accepted_once :
    (m : WireMessage)
    → accepted (parse_heartbeat m) + accepted (parse_command m) + accepted (parse_ack m) ≤ 1
unfolding parse_heartbeat parse_command parse_ack
accepted_once m = ground (
  arith,
  differ m.type heartbeat command refl,
  differ m.type heartbeat ack refl,
  differ m.type command ack refl,
)

module _ (clock : Rfc3339) where
  -- ParseAck of what NewAckMessage built is the acknowledgment that it was built from.
  pub parse_ack-new_ack_message :
      (now : Time) (command_id : String) (success : Bool) (error worker_id : String)
      → parse_ack (new_ack_message clock now command_id success error worker_id)
        ≡ inr (record {
          command_id = command_id;
          success = success;
          error = error;
          worker_id = worker_id;
        })
  unfolding parse_ack new_ack_message
  parse_ack-new_ack_message now command_id success error worker_id =
      unmarshal-some ack_field zero_ack _ _ (
        ack_back (record {
          command_id = command_id;
          success = success;
          error = error;
          worker_id = worker_id;
        }))

  -- ParseCommand of what NewCommandMessage built is the command that it was built from, if the integers
  -- of its worker are in the range of int.
  pub parse_command-new_command_message :
      (now : Time) (command_id cmd_type target_gpu : String) (spec : Option WireWorkerState)
      → SpecFits spec
      → parse_command (new_command_message clock now command_id cmd_type target_gpu spec)
        ≡ inr (record {
          command_id = command_id;
          command_type = cmd_type;
          target_gpu = target_gpu;
          worker_spec = spec;
        })
  unfolding parse_command new_command_message
  parse_command-new_command_message now command_id cmd_type target_gpu spec h =
      unmarshal-some command_field zero_command _ _ (
        command_back
          (record {
            command_id = command_id;
            command_type = cmd_type;
            target_gpu = target_gpu;
            worker_spec = spec;
          })
          h)

module _ (clock : Rfc3339) (whole_seconds : Duration → ℤ) where
  workers_fit :
      (now : Time) (workers : List WorkerState)
      → All (λ w. WorkerFits (to_wire clock whole_seconds now w)) workers
      → All SpecFits (map (λ w. some (to_wire clock whole_seconds now w)) workers)
  workers_fit now [] h = tt
  workers_fit now (w ∷ ws) h = (h.0, workers_fit now ws h.1)

  gpus_fit : (gpus : List GpuStats) → All GpuFits gpus → All StatsFit (map to_gpu_stats gpus)
  unfolding to_gpu_stats
  gpus_fit [] h = tt
  gpus_fit (g ∷ gs) h = (h.0, gpus_fit gs h.1)

  parse_heartbeat-new_heartbeat_message :
      (now : Time) (node_id : String) (workers : List WorkerState) (gpus : List GpuStats)
      → All (λ w. WorkerFits (to_wire clock whole_seconds now w)) workers
      → All GpuFits gpus
      → parse_heartbeat (new_heartbeat_message clock whole_seconds now node_id workers gpus)
        ≡ inr (record {
          node_id = node_id;
          workers = map (λ w. some (to_wire clock whole_seconds now w)) workers;
          gpu_stats = map to_gpu_stats gpus;
        })
  unfolding parse_heartbeat new_heartbeat_message
  parse_heartbeat-new_heartbeat_message now node_id workers gpus h k =
      unmarshal-some heartbeat_field zero_heartbeat _ _ (
        heartbeat_back
          (record {
            node_id = node_id;
            workers = map (λ w. some (to_wire clock whole_seconds now w)) workers;
            gpu_stats = map to_gpu_stats gpus;
          })
          (workers_fit now workers h) (gpus_fit gpus k))

  deliver_each :
      (reads : ReadsBack clock) (now later : Time) (v : WorkerState) (workers : List WorkerState)
      → All Sendable workers
      → map (from_wire clock later v) (map (λ w. some (to_wire clock whole_seconds now w)) workers)
        ≡ map (λ w. (delivered later v w, none)) workers
  deliver_each reads now later v [] s = refl
  deliver_each reads now later v (w ∷ ws) s = rw (
    from_wire-to_wire clock whole_seconds reads now later v w s.0,
    deliver_each reads now later v ws s.1,
  )

  -- If `Parse` reads back what `Format` writes to the second, ParseHeartbeat of what NewHeartbeatMessage built from workers with a UUID, a tenant that is not empty, one of the five statuses, a named model of a positive amount if they have a model and a last request before the year 10000 if they have one, all its integers in the range of int, returns a payload with the node's id and the statistics of the GPUs, and FromWire of each of its workers, in order, returns nil and leaves any receiver with what that worker's sender had.
  pub heartbeat_arrives :
      (reads : ReadsBack clock) (now later : Time) (v : WorkerState) (node_id : String)
      (workers : List WorkerState) (gpus : List GpuStats)
      → All Sendable workers
      → All (λ w. WorkerFits (to_wire clock whole_seconds now w)) workers
      → All GpuFits gpus
      → (p : HeartbeatPayload) × (parse_heartbeat
            (new_heartbeat_message clock whole_seconds now node_id workers gpus)
          ≡ inr p)
        × (p.node_id ≡ node_id)
        × (p.gpu_stats ≡ map to_gpu_stats gpus)
        × (map (from_wire clock later v) p.workers ≡ map (λ w. (delivered later v w, none)) workers)
  heartbeat_arrives reads now later v node_id workers gpus s h k = (
    record {
      node_id = node_id;
      workers = map (λ w. some (to_wire clock whole_seconds now w)) workers;
      gpu_stats = map to_gpu_stats gpus;
    },
    parse_heartbeat-new_heartbeat_message now node_id workers gpus h k,
    refl,
    refl,
    deliver_each reads now later v workers s,
  )
