-- ===== src/Wire.antt =====
pub mod Encoding
pub mod Payloads
pub mod Messages
pub mod Uuid
pub mod Schema
pub mod Exchange
pub mod Delivery
mod Tests
-- pkg/orchestrator/wire.go, up to `FromWire`: the worker as it travels between the control plane
-- and a node agent, its validation, and the conversions both ways.
-- RFC 3339 formatting and parsing is package time's, and a parameter.
use Prim.Native.Char.{code}
use Prim.Native.Nat.{◌*◌}
use aether_runner.Base.{
  ℕ, zero, suc, String, ◌==◌, Bool, true, false, not, ◌&&◌, ◌||◌, Option, none, some, List, [], ◌∷◌,
  leb, if◌then◌else◌, nat_eq, ◌⊎◌, inl, inr, ◌>>=◌,
}
use aether_runner.Base.Int.{ℤ, pos, leb_ℤ}
use aether_runner.Base.Decimal.{runes}
use aether_runner.Base.Clock.{Time, Duration, time_sub}
use aether_runner.Worker.{
  WorkerState, WorkerStatus, ModelConfig, GpuAssignment, WorkerMetrics, metrics_or_new, allows,
  status_pending, status_starting, status_running, status_idle, status_terminating,
}

-- `[0-9a-fA-F]`
unfoldable pub is_hex : ℕ → Bool
is_hex c = (leb b'0' c && leb c b'9') || (leb b'a' c && leb c b'f') || (leb b'A' c && leb c b'F')

-- `[0-9a-fA-F]{n}`: what is left behind n digits.
unfoldable pub hex_run : ℕ → List ℕ → Option (List ℕ)
hex_run zero cs = some cs
hex_run (suc n) [] = none
hex_run (suc n) (c ∷ cs) = let rest = hex_run n cs in if is_hex c then rest else none

-- `-`
unfoldable pub dash : List ℕ → Option (List ℕ)
dash [] = none
dash (c ∷ cs) = if nat_eq c b'-' then some cs else none

-- `$`
unfoldable pub at_end : List ℕ → Bool
at_end [] = true
at_end (c ∷ cs) = false

-- A group of n digits and the hyphen behind it.
unfoldable pub group : ℕ → List ℕ → Option (List ℕ)
group n cs = do rest ← hex_run n cs; dash rest

-- `uuidRegex` on the code points.
unfoldable pub match_uuid : List ℕ → Option (List ℕ)
match_uuid cs = do
  cs₁ ← group 8 cs
  cs₂ ← group 4 cs₁
  cs₃ ← group 4 cs₂
  cs₄ ← group 4 cs₃
  hex_run 12 cs₄

unfoldable pub validate_uuid : String → Bool
validate_uuid s = elim (match_uuid (runes s)) [ none ↦ false | some rest ↦ at_end rest ]

pub record WireModel : Type 0 where
  pub name : String
  pub version : String
  pub vram_requirement : ℤ

pub record WireGpu : Type 0 where
  pub index : ℤ
  pub uuid : String
  pub memory_allocated_mb : ℤ

pub record WireMetrics : Type 0 where
  pub uptime_seconds : ℤ
  pub last_request_at : Option String
  pub total_requests : ℤ

pub record WireWorkerState : Type 0 where
  pub worker_id : String
  pub tenant_id : String
  pub status : String
  pub model : Option WireModel
  pub gpu_assignment : Option WireGpu
  pub metrics : Option WireMetrics

-- The errors of `Validate`, in the order of its checks.
pub data WireError : Type 0 where
  worker_id_required : WireError
  worker_id_format : WireError
  tenant_id_required : WireError
  status_required : WireError
  status_unknown : WireError
  model_name_required : WireError
  model_vram_not_positive : WireError
  last_request_at_format : String → WireError

abbrev pub valid_statuses : List String
valid_statuses =
    status_pending ∷ status_starting ∷ status_running ∷ status_idle ∷ status_terminating ∷ []

unfoldable pub validate_model : Option WireModel → Option WireError
validate_model none = none
validate_model (some m) =
    if m.name == ""
    then some model_name_required
    else if leb_ℤ m.vram_requirement (pos 0)
    then some model_vram_not_positive
    else none

unfoldable pub to_wire_model : ModelConfig → WireModel
to_wire_model m = record {
  name = m.name;
  version = m.version;
  vram_requirement = m.vram_requirement;
}

unfoldable pub to_wire_gpu : GpuAssignment → WireGpu
to_wire_gpu g = record {
  index = g.index;
  uuid = g.uuid;
  memory_allocated_mb = g.memory_allocated_mb;
}

-- `FromWire` writes every field of the model, of the assignment too, so nothing of the old one stays.
unfoldable pub from_wire_model : Option ModelConfig → Option WireModel → Option ModelConfig
from_wire_model old none = old
from_wire_model old (some m) =
    some (record { name = m.name; version = m.version; vram_requirement = m.vram_requirement })

unfoldable pub from_wire_gpu : Option GpuAssignment → Option WireGpu → Option GpuAssignment
from_wire_gpu old none = old
from_wire_gpu old (some g) =
    some (record { index = g.index; uuid = g.uuid; memory_allocated_mb = g.memory_allocated_mb })

-- `Format` and `Parse` with the layout `time.RFC3339`; a text that does not parse has an error's.
pub record Rfc3339 : Type 0 where
  pub format : Time → String
  pub parse : String → String ⊎ Time

pub data FromWireError : Type 0 where
  wire_state_is_nil : FromWireError
  invalid_wire_state : WireError → FromWireError

module _ (clock : Rfc3339) where
  unfoldable pub validate_last_request_at : Option String → Option WireError
  validate_last_request_at none = none
  validate_last_request_at (some text) = elim (clock.parse text) [
    | inl err ↦ some (last_request_at_format err)
    | inr t ↦ none
  ]

  unfoldable pub validate_metrics : Option WireMetrics → Option WireError
  unfolding validate_last_request_at
  validate_metrics none = none
  validate_metrics (some m) = validate_last_request_at m.last_request_at

  -- `none` is a nil error.
  unfoldable pub validate : WireWorkerState → Option WireError
  validate w =
      if w.worker_id == ""
      then some worker_id_required
      else if not (validate_uuid w.worker_id)
      then some worker_id_format
      else if w.tenant_id == ""
      then some tenant_id_required
      else if w.status == ""
      then some status_required
      else if not (allows valid_statuses w.status)
      then some status_unknown
      else elim (validate_model w.model) [ some e ↦ some e | none ↦ validate_metrics w.metrics ]

  unfoldable pub format_last : Option Time → Option String
  format_last none = none
  format_last (some t) = some (clock.format t)

  -- The last request that is kept where the message has none, or one that does not parse.
  unfoldable pub parse_last : Option Time → Option String → Option Time
  parse_last old none = old
  parse_last old (some text) = elim (clock.parse text) [ inl err ↦ old | inr t ↦ some t ]

  unfoldable pub from_wire_metrics :
      Option WorkerMetrics → Option WireMetrics → Option WorkerMetrics
  from_wire_metrics old none = old
  from_wire_metrics old (some m) =
      let kept = metrics_or_new old in
      some (record kept {
        total_requests = m.total_requests;
        last_request_at = parse_last kept.last_request_at m.last_request_at;
      })

  unfoldable pub from_wire :
      Time → WorkerState → Option WireWorkerState → WorkerState × Option FromWireError
  from_wire now w none = (w, some wire_state_is_nil)
  from_wire now w (some wire) = elim (validate wire) [
    | some e ↦ (w, some (invalid_wire_state e))
    | none ↦ (
      record w {
        status = wire.status;
        model = from_wire_model w.model wire.model;
        gpu_assignment = from_wire_gpu w.gpu_assignment wire.gpu_assignment;
        metrics = from_wire_metrics w.metrics wire.metrics;
        updated_at = now;
      },
      none,
    )
  ]

  -- `int(time.Since(t).Seconds())` goes through a float, as in `ToJSON`.
  module _ (whole_seconds : Duration → ℤ) where
    unfoldable pub to_wire_metrics : Time → WorkerState → WorkerMetrics → WireMetrics
    to_wire_metrics now w m = record {
      uptime_seconds = whole_seconds (time_sub now w.created_at);
      last_request_at = format_last m.last_request_at;
      total_requests = m.total_requests;
    }

    unfoldable pub to_wire : Time → WorkerState → WireWorkerState
    to_wire now w = record {
      worker_id = w.worker_id;
      tenant_id = w.tenant_id;
      status = w.status;
      model = elim w.model [ none ↦ none | some m ↦ some (to_wire_model m) ];
      gpu_assignment = elim w.gpu_assignment [ none ↦ none | some g ↦ some (to_wire_gpu g) ];
      metrics = elim w.metrics [ none ↦ none | some m ↦ some (to_wire_metrics now w m) ];
    }
