-- ===== src/Wire/Delivery.antt =====
-- `ToWire` and then `FromWire`: what survives the way over the network.
use Prim.Native.Nat.{◌/◌, ◌*◌}
use aether_runner.Base.{◌<◌, ◌≡◌, refl, ◌≢◌, inr, Option, none, some, Memᴰ}
use aether_runner.Base.Int.{ℤ, pos, ◌<ℤ◌}
use aether_runner.Base.Clock.{Time, Duration}
use aether_runner.Worker.{WorkerState, WorkerMetrics, ModelConfig, GpuAssignment, metrics_or_new}
use aether_runner.Wire.{
  Rfc3339, valid_statuses, from_wire, from_wire_model, from_wire_gpu, from_wire_metrics, parse_last,
  format_last, to_wire, to_wire_model, to_wire_gpu, to_wire_metrics,
}
use aether_runner.Wire.Uuid.{IsUuid}
use aether_runner.Wire.Schema.{
  Conforms, ModelConforms, TimeConforms, MetricsConform, validate-Conforms,
}

-- What RFC 3339 without fractions keeps of a time.
abbrev pub to_the_second : Time → Time
to_the_second t = t / 1000000000 * 1000000000

-- The first instant of the year 10000, whose years no longer have four digits.
abbrev pub year_10000 : Time
year_10000 = 315537897600000000000

-- `Parse` reads what `Format` writes, up to the fraction of the second.
abbrev pub ReadsBack : Rfc3339 → Type 0
ReadsBack clock = (t : Time) → t < year_10000 → clock.parse (clock.format t) ≡ inr (to_the_second t)

abbrev pub ModelSendable : Option ModelConfig → Type 0
ModelSendable none = Unit
ModelSendable (some m) = (m.name ≢ "") × (pos 0 <ℤ m.vram_requirement)

abbrev pub LastSendable : Option Time → Type 0
LastSendable none = Unit
LastSendable (some t) = t < year_10000

abbrev pub MetricsSendable : Option WorkerMetrics → Type 0
MetricsSendable none = Unit
MetricsSendable (some m) = LastSendable m.last_request_at

-- A worker whose wire form `Validate` accepts: a UUID, a tenant, one of the five statuses, if it has a model a name and a positive amount, and if it has a last request a year of four digits.
pub record Sendable (w : WorkerState) : Type 0 where
  pub worker_id : IsUuid w.worker_id
  pub tenant_id : w.tenant_id ≢ ""
  pub status : Memᴰ w.status valid_statuses
  pub model : ModelSendable w.model
  pub metrics : MetricsSendable w.metrics

-- The second option where the first is nothing.
abbrev pub or_old : {A : Type 0} → Option A → Option A → Option A
or_old none old = old
or_old (some x) old = some x

abbrev pub last_delivered : Option Time → Option Time → Option Time
last_delivered none old = old
last_delivered (some t) old = some (to_the_second t)

abbrev pub metrics_delivered : Option WorkerMetrics → Option WorkerMetrics → Option WorkerMetrics
metrics_delivered none old = old
metrics_delivered (some m) old = some (record (metrics_or_new old) {
  total_requests = m.total_requests;
  last_request_at = last_delivered m.last_request_at (metrics_or_new old).last_request_at;
})

-- A receiver after a worker's state has reached it: the parts that the sender has, and its own where the sender has none.
abbrev pub delivered : Time → WorkerState → WorkerState → WorkerState
delivered now v w = record v {
  status = w.status;
  model = or_old w.model v.model;
  gpu_assignment = or_old w.gpu_assignment v.gpu_assignment;
  metrics = metrics_delivered w.metrics v.metrics;
  updated_at = now;
}

module _ (clock : Rfc3339) (whole_seconds : Duration → ℤ) (reads : ReadsBack clock) where
  time_conforms : (o : Option Time) → LastSendable o → TimeConforms clock (format_last clock o)
  unfolding format_last
  time_conforms none l = tt
  time_conforms (some t) l = (to_the_second t, reads t l)

  last_arrives :
      (old o : Option Time)
      → LastSendable o
      → parse_last clock old (format_last clock o) ≡ last_delivered o old
  unfolding parse_last format_last
  last_arrives old none l = refl
  last_arrives old (some t) l = rw (reads t l)

  to_wire-Conforms :
      (at : Time) (w : WorkerState) → Sendable w → Conforms clock (to_wire clock whole_seconds at w)
  unfolding to_wire to_wire_model to_wire_metrics
  to_wire-Conforms at w s = record {
    worker_id = s.worker_id;
    tenant_id = s.tenant_id;
    status = s.status;
    model = model w.model s.model;
    metrics = metrics w.metrics s.metrics;
  }
    where
      model :
          (m : Option ModelConfig)
          → ModelSendable m
          → ModelConforms (elim m [ none ↦ none | some x ↦ some (to_wire_model x) ])
      model none h = tt
      model (some m) h = h

      metrics :
          (m : Option WorkerMetrics)
          → MetricsSendable m
          → MetricsConform clock
              (elim m [ none ↦ none | some x ↦ some (to_wire_metrics clock whole_seconds at w x) ])
      metrics none h = tt
      metrics (some m) h = time_conforms m.last_request_at h

  model_arrives :
      (old m : Option ModelConfig)
      → from_wire_model old (elim m [ none ↦ none | some x ↦ some (to_wire_model x) ])
        ≡ or_old m old
  unfolding from_wire_model to_wire_model
  model_arrives old none = refl
  model_arrives old (some m) = refl

  gpu_arrives :
      (old g : Option GpuAssignment)
      → from_wire_gpu old (elim g [ none ↦ none | some x ↦ some (to_wire_gpu x) ]) ≡ or_old g old
  unfolding from_wire_gpu to_wire_gpu
  gpu_arrives old none = refl
  gpu_arrives old (some g) = refl

  metrics_arrive :
      (at : Time) (w : WorkerState) (old m : Option WorkerMetrics)
      → MetricsSendable m
      → from_wire_metrics clock old
          (elim m [ none ↦ none | some x ↦ some (to_wire_metrics clock whole_seconds at w x) ])
        ≡ metrics_delivered m old
  unfolding from_wire_metrics to_wire_metrics
  metrics_arrive at w old none h = refl
  metrics_arrive at w old (some m) h =
      rw (last_arrives (metrics_or_new old).last_request_at m.last_request_at h)

  -- If `Parse` reads back what `Format` writes to the second, then a worker with a UUID, a tenant that is not empty, one of the five statuses, a named model of a positive amount if it has a model, and a last request before the year 10000 if it has one arrives: `FromWire` of what its `ToWire` made returns nil and gives the receiver the sender's status, and the sender's model, GPU assignment, number of requests and last request to the second where the sender has them; where it has none, the receiver keeps its own, and a receiver that had no metrics gets new ones with these. Of the other fields only the time of the update changes.
  pub from_wire-to_wire :
      (at now : Time) (v w : WorkerState)
      → Sendable w
      → from_wire clock now v (some (to_wire clock whole_seconds at w)) ≡ (delivered now v w, none)
  unfolding from_wire to_wire
  from_wire-to_wire at now v w s =
      let ok =
        (validate-Conforms clock (to_wire clock whole_seconds at w)).1 (to_wire-Conforms at w s) in
      rw
        (
          from_wire,
          ok,
          model_arrives v.model w.model,
          gpu_arrives v.gpu_assignment w.gpu_assignment,
          metrics_arrive at w v.metrics w.metrics s.metrics,
        )
        refl
