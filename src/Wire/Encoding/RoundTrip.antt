-- ===== src/Wire/Encoding/RoundTrip.antt =====
-- A worker that is written as JSON by pkg/orchestrator/wire.go and read back.
use aether_runner.Base.{◌≡◌, refl, String, Option, none, some, text_cases, inl, inr, ap, sym, ◌∙◌}
use aether_runner.Base.Machine.{InRange}
use aether_runner.Base.Json.{
  read_struct, read_pointer, read_members, same_key, omit_if, read_text, read_int, number, omit_nil,
  Members, end,
}
use aether_runner.Base.Json.Reading.{read_int-number}
use aether_runner.Wire.{WireModel, WireGpu, WireMetrics, WireWorkerState, pos}
use aether_runner.Wire.Encoding.{
  write_model, write_gpu, write_metrics, write_worker, model_field, gpu_field, metrics_field,
  worker_field, zero_model, zero_worker, zero_wire_metrics, zero_gpu,
}

abbrev pub ModelFits : Option WireModel → Type 0
ModelFits none = Unit
ModelFits (some m) = InRange m.vram_requirement

abbrev pub GpuFits : Option WireGpu → Type 0
GpuFits none = Unit
GpuFits (some g) = InRange g.index × InRange g.memory_allocated_mb

abbrev pub MetricsFit : Option WireMetrics → Type 0
MetricsFit none = Unit
MetricsFit (some m) = InRange m.uptime_seconds × InRange m.total_requests

-- The integers are those of Go's `int`.
abbrev pub WorkerFits : WireWorkerState → Type 0
WorkerFits w = ModelFits w.model × GpuFits w.gpu_assignment × MetricsFit w.metrics

pub model_back :
    (m : WireModel)
    → InRange m.vram_requirement
    → read_struct model_field (write_model m) zero_model ≡ some m
unfolding read_struct read_members write_model model_field same_key omit_if read_text
model_back m h = elim (text_cases m.version "") [
  | inl (e, t) ↦
      rw (t, read_int-number m.vram_requirement (pos 0) h)
        (ap (λ v. some (record m { version = v })) (sym e))
  | inr (_, t) ↦ rw (t, read_int-number m.vram_requirement (pos 0) h)
]

gpu_back :
    (g : WireGpu)
    → InRange g.index × InRange g.memory_allocated_mb
    → read_struct gpu_field (write_gpu g) zero_gpu ≡ some g
unfolding read_struct read_members write_gpu gpu_field same_key read_text
gpu_back g (h, k) =
    rw (read_int-number g.index (pos 0) h, read_int-number g.memory_allocated_mb (pos 0) k)

metrics_back :
    (m : WireMetrics)
    → InRange m.uptime_seconds × InRange m.total_requests
    → read_struct metrics_field (write_metrics m) zero_wire_metrics ≡ some m
unfolding read_struct read_members write_metrics metrics_field same_key read_text omit_nil
    read_pointer
metrics_back m (h, k) =
    last m.last_request_at (read_int-number m.uptime_seconds (pos 0) h)
      (read_int-number m.total_requests (pos 0) k)
  where
    last :
        (o : Option String)
        → read_int (number m.uptime_seconds) (pos 0) ≡ some m.uptime_seconds
        → read_int (number m.total_requests) (pos 0) ≡ some m.total_requests
        → read_struct metrics_field
            (write_metrics (record m { last_request_at = o }))
            zero_wire_metrics
          ≡ some (record m { last_request_at = o })
    last none e f = rw (e, f)
    last (some t) e f = rw (e, f)

module _ (w : WireWorkerState) (rest : Members) where
  pub model_member :
      (m : Option WireModel)
      → ModelFits m
      → read_members worker_field (omit_nil write_model "model" m rest) (record w { model = none })
        ≡ read_members worker_field rest (record w { model = m })
  unfolding read_members worker_field same_key omit_nil read_pointer write_model
  model_member none h = refl
  model_member (some m) h = rw (read_pointer, model_back m h)

  pub gpu_member :
      (g : Option WireGpu)
      → GpuFits g
      → read_members worker_field
          (omit_nil write_gpu "gpu_assignment" g rest)
          (record w { gpu_assignment = none })
        ≡ read_members worker_field rest (record w { gpu_assignment = g })
  unfolding read_members worker_field same_key omit_nil read_pointer write_gpu
  gpu_member none h = refl
  gpu_member (some g) h = rw (read_pointer, gpu_back g h)

  pub metrics_member :
      (m : Option WireMetrics)
      → MetricsFit m
      → read_members worker_field
          (omit_nil write_metrics "metrics" m rest)
          (record w { metrics = none })
        ≡ read_members worker_field rest (record w { metrics = m })
  unfolding read_members worker_field same_key omit_nil read_pointer write_metrics
  metrics_member none h = refl
  metrics_member (some m) h = rw (read_pointer, metrics_back m h)

pub worker_back :
    (w : WireWorkerState)
    → WorkerFits w
    → read_struct worker_field (write_worker w) zero_worker ≡ some w
unfolding read_struct read_members write_worker worker_field same_key read_text
worker_back w (h, k, l) =
    model_member (record w { gpu_assignment = none; metrics = none }) _ w.model h
    ∙ gpu_member (record w { metrics = none }) _ w.gpu_assignment k
    ∙ metrics_member w end w.metrics l
