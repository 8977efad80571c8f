-- ===== src/Api/Reports/Shown.antt =====
-- What a client reads of the workers in the answers of pkg/api/handlers.go, member by member.
use aether_runner.Base.{◌≡◌, refl, sym, ap, String, Option, none, some, inl, inr, Option-cases}
use aether_runner.Base.Int.{ℤ, pos}
use aether_runner.Base.Clock.{Time, Duration, time_sub}
use aether_runner.Worker.{
  WorkerState, ModelConfig, GpuAssignment, WorkerMetrics, metrics_or_new, update_uptime,
  refresh_for_json,
}
use aether_runner.Wire.{WireMetrics, WireWorkerState, to_wire_model, to_wire_gpu}
use aether_runner.Api.Reports.{report_worker, to_json, json_state, json_metrics}

-- The metrics that are shown of a worker that has `old` metrics.
pub record MetricsShown (marshal_time : Time → Option String) (uptime : ℤ)
    (old : Option WorkerMetrics) (n : WireMetrics) : Type 0 where
  pub uptime_seconds : n.uptime_seconds ≡ uptime
  pub no_metrics : old ≡ none → (n.total_requests ≡ pos 0) × (n.last_request_at ≡ none)
  pub total : (m : WorkerMetrics) → old ≡ some m → n.total_requests ≡ m.total_requests
  pub no_request :
      (m : WorkerMetrics) → old ≡ some m → m.last_request_at ≡ none → n.last_request_at ≡ none
  pub request :
      (m : WorkerMetrics) (t : Time)
      → old ≡ some m
      → m.last_request_at ≡ some t
      → (text : String) × (marshal_time t ≡ some text) × (n.last_request_at ≡ some text)

-- `j` shows the worker `w` at the time `now`.
pub record Shown (marshal_time : Time → Option String) (whole_seconds : Duration → ℤ) (now : Time)
    (w : WorkerState) (j : WireWorkerState) : Type 0 where
  pub worker_id : j.worker_id ≡ w.worker_id
  pub tenant_id : j.tenant_id ≡ w.tenant_id
  pub status : j.status ≡ w.status
  pub no_model : w.model ≡ none → j.model ≡ none
  pub model :
      (m : ModelConfig)
      → w.model ≡ some m
      → j.model
        ≡ some
            (record { name = m.name; version = m.version; vram_requirement = m.vram_requirement })
  pub no_gpu : w.gpu_assignment ≡ none → j.gpu_assignment ≡ none
  pub gpu :
      (g : GpuAssignment)
      → w.gpu_assignment ≡ some g
      → j.gpu_assignment
        ≡ some
            (record { index = g.index; uuid = g.uuid; memory_allocated_mb = g.memory_allocated_mb })
  pub metrics :
      (n : WireMetrics) × (j.metrics ≡ some n)
      × MetricsShown marshal_time (whole_seconds (time_sub now w.created_at)) w.metrics n

same_metrics :
    (m n : WireMetrics)
    → m.uptime_seconds ≡ n.uptime_seconds
    → m.last_request_at ≡ n.last_request_at
    → m.total_requests ≡ n.total_requests
    → m ≡ n
same_metrics m n e f g = cc

same_worker :
    (v w : WireWorkerState)
    → v.worker_id ≡ w.worker_id
    → v.tenant_id ≡ w.tenant_id
    → v.status ≡ w.status
    → v.model ≡ w.model
    → v.gpu_assignment ≡ w.gpu_assignment
    → v.metrics ≡ w.metrics
    → v ≡ w
same_worker v w a b c d e f = cc

module _ (marshal_time : Time → Option String) (whole_seconds : Duration → ℤ) where
  model_member :
      (now : Time) (w : WorkerState) (j : WireWorkerState)
      → Shown marshal_time whole_seconds now w j
      → (elim w.model [ none ↦ none | some m ↦ some (to_wire_model m) ]) ≡ j.model
  unfolding to_wire_model
  model_member now w j h = elim (Option-cases w.model) [
    | inl e ↦ rw e (sym (h.no_model e))
    | inr (m, e) ↦ rw e (sym (h.model m e))
  ]

  gpu_member :
      (now : Time) (w : WorkerState) (j : WireWorkerState)
      → Shown marshal_time whole_seconds now w j
      → (elim w.gpu_assignment [ none ↦ none | some g ↦ some (to_wire_gpu g) ]) ≡ j.gpu_assignment
  unfolding to_wire_gpu
  gpu_member now w j h = elim (Option-cases w.gpu_assignment) [
    | inl e ↦ rw e (sym (h.no_gpu e))
    | inr (g, e) ↦ rw e (sym (h.gpu g e))
  ]

  metrics_member :
      (uptime : ℤ) (old : Option WorkerMetrics) (n : WireMetrics)
      → MetricsShown marshal_time uptime old n
      → json_metrics marshal_time (some (record (metrics_or_new old) { uptime_seconds = uptime }))
        ≡ some (some n)
  unfolding json_metrics
  metrics_member uptime none n h =
      let (total, last) = h.no_metrics refl in
      let same : record { uptime_seconds = uptime; last_request_at = none; total_requests = pos 0 }
          ≡ n =
        same_metrics _ n (sym h.uptime_seconds) (sym last) (sym total) in
      ap (λ x. some (some x)) same
  metrics_member uptime (some m) n h = elim (Option-cases m.last_request_at) [
    | inl e ↦ rw e (
        ap (λ x. some (some x))
          (same_metrics _ n (sym h.uptime_seconds) (sym (h.no_request m refl e))
            (sym (h.total m refl))))
    | inr (t, e) ↦
        let (text, q, last) = h.request m t refl e in
        rw (e, q)
          (ap (λ x. some (some x))
            (same_metrics _ n (sym h.uptime_seconds) (sym last) (sym (h.total m refl))))
  ]

  pub reported :
      (updated now : Time) (w : WorkerState)
      → (report_worker marshal_time whole_seconds (updated, now) w).0 ≡ record w {
        metrics = some (record (metrics_or_new w.metrics) {
          uptime_seconds = whole_seconds (time_sub now w.created_at);
        });
      }
  unfolding report_worker to_json update_uptime refresh_for_json
  reported updated now w = refl

  pub Shown-json_state :
      (updated now : Time) (w : WorkerState) (j : WireWorkerState)
      → Shown marshal_time whole_seconds now w j
      → json_state marshal_time (report_worker marshal_time whole_seconds (updated, now) w).0
        ≡ some j
  unfolding json_state
  Shown-json_state updated now w j h =
      let (n, e, shown_metrics) = h.metrics in
      let uptime = whole_seconds (time_sub now w.created_at) in
      rw (reported updated now w, metrics_member uptime w.metrics n shown_metrics)
        (ap (λ x. some x)
          (same_worker _ j (sym h.worker_id) (sym h.tenant_id) (sym h.status)
            (model_member now w j h) (gpu_member now w j h) (sym e)))
