-- ===== src/Api/Reports/Workers.antt =====
-- The workers that a client reads in the answers of pkg/api/handlers.go.
use mathlib.Core.Path.{fun_ext}
use aether_runner.Base.{
  ◌≡◌, ◌≢◌, refl, sym, ap, ◌∙◌, String, Option, none, some, List, [], ◌∷◌, arith, inl, inr,
  Bool-cases, text_cases, All, map, subst, nat_eq, ap₂, nat_eq_iff,
}
use aether_runner.Base.Int.{ℤ}
use aether_runner.Base.Clock.{Time, Duration}
use aether_runner.Base.Json.{
  Json, null, end, write_list, untyped, set_in, set_member, read_struct, read_members, same_key,
  read_text,
}
use aether_runner.Worker.{update_uptime, refresh_for_json}
use aether_runner.Pool.{Ref, Heap, store, get_worker, list_workers}
use aether_runner.Wire.{WireModel, WireGpu, WireMetrics, WireWorkerState}
use aether_runner.Wire.Encoding.{
  write_model, write_gpu, write_metrics, write_worker, worker_field, zero_worker,
}
use aether_runner.Wire.Encoding.RoundTrip.{
  WorkerFits, model_member, gpu_member, metrics_member, ModelFits, GpuFits, worker_back, MetricsFit,
}
use aether_runner.Docker.{Docker}
use aether_runner.Api.{System}
use aether_runner.Api.Reports.{
  handle_get_worker, report_worker, to_json, json_state, add_endpoint, write_endpoint, Endpoint,
  report_workers, handle_list_workers,
}
use aether_runner.Api.Reports.Floats.{
  Each, WorkerSmall, ModelSmall, GpuSmall, MetricsSmall, worker_untyped, set_member-omit_nil,
}

-- With one more member at the end, that no field has, the worker is read all the same.
pub worker_and_more :
    (w : WireWorkerState) (value : Json)
    → WorkerFits w
    → read_struct worker_field (set_in "endpoint" value (write_worker w)) zero_worker ≡ some w
unfolding read_struct read_members write_worker worker_field same_key read_text set_in set_member
worker_and_more w value (h, k, l) =
    rw
      (
        set_member-omit_nil write_model "model" _ "endpoint" value w.model refl,
        set_member-omit_nil write_gpu "gpu_assignment" _ "endpoint" value w.gpu_assignment refl,
        set_member-omit_nil write_metrics "metrics" end "endpoint" value w.metrics refl,
      )
      (model_member (record w { gpu_assignment = none; metrics = none }) _ w.model h
        ∙ gpu_member (record w { metrics = none }) _ w.gpu_assignment k
        ∙ metrics_member w _ w.metrics l)

WorkerSmall-WorkerFits : (w : WireWorkerState) → WorkerSmall w → WorkerFits w
WorkerSmall-WorkerFits w (h, k, l) = (model w.model h, gpu w.gpu_assignment k, metrics w.metrics l)
  where
    model : (m : Option WireModel) → Each ModelSmall m → ModelFits m
    model none h = tt
    model (some m) h = omega arith

    gpu : (g : Option WireGpu) → Each GpuSmall g → GpuFits g
    gpu none h = tt
    gpu (some g) h = omega arith

    metrics : (m : Option WireMetrics) → Each MetricsSmall m → MetricsFit m
    metrics none h = tt
    metrics (some m) h = omega arith

answer_reads :
    (w : WireWorkerState) (endpoint : Option Endpoint)
    → WorkerSmall w
    → read_struct worker_field (add_endpoint endpoint (untyped (write_worker w))) zero_worker
      ≡ some w
unfolding add_endpoint
answer_reads w none h = rw (worker_untyped w h) (worker_back w (WorkerSmall-WorkerFits w h))
answer_reads w (some e) h =
    rw (worker_untyped w h) (worker_and_more w (write_endpoint e) (WorkerSmall-WorkerFits w h))

module _ (marshal_time : Time → Option String) (whole_seconds : Duration → ℤ) {W : Type 0}
    (docker : Docker W) where
  -- GetWorker of a worker that the pool has answers with status 200 and a body which, read as the wire type, is the worker as the request left it, if its integers are at most 2 ^ 53; of all workers it changes only this one, and the pool and the scheduler not at all.
  pub worker_body :
      (times : Time × Time) (worker_id : String) (s : System W) (r : Ref) (j : WireWorkerState)
      → worker_id ≢ ""
      → get_worker s.pool worker_id ≡ some r
      → json_state marshal_time (report_worker marshal_time whole_seconds times (s.heap r)).0
        ≡ some j
      → WorkerSmall j
      → let (s', response) =
          handle_get_worker marshal_time whole_seconds docker times worker_id s in
        (response.status_code ≡ 200)
        × ((body : Json) × (response.body ≡ some body)
            × (read_struct worker_field body zero_worker ≡ some j))
        × (s'.heap ≡ store s.heap r (report_worker marshal_time whole_seconds times (s.heap r)).0)
        × (s'.pool ≡ s.pool)
        × (s'.scheduler ≡ s.scheduler)
  unfolding handle_get_worker report_worker to_json
  worker_body times worker_id s r j named found written small = elim (text_cases worker_id "") [
    | inl (e, _) ↦ absurd (named e)
    | inr (_, t) ↦
        rw (t, found, written) (refl, (_, refl, answer_reads j _ small), refl, refl, refl)
  ]

-- What a client reads in an entry: the worker, as the wire type.
abbrev pub read_worker_entry : Json → Option WireWorkerState
read_worker_entry entry = read_struct worker_field entry zero_worker

abbrev pub Reads : Option WireWorkerState → Type 0
Reads o = (j : WireWorkerState) × (o ≡ some j) × WorkerSmall j

module _ (marshal_time : Time → Option String) (whole_seconds : Duration → ℤ)
    (times : Ref → Time × Time) where
  -- A worker as the request leaves it, as the wire type.
  abbrev pub shown : Heap → Ref → Option WireWorkerState
  shown h r = json_state marshal_time (report_worker marshal_time whole_seconds (times r) (h r)).0

  shown_self :
      (h : Heap) (r : Ref)
      → shown (store h r (report_worker marshal_time whole_seconds (times r) (h r)).0) r ≡ shown h r
  unfolding report_worker to_json update_uptime refresh_for_json
  shown_self h r = rw ((nat_eq_iff r r).1 refl)

  shown_again :
      (h : Heap) (r q : Ref)
      → shown (store h r (report_worker marshal_time whole_seconds (times r) (h r)).0) q ≡ shown h q
  shown_again h r q =
      let h' = store h r (report_worker marshal_time whole_seconds (times r) (h r)).0 in
      elim (Bool-cases (nat_eq r q)) [
        | inl e ↦ subst (λ x. shown h' x ≡ shown h x) ((nat_eq_iff r q).0 e) (shown_self h r)
        | inr e ↦ rw e
      ]

  read_worker_entry-shown :
      (h : Heap) (r : Ref)
      → Reads (shown h r)
      → read_worker_entry (elim (report_worker marshal_time whole_seconds (times r) (h r)).1 [
        | none ↦ null
        | some value ↦ untyped value
      ])
        ≡ shown h r
  unfolding report_worker to_json
  read_worker_entry-shown h r (j, e, small) =
      rw (e, worker_untyped j small) (worker_back j (WorkerSmall-WorkerFits j small))

  entries_read :
      (h : Heap) (refs : List Ref)
      → All (λ r. Reads (shown h r)) refs
      → map read_worker_entry (report_workers marshal_time whole_seconds times h refs).1
        ≡ map (shown h) refs
  unfolding report_workers
  entries_read h [] all = refl
  entries_read h (r ∷ refs) all =
      let h' = store h r (report_worker marshal_time whole_seconds (times r) (h r)).0 in
      let same : shown h' ≡ shown h = fun_ext (λ q. shown_again h r q) in
      let later =
        entries_read h' refs (subst (λ f. All (λ q. Reads (f q)) refs) (sym same) all.1) in
      ap₂ (λ x xs. x ∷ xs) (read_worker_entry-shown h r all.0) (later ∙ ap (λ f. map f refs) same)

  -- ListWorkers answers with status 200 and a list which, each entry read as the wire type, is the workers that the pool lists for the tenant, in their order, as the request leaves them, if each has a JSON value and its integers are at most 2 ^ 53.
  pub listed_bodies :
      {W : Type 0} (tenant_id : String) (s : System W)
      → All (λ r. Reads (shown s.heap r)) (list_workers s.heap s.pool.workers tenant_id)
      → let response = (handle_list_workers marshal_time whole_seconds times tenant_id s).1 in
        (response.status_code ≡ 200)
        × ((entries : List Json) × (response.body ≡ some (write_list (λ j. j) entries))
            × (map read_worker_entry entries
                ≡ map (shown s.heap) (list_workers s.heap s.pool.workers tenant_id)))
  unfolding handle_list_workers
  listed_bodies tenant_id s all =
      (refl, (_, refl, entries_read s.heap (list_workers s.heap s.pool.workers tenant_id) all))
