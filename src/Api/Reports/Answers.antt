-- ===== src/Api/Reports/Answers.antt =====
-- `handleGetWorker` and `handleListWorkers` of pkg/api/handlers.go: what a client reads in the answers.
use aether_runner.Base.{
  ◌≡◌, ◌≢◌, ◌↔◌, refl, sym, ap, ◌∙◌, String, Option, some, List, [], ◌∷◌, inl, inr, All, Memᴰ, map,
  ap₂, nat_eq, nat_eq_iff, Bool-cases,
}
use aether_runner.Base.Int.{ℤ}
use aether_runner.Base.Clock.{Time, Duration}
use aether_runner.Base.Json.{Json, write_list, read_struct}
use aether_runner.Worker.{WorkerState, WorkerMetrics}
use aether_runner.Pool.{Ref, Heap, store, get_worker, list_workers}
use aether_runner.Pool.Queries.{Belongs, list_workers-mem}
use aether_runner.Wire.{WireWorkerState}
use aether_runner.Wire.Encoding.{worker_field, zero_worker}
use aether_runner.Docker.{Docker}
use aether_runner.Api.{System}
use aether_runner.Api.Creation.{store_same}
use aether_runner.Api.Reports.{handle_get_worker, handle_list_workers, report_worker}
use aether_runner.Api.Reports.Floats.{WorkerSmall}
use aether_runner.Api.Reports.Workers.{worker_body, listed_bodies, read_worker_entry, Reads, shown}
use aether_runner.Api.Reports.Shown.{Shown, Shown-json_state, reported}

store_other : (h : Heap) (r q : Ref) (w : WorkerState) → q ≢ r → store h r w q ≡ h q
store_other h r q w n = elim (Bool-cases (nat_eq r q)) [
  | inl e ↦ absurd (n (sym ((nat_eq_iff r q).0 e)))
  | inr e ↦ rw e refl
]

All-from : {P : Ref → Type 0} (refs : List Ref) → ((r : Ref) → Memᴰ r refs → P r) → All P refs
All-from [] h = tt
All-from (r ∷ refs) h = (h r (Memᴰ.head refl), All-from refs (λ q m. h q (Memᴰ.tail m)))

module _ (marshal_time : Time → Option String) (whole_seconds : Duration → ℤ) {W : Type 0}
    (docker : Docker W) where
  -- GetWorker of a registered worker answers with status 200 and a body which, read as the wire type, shows that worker: its own ID, tenant, status, model and GPU, the seconds since its creation at the time of the answer, and its requests, if its integers are at most 2 ^ 53 and its last request has a time in JSON. The request changes no other worker, of this one only the metrics, and neither the pool nor the scheduler.
  pub handle_get_worker-Shown :
      (updated now : Time) (worker_id : String) (s : System W) (r : Ref) (j : WireWorkerState)
      → worker_id ≢ ""
      → get_worker s.pool worker_id ≡ some r
      → Shown marshal_time whole_seconds now (s.heap r) j
      → WorkerSmall j
      → let (s', response) =
          handle_get_worker marshal_time whole_seconds docker (updated, now) worker_id s in
        (response.status_code ≡ 200)
        × ((body : Json) × (response.body ≡ some body)
            × (read_struct worker_field body zero_worker ≡ some j))
        × ((q : Ref) → q ≢ r → s'.heap q ≡ s.heap q)
        × ((m : WorkerMetrics) × (s'.heap r ≡ record (s.heap r) { metrics = some m }))
        × (s'.pool ≡ s.pool)
        × (s'.scheduler ≡ s.scheduler)
  handle_get_worker-Shown updated now worker_id s r j named found h small =
      let w' = (report_worker marshal_time whole_seconds (updated, now) (s.heap r)).0 in
      let (code, body, heap, pool, scheduler) =
        worker_body marshal_time whole_seconds docker (updated, now) worker_id s r j named found
          (Shown-json_state marshal_time whole_seconds updated now (s.heap r) j h) small in
      (
        code,
        body,
        λ q n. ap (λ (k : Heap). k q) heap ∙ store_other s.heap r q w' n,
        (
          _,
          ap (λ (k : Heap). k r) heap
              ∙ store_same s.heap r w'
              ∙ reported marshal_time whole_seconds updated now (s.heap r),
        ),
        pool,
        scheduler,
      )

module _ (marshal_time : Time → Option String) (whole_seconds : Duration → ℤ) where
  -- The entry of the answer that is due to each worker of a list.
  abbrev pub Due : (Ref → Time × Time) → Heap → (Ref → WireWorkerState) → Ref → Type 0
  Due times h due r =
      Shown marshal_time whole_seconds (times r).1 (h r) (due r) × WorkerSmall (due r)

  Due-Reads :
      (times : Ref → Time × Time) (h : Heap) (due : Ref → WireWorkerState) (refs : List Ref)
      → All (Due times h due) refs
      → All (λ r. Reads (shown marshal_time whole_seconds times h r)) refs
  Due-Reads times h due [] a = tt
  Due-Reads times h due (r ∷ refs) a = (
    (
      due r,
      Shown-json_state marshal_time whole_seconds (times r).0 (times r).1 (h r) (due r) a.0.0,
      a.0.1,
    ),
    Due-Reads times h due refs a.1,
  )

  expected_entries :
      (times : Ref → Time × Time) (h : Heap) (due : Ref → WireWorkerState) (refs : List Ref)
      → All (Due times h due) refs
      → map (shown marshal_time whole_seconds times h) refs ≡ map (λ r. some (due r)) refs
  expected_entries times h due [] a = refl
  expected_entries times h due (r ∷ refs) a =
      ap₂ (λ x xs. x ∷ xs)
        (Shown-json_state marshal_time whole_seconds (times r).0 (times r).1 (h r) (due r) a.0.0)
        (expected_entries times h due refs a.1)

  -- ListWorkers answers with status 200 and a list of entries for the registered workers of the tenant (all registered workers for the empty tenant) and no others: read as the wire type, the entry of a worker shows that worker's own ID, tenant, status, model, GPU, the seconds since its creation and its requests, if its integers are at most 2 ^ 53 and its last request has a time in JSON.
  pub handle_list_workers-Shown :
      {W : Type 0} (times : Ref → Time × Time) (tenant_id : String) (s : System W)
      (due : Ref → WireWorkerState)
      → ((id : String) (r : Ref)
          → Memᴰ (id, r) s.pool.workers
          → Belongs s.heap tenant_id r
          → Due times s.heap due r)
      → let response = (handle_list_workers marshal_time whole_seconds times tenant_id s).1 in
        (response.status_code ≡ 200)
        × ((entries : List Json) × (refs : List Ref) × (response.body
              ≡ some (write_list (λ j. j) entries))
            × (map read_worker_entry entries ≡ map (λ r. some (due r)) refs)
            × ((r : Ref)
                → Memᴰ r refs
                  ↔ (((id : String) × Memᴰ (id, r) s.pool.workers) × Belongs s.heap tenant_id r)))
  handle_list_workers-Shown times tenant_id s due h =
      let refs = list_workers s.heap s.pool.workers tenant_id in
      let listed : (r : Ref)
          → Memᴰ r refs
            ↔ (((id : String) × Memᴰ (id, r) s.pool.workers) × Belongs s.heap tenant_id r) =
        λ r. (
          λ m.
              let (id, q, k, b, e) = (list_workers-mem s.heap s.pool tenant_id r).0 m in
              rw e ((id, k), b),
          λ ((id, k), b). (list_workers-mem s.heap s.pool tenant_id r).1 (id, r, k, b, refl),
        ) in
      let all : All (Due times s.heap due) refs =
        All-from refs (λ r m. let ((id, k), b) = (listed r).0 m in h id r k b) in
      let (code, (entries, body, read)) =
        listed_bodies marshal_time whole_seconds times tenant_id s
          (Due-Reads times s.heap due refs all) in
      (code, (entries, refs, body, read ∙ expected_entries times s.heap due refs all, listed))
