-- ===== src/Selection/Agreement.antt =====
-- `SelectWorker` against the pool's own `FindIdleWorker`, the tenants, and the scheduler.
use aether_runner.Base.{
  ◌≡◌, refl, sym, ◌∙◌, ◌≢◌, inl, inr, String, Bool, true, false, none, some, [], ◌∷◌, arith,
  if◌then◌else◌, Bool-cases, Option-cases, text_cases, Memᴰ, ◌⊎◌,
}
use aether_runner.Base.Int.{ℤ}
use aether_runner.Base.Assoc.{Map}
use aether_runner.Worker.{WorkerState, status_idle}
use aether_runner.Scheduler.{Scheduler, ScheduleResult, schedule, allocate, has_available_gpu}
use aether_runner.Scheduler.Agreement.{IsKeyed, has_available_gpu-schedule, schedule-allocate}
use aether_runner.Pool.{Ref, Heap, WorkerPool, list_workers, find_idle_worker}
use aether_runner.Pool.Queries.{list_workers-mem}
use aether_runner.Selection.{
  SelectWorkerResult, select_worker, select_worker_for_model, first_warm, first_idle,
  default_vram_required,
}
use aether_runner.Selection.Passes.{IsIdle, HasRoom}
use aether_runner.Selection.Routing.{
  Routing, warm_hit, repurpose, cold_start, exhausted, select_worker-Routing,
  select_worker_for_model-Routing,
}

find_idle_worker-first_warm :
    (h : Heap) (ws : Map Ref) (tenant_id model_name : String)
    → tenant_id ≢ ""
    → find_idle_worker h ws tenant_id model_name
      ≡ first_warm h (list_workers h ws tenant_id) model_name
unfolding find_idle_worker first_warm list_workers
find_idle_worker-first_warm h [] tenant_id model_name n = refl
find_idle_worker-first_warm h ((id, r) ∷ ws) tenant_id model_name n =
    ground (arith, text_cases tenant_id "", find_idle_worker-first_warm h ws tenant_id model_name n)

-- For a named tenant, `SelectWorker` reports a warm hit exactly with the worker that the pool's `FindIdleWorker` finds, and none where it finds none.
pub select_worker-find_idle_worker :
    (s : Scheduler) (h : Heap) (p : WorkerPool) (model_name tenant_id : String)
    → tenant_id ≢ ""
    → let out = select_worker s h p model_name tenant_id in
      (if out.is_warm_hit then out.worker else none)
      ≡ find_idle_worker h p.workers tenant_id model_name
unfolding select_worker
select_worker-find_idle_worker s h p model_name tenant_id n =
    let ws = list_workers h p.workers tenant_id in
    let q = find_idle_worker-first_warm h p.workers tenant_id model_name n in
    elim (Option-cases (first_warm h ws model_name)) [
      | inr (r, e) ↦ rw (q, e, select_worker) refl
      | inl e ↦ elim (Option-cases (first_idle h ws)) [
        | inr (r, f) ↦ rw (q, e, f, select_worker) refl
        | inl f ↦ elim (Bool-cases (has_available_gpu s.gpus default_vram_required)) [
          | inl g ↦ rw (q, e, f, g, select_worker) refl
          | inr g ↦ rw (q, e, f, g, select_worker) refl
        ]
      ]
    ]

-- A worker that may serve the tenant: registered, idle, and the tenant's own.
pub record Serves (h : Heap) (p : WorkerPool) (tenant_id : String) (r : Ref) : Type 0 where
  pub registered : (id : String) × Memᴰ (id, r) p.workers
  pub tenant : (h r).tenant_id ≡ tenant_id
  pub idle : (h r).status ≡ status_idle

listed-Serves :
    (h : Heap) (p : WorkerPool) (tenant_id : String) (r : Ref)
    → tenant_id ≢ ""
    → Memᴰ r (list_workers h p.workers tenant_id)
    → IsIdle (h r)
    → Serves h p tenant_id r
listed-Serves h p tenant_id r n m i =
    let (id, q, k, b, e) = (list_workers-mem h p tenant_id r).0 m in
    record {
      registered = (id, rw e k);
      tenant = rw e (elim b [ inl x ↦ absurd (n x) | inr x ↦ x ]);
      idle = i;
    }

Routing-Serves :
    (h : Heap) (p : WorkerPool) (tenant_id model_name : String) (Reusable : WorkerState → Type 0)
    (free : Bool) (out : SelectWorkerResult) (r : Ref)
    → tenant_id ≢ ""
    → ((w : WorkerState) → Reusable w → IsIdle w)
    → Routing h (list_workers h p.workers tenant_id) model_name Reusable free out
    → out.worker ≡ some r
    → Serves h p tenant_id r
Routing-Serves h p tenant_id model_name Reusable free out r n i routing e = elim routing [
  | warm_hit q m x w _ _ ↦
      let both : some q ≡ some r = sym w ∙ e in
      let same : r ≡ q = cc in rw same (listed-Serves h p tenant_id q n m x.0)
  | repurpose q m _ x w _ _ ↦
      let both : some q ≡ some r = sym w ∙ e in
      let same : r ≡ q = cc in rw same (listed-Serves h p tenant_id q n m (i (h q) x))
  | cold_start _ _ _ w _ _ ↦ let bad : none ≡ some r = sym w ∙ e in cc
  | exhausted _ _ _ w _ _ ↦ let bad : none ≡ some r = sym w ∙ e in cc
]

-- A worker that `SelectWorkerForModel` or `SelectWorker` hands to a named tenant is registered, idle and the tenant's own.
pub select_worker-Serves :
    (s : Scheduler) (h : Heap) (p : WorkerPool) (model_name tenant_id : String) (v : ℤ) (r : Ref)
    → tenant_id ≢ ""
    → ((select_worker s h p model_name tenant_id).worker ≡ some r)
      ⊎ ((select_worker_for_model s h p model_name v tenant_id).worker ≡ some r)
    → Serves h p tenant_id r
select_worker-Serves s h p model_name tenant_id v r n (inl e) =
    Routing-Serves h p tenant_id model_name IsIdle _ _ r n (λ w i. i)
      (select_worker-Routing s h p model_name tenant_id) e
select_worker-Serves s h p model_name tenant_id v r n (inr e) =
    Routing-Serves h p tenant_id model_name (HasRoom v) _ _ r n (λ w i. i.0)
      (select_worker_for_model-Routing s h p model_name v tenant_id) e

-- A cold start that `SelectWorkerForModel` announces can be carried out: on GPUs kept under their own UUIDs, `Schedule` then finds a place and `Allocate` there succeeds.
pub select_worker_for_model-allocate :
    (s : Scheduler) (h : Heap) (p : WorkerPool) (model_name tenant_id worker_id : String) (v : ℤ)
    → IsKeyed s.gpus
    → (select_worker_for_model s h p model_name v tenant_id).is_cold_hit ≡ true
    → (r : ScheduleResult) × (schedule s model_name v ≡ some r)
      × ((allocate s r.gpu_uuid worker_id model_name v).1 ≡ true)
select_worker_for_model-allocate s h p model_name tenant_id worker_id v k cold =
    elim (select_worker_for_model-Routing s h p model_name v tenant_id) [
      | warm_hit _ _ _ _ _ c ↦ let bad : true ≡ false = sym cold ∙ c in cc
      | repurpose _ _ _ _ _ _ c ↦ let bad : true ≡ false = sym cold ∙ c in cc
      | exhausted _ _ _ _ _ c ↦ let bad : true ≡ false = sym cold ∙ c in cc
      | cold_start _ _ g _ _ _ ↦ elim (Option-cases (schedule s model_name v)) [
        | inl e ↦ absurd ((has_available_gpu-schedule s model_name v).0 g e)
        | inr (r, e) ↦ (r, e, (schedule-allocate s model_name worker_id v r k e).1)
      ]
    ]
