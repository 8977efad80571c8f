-- ===== src/Selection/Routing.antt =====
-- The order of preference of `SelectWorker` and `SelectWorkerForModel`.
use aether_runner.Base.{
  ◌≡◌, refl, inl, inr, String, Bool, true, false, none, some, List, Bool-cases, Memᴰ, All,
}
use aether_runner.Base.Int.{ℤ}
use aether_runner.Worker.{WorkerState}
use aether_runner.Scheduler.{Scheduler, has_available_gpu}
use aether_runner.Pool.{Ref, Heap, WorkerPool, list_workers}
use aether_runner.Selection.{
  SelectWorkerResult, select_worker, select_worker_for_model, first_warm, first_idle,
  first_idle_with_room, default_vram_required,
}
use aether_runner.Selection.Passes.{
  First, nowhere, here, first_match-First, first_warm-first_match, first_idle-first_match,
  first_idle_with_room-first_match, warm, idle, roomy, IsIdle, HasModel, HasRoom, warm-HasModel,
  idle-IsIdle, roomy-HasRoom,
}

-- The four answers in order of preference, each only where those before it are not to be had: among the workers that are listed, one with the model; one that can be reused; a GPU with the amount free; nothing.
pub data Routing (h : Heap) (listed : List Ref) (model_name : String)
    (Reusable : WorkerState → Type 0) (free : Bool) (out : SelectWorkerResult) : Type 0 where
  warm_hit :
      (r : Ref)
      → Memᴰ r listed
      → HasModel model_name (h r)
      → out.worker ≡ some r
      → out.is_warm_hit ≡ true
      → out.is_cold_hit ≡ false
      → Routing h listed model_name Reusable free out
  repurpose :
      (r : Ref)
      → Memᴰ r listed
      → All (λ q. ¬ HasModel model_name (h q)) listed
      → Reusable (h r)
      → out.worker ≡ some r
      → out.is_warm_hit ≡ false
      → out.is_cold_hit ≡ false
      → Routing h listed model_name Reusable free out
  cold_start :
      All (λ q. ¬ HasModel model_name (h q)) listed
      → All (λ q. ¬ Reusable (h q)) listed
      → free ≡ true
      → out.worker ≡ none
      → out.is_warm_hit ≡ false
      → out.is_cold_hit ≡ true
      → Routing h listed model_name Reusable free out
  exhausted :
      All (λ q. ¬ HasModel model_name (h q)) listed
      → All (λ q. ¬ Reusable (h q)) listed
      → free ≡ false
      → out.worker ≡ none
      → out.is_warm_hit ≡ false
      → out.is_cold_hit ≡ false
      → Routing h listed model_name Reusable free out

HasModel-search :
    (h : Heap) (rs : List Ref) (model_name : String)
    → First (λ r. HasModel model_name (h r)) rs (first_warm h rs model_name)
HasModel-search h rs model_name = rw first_warm-first_match (
    first_match-First (λ r. HasModel model_name (h r)) (warm h model_name) rs
      (warm-HasModel h model_name))

IsIdle-search : (h : Heap) (rs : List Ref) → First (λ r. IsIdle (h r)) rs (first_idle h rs)
IsIdle-search h rs =
    rw first_idle-first_match (first_match-First (λ r. IsIdle (h r)) (idle h) rs (idle-IsIdle h))

HasRoom-search :
    (h : Heap) (rs : List Ref) (v : ℤ)
    → First (λ r. HasRoom v (h r)) rs (first_idle_with_room h rs v)
HasRoom-search h rs v =
    rw first_idle_with_room-first_match
      (first_match-First (λ r. HasRoom v (h r)) (roomy h v) rs (roomy-HasRoom h v))

-- `SelectWorker` answers with an idle listed worker that holds the model if there is one, else with any idle listed worker, else with a cold start if a GPU has 8000 MB free, else with nothing.
pub select_worker-Routing :
    (s : Scheduler) (h : Heap) (p : WorkerPool) (model_name tenant_id : String)
    → Routing h
        (list_workers h p.workers tenant_id)
        model_name
        IsIdle
        (has_available_gpu s.gpus default_vram_required)
        (select_worker s h p model_name tenant_id)
unfolding select_worker
select_worker-Routing s h p model_name tenant_id =
    let ws = list_workers h p.workers tenant_id in
    elim (HasModel-search h ws model_name) [
      | here r e m q ↦ rw (e, select_worker) (warm_hit r m q refl refl refl)
      | nowhere e a ↦ elim (IsIdle-search h ws) [
        | here r f m q ↦ rw (e, f, select_worker) (repurpose r m a q refl refl refl)
        | nowhere f b ↦ elim (Bool-cases (has_available_gpu s.gpus default_vram_required)) [
          | inl g ↦ rw (e, f, g, select_worker) (cold_start a b refl refl refl refl)
          | inr g ↦ rw (e, f, g, select_worker) (exhausted a b refl refl refl refl)
        ]
      ]
    ]

-- `SelectWorkerForModel` answers with an idle listed worker that holds the model if there is one, else with an idle listed one whose GPU share is at least the amount, else with a cold start if a GPU has that amount free, else with nothing.
pub select_worker_for_model-Routing :
    (s : Scheduler) (h : Heap) (p : WorkerPool) (model_name : String) (v : ℤ) (tenant_id : String)
    → Routing h
        (list_workers h p.workers tenant_id)
        model_name
        (HasRoom v)
        (has_available_gpu s.gpus v)
        (select_worker_for_model s h p model_name v tenant_id)
unfolding select_worker_for_model
select_worker_for_model-Routing s h p model_name v tenant_id =
    let ws = list_workers h p.workers tenant_id in
    elim (HasModel-search h ws model_name) [
      | here r e m q ↦ rw (e, select_worker_for_model) (warm_hit r m q refl refl refl)
      | nowhere e a ↦ elim (HasRoom-search h ws v) [
        | here r f m q ↦ rw (e, f, select_worker_for_model) (repurpose r m a q refl refl refl)
        | nowhere f b ↦ elim (Bool-cases (has_available_gpu s.gpus v)) [
          | inl g ↦ rw (e, f, g, select_worker_for_model) (cold_start a b refl refl refl refl)
          | inr g ↦ rw (e, f, g, select_worker_for_model) (exhausted a b refl refl refl refl)
        ]
      ]
    ]
