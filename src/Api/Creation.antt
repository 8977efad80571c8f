-- ===== src/Api/Creation.antt =====
-- `CreateWorker`: what it leaves, on every way out.
use aether_runner.Base.{◌≡◌, refl, String, ◌==◌, true, some, nat_eq_iff, if◌then◌else◌}
use aether_runner.Base.Int.{pos, ◌<ℤ◌}
use aether_runner.Base.Clock.{Time}
use aether_runner.Worker.{WorkerState, zero_metrics, new_worker_state, status_pending}
use aether_runner.Scheduler.{Scheduler, schedule, allocate}
use aether_runner.Pool.{Ref, Heap, store, count, get_worker}
use aether_runner.Api.{
  System, CreateWorkerRequest, CreateWorkerResponse, Job, Answer, refused, accepted,
  model_or_default, assignment,
}
use aether_runner.Api.Errors.{ApiError}

-- What a created worker is, and where it is known.
pub record Enlisted {W : Type 0} (s s' : System W) (id : String) (req : CreateWorkerRequest)
    (job : Job) : Type 0 where
  pub scheduled :
      schedule s.scheduler (model_or_default req).name (model_or_default req).vram_requirement
      ≡ some job.gpu
  pub allocated :
      allocate s.scheduler job.gpu.gpu_uuid id
        (model_or_default req).name
        (model_or_default req).vram_requirement
      ≡ (s'.scheduler, true)
  pub room : pos (count s.pool.workers) <ℤ s.pool.max_workers
  pub known :
      (k : String)
      → get_worker s'.pool k ≡ (if id == k then some job.worker else get_worker s.pool k)
  pub worker_id : (s'.heap job.worker).worker_id ≡ id
  pub tenant_id : (s'.heap job.worker).tenant_id ≡ req.tenant_id
  pub status : (s'.heap job.worker).status ≡ status_pending
  pub container : (s'.heap job.worker).container_id ≡ ""
  pub metrics : (s'.heap job.worker).metrics ≡ some zero_metrics
  pub model : (s'.heap job.worker).model ≡ some (model_or_default req)
  pub gpu : (s'.heap job.worker).gpu_assignment ≡ some (assignment job.gpu (model_or_default req))

-- The ways out of `CreateWorker` for a request.
pub data Created {W : Type 0} (s : System W) (id : String) (req : CreateWorkerRequest)
    (s' : System W) (a : Answer) : Type 0 where
  turned_down :
      (e : ApiError)
      → a ≡ refused e
      → s'.pool ≡ s.pool
      → s'.scheduler ≡ s.scheduler
      → s'.docker ≡ s.docker
      → Created s id req s' a
  taken :
      (resp : CreateWorkerResponse) (job : Job)
      → a ≡ accepted resp job
      → s'.docker ≡ s.docker
      → Enlisted s s' id req job
      → Created s id req s' a

pub store_same : (h : Heap) (r : Ref) (w : WorkerState) → store h r w r ≡ w
store_same h r w = rw ((nat_eq_iff r r).1 refl)

module _ {W : Type 0} (now : Time) (id : String) (req : CreateWorkerRequest) (s : System W) where
  -- The worker before it has a GPU, and the heap with it.
  abbrev newcomer : WorkerState
  newcomer = (new_worker_state now now id req.tenant_id (some (model_or_default req))).0

  abbrev heap_with : Heap
  heap_with = store s.heap s.fresh newcomer
