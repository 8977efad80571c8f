-- ===== src/Api.antt =====
pub mod Errors
pub mod Reports
pub mod Start
pub mod Startup
pub mod Creation
pub mod Lifecycle
pub mod IdleCheck
pub mod Server
pub mod Bodies
pub mod Routes
mod Tests
-- pkg/api/handlers.go: the requests that create and delete workers, and the clean-up; and the
-- closure of cmd/aether/main.go that terminates an idle worker.
-- A handler is a function of the whole system. The goroutine that starts a container is in Api/Start.
use Prim.Native.String.{◌++◌ as ◌<>◌}
use aether_runner.Base.{
  ℕ, zero, suc, String, ◌==◌, Bool, true, false, Option, none, some, List, [], ◌∷◌, if◌then◌else◌,
  ◌⊎◌, inl, inr,
}
use aether_runner.Base.Int.{ℤ, pos}
use aether_runner.Base.Clock.{Time, Duration}
use aether_runner.Worker.{
  WorkerState, WorkerStatus, ModelConfig, GpuAssignment, new_worker_state, transition_to,
  set_gpu_assignment, get_container_id, status_starting, status_terminating,
}
use aether_runner.Scheduler.{Scheduler, ScheduleResult, schedule, allocate, release}
use aether_runner.Pool.{
  Ref, Heap, store, WorkerPool, PoolError, add_worker, get_worker, remove_worker,
}
use aether_runner.Docker.{Docker}
use aether_runner.Api.Errors.{
  ApiError, literal, error_of, with_message, err_invalid_request, err_resource_exhausted,
  err_tenant_quota_exceeded, err_worker_not_found,
}

-- What the handlers share. `fresh` is where the next worker is allocated.
pub record System (W : Type 0) : Type 0 where
  pub heap : Heap
  pub fresh : Ref
  pub pool : WorkerPool
  pub scheduler : Scheduler
  pub docker : W

pub record CreateWorkerRequest : Type 0 where
  pub model_image : String
  pub tenant_id : String
  pub model : Option ModelConfig
  pub gpu_count : ℤ

pub record CreateWorkerResponse : Type 0 where
  pub worker_id : String
  pub status : WorkerStatus

-- The arguments of `go h.startWorkerContainer(...)`.
pub record Job : Type 0 where
  pub worker : Ref
  pub image : String
  pub gpu : ScheduleResult

pub data Answer : Type 0 where
  refused : ApiError → Answer
  accepted : CreateWorkerResponse → Job → Answer

-- The request's model, or the default of 8000 MB that is named after the image.
abbrev pub model_or_default : CreateWorkerRequest → ModelConfig
model_or_default req = elim req.model [
  | none ↦ record { name = req.model_image; version = ""; vram_requirement = pos 8000 }
  | some m ↦ m
]

abbrev pub assignment : ScheduleResult → ModelConfig → GpuAssignment
assignment r model = record {
  index = r.gpu_index;
  uuid = r.gpu_uuid;
  memory_allocated_mb = model.vram_requirement;
}

-- "Release GPU resources", which the handlers and the idle checker share.
unfoldable pub release_resources : Scheduler → String → WorkerState → Scheduler
release_resources s worker_id w = elim w.gpu_assignment [
  | none ↦ s
  | some g ↦ elim w.model [ none ↦ s | some m ↦ release s g.uuid worker_id m.vram_requirement ]
]

module _ {W : Type 0} where
  abbrev pub write : System W → Ref → WorkerState → System W
  write s r w = record s { heap = store s.heap r w }

  -- `CreateWorker` from the new worker on, for the GPU that `Schedule` chose.
  unfoldable pub enlist :
      Time → String → CreateWorkerRequest → ScheduleResult → System W → System W × Answer
  enlist now worker_id req chosen s =
      let model = model_or_default req in
      let w = (new_worker_state now now worker_id req.tenant_id (some model)).0 in
      let s' = record (write s s.fresh w) { fresh = suc s.fresh } in
      let (pool', err) = add_worker s'.heap s.pool s.fresh in
      elim err [
        | some e ↦ (s', refused (with_message err_tenant_quota_exceeded (error_of e)))
        | none ↦
            let placed =
              allocate s.scheduler chosen.gpu_uuid worker_id model.name model.vram_requirement in
            (
              record (write s' s.fresh (set_gpu_assignment w (some (assignment chosen model)))) {
                pool = pool';
                scheduler = placed.0;
              },
              accepted (record { worker_id = worker_id; status = status_starting })
                  (record { worker = s.fresh; image = req.model_image; gpu = chosen }),
            )
      ]

  -- The body as the decoder leaves it, the error's text where it fails; and the new UUID.
  unfoldable pub create_worker :
      Time → String → String ⊎ CreateWorkerRequest → System W → System W × Answer
  create_worker now worker_id (inl err) s =
      (s, refused (with_message err_invalid_request (literal ("invalid JSON body: " <> err))))
  create_worker now worker_id (inr req) s =
      if req.model_image == ""
      then (s, refused (with_message err_invalid_request (literal "model_image is required")))
      else if req.tenant_id == ""
      then (s, refused (with_message err_invalid_request (literal "tenant_id is required")))
      else let model = model_or_default req in
        elim (schedule s.scheduler model.name model.vram_requirement) [
          | none ↦ (s, refused err_resource_exhausted)
          | some chosen ↦ enlist now worker_id req chosen s
        ]

  module _ (docker : Docker W) where
    -- "Clean up container if it exists"
    unfoldable pub clean_up_container : W → WorkerState → W
    clean_up_container d w =
        if get_container_id w == "" then d else (docker.terminate_container d w.container_id).0

    -- The error of `TransitionTo` is not looked at.
    unfoldable pub terminate_worker : Time → Ref → System W → System W
    terminate_worker now r s =
        let w = (transition_to now now (s.heap r) status_terminating).worker in
        record (write s r w) {
          docker = clean_up_container s.docker w;
          scheduler = release_resources s.scheduler w.worker_id w;
          pool = remove_worker s.pool w.worker_id;
        }

    -- The closure that main.go gives to `StartIdleChecker`; it always returns nil.
    unfoldable pub terminate_idle : System W → String → System W × Option String
    terminate_idle s worker_id = elim (get_worker s.pool worker_id) [
      | none ↦ (s, none)
      | some r ↦ (
        record s {
          docker = clean_up_container s.docker (s.heap r);
          scheduler = release_resources s.scheduler worker_id (s.heap r);
          pool = remove_worker s.pool worker_id;
        },
        none,
      )
    ]

  -- `DeleteWorker`: an error, or the worker whose clean-up goes to the background.
  unfoldable pub delete_worker : String → System W → ApiError ⊎ Ref
  delete_worker worker_id s =
      if worker_id == ""
      then inl (with_message err_invalid_request (literal "worker ID is required"))
      else elim (get_worker s.pool worker_id) [ none ↦ inl err_worker_not_found | some r ↦ inr r ]
