-- ===== src/Api/Server.antt =====
pub mod Sanity
pub mod Race
pub mod Finality
pub mod Sequence
pub mod Running
mod Tests
-- The server as a whole: requests, goroutines and the idle checker in any order.
-- pkg/api/handlers.go runs every request and every `go` statement concurrently. A task is what such a
-- goroutine has left to do, and one step of the server is one call of one task, or a new request. A
-- call that takes a lock for its whole body is one step; `AddWorker`, which takes none over its check
-- and its `Store`, is two. The removal from the registry is one step with its counter, which `Stats`
-- alone reads.
use aether_runner.Base.{
  suc, ℕ, ◌<◌, ◌≡◌, String, Option, none, some, List, [], ◌∷◌, ◌++◌, inr, ◌⊎◌, if◌then◌else◌,
}
use aether_runner.Base.Int.{ℤ, pos, pos_part, ◌≤ℤ◌}
use aether_runner.Base.Machine.{half_range}
use aether_runner.Base.Clock.{Time, Duration}
use aether_runner.Worker.{
  transition_to, update_uptime, refresh_for_json, new_worker_state, set_gpu_assignment,
  status_terminating,
}
use aether_runner.Scheduler.{ScheduleResult, schedule, allocate}
use aether_runner.Pool.{Ref, has_room_for_one, store_worker, get_worker, remove_worker}
use aether_runner.Docker.{Docker}
use aether_runner.Api.{
  System, CreateWorkerRequest, Job, model_or_default, assignment, write, clean_up_container,
  release_resources, delete_worker,
}
use aether_runner.Api.Start.{
  Stage, starting, pulling, launching, storing, waiting, running, cleaning, advance,
}

-- What is left of `terminateWorker`, and of the closure for idle workers, which has no first call.
pub data Cleaning : Type 0 where
  marking : Cleaning
  stopping : Cleaning
  releasing : Cleaning
  removing : Cleaning

-- A request before `AddWorker`, between its check and its `Store`, before `Allocate` and before `SetGPUAssignment`; a container's start; and a clean-up of a worker under an ID.
pub data Task : Type 0 where
  admitted : String → CreateWorkerRequest → ScheduleResult → Task
  counted : Ref → String → CreateWorkerRequest → ScheduleResult → Task
  enlisted : Ref → String → CreateWorkerRequest → ScheduleResult → Task
  placed : Ref → CreateWorkerRequest → ScheduleResult → Task
  launches : Job → Stage → Task
  cleans_up : Ref → String → Cleaning → Task

pub record Server (W : Type 0) : Type 0 where
  pub system : System W
  pub tasks : List Task

-- One task of several, and the others.
pub data Pick (t : Task) : List Task → List Task → Type 0 where
  first : {ts : List Task} → Pick t (t ∷ ts) ts
  later : {u : Task} {ts ts' : List Task} → Pick t ts ts' → Pick t (u ∷ ts) (u ∷ ts')

-- What is left of a start; a failed one calls `terminateWorker`.
abbrev pub next_task : Job → String → Stage → Task
next_task job id cleaning = cleans_up job.worker id marking
next_task job id starting = launches job starting
next_task job id pulling = launches job pulling
next_task job id launching = launches job launching
next_task job id (storing c) = launches job (storing c)
next_task job id (waiting c) = launches job (waiting c)
next_task job id running = launches job running

abbrev pub remaining : Job → String → Option Stage → List Task
remaining job id none = []
remaining job id (some stage) = next_task job id stage ∷ []

abbrev pub cleaning_left : Ref → String → Option Cleaning → List Task
cleaning_left r id none = []
cleaning_left r id (some stage) = cleans_up r id stage ∷ []

-- An amount that a request may ask for. The handler does not check that it is not negative.
abbrev pub IsAmount : ℤ → Type 0
IsAmount v = (pos 0 ≤ℤ v) × (pos_part v < half_range)

module _ {W : Type 0} where
  -- `NewWorkerState` and the capacity check of `AddWorker`: the system, and what is left to do.
  unfoldable pub enroll :
      Time → String → CreateWorkerRequest → ScheduleResult → System W → System W × List Task
  enroll now id req chosen s =
      let w = (new_worker_state now now id req.tenant_id (some (model_or_default req))).0 in
      (
        record (write s s.fresh w) { fresh = suc s.fresh },
        if has_room_for_one s.pool then counted s.fresh id req chosen ∷ [] else [],
      )

  -- The `Store` of `AddWorker`, and its counter, which `Stats` alone reads.
  unfoldable pub register : Ref → System W → System W
  register r s = record s { pool = store_worker s.heap s.pool r }

  -- `Allocate`, whose result is not looked at.
  unfoldable pub place : String → CreateWorkerRequest → ScheduleResult → System W → System W
  place id req chosen s =
      let m = model_or_default req in
      record s { scheduler = (allocate s.scheduler chosen.gpu_uuid id m.name m.vram_requirement).0 }

  -- `SetGPUAssignment`
  unfoldable pub assign : Ref → CreateWorkerRequest → ScheduleResult → System W → System W
  assign r req chosen s =
      write s r (set_gpu_assignment (s.heap r) (some (assignment chosen (model_or_default req))))

module _ {W : Type 0} (docker : Docker W) where
  -- One call of a clean-up, and what it has left.
  unfoldable pub clean : Time → Ref → String → Cleaning → System W → System W × Option Cleaning
  clean now r id marking s =
      (write s r (transition_to now now (s.heap r) status_terminating).worker, some stopping)
  clean now r id stopping s =
      (record s { docker = clean_up_container docker s.docker (s.heap r) }, some releasing)
  clean now r id releasing s =
      (record s { scheduler = release_resources s.scheduler id (s.heap r) }, some removing)
  clean now r id removing s = (record s { pool = remove_worker s.pool id }, none)

  pub data Step (s s' : Server W) : Type 0 where
    admits :
        (id : String) (req : CreateWorkerRequest) (chosen : ScheduleResult)
        → schedule s.system.scheduler
            (model_or_default req).name
            (model_or_default req).vram_requirement
          ≡ some chosen
        → s'.system ≡ s.system
        → s'.tasks ≡ admitted id req chosen ∷ s.tasks
        → Step s s'
    enrolls :
        (now : Time) (id : String) (req : CreateWorkerRequest) (chosen : ScheduleResult)
        (ts : List Task)
        → Pick (admitted id req chosen) s.tasks ts
        → IsAmount (model_or_default req).vram_requirement
        → s'.system ≡ (enroll now id req chosen s.system).0
        → s'.tasks ≡ (enroll now id req chosen s.system).1 ++ ts
        → Step s s'
    registers :
        (r : Ref) (id : String) (req : CreateWorkerRequest) (chosen : ScheduleResult)
        (ts : List Task)
        → Pick (counted r id req chosen) s.tasks ts
        → s'.system ≡ register r s.system
        → s'.tasks ≡ enlisted r id req chosen ∷ ts
        → Step s s'
    places :
        (r : Ref) (id : String) (req : CreateWorkerRequest) (chosen : ScheduleResult)
        (ts : List Task)
        → Pick (enlisted r id req chosen) s.tasks ts
        → IsAmount (model_or_default req).vram_requirement
        → s'.system ≡ place id req chosen s.system
        → s'.tasks ≡ placed r req chosen ∷ ts
        → Step s s'
    assigns :
        (r : Ref) (req : CreateWorkerRequest) (chosen : ScheduleResult) (ts : List Task)
        → Pick (placed r req chosen) s.tasks ts
        → s'.system ≡ assign r req chosen s.system
        → s'.tasks
          ≡ launches (record { worker = r; image = req.model_image; gpu = chosen }) starting ∷ ts
        → Step s s'
    advances :
        (now : Time) (job : Job) (stage : Stage) (ts : List Task)
        → Pick (launches job stage) s.tasks ts
        → s'.system ≡ (advance docker now job stage s.system).0
        → s'.tasks
          ≡ remaining job
              (s.system.heap job.worker).worker_id
              (advance docker now job stage s.system).1
            ++ ts
        → Step s s'
    deletes :
        (id : String) (r : Ref)
        → delete_worker id s.system ≡ inr r
        → s'.system ≡ s.system
        → s'.tasks ≡ cleans_up r (s.system.heap r).worker_id marking ∷ s.tasks
        → Step s s'
    idles :
        (id : String) (r : Ref)
        → get_worker s.system.pool id ≡ some r
        → s'.system ≡ s.system
        → s'.tasks ≡ cleans_up r id stopping ∷ s.tasks
        → Step s s'
    cleans :
        (now : Time) (r : Ref) (id : String) (stage : Cleaning) (ts : List Task)
        → Pick (cleans_up r id stage) s.tasks ts
        → s'.system ≡ (clean now r id stage s.system).0
        → s'.tasks ≡ cleaning_left r id (clean now r id stage s.system).1 ++ ts
        → Step s s'
    -- `UpdateUptime`, `ToJSON` and `GetContainerInfo` of a request that reports.
    updates :
        (whole_seconds : Duration → ℤ) (now : Time) (r : Ref)
        → s'.system ≡ write s.system r (update_uptime whole_seconds now (s.system.heap r))
        → s'.tasks ≡ s.tasks
        → Step s s'
    marshals :
        (whole_seconds : Duration → ℤ) (now : Time) (r : Ref)
        → s'.system ≡ write s.system r (refresh_for_json whole_seconds now (s.system.heap r))
        → s'.tasks ≡ s.tasks
        → Step s s'
    inspects :
        (id : String)
        → s'.system ≡ record s.system { docker = (docker.get_container_info s.system.docker id).0 }
        → s'.tasks ≡ s.tasks
        → Step s s'

  pub data Steps : Server W → Server W → Type 0 where
    here : {s : Server W} → Steps s s
    then_step : {s s' s'' : Server W} → Steps s s' → Step s' s'' → Steps s s''
