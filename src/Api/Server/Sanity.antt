-- ===== src/Api/Server/Sanity.antt =====
-- What every interleaving of the server keeps: sound GPUs, and a pool of distinct keys.
use aether_runner.Base.{
  ◌≡◌, refl, sym, ◌∙◌, inl, inr, String, some, Bool-cases, Option-cases, nat_eq,
}
use aether_runner.Base.Clock.{Time}
use aether_runner.Base.Assoc.{Distinct, insert-Distinct, delete-Distinct}
use aether_runner.Worker.{
  WorkerState, ModelConfig, update_uptime, refresh_for_json, transition_to, set_container_id,
  set_gpu_assignment, new_worker_state, status_starting, status_running, status_terminating,
}
use aether_runner.Worker.History.{refresh_for_json-same}
use aether_runner.Scheduler.{Scheduler, ScheduleResult}
use aether_runner.Scheduler.Accounting.{Inv, allocate-Inv, release-Inv}
use aether_runner.Pool.{Ref, Heap, store, WorkerPoolConfig, remove_worker}
use aether_runner.Pool.Registry.{Bounded}
use aether_runner.Docker.{Docker}
use aether_runner.Api.{
  System, CreateWorkerRequest, Job, model_or_default, assignment, write, terminate_worker,
  release_resources, remove_worker,
}
use aether_runner.Api.Lifecycle.{transition-same}
use aether_runner.Api.Start.{
  Stage, starting, pulling, launching, storing, waiting, running, cleaning, advance,
}
use aether_runner.Api.Server.{
  registers, register, Server, Step, Steps, here, then_step, admits, enrolls, places, assigns,
  advances, deletes, updates, marshals, inspects, idles, cleans, IsAmount, Cleaning, marking,
  stopping, releasing, removing, enroll, place, assign, clean, register, registers,
}

-- The worker's model asks for an amount.
abbrev pub Fits : WorkerState → Type 0
Fits w = (m : ModelConfig) → w.model ≡ some m → IsAmount m.vram_requirement

-- A sound system whose pool is within its maximum.
pub record IsSane {W : Type 0} (config : WorkerPoolConfig) (s : System W) : Type 0 where
  pub gpus : Inv s.scheduler
  pub pool : Bounded config s.pool
  pub models : (r : Ref) → Fits (s.heap r)

-- It does not say how many workers are registered.
pub record IsSound {W : Type 0} (config : WorkerPoolConfig) (s : System W) : Type 0 where
  pub gpus : Inv s.scheduler
  pub same_max : s.pool.max_workers ≡ config.max_workers
  pub distinct : Distinct s.pool.workers
  pub models : (r : Ref) → Fits (s.heap r)

pub IsSane-IsSound :
    {W : Type 0} (config : WorkerPoolConfig) (s : System W) → IsSane config s → IsSound config s
IsSane-IsSound config s i = record {
  gpus = i.gpus;
  same_max = i.pool.same_max;
  distinct = i.pool.distinct;
  models = i.models;
}

store-Fits :
    (h : Heap) (r : Ref) (w : WorkerState)
    → Fits w
    → ((q : Ref) → Fits (h q))
    → (q : Ref) → Fits (store h r w q)
store-Fits h r w f fs q = elim (Bool-cases (nat_eq r q)) [ inl e ↦ rw e f | inr e ↦ rw e (fs q) ]

same-Fits : (v w : WorkerState) → w.model ≡ v.model → Fits v → Fits w
same-Fits v w e f m q = f m (sym e ∙ q)

release_resources-Inv :
    (s : Scheduler) (id : String) (w : WorkerState)
    → Inv s
    → Fits w
    → Inv (release_resources s id w)
unfolding release_resources
release_resources-Inv s id w i f = elim (Option-cases w.gpu_assignment) [
  | inl e ↦ rw (e, release_resources) i
  | inr (g, e) ↦ elim (Option-cases w.model) [
    | inl m ↦ rw (e, m, release_resources) i
    | inr (m, q) ↦
        let (p, l) = f m q in
        rw (e, q, release_resources) (release-Inv s g.uuid id m.vram_requirement i p l)
  ]
]

module _ {W : Type 0} (docker : Docker W) (config : WorkerPoolConfig) where
  write-IsSound :
      (s : System W) (r : Ref) (w : WorkerState)
      → IsSound config s
      → w.model ≡ (s.heap r).model
      → IsSound config (write s r w)
  write-IsSound s r w i e = record {
    gpus = i.gpus;
    same_max = i.same_max;
    distinct = i.distinct;
    models = store-Fits s.heap r w (same-Fits (s.heap r) w e (i.models r)) i.models;
  }

  daemon-IsSound :
      (s : System W) (d : W) → IsSound config s → IsSound config (record s { docker = d })
  daemon-IsSound s d i = record {
    gpus = i.gpus;
    same_max = i.same_max;
    distinct = i.distinct;
    models = i.models;
  }

  terminate_worker-IsSound :
      (now : Time) (r : Ref) (s : System W)
      → IsSound config s
      → IsSound config (terminate_worker docker now r s)
  unfolding terminate_worker remove_worker
  terminate_worker-IsSound now r s i =
      let w = (transition_to now now (s.heap r) status_terminating).worker in
      let same = (transition-same now (s.heap r) status_terminating).1 in
      let fits : Fits w = same-Fits (s.heap r) w same (i.models r) in
      record {
        gpus = release_resources-Inv s.scheduler w.worker_id w i.gpus fits;
        same_max = i.same_max;
        distinct = delete-Distinct w.worker_id s.pool.workers i.distinct;
        models = store-Fits s.heap r w fits i.models;
      }

  advance-IsSound :
      (now : Time) (job : Job) (stage : Stage) (s : System W)
      → IsSound config s
      → IsSound config (advance docker now job stage s).0
  unfolding advance set_container_id
  advance-IsSound now job starting s i =
      let o = transition_to now now (s.heap job.worker) status_starting in
      let after =
        write-IsSound s job.worker o.worker i
          (transition-same now (s.heap job.worker) status_starting).1 in
      elim (Option-cases o.error) [ inl e ↦ rw (e, advance) after | inr (x, e) ↦ rw (e, advance) i ]
  advance-IsSound now job pulling s i = daemon-IsSound s _ i
  advance-IsSound now job launching s i = daemon-IsSound s _ i
  advance-IsSound now job (storing id) s i =
      write-IsSound s job.worker (set_container_id (s.heap job.worker) id) i refl
  advance-IsSound now job (waiting id) s i = daemon-IsSound s _ i
  advance-IsSound now job running s i =
      let o = transition_to now now (s.heap job.worker) status_running in
      let after =
        write-IsSound s job.worker o.worker i
          (transition-same now (s.heap job.worker) status_running).1 in
      elim (Option-cases o.error) [ inl e ↦ rw (e, advance) after | inr (x, e) ↦ rw (e, advance) i ]
  advance-IsSound now job cleaning s i = terminate_worker-IsSound now job.worker s i

  enroll-IsSound :
      (now : Time) (id : String) (req : CreateWorkerRequest) (chosen : ScheduleResult)
      (s : System W)
      → IsAmount (model_or_default req).vram_requirement
      → IsSound config s
      → IsSound config (enroll now id req chosen s).0
  unfolding enroll new_worker_state
  enroll-IsSound now id req chosen s a i =
      let m = model_or_default req in
      let w = (new_worker_state now now id req.tenant_id (some m)).0 in
      let fits : Fits w = λ q e. let same : q ≡ m = cc in rw same a in
      record {
        gpus = i.gpus;
        same_max = i.same_max;
        distinct = i.distinct;
        models = store-Fits s.heap s.fresh w fits i.models;
      }

  register-IsSound : (r : Ref) (s : System W) → IsSound config s → IsSound config (register r s)
  unfolding register
  register-IsSound r s i = record {
    gpus = i.gpus;
    same_max = i.same_max;
    distinct = insert-Distinct (s.heap r).worker_id r s.pool.workers i.distinct;
    models = i.models;
  }

  place-IsSound :
      (id : String) (req : CreateWorkerRequest) (chosen : ScheduleResult) (s : System W)
      → IsAmount (model_or_default req).vram_requirement
      → IsSound config s
      → IsSound config (place id req chosen s)
  unfolding place
  place-IsSound id req chosen s a i =
      let m = model_or_default req in
      record {
        gpus = allocate-Inv s.scheduler chosen.gpu_uuid id m.name m.vram_requirement i.gpus a.0;
        same_max = i.same_max;
        distinct = i.distinct;
        models = i.models;
      }

  assign-IsSound :
      (r : Ref) (req : CreateWorkerRequest) (chosen : ScheduleResult) (s : System W)
      → IsSound config s
      → IsSound config (assign r req chosen s)
  unfolding assign set_gpu_assignment
  assign-IsSound r req chosen s i =
      write-IsSound s r
        (set_gpu_assignment (s.heap r) (some (assignment chosen (model_or_default req)))) i refl

  clean-IsSound :
      (now : Time) (r : Ref) (id : String) (stage : Cleaning) (s : System W)
      → IsSound config s
      → IsSound config (clean docker now r id stage s).0
  unfolding clean remove_worker
  clean-IsSound now r id marking s i =
      write-IsSound s r (transition_to now now (s.heap r) status_terminating).worker i
        (transition-same now (s.heap r) status_terminating).1
  clean-IsSound now r id stopping s i = daemon-IsSound s _ i
  clean-IsSound now r id releasing s i = record {
    gpus = release_resources-Inv s.scheduler id (s.heap r) i.gpus (i.models r);
    same_max = i.same_max;
    distinct = i.distinct;
    models = i.models;
  }
  clean-IsSound now r id removing s i = record {
    gpus = i.gpus;
    same_max = i.same_max;
    distinct = delete-Distinct id s.pool.workers i.distinct;
    models = i.models;
  }

  Step-IsSound :
      (s s' : Server W) → Step docker s s' → IsSound config s.system → IsSound config s'.system
  unfolding update_uptime
  Step-IsSound s s' (admits id req chosen _ e _) i = rw e i
  Step-IsSound s s' (enrolls now id req chosen ts _ a e _) i =
      rw e (enroll-IsSound now id req chosen s.system a i)
  Step-IsSound s s' (registers r id req chosen ts _ e _) i = rw e (register-IsSound r s.system i)
  Step-IsSound s s' (places r id req chosen ts _ a e _) i =
      rw e (place-IsSound id req chosen s.system a i)
  Step-IsSound s s' (assigns r req chosen ts _ e _) i =
      rw e (assign-IsSound r req chosen s.system i)
  Step-IsSound s s' (advances now job stage ts _ e _) i =
      rw e (advance-IsSound now job stage s.system i)
  Step-IsSound s s' (deletes id r _ e _) i = rw e i
  Step-IsSound s s' (idles id r _ e _) i = rw e i
  Step-IsSound s s' (cleans now r id stage ts _ e _) i =
      rw e (clean-IsSound now r id stage s.system i)
  Step-IsSound s s' (updates whole_seconds now r e _) i =
      rw e (write-IsSound s.system r (update_uptime whole_seconds now (s.system.heap r)) i refl)
  Step-IsSound s s' (marshals whole_seconds now r e _) i =
      let same = (refresh_for_json-same whole_seconds now (s.system.heap r)).0 in
      rw e (write-IsSound s.system r (refresh_for_json whole_seconds now (s.system.heap r)) i same)
  Step-IsSound s s' (inspects id e _) i = rw e (daemon-IsSound s.system _ i)

  -- In every interleaving of the calls of requests for amounts of at least 0, of the goroutines that start and clean up workers (also twice for one worker) and of the idle checker, whatever the daemon answers: the memory allocated on each GPU stays between 0 and its total, no two workers stand under one key of the pool, its maximum stays the configured one and every worker's model asks for an amount, if that holds at first. How many workers are registered is not stated, since `AddWorker` checks and stores in two steps.
  pub Steps-IsSound :
      {s s' : Server W} → Steps docker s s' → IsSound config s.system → IsSound config s'.system
  Steps-IsSound here i = i
  Steps-IsSound (then_step {s'} {s''} steps st) i = Step-IsSound s' s'' st (Steps-IsSound steps i)
