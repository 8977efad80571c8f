-- ===== src/Api/Server/Finality.antt =====
-- TERMINATING is final in the server, whatever goroutines are still under way.
use aether_runner.Base.{
  suc, ◌<◌, ◌≡◌, ap, ◌∙◌, inl, inr, String, some, arith, Bool-cases, Option-cases, nat_eq,
  nat_eq_iff,
}
use aether_runner.Base.Clock.{Time}
use aether_runner.Worker.{
  WorkerState, update_uptime, refresh_for_json, transition_to, set_container_id, set_gpu_assignment,
  new_worker_state, status_starting, status_running, status_terminating,
}
use aether_runner.Worker.History.{refresh_for_json-same, transition_to_lem, Edge-ne-terminating}
use aether_runner.Scheduler.{ScheduleResult}
use aether_runner.Pool.{Ref, Heap, store}
use aether_runner.Docker.{Docker}
use aether_runner.Api.{
  System, CreateWorkerRequest, Job, model_or_default, assignment, terminate_worker,
}
use aether_runner.Api.Start.{
  Stage, starting, pulling, launching, storing, waiting, running, cleaning, advance,
}
use aether_runner.Api.Server.{
  Server, Step, Steps, here, then_step, admits, enrolls, registers, places, assigns, advances,
  deletes, updates, marshals, inspects, idles, cleans, Cleaning, marking, stopping, releasing,
  removing, enroll, register, place, assign, clean,
}

-- A worker that has been allocated and is terminating.
pub record IsOver {W : Type 0} (r : Ref) (s : System W) : Type 0 where
  pub allocated : r < s.fresh
  pub terminating : (s.heap r).status ≡ status_terminating

transition-terminating :
    (now : Time) (w : WorkerState) (t : String)
    → w.status ≡ status_terminating
    → (transition_to now now w t).worker.status ≡ status_terminating
transition-terminating now w t e = elim (transition_to_lem now now w t) [
  | inl (g, _, _, _) ↦ absurd (Edge-ne-terminating g e)
  | inr (_, _, p, _) ↦ rw p e
]

-- A write that does not take its own worker out of TERMINATING takes none out of it.
store-terminating :
    (h : Heap) (q : Ref) (w : WorkerState) (r : Ref)
    → ((h q).status ≡ status_terminating → w.status ≡ status_terminating)
    → (h r).status ≡ status_terminating
    → (store h q w r).status ≡ status_terminating
store-terminating h q w r keeps e = elim (Bool-cases (nat_eq q r)) [
  | inl t ↦ rw t (keeps (rw ((nat_eq_iff q r).0 t) e))
  | inr t ↦ rw t e
]

-- A write to another place.
store-other : (h : Heap) (q : Ref) (w : WorkerState) (r : Ref) → r < q → store h q w r ≡ h r
store-other h q w r l = ground arith

module _ {W : Type 0} (docker : Docker W) (r : Ref) where
  transition-IsOver :
      (now : Time) (q : Ref) (t : String) (s : System W)
      → IsOver r s
      → (store s.heap q (transition_to now now (s.heap q) t).worker r).status ≡ status_terminating
  transition-IsOver now q t s o =
      store-terminating s.heap q (transition_to now now (s.heap q) t).worker r
        (transition-terminating now (s.heap q) t) o.terminating

  terminate_worker-IsOver :
      (now : Time) (q : Ref) (s : System W)
      → IsOver r s
      → IsOver r (terminate_worker docker now q s)
  unfolding terminate_worker
  terminate_worker-IsOver now q s o = record {
    allocated = o.allocated;
    terminating = transition-IsOver now q status_terminating s o;
  }

  advance-IsOver :
      (now : Time) (job : Job) (stage : Stage) (s : System W)
      → IsOver r s
      → IsOver r (advance docker now job stage s).0
  unfolding advance set_container_id
  advance-IsOver now job starting s o =
      let t = transition_to now now (s.heap job.worker) status_starting in
      let after = transition-IsOver now job.worker status_starting s o in
      elim (Option-cases t.error) [
        | inl e ↦ rw (e, advance) (record { allocated = o.allocated; terminating = after })
        | inr (x, e) ↦ rw (e, advance) o
      ]
  advance-IsOver now job pulling s o = record {
    allocated = o.allocated;
    terminating = o.terminating;
  }
  advance-IsOver now job launching s o = record {
    allocated = o.allocated;
    terminating = o.terminating;
  }
  advance-IsOver now job (storing id) s o = record {
    allocated = o.allocated;
    terminating =
        store-terminating s.heap job.worker (set_container_id (s.heap job.worker) id) r (λ e. e)
          o.terminating;
  }
  advance-IsOver now job (waiting id) s o = record {
    allocated = o.allocated;
    terminating = o.terminating;
  }
  advance-IsOver now job running s o =
      let t = transition_to now now (s.heap job.worker) status_running in
      let after = transition-IsOver now job.worker status_running s o in
      elim (Option-cases t.error) [
        | inl e ↦ rw (e, advance) (record { allocated = o.allocated; terminating = after })
        | inr (x, e) ↦ rw (e, advance) o
      ]
  advance-IsOver now job cleaning s o = terminate_worker-IsOver now job.worker s o

  enroll-IsOver :
      (now : Time) (id : String) (req : CreateWorkerRequest) (chosen : ScheduleResult)
      (s : System W)
      → IsOver r s
      → IsOver r (enroll now id req chosen s).0
  unfolding enroll
  enroll-IsOver now id req chosen s o =
      let w = (new_worker_state now now id req.tenant_id (some (model_or_default req))).0 in
      let h = store s.heap s.fresh w in
      let kept =
        ap (λ (x : WorkerState). x.status) (store-other s.heap s.fresh w r o.allocated)
        ∙ o.terminating in
      let sooner : r < suc s.fresh = omega (arith, o.allocated) in
      record { allocated = sooner; terminating = kept }

  assign-IsOver :
      (q : Ref) (req : CreateWorkerRequest) (chosen : ScheduleResult) (s : System W)
      → IsOver r s
      → IsOver r (assign q req chosen s)
  unfolding assign set_gpu_assignment
  assign-IsOver q req chosen s o = record {
    allocated = o.allocated;
    terminating =
        store-terminating s.heap q
          (set_gpu_assignment (s.heap q) (some (assignment chosen (model_or_default req)))) r
          (λ e. e) o.terminating;
  }

  clean-IsOver :
      (now : Time) (q : Ref) (id : String) (stage : Cleaning) (s : System W)
      → IsOver r s
      → IsOver r (clean docker now q id stage s).0
  unfolding clean
  clean-IsOver now q id marking s o = record {
    allocated = o.allocated;
    terminating = transition-IsOver now q status_terminating s o;
  }
  clean-IsOver now q id stopping s o = record {
    allocated = o.allocated;
    terminating = o.terminating;
  }
  clean-IsOver now q id releasing s o = record {
    allocated = o.allocated;
    terminating = o.terminating;
  }
  clean-IsOver now q id removing s o = record {
    allocated = o.allocated;
    terminating = o.terminating;
  }

  Step-IsOver : (s s' : Server W) → Step docker s s' → IsOver r s.system → IsOver r s'.system
  unfolding register place update_uptime
  Step-IsOver s s' (admits id req chosen _ e _) o = rw e o
  Step-IsOver s s' (enrolls now id req chosen ts _ a e _) o =
      rw e (enroll-IsOver now id req chosen s.system o)
  Step-IsOver s s' (registers q id req chosen ts _ e _) o =
      rw e (record { allocated = o.allocated; terminating = o.terminating })
  Step-IsOver s s' (places q id req chosen ts _ a e _) o =
      rw e (record { allocated = o.allocated; terminating = o.terminating })
  Step-IsOver s s' (assigns q req chosen ts _ e _) o = rw e (assign-IsOver q req chosen s.system o)
  Step-IsOver s s' (advances now job stage ts _ e _) o =
      rw e (advance-IsOver now job stage s.system o)
  Step-IsOver s s' (deletes id q _ e _) o = rw e o
  Step-IsOver s s' (idles id q _ e _) o = rw e o
  Step-IsOver s s' (cleans now q id stage ts _ e _) o =
      rw e (clean-IsOver now q id stage s.system o)
  Step-IsOver s s' (updates whole_seconds now q e _) o =
      let w = update_uptime whole_seconds now (s.system.heap q) in
      rw e (record {
        allocated = o.allocated;
        terminating = store-terminating s.system.heap q w r (λ t. t) o.terminating;
      })
  Step-IsOver s s' (marshals whole_seconds now q e _) o =
      let w = refresh_for_json whole_seconds now (s.system.heap q) in
      let same = (refresh_for_json-same whole_seconds now (s.system.heap q)).1 in
      rw e (record {
        allocated = o.allocated;
        terminating = store-terminating s.system.heap q w r (λ t. same ∙ t) o.terminating;
      })
  Step-IsOver s s' (inspects id e _) o =
      rw e (record { allocated = o.allocated; terminating = o.terminating })

  -- A worker that is TERMINATING stays so in every interleaving of the calls of requests, goroutines and the idle checker, also while the goroutine that starts it is still under way.
  pub Steps-IsOver : {s s' : Server W} → Steps docker s s' → IsOver r s.system → IsOver r s'.system
  Steps-IsOver here o = o
  Steps-IsOver (then_step {s'} {s''} steps st) o = Step-IsOver s' s'' st (Steps-IsOver steps o)
