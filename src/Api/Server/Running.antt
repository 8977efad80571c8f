-- ===== src/Api/Server/Running.antt =====
-- Nothing that a server does closes the pool's stop channel.
use aether_runner.Base.{◌≡◌, refl, ◌∙◌, String, inl, inr, Option-cases}
use aether_runner.Base.Clock.{Time}
use aether_runner.Worker.{transition_to, status_starting, status_running}
use aether_runner.Scheduler.{ScheduleResult}
use aether_runner.Pool.{Ref, remove_worker}
use aether_runner.Docker.{Docker}
use aether_runner.Api.{System, CreateWorkerRequest, Job, terminate_worker}
use aether_runner.Api.Start.{
  Stage, starting, pulling, launching, storing, waiting, running, cleaning, advance,
}
use aether_runner.Api.Server.{
  Server, Step, Steps, here, then_step, admits, enrolls, registers, places, assigns, advances,
  deletes, updates, marshals, inspects, idles, cleans, Cleaning, marking, stopping, releasing,
  removing, enroll, register, place, assign, clean,
}

module _ {W : Type 0} (docker : Docker W) where
  advance-stopped :
      (now : Time) (job : Job) (stage : Stage) (s : System W)
      → (advance docker now job stage s).0.pool.stopped ≡ s.pool.stopped
  unfolding advance terminate_worker remove_worker
  advance-stopped now job starting s =
      elim (Option-cases (transition_to now now (s.heap job.worker) status_starting).error) [
        | inl e ↦ rw (e, advance) refl
        | inr (x, e) ↦ rw (e, advance) refl
      ]
  advance-stopped now job pulling s = refl
  advance-stopped now job launching s = refl
  advance-stopped now job (storing id) s = refl
  advance-stopped now job (waiting id) s = refl
  advance-stopped now job running s =
      elim (Option-cases (transition_to now now (s.heap job.worker) status_running).error) [
        | inl e ↦ rw (e, advance) refl
        | inr (x, e) ↦ rw (e, advance) refl
      ]
  advance-stopped now job cleaning s = refl

  enroll-stopped :
      (now : Time) (id : String) (req : CreateWorkerRequest) (chosen : ScheduleResult)
      (s : System W)
      → (enroll now id req chosen s).0.pool.stopped ≡ s.pool.stopped
  unfolding enroll
  enroll-stopped now id req chosen s = refl

  clean-stopped :
      (now : Time) (r : Ref) (id : String) (stage : Cleaning) (s : System W)
      → (clean docker now r id stage s).0.pool.stopped ≡ s.pool.stopped
  unfolding clean remove_worker
  clean-stopped now r id marking s = refl
  clean-stopped now r id stopping s = refl
  clean-stopped now r id releasing s = refl
  clean-stopped now r id removing s = refl

  Step-stopped :
      (s s' : Server W) → Step docker s s' → s'.system.pool.stopped ≡ s.system.pool.stopped
  unfolding register place assign
  Step-stopped s s' (admits id req chosen _ e _) = rw e refl
  Step-stopped s s' (enrolls now id req chosen ts _ a e _) =
      rw e (enroll-stopped now id req chosen s.system)
  Step-stopped s s' (registers r id req chosen ts _ e _) = rw e refl
  Step-stopped s s' (places r id req chosen ts _ a e _) = rw e refl
  Step-stopped s s' (assigns r req chosen ts _ e _) = rw e refl
  Step-stopped s s' (advances now job stage ts _ e _) =
      rw e (advance-stopped now job stage s.system)
  Step-stopped s s' (deletes id r _ e _) = rw e refl
  Step-stopped s s' (idles id r _ e _) = rw e refl
  Step-stopped s s' (cleans now r id stage ts _ e _) = rw e (clean-stopped now r id stage s.system)
  Step-stopped s s' (updates whole_seconds now r e _) = rw e refl
  Step-stopped s s' (marshals whole_seconds now r e _) = rw e refl
  Step-stopped s s' (inspects id e _) = rw e refl

  pub Steps-stopped :
      {s s' : Server W} → Steps docker s s' → s'.system.pool.stopped ≡ s.system.pool.stopped
  Steps-stopped here = refl
  Steps-stopped (then_step {s'} {s''} steps st) = Step-stopped s' s'' st ∙ Steps-stopped steps
