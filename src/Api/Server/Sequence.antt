-- ===== src/Api/Server/Sequence.antt =====
-- The calls of a task one after the other are the handler: with nothing in between the steps of
-- Api/Server come to `terminateWorker` and to `CreateWorker`.
use aether_runner.Base.{◌≡◌, refl, inl, inr, String, some, arith}
use aether_runner.Base.Int.{pos, ◌<ℤ◌}
use aether_runner.Base.Clock.{Time}
use aether_runner.Worker.{transition_to, new_worker_state, status_terminating}
use aether_runner.Scheduler.{ScheduleResult}
use aether_runner.Pool.{Ref, store, count}
use aether_runner.Pool.Registry.{add_worker_cases}
use aether_runner.Docker.{Docker}
use aether_runner.Api.{System, CreateWorkerRequest, model_or_default, enlist, terminate_worker}
use aether_runner.Api.Creation.{store_same}
use aether_runner.Api.Lifecycle.{transition-same}
use aether_runner.Api.Server.{
  marking, stopping, releasing, removing, clean, enroll, register, place, assign,
}

module _ {W : Type 0} where
  -- The four calls of a clean-up.
  abbrev pub clean_all : Docker W → Time → Ref → String → System W → System W
  clean_all docker now r id s =
      let s₁ = (clean docker now r id marking s).0 in
      let s₂ = (clean docker now r id stopping s₁).0 in
      let s₃ = (clean docker now r id releasing s₂).0 in (clean docker now r id removing s₃).0

  clean_all-terminate_worker :
      (docker : Docker W) (now : Time) (r : Ref) (s : System W)
      → clean_all docker now r (s.heap r).worker_id s ≡ terminate_worker docker now r s
  unfolding clean terminate_worker
  clean_all-terminate_worker docker now r s =
      let w = (transition_to now now (s.heap r) status_terminating).worker in
      let (id, _, _) = transition-same now (s.heap r) status_terminating in
      rw (store_same s.heap r w, id) refl

  pub create_all-enlist :
      (now : Time) (id : String) (req : CreateWorkerRequest) (chosen : ScheduleResult)
      (s : System W)
      → pos (count s.pool.workers) <ℤ s.pool.max_workers
      → assign s.fresh req chosen
          (place id req chosen (register s.fresh (enroll now id req chosen s).0))
        ≡ (enlist now id req chosen s).0
  unfolding assign place register enroll enlist
  create_all-enlist now id req chosen s room =
      let w = (new_worker_state now now id req.tenant_id (some (model_or_default req))).0 in
      let h = store s.heap s.fresh w in
      elim (add_worker_cases h s.pool s.fresh) [
        | inl (full, _) ↦ absurd (omega (arith, room, full))
        | inr (_, q) ↦
            rw (q, enlist)
              (rw (store_same s.heap s.fresh w) (rw q (rw (store_same s.heap s.fresh w) refl)))
      ]

  -- With nothing in between, the four calls of a clean-up come to `terminateWorker`, and for a pool that is not full the calls of a request from `NewWorkerState` to `SetGPUAssignment` come to the part of `CreateWorker` after `Schedule`.
  pub calls_in_sequence :
      (docker : Docker W) (now : Time) (r : Ref) (id : String) (req : CreateWorkerRequest)
      (chosen : ScheduleResult) (s : System W)
      → pos (count s.pool.workers) <ℤ s.pool.max_workers
      → (clean_all docker now r (s.heap r).worker_id s ≡ terminate_worker docker now r s)
        × (assign s.fresh req chosen
              (place id req chosen (register s.fresh (enroll now id req chosen s).0))
            ≡ (enlist now id req chosen s).0)
  calls_in_sequence docker now r id req chosen s room =
      (clean_all-terminate_worker docker now r s, create_all-enlist now id req chosen s room)
