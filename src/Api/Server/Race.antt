-- ===== src/Api/Server/Race.antt =====
-- Two requests at once: `AddWorker` of pkg/orchestrator/worker_pool.go counts, and only then stores.
use aether_runner.Base.{
  ◌≡◌, ◌≢◌, refl, sym, ◌∙◌, ap, suc, ◌+◌, String, none, some, [], ◌∷◌, arith, true, text_cases, inl,
  inr, ◌==◌, nat_eq, false, not,
}
use aether_runner.Base.Int.{pos, ◌<ℤ◌, lt→leb_ℤ}
use aether_runner.Base.Clock.{Time}
use aether_runner.Base.Assoc.{lookup, lookup-insert, insert}
use aether_runner.Worker.{WorkerState, new_worker_state}
use aether_runner.Scheduler.{ScheduleResult, schedule}
use aether_runner.Pool.{
  Ref, Heap, store, WorkerPool, count, get_worker, has_room_for_one, store_worker,
}
use aether_runner.Pool.Registry.{count-insert_new}
use aether_runner.Docker.{Docker}
use aether_runner.Api.{System, CreateWorkerRequest, model_or_default}
use aether_runner.Api.Creation.{store_same}
use aether_runner.Api.Server.{
  Server, Steps, here, then_step, admits, enrolls, registers, admitted, counted, enlisted, first,
  later, enroll, register, IsAmount,
}

store_worker_twice :
    (h : Heap) (p : WorkerPool) (q r : Ref) (k j : String)
    → (h q).worker_id ≡ k
    → (h r).worker_id ≡ j
    → k ≢ j
    → get_worker p k ≡ none
    → get_worker p j ≡ none
    → count (store_worker h (store_worker h p q) r).workers ≡ suc (suc (count p.workers))
unfolding get_worker
store_worker_twice h p q r k j e e' n none_k none_j =
    let other : k == j ≡ false = elim (text_cases k j) [
      | inl (t, _) ↦ absurd (n t)
      | inr (_, t) ↦ t
    ] in
    let still : lookup j (insert k q p.workers) ≡ none =
      lookup-insert k j q p.workers ∙ rw other none_j in
    rw
      (
        e,
        e',
        count-insert_new j r (insert k q p.workers) still,
        count-insert_new k q p.workers none_k,
      )
      refl

module _ {W : Type 0} (docker : Docker W) (now : Time) (req : CreateWorkerRequest)
    (chosen : ScheduleResult) where
  -- The system once two requests have passed the check and before either has stored its worker.
  abbrev pub both_counted : String → String → System W → System W
  both_counted id id' s = (enroll now id' req chosen (enroll now id req chosen s).0).0

  named_both :
      (id id' : String) (s : System W)
      → (((both_counted id id' s).heap s.fresh).worker_id ≡ id)
        × (((both_counted id id' s).heap (suc s.fresh)).worker_id ≡ id')
  unfolding enroll new_worker_state
  named_both id id' s =
      let w = (new_worker_state now now id req.tenant_id (some (model_or_default req))).0 in
      let v = (new_worker_state now now id' req.tenant_id (some (model_or_default req))).0 in
      let h = store s.heap s.fresh w in
      let other : nat_eq (suc s.fresh) s.fresh ≡ false = ground arith in
      (
        rw other (ap (λ (x : WorkerState). x.worker_id) (store_same s.heap s.fresh w)),
        ap (λ (x : WorkerState). x.worker_id) (store_same h (suc s.fresh) v),
      )

  -- If the pool has room for one more worker, and `Schedule` finds a GPU for a request of an amount of at least 0, then two such requests, under two IDs that are not registered, have an interleaving after which the pool's maximum is the same and two workers more are registered, one above the maximum.
  pub add_worker_overshoots :
      (id id' : String) (s : System W)
      → id ≢ id'
      → get_worker s.pool id ≡ none
      → get_worker s.pool id' ≡ none
      → pos (count s.pool.workers + 1) ≡ s.pool.max_workers
      → schedule s.scheduler (model_or_default req).name (model_or_default req).vram_requirement
        ≡ some chosen
      → IsAmount (model_or_default req).vram_requirement
      → (s' : Server W) × Steps docker (record { system = s; tasks = [] }) s'
        × (s'.system.pool.max_workers ≡ s.pool.max_workers)
        × (count s'.system.pool.workers ≡ count s.pool.workers + 2)
        × (s'.system.pool.max_workers <ℤ pos (count s'.system.pool.workers))
  unfolding enroll register
  add_worker_overshoots id id' s n none_id none_id' room e amount =
      let has_room : has_room_for_one s.pool ≡ true =
        ap not (
          lt→leb_ℤ s.pool.max_workers (pos (count s.pool.workers)) (rw (sym room) (omega arith))) in
      let s₁ = (enroll now id req chosen s).0 in
      let s₂ = both_counted id id' s in
      let s₃ = register (suc s.fresh) (register s.fresh s₂) in
      let two : count s₃.pool.workers ≡ suc (suc (count s.pool.workers)) =
        store_worker_twice s₂.heap s.pool s.fresh (suc s.fresh) id id' (named_both id id' s).0
          (named_both id id' s).1 n none_id none_id' in
      let a = admitted id req chosen in
      let a' = admitted id' req chosen in
      let c = counted s.fresh id req chosen in
      let c' = counted (suc s.fresh) id' req chosen in
      let b = enlisted s.fresh id req chosen in
      let admission : Steps docker (record { system = s; tasks = [] })
          (record { system = s; tasks = a' ∷ a ∷ [] }) =
        then_step {s' = record { system = s; tasks = a ∷ [] }}
          (then_step here (admits id req chosen e refl refl)) (admits id' req chosen e refl refl) in
      let checks : Steps docker (record { system = s; tasks = [] })
          (record { system = s₂; tasks = c' ∷ c ∷ [] }) =
        then_step {s' = record { system = s₁; tasks = c ∷ a' ∷ [] }}
          (then_step admission (
            enrolls now id req chosen (a' ∷ []) (later first) amount refl
              (rw (has_room, enroll) refl)))
          (enrolls now id' req chosen (c ∷ []) (later first) amount refl
            (rw (has_room, enroll) refl)) in
      let stores : Steps docker (record { system = s; tasks = [] })
          (record { system = s₃; tasks = enlisted (suc s.fresh) id' req chosen ∷ b ∷ [] }) =
        then_step {s' = record { system = register s.fresh s₂; tasks = b ∷ c' ∷ [] }}
          (then_step checks (registers s.fresh id req chosen (c' ∷ []) (later first) refl refl))
          (registers (suc s.fresh) id' req chosen (b ∷ []) (later first) refl refl) in
      (_, stores, refl, omega (arith, two), rw (sym room, two) (omega arith))
