-- ===== src/Demo/Calm.antt =====
-- What `launchWorker` of cmd/demo/main.go does to the first tenant's workers.
use aether_runner.Base.Int.{ℤ, pos, leb_ℤ}
use aether_runner.Base.{
  ◌≡◌, ◌≢◌, refl, String, some, [], ◌∷◌, arith, inl, inr, nat_eq, Bool-cases, Option-cases, outcome,
  text_ne, All,
}
use aether_runner.Base.Clock.{Time}
use aether_runner.Base.Assoc.{Map, All-insert}
use aether_runner.Worker.{
  ModelConfig, WorkerState, WorkerStatus, transition_to, set_container_id, set_gpu_assignment,
  new_worker_state, status_idle, status_starting, status_running, status_terminating,
}
use aether_runner.Worker.History.{transition_to_lem}
use aether_runner.Scheduler.{ScheduleResult, schedule}
use aether_runner.Pool.{Ref, Heap, WorkerPool, store, add_worker, count}
use aether_runner.Docker.Mock.{MockClient, launch_container}
use aether_runner.Api.{System}
use aether_runner.Demo.Launching.{
  worker_name, no_deadline, worker_options, Moments, launch_worker, place_worker, start_worker,
}

-- A worker of the first tenant is not idle.
abbrev pub Quiet : WorkerState → Type 0
Quiet w = w.tenant_id ≡ "acme-corp" → w.status ≢ status_idle

abbrev pub AllQuiet : Heap → Map Ref → Type 0
AllQuiet h workers = All (λ e. Quiet (h e.1)) workers

pub store-AllQuiet :
    (h : Heap) (r : Ref) (w : WorkerState) (workers : Map Ref)
    → Quiet w
    → AllQuiet h workers
    → AllQuiet (store h r w) workers
store-AllQuiet h r w [] q a = tt
store-AllQuiet h r w ((id, x) ∷ workers) q a = elim (Bool-cases (nat_eq r x)) [
  | inl e ↦ rw e (q, store-AllQuiet h r w workers q a.1)
  | inr e ↦ rw e (a.0, store-AllQuiet h r w workers q a.1)
]

add_worker-AllQuiet :
    (h : Heap) (p : WorkerPool) (r : Ref)
    → Quiet (h r)
    → AllQuiet h p.workers
    → AllQuiet h (add_worker h p r).0.workers
unfolding add_worker
add_worker-AllQuiet h p r q a = elim (Bool-cases (leb_ℤ p.max_workers (pos (count p.workers)))) [
  | inl e ↦ rw e a
  | inr e ↦ rw e (All-insert (λ e. Quiet (h e.1)) (h r).worker_id r p.workers q a)
]

transition-not_idle :
    (now : Time) (w : WorkerState) (t : WorkerStatus)
    → w.status ≢ status_idle
    → t ≢ status_idle
    → (transition_to now now w t).worker.status ≢ status_idle
transition-not_idle now w t a b = elim (transition_to_lem now now w t) [
  | inl (_, _, e, _) ↦ rw e b
  | inr (_, _, e, _) ↦ rw e a
]

pub transition-tenant :
    (now : Time) (w : WorkerState) (t : WorkerStatus)
    → (transition_to now now w t).worker.tenant_id ≡ w.tenant_id
transition-tenant now w t = elim (transition_to_lem now now w t) [
  | inl (_, _, e, _) ↦ rw e
  | inr (_, _, e, _) ↦ rw e
]

-- No worker of the first tenant that is registered is idle.
abbrev pub Calm : System MockClient → Type 0
Calm s = AllQuiet s.heap s.pool.workers

start_worker-Calm :
    (at : Moments) (tenant_id model_name : String) (chosen : ScheduleResult) (r : Ref)
    (s : System MockClient)
    → (s.heap r).status ≢ status_idle
    → Calm s
    → Calm (start_worker at tenant_id model_name chosen r s).0
unfolding start_worker set_container_id
start_worker-Calm at tenant_id model_name chosen r s n a =
    let w = (transition_to at.starting at.starting (s.heap r) status_starting).worker in
    let quiet = transition-not_idle at.starting (s.heap r) status_starting n (text_ne _ _ refl) in
    elim (outcome
      (launch_container no_deadline at.launched at.container_id s.docker
        (worker_options tenant_id model_name chosen.gpu_uuid)).1) [
          | inl (err, e) ↦
              rw (e, start_worker)
                (store-AllQuiet s.heap r _ s.pool.workers
                  (λ _. transition-not_idle at.ended w status_terminating quiet (text_ne _ _ refl))
                  a)
          | inr (info, e) ↦
              rw (e, start_worker)
                (store-AllQuiet s.heap r _ s.pool.workers
                  (λ _.
                    transition-not_idle at.ended (set_container_id w info.id) status_running quiet
                      (text_ne _ _ refl))
                  a)
        ]

store-not_idle :
    (h : Heap) (r : Ref) (w : WorkerState)
    → w.status ≢ status_idle
    → (store h r w r).status ≢ status_idle
store-not_idle h r w n = let same : store h r w r ≡ w = ground arith in rw same n

-- A new worker is registered and then given its GPU.
enlist-AllQuiet :
    (h : Heap) (p : WorkerPool) (r : Ref) (w v : WorkerState)
    → w.status ≢ status_idle
    → v.status ≢ status_idle
    → AllQuiet h p.workers
    → AllQuiet (store (store h r w) r v) (add_worker (store h r w) p r).0.workers
enlist-AllQuiet h p r w v n m a =
    store-AllQuiet (store h r w) r v _ (λ _. m)
      (add_worker-AllQuiet (store h r w) p r (λ _. store-not_idle h r w n)
        (store-AllQuiet h r w p.workers (λ _. n) a))

pub place_worker-Calm :
    (at : Moments) (tenant_id model_name : String) (vram_mb : ℤ) (chosen : ScheduleResult)
    (s : System MockClient)
    → Calm s
    → Calm (place_worker at tenant_id model_name vram_mb chosen s).0
unfolding place_worker new_worker_state set_gpu_assignment
place_worker-Calm at tenant_id model_name vram_mb chosen s a =
    let model : ModelConfig = record {
      name = model_name;
      version = "";
      vram_requirement = vram_mb;
    } in
    let w =
      (new_worker_state at.created at.created (worker_name at.named) tenant_id (some model)).0 in
    start_worker-Calm at tenant_id model_name chosen s.fresh _
      (store-not_idle (store s.heap s.fresh w) s.fresh _ (text_ne _ _ refl))
      (enlist-AllQuiet s.heap s.pool s.fresh w _ (text_ne _ _ refl) (text_ne _ _ refl) a)

pub launch_worker-Calm :
    (at : Moments) (tenant_id model_name : String) (vram_mb : ℤ) (s : System MockClient)
    → Calm s
    → Calm (launch_worker at tenant_id model_name vram_mb s).0
unfolding launch_worker
launch_worker-Calm at tenant_id model_name vram_mb s a =
    elim (Option-cases (schedule s.scheduler model_name vram_mb)) [
      | inl e ↦ rw (e, launch_worker) a
      | inr (chosen, e) ↦
          rw (e, launch_worker) (place_worker-Calm at tenant_id model_name vram_mb chosen s a)
    ]
