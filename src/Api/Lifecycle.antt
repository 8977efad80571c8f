-- ===== src/Api/Lifecycle.antt =====
-- `CreateWorker` and then `terminateWorker` of the same worker: what was taken is given back.
use aether_runner.Base.{
  ◌≡◌, refl, sym, ap, ◌∙◌, ◌≢◌, inl, inr, String, eq_iff, eq_refl, Bool, none, List, [], ◌∷◌, ◌++◌,
  arith, All, All-append, text_cases,
}
use aether_runner.Base.Int.{ℤ, pos, ◌≤ℤ◌, int_laws}
use aether_runner.Base.Clock.{Time}
use aether_runner.Base.Assoc.{lookup, delete, lookup-delete}
use aether_runner.Worker.{WorkerState, transition_to, status_terminating}
use aether_runner.Worker.History.{transition_to_lem}
use aether_runner.Scheduler.{Scheduler, release}
use aether_runner.Scheduler.Accounting.{Inv, allocate-Inv}
use aether_runner.Scheduler.Ledger.{Lease, held, close, NonNeg, Books}
use aether_runner.Scheduler.Books.{lease, allocate-Books, release-Books, release-held-Inv}
use aether_runner.Pool.{get_worker, remove_worker}
use aether_runner.Docker.{Docker}
use aether_runner.Api.{
  System, CreateWorkerRequest, Job, model_or_default, terminate_worker, release_resources,
}
use aether_runner.Api.Creation.{Enlisted}

-- Nobody with this ID is in the ledger.
abbrev pub Unknown : String → List Lease → Type 0
Unknown id = All (λ l. l.worker ≢ id)

held-append :
    (uuid id : String) (v : ℤ) (ls : List Lease)
    → Unknown id ls
    → held uuid id (ls ++ lease uuid id v ∷ []) ≡ v
unfolding held
held-append uuid id v [] u = rw (eq_refl uuid, eq_refl id) (omega int_laws)
held-append uuid id v (l ∷ ls) u =
    ground (arith, held-append uuid id v ls u.1, eq_iff l.worker id, u.0)

close-append :
    (uuid id : String) (v : ℤ) (ls : List Lease)
    → Unknown id ls
    → close uuid id (ls ++ lease uuid id v ∷ []) ≡ ls
unfolding close
close-append uuid id v [] u = rw (eq_refl uuid, eq_refl id)
close-append uuid id v (l ∷ ls) u =
    ground (arith, close-append uuid id v ls u.1, eq_iff l.worker id, u.0)

-- What `TransitionTo` leaves alone.
pub transition-same :
    (now : Time) (w : WorkerState) (t : String)
    → let w' = (transition_to now now w t).worker in
      (w'.worker_id ≡ w.worker_id) × (w'.model ≡ w.model) × (w'.gpu_assignment ≡ w.gpu_assignment)
transition-same now w t = elim (transition_to_lem now now w t) [
  | inl (_, _, p, _) ↦ rw p (refl, refl, refl)
  | inr (_, _, p, _) ↦ rw p (refl, refl, refl)
]

module _ {W : Type 0} (docker : Docker W) (s s' : System W) (id : String)
    (req : CreateWorkerRequest) (job : Job) (enlisted : Enlisted s s' id req job) where
  abbrev ended : Time → WorkerState
  ended now = (transition_to now now (s'.heap job.worker) status_terminating).worker

  ended_id : (now : Time) → (ended now).worker_id ≡ id
  ended_id now =
      (transition-same now (s'.heap job.worker) status_terminating).0 ∙ enlisted.worker_id

  ended_releases :
      (now : Time)
      → release_resources s'.scheduler (ended now).worker_id (ended now)
        ≡ release s'.scheduler job.gpu.gpu_uuid id (model_or_default req).vram_requirement
  unfolding release_resources
  ended_releases now =
      let (_, m, g) = transition-same now (s'.heap job.worker) status_terminating in
      rw (release_resources, g ∙ enlisted.gpu, m ∙ enlisted.model, ended_id now) refl

  scheduler_ended :
      (now : Time)
      → (terminate_worker docker now job.worker s').scheduler
        ≡ release s'.scheduler job.gpu.gpu_uuid id (model_or_default req).vram_requirement
  unfolding terminate_worker
  scheduler_ended now = ended_releases now

  known_ended :
      (now : Time) (k : String)
      → get_worker s.pool id ≡ none
      → get_worker (terminate_worker docker now job.worker s').pool k ≡ get_worker s.pool k
  unfolding terminate_worker remove_worker get_worker
  known_ended now k absent =
      ap (λ x. lookup k (delete x s'.pool.workers)) (ended_id now)
      ∙ lookup-delete id k s'.pool.workers
      ∙ elim (text_cases id k) [
        | inl (e, t) ↦ rw t (sym (rw e at absent))
        | inr (_, t) ↦ rw t (enlisted.known k ∙ rw t)
      ]

  -- On sound GPUs whose books agree with a ledger of amounts of at least 0, let a request with an amount of at least 0 have made a worker under a new ID. If the next thing is that the worker is terminated, whatever the daemon does, then the books agree with the ledger of before, the GPUs are sound, and the registry finds under every ID what it found before.
  pub terminate_worker-restores :
      (now : Time) (ls : List Lease)
      → Inv s.scheduler
      → NonNeg ls
      → Books s.scheduler ls
      → Unknown id ls
      → get_worker s.pool id ≡ none
      → pos 0 ≤ℤ (model_or_default req).vram_requirement
      → let s'' = terminate_worker docker now job.worker s' in
        Books s''.scheduler ls
        × Inv s''.scheduler
        × ((k : String) → get_worker s''.pool k ≡ get_worker s.pool k)
  terminate_worker-restores now ls i n b u absent p =
      let m = model_or_default req in
      let v = m.vram_requirement in
      let uuid = job.gpu.gpu_uuid in
      let ls' = ls ++ lease uuid id v ∷ [] in
      let after = ap (λ (x : Scheduler × Bool). x.0) enlisted.allocated in
      let success = ap (λ (x : Scheduler × Bool). x.1) enlisted.allocated in
      let i' : Inv s'.scheduler = rw⁻¹ after (allocate-Inv s.scheduler uuid id m.name v i p) in
      let b' : Books s'.scheduler ls' =
        rw⁻¹ after (allocate-Books s.scheduler ls uuid id m.name v i b p success) in
      let n' : NonNeg ls' = All-append (λ l. pos 0 ≤ℤ l.vram) ls (lease uuid id v ∷ []) n (p, tt) in
      let h : held uuid id ls' ≡ v = held-append uuid id v ls u in
      let c : close uuid id ls' ≡ ls = close-append uuid id v ls u in
      let books : Books (release s'.scheduler uuid id v) ls =
        rw (h, c) at (release-Books s'.scheduler ls' uuid id i' n' b') in
      let sound : Inv (release s'.scheduler uuid id v) =
        rw h at (release-held-Inv s'.scheduler ls' uuid id i' n' b') in
      (
        rw (scheduler_ended now) books,
        rw (scheduler_ended now) sound,
        λ k. known_ended now k absent,
      )
