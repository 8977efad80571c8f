-- ===== src/Api/Startup.antt =====
-- The start of a worker that nothing interrupts: it ends, and how.
use aether_runner.Base.{
  ℕ, zero, suc, ◌≤◌, ◌<◌, ◌≡◌, refl, ap, ◌∙◌, ◌⊎◌, inl, inr, String, Option, none, some, arith,
  Option-cases, eq_refl,
}
use aether_runner.Base.Clock.{Time}
use aether_runner.Base.Assoc.{lookup, delete, lookup-delete}
use aether_runner.Worker.{
  WorkerState, transition_to, set_container_id, status_pending, status_starting, status_running,
  status_terminating,
}
use aether_runner.Worker.Transitions.{Edge, launch, come_up, end}
use aether_runner.Worker.History.{transition_to_lem, moved}
use aether_runner.Pool.{get_worker, remove_worker}
use aether_runner.Docker.{Docker, ContainerInfo}
use aether_runner.Api.{System, Job, write, terminate_worker}
use aether_runner.Api.Creation.{store_same}
use aether_runner.Api.Start.{
  Stage, starting, pulling, launching, storing, waiting, running, cleaning, health_timeout,
  launch_options, advance, and_then, start_worker_container,
}

-- How many calls a stage has before it, its own included, at most.
abbrev pub calls_left : Stage → ℕ
calls_left cleaning = 1
calls_left running = 2
calls_left (waiting _) = 3
calls_left (storing _) = 4
calls_left launching = 5
calls_left pulling = 6
calls_left starting = 7

-- A transition along an arrow.
transition_along :
    (now : Time) (w : WorkerState) (t : String)
    → Edge w.status t
    → ((transition_to now now w t).error ≡ none)
      × ((transition_to now now w t).worker ≡ moved now w t)
transition_along now w t edge = elim (transition_to_lem now now w t) [
  | inl (_, e, p, _) ↦ (e, p)
  | inr (off, _, _, _) ↦ absurd (off edge)
]

module _ {W : Type 0} (docker : Docker W) (job : Job) (s₀ : System W) where
  -- On the way: the worker is as it was but for its status and its container.
  pub record Underway (status : String) (s : System W) : Type 0 where
    pub in_status : (s.heap job.worker).status ≡ status
    pub same_id : (s.heap job.worker).worker_id ≡ (s₀.heap job.worker).worker_id
    pub same_pool : s.pool ≡ s₀.pool
    pub same_scheduler : s.scheduler ≡ s₀.scheduler

  -- At the end: it runs, or it is gone.
  abbrev pub Ended : System W → Type 0
  Ended s =
      Underway status_running s
      ⊎ (((s.heap job.worker).status ≡ status_terminating)
          × (get_worker s.pool (s₀.heap job.worker).worker_id ≡ none))

  abbrev pub status_at : Stage → String
  status_at starting = status_pending
  status_at pulling = status_starting
  status_at launching = status_starting
  status_at (storing _) = status_starting
  status_at (waiting _) = status_starting
  status_at running = status_starting
  status_at cleaning = status_starting

  -- Either the goroutine has returned and the worker's start has ended, or it is at a later stage.
  abbrev Goes : ℕ → System W × Option Stage → Type 0
  Goes n (s, none) = Ended s
  Goes n (s, some stage) = Underway (status_at stage) s × (calls_left stage < n)

  moves :
      (now : Time) (s : System W) (from to : String)
      → Edge from to
      → Underway from s
      → Underway to (write s job.worker (transition_to now now (s.heap job.worker) to).worker)
  moves now s from to edge u =
      let w = s.heap job.worker in
      let along = transition_along now w to (rw u.in_status edge) in
      let home = store_same s.heap job.worker (transition_to now now w to).worker ∙ along.1 in
      record {
        in_status = ap (λ (x : WorkerState). x.status) home;
        same_id = ap (λ (x : WorkerState). x.worker_id) home ∙ u.same_id;
        same_pool = u.same_pool;
        same_scheduler = u.same_scheduler;
      }

  no_error :
      (now : Time) (s : System W) (from to : String)
      → Edge from to
      → Underway from s
      → (transition_to now now (s.heap job.worker) to).error ≡ none
  no_error now s from to edge u =
      (transition_along now (s.heap job.worker) to (rw u.in_status edge)).0

  -- Only the daemon has changed.
  daemon :
      (s : System W) (st : String) (d : W) → Underway st s → Underway st (record s { docker = d })
  daemon s st d u = record {
    in_status = u.in_status;
    same_id = u.same_id;
    same_pool = u.same_pool;
    same_scheduler = u.same_scheduler;
  }

  stores :
      (s : System W) (st id : String)
      → Underway st s
      → Underway st (write s job.worker (set_container_id (s.heap job.worker) id))
  unfolding set_container_id
  stores s st id u =
      let home = store_same s.heap job.worker (set_container_id (s.heap job.worker) id) in
      record {
        in_status = ap (λ (x : WorkerState). x.status) home ∙ u.in_status;
        same_id = ap (λ (x : WorkerState). x.worker_id) home ∙ u.same_id;
        same_pool = u.same_pool;
        same_scheduler = u.same_scheduler;
      }

  cleans :
      (now : Time) (s : System W)
      → Underway status_starting s
      → Ended (terminate_worker docker now job.worker s)
  unfolding terminate_worker remove_worker get_worker
  cleans now s u =
      let edge : Edge status_starting status_terminating = end (inr (inl refl)) refl in
      let w = s.heap job.worker in
      let o = transition_to now now w status_terminating in
      let along = transition_along now w status_terminating (rw u.in_status edge) in
      let home = store_same s.heap job.worker o.worker ∙ along.1 in
      let named = ap (λ (x : WorkerState). x.worker_id) along.1 ∙ u.same_id in
      let id = (s₀.heap job.worker).worker_id in
      inr (
        ap (λ (x : WorkerState). x.status) home,
        ap (λ k. lookup id (delete k s.pool.workers)) named
            ∙ lookup-delete id id s.pool.workers
            ∙ rw (eq_refl id) refl,
      )

  launched :
      (s : System W) (d : W) (result : String ⊎ ContainerInfo)
      → Underway status_starting s
      → Goes 5 (
        record s { docker = d },
        some (elim result [ inl e ↦ cleaning | inr info ↦ storing info.id ]),
      )
  launched s d (inl e) u = (daemon s status_starting d u, omega arith)
  launched s d (inr info) u = (daemon s status_starting d u, omega arith)

  advance-Goes :
      (now : Time) (stage : Stage) (s : System W)
      → Underway (status_at stage) s
      → Goes (calls_left stage) (advance docker now job stage s)
  unfolding advance
  advance-Goes now starting s u =
      let edge : Edge status_pending status_starting = launch refl refl in
      rw (no_error now s status_pending status_starting edge u, advance)
        (moves now s status_pending status_starting edge u, omega arith)
  advance-Goes now pulling s u =
      let (d, err) = docker.pull_image s.docker job.image in
      elim (Option-cases err) [
        | inl e ↦ rw (e, advance) (daemon s status_starting d u, omega arith)
        | inr (x, e) ↦ rw (e, advance) (daemon s status_starting d u, omega arith)
      ]
  advance-Goes now launching s u =
      let (d, result) = docker.launch_container s.docker (launch_options job (s.heap job.worker)) in
      launched s d result u
  advance-Goes now (storing id) s u = (stores s status_starting id u, omega arith)
  advance-Goes now (waiting id) s u =
      let (d, err) = docker.wait_for_healthy s.docker id health_timeout in
      elim (Option-cases err) [
        | inl e ↦ rw (e, advance) (daemon s status_starting d u, omega arith)
        | inr (x, e) ↦ rw (e, advance) (daemon s status_starting d u, omega arith)
      ]
  advance-Goes now running s u =
      let edge : Edge status_starting status_running = come_up refl refl in
      rw (no_error now s status_starting status_running edge u, advance)
        (inl (moves now s status_starting status_running edge u))
  advance-Goes now cleaning s u = cleans now s u

  -- A goroutine that has so many calls left.
  abbrev EndsIn : (ℕ → Time) → ℕ → Type 0
  EndsIn clock n =
      (stage : Stage) (s : System W)
      → calls_left stage ≤ n
      → Underway (status_at stage) s
      → let (s', left) = start_worker_container docker clock n job stage s in
        (left ≡ none) × Ended s'

  arrives :
      (clock : ℕ → Time) (n : ℕ) (stage : Stage)
      → calls_left stage ≤ suc n
      → EndsIn clock n
      → (p : System W × Option Stage) → Goes (calls_left stage) p
      → let (s', left) = and_then docker (start_worker_container docker clock n job) p in
        (left ≡ none) × Ended s'
  arrives clock n stage l ih (s, none) g = (refl, g)
  arrives clock n stage l ih (s, some next) g = ih next s (omega (arith, g.1, l)) g.0

  ends :
      (clock : ℕ → Time) (n : ℕ) (stage : Stage) (s : System W)
      → calls_left stage ≤ n
      → Underway (status_at stage) s
      → let (s', left) = start_worker_container docker clock n job stage s in
        (left ≡ none) × Ended s'
  unfolding start_worker_container
  ends clock zero stage s l u = absurd (some_left stage l)
    where
      some_left : (st : Stage) → ¬ (calls_left st ≤ 0)
      some_left starting l = omega (arith, l)
      some_left pulling l = omega (arith, l)
      some_left launching l = omega (arith, l)
      some_left (storing _) l = omega (arith, l)
      some_left (waiting _) l = omega (arith, l)
      some_left running l = omega (arith, l)
      some_left cleaning l = omega (arith, l)
  ends clock (suc n) stage s l u =
      arrives clock n stage l (λ next s' l' u'. ends clock n next s' l' u')
        (advance docker (clock n) job stage s) (advance-Goes (clock n) stage s u)

-- `startWorkerContainer` of a pending worker, with nothing in between and whatever the daemon answers, returns within seven calls. The worker is then RUNNING, with the pool and the scheduler as they were, or it is TERMINATING and no longer registered; it is never left STARTING.
pub start_worker_container-Ended :
    {W : Type 0} (docker : Docker W) (job : Job) (s : System W) (clock : ℕ → Time)
    → (s.heap job.worker).status ≡ status_pending
    → let (s', left) = start_worker_container docker clock 7 job starting s in
      (left ≡ none) × Ended docker job s s'
start_worker_container-Ended docker job s clock p =
    ends docker job s clock 7 starting s (omega arith)
      (record { in_status = p; same_id = refl; same_pool = refl; same_scheduler = refl })
