-- ===== src/Api/Routes/Safety.antt =====
-- What a request that only reports leaves alone.
use aether_runner.Base.{
  ◌≡◌, ◌≢◌, refl, sym, ◌∙◌, String, ◌==◌, Bool, true, false, Option, none, List, [], ◌∷◌, inl, inr,
  Bool-cases, Option-cases, text_cases, nat_eq, nat_eq_iff, All,
}
use aether_runner.Base.Int.{ℤ}
use aether_runner.Base.Json.{Json}
use aether_runner.Base.Clock.{Time, Duration}
use aether_runner.Worker.{WorkerState, update_uptime, refresh_for_json}
use aether_runner.Pool.{Ref, Heap, store, get_worker, list_workers}
use aether_runner.Docker.{Docker}
use aether_runner.Api.{System}
use aether_runner.Api.Reports.{
  handle_list_workers, handle_get_worker, report_worker, report_workers, to_json,
}
use aether_runner.Api.Routes.{
  path_exists, Action, creates, lists, gets, deletes, checks_health, lists_gpus, Pattern, routes,
  meets, match_path, Found, matched, wrong_method, no_page, dispatch, Readings, Request, Background,
  handle, serve,
}

-- The two workers differ in their metrics at most.
abbrev pub Keeps : WorkerState → WorkerState → Type 0
Keeps w v = record v { metrics = none } ≡ record w { metrics = none }

abbrev pub AllKeep : Heap → Heap → Type 0
AllKeep h k = (r : Ref) → Keeps (h r) (k r)

store-AllKeep : (h : Heap) (r : Ref) (w : WorkerState) → Keeps (h r) w → AllKeep h (store h r w)
store-AllKeep h r w k q = elim (Bool-cases (nat_eq r q)) [
  | inl e ↦ rw (e, sym ((nat_eq_iff r q).0 e)) k
  | inr e ↦ rw e refl
]

abbrev reporting : Action → Bool
reporting creates = false
reporting deletes = false
reporting _ = true

abbrev only_reporting : Found → Bool
only_reporting (matched a id) = reporting a
only_reporting _ = true

path_exists-reporting :
    (f : Found) → only_reporting f ≡ true → only_reporting (path_exists f) ≡ true
unfolding path_exists
path_exists-reporting (matched action id) h = h
path_exists-reporting wrong_method h = refl
path_exists-reporting no_page h = refl

dispatch-reporting :
    (method : String) (path : List String) (ps : List Pattern)
    → All (λ p. meets p.method method ≡ true → reporting p.action ≡ true) ps
    → only_reporting (dispatch ps method path) ≡ true
unfolding dispatch
dispatch-reporting method path [] all = refl
dispatch-reporting method path (p ∷ ps) all =
    let ih = dispatch-reporting method path ps all.1 in
    elim (Option-cases (match_path p.segments path)) [
      | inl e ↦ rw (e, dispatch) ih
      | inr (id, e) ↦ elim (Bool-cases (meets p.method method)) [
        | inl m ↦ rw (e, m, dispatch) (all.0 m)
        | inr m ↦ rw (e, m, dispatch) (path_exists-reporting _ ih)
      ]
    ]

meets_own :
    (pattern method : String)
    → (pattern == "GET") ≡ false
    → meets pattern method ≡ true
    → pattern ≡ method
meets_own pattern method g h = elim (text_cases pattern method) [
  | inl (e, _) ↦ e
  | inr (_, q) ↦ absurd (let bad : false ≡ true = rw (q, g) at h in cc)
]

routes-reporting :
    (method : String)
    → method ≢ "POST"
    → method ≢ "DELETE"
    → All (λ p. meets p.method method ≡ true → reporting p.action ≡ true) routes
routes-reporting method n m =
    let always : reporting lists ≡ true = refl in
    (
      λ h. absurd (n (sym (meets_own "POST" method refl h))),
      (
        λ h. always,
        (
          λ h. always,
          (
            λ h. absurd (m (sym (meets_own "DELETE" method refl h))),
            (λ h. always, (λ h. always, tt)),
          ),
        ),
      ),
    )

-- What a request leaves alone that only reports.
pub record OnlyReported {W : Type 0} (s s' : System W) (task : Option Background) : Type 0 where
  pub pool : s'.pool ≡ s.pool
  pub scheduler : s'.scheduler ≡ s.scheduler
  pub workers : AllKeep s.heap s'.heap
  pub background : task ≡ none

module _ (marshal_time : Time → Option String) (whole_seconds : Duration → ℤ) where
  report_worker-Keeps :
      (times : Time × Time) (w : WorkerState)
      → Keeps w (report_worker marshal_time whole_seconds times w).0
  unfolding report_worker to_json update_uptime refresh_for_json
  report_worker-Keeps times w = refl

  report_workers-AllKeep :
      (times : Ref → Time × Time) (refs : List Ref) (h : Heap)
      → AllKeep h (report_workers marshal_time whole_seconds times h refs).0
  unfolding report_workers
  report_workers-AllKeep times [] h q = refl
  report_workers-AllKeep times (r ∷ refs) h q =
      report_workers-AllKeep times refs
        (store h r (report_worker marshal_time whole_seconds (times r) (h r)).0) q
      ∙ store-AllKeep h r _ (report_worker-Keeps (times r) (h r)) q

  module _ (type_error : Json → String) {W : Type 0} (docker : Docker W) where
    handle_get_worker-AllKeep :
        (times : Time × Time) (worker_id : String) (s : System W)
        → let s' = (handle_get_worker marshal_time whole_seconds docker times worker_id s).0 in
          (s'.pool ≡ s.pool) × (s'.scheduler ≡ s.scheduler) × AllKeep s.heap s'.heap
    unfolding handle_get_worker
    handle_get_worker-AllKeep times worker_id s = elim (Bool-cases (worker_id == "")) [
      | inl e ↦ rw e (refl, refl, λ r. refl)
      | inr e ↦ elim (Option-cases (get_worker s.pool worker_id)) [
        | inl g ↦ rw (e, g) (refl, refl, λ r. refl)
        | inr (r, g) ↦
            let kept = store-AllKeep s.heap r _ (report_worker-Keeps times (s.heap r)) in
            elim (Option-cases (report_worker marshal_time whole_seconds times (s.heap r)).1) [
              | inl j ↦ rw (e, g, j) (refl, refl, kept)
              | inr (j, q) ↦ rw (e, g, q) (refl, refl, kept)
            ]
      ]
    ]

    handle-OnlyReported :
        (at : Readings) (req : Request) (f : Found) (s : System W)
        → only_reporting f ≡ true
        → let (s', (response, task)) =
            handle marshal_time whole_seconds type_error docker at req f s in
          OnlyReported s s' task
    unfolding handle handle_list_workers
    handle-OnlyReported at req no_page s h = record {
      pool = refl;
      scheduler = refl;
      workers = λ r. refl;
      background = refl;
    }
    handle-OnlyReported at req wrong_method s h = record {
      pool = refl;
      scheduler = refl;
      workers = λ r. refl;
      background = refl;
    }
    handle-OnlyReported at req (matched lists id) s h = record {
      pool = refl;
      scheduler = refl;
      workers =
          report_workers-AllKeep at.times (list_workers s.heap s.pool.workers req.tenant_id) s.heap;
      background = refl;
    }
    handle-OnlyReported at req (matched gets id) s h =
        let (pool, scheduler, workers) = handle_get_worker-AllKeep at.reported id s in
        record { pool = pool; scheduler = scheduler; workers = workers; background = refl }
    handle-OnlyReported at req (matched checks_health id) s h = record {
      pool = refl;
      scheduler = refl;
      workers = λ r. refl;
      background = refl;
    }
    handle-OnlyReported at req (matched lists_gpus id) s h = record {
      pool = refl;
      scheduler = refl;
      workers = λ r. refl;
      background = refl;
    }
    handle-OnlyReported at req (matched creates id) s h = absurd (let bad : false ≡ true = h in cc)
    handle-OnlyReported at req (matched deletes id) s h = absurd (let bad : false ≡ true = h in cc)

    -- A request whose method is neither POST nor DELETE only reports, whatever its path: the registry, its counters and the GPUs' books stay as they are, no worker changes but in its metrics, and nothing is started in the background.
    pub serve-OnlyReported :
        (at : Readings) (req : Request) (s : System W)
        → req.method ≢ "POST"
        → req.method ≢ "DELETE"
        → let (s', (response, task)) =
            serve marshal_time whole_seconds type_error docker at req s in
          OnlyReported s s' task
    unfolding serve
    serve-OnlyReported at req s n m =
        handle-OnlyReported at req (dispatch routes req.method req.path) s
          (dispatch-reporting req.method req.path routes (routes-reporting req.method n m))
