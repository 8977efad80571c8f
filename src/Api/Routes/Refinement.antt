-- ===== src/Api/Routes/Refinement.antt =====
-- A request that is served without interruption, as steps of the server of Api/Server.
use mathlib.Core.Path.{fun_ext}
use aether_runner.Base.{
  ◌≡◌, refl, sym, ◌∙◌, ap, String, ◌==◌, Option, none, some, List, [], ◌∷◌, ◌++◌, ◌⊎◌, inl, inr,
  outcome, Bool-cases, Option-cases, nat_eq, not,
}
use aether_runner.Base.Int.{ℤ, pos, le→leb_ℤ, lt→leb_ℤ}
use aether_runner.Base.Clock.{Time, Duration}
use aether_runner.Base.Json.{Json}
use aether_runner.Worker.{
  WorkerState, new_worker_state, update_uptime, refresh_for_json, get_container_id,
}
use aether_runner.Scheduler.{ScheduleResult, schedule}
use aether_runner.Pool.{Ref, Heap, store, count, get_worker, list_workers, has_room_for_one}
use aether_runner.Pool.Registry.{add_worker_cases}
use aether_runner.Docker.{Docker}
use aether_runner.Api.{
  System, CreateWorkerRequest, model_or_default, write, enlist, create_worker, delete_worker, false,
  true,
}
use aether_runner.Api.Creation.{store_same}
use aether_runner.Api.Start.{starting}
use aether_runner.Api.Server.{
  Server, Task, launches, cleans_up, admitted, enlisted, placed, marking, first, Steps, here,
  then_step, admits, enrolls, places, assigns, deletes, updates, marshals, inspects, IsAmount,
  enroll, place, register, counted, registers,
}
use aether_runner.Api.Server.Sequence.{create_all-enlist}
use aether_runner.Api.Bodies.{decode_request}
use aether_runner.Api.Reports.{
  handle_list_workers, handle_get_worker, endpoint_of, report_worker, report_workers, to_json,
}
use aether_runner.Api.Routes.{
  creates, lists, gets, deletes as deletes_one, checks_health, lists_gpus, Found, matched,
  wrong_method, no_page, routes, dispatch, Readings, Request, Background, to_start, to_terminate,
  answer_create, answer_delete, handle, serve,
}

-- What a request starts, as a task of the server.
abbrev pub tasks_of : Heap → Option Background → List Task
tasks_of h none = []
tasks_of h (some (to_start job)) = launches job starting ∷ []
tasks_of h (some (to_terminate r)) = cleans_up r (h r).worker_id marking ∷ []

store_twice : (h : Heap) (r : Ref) (v w : WorkerState) → store (store h r v) r w ≡ store h r w
store_twice h r v w =
    fun_ext (λ q. elim (Bool-cases (nat_eq r q)) [ inl e ↦ rw e refl | inr e ↦ rw e refl ])

module _ {W : Type 0} (docker : Docker W) where
  then_all : {s s' s'' : Server W} → Steps docker s s' → Steps docker s' s'' → Steps docker s s''
  then_all steps here = steps
  then_all steps (then_step more st) = then_step (then_all steps more) st

  enlist-Steps :
      (now : Time) (id : String) (req : CreateWorkerRequest) (chosen : ScheduleResult)
      (s : System W) (ts : List Task)
      → schedule s.scheduler (model_or_default req).name (model_or_default req).vram_requirement
        ≡ some chosen
      → IsAmount (model_or_default req).vram_requirement
      → let (s', a) = enlist now id req chosen s in
        Steps docker
          (record { system = s; tasks = ts })
          (record { system = s'; tasks = tasks_of s'.heap (answer_create a).1 ++ ts })
  unfolding enlist answer_create enroll
  enlist-Steps now id req chosen s ts e amount =
      let w = (new_worker_state now now id req.tenant_id (some (model_or_default req))).0 in
      let h = store s.heap s.fresh w in
      let admission : Steps docker (record { system = s; tasks = ts })
          (record { system = s; tasks = admitted id req chosen ∷ ts }) =
        then_step here (admits id req chosen e refl refl) in
      elim (add_worker_cases h s.pool s.fresh) [
        | inl (full, q) ↦
            let no_room : has_room_for_one s.pool ≡ false =
              ap not (le→leb_ℤ s.pool.max_workers (pos (count s.pool.workers)) full) in
            then_step admission (
              enrolls now id req chosen ts first amount (rw (q, enlist) refl)
                (rw (q, enlist, no_room, enroll) refl))
        | inr (room, q) ↦
            let has_room : has_room_for_one s.pool ≡ true =
              ap not (lt→leb_ℤ s.pool.max_workers (pos (count s.pool.workers)) room) in
            let s₁ = (enroll now id req chosen s).0 in
            let s₂ = register s.fresh s₁ in
            let s₃ = place id req chosen s₂ in
            then_step {s' = record { system = s₃; tasks = placed s.fresh req chosen ∷ ts }}
              (then_step {s' = record { system = s₂; tasks = enlisted s.fresh id req chosen ∷ ts }}
                (then_step {s' = record { system = s₁; tasks = counted s.fresh id req chosen ∷ ts }}
                  (then_step admission
                    (enrolls now id req chosen ts first amount refl (rw (has_room, enroll) refl)))
                  (registers s.fresh id req chosen ts first refl refl))
                (places s.fresh id req chosen ts first amount refl refl))
              (assigns s.fresh req chosen ts first
                (sym (create_all-enlist now id req chosen s room)) (rw (q, enlist) refl))
      ]

  -- `UpdateUptime` and `ToJSON` of one worker.
  report-Steps :
      (marshal_time : Time → Option String) (whole_seconds : Duration → ℤ) (times : Time × Time)
      (r : Ref) (s : System W) (ts : List Task)
      → Steps docker
          (record { system = s; tasks = ts })
          (record {
            system = write s r (report_worker marshal_time whole_seconds times (s.heap r)).0;
            tasks = ts;
          })
  unfolding report_worker to_json
  report-Steps marshal_time whole_seconds (updated, marshalled) r s ts =
      let w = update_uptime whole_seconds updated (s.heap r) in
      let v = refresh_for_json whole_seconds marshalled w in
      let last : write s r v
          ≡ write (write s r w) r
              (refresh_for_json whole_seconds marshalled ((write s r w).heap r)) =
        ap (λ h. record s { heap = h }) (sym (store_twice s.heap r w v))
        ∙ ap
            (λ x. record s {
              heap = store (store s.heap r w) r (refresh_for_json whole_seconds marshalled x);
            })
            (sym (store_same s.heap r w)) in
      then_step {s' = record { system = write s r w; tasks = ts }}
        (then_step here (updates whole_seconds updated r refl refl))
        (marshals whole_seconds marshalled r last refl)

  report_workers-Steps :
      (marshal_time : Time → Option String) (whole_seconds : Duration → ℤ)
      (times : Ref → Time × Time) (refs : List Ref) (s : System W) (ts : List Task)
      → Steps docker
          (record { system = s; tasks = ts })
          (record {
            system = record s {
              heap = (report_workers marshal_time whole_seconds times s.heap refs).0;
            };
            tasks = ts;
          })
  unfolding report_workers
  report_workers-Steps marshal_time whole_seconds times [] s ts = here
  report_workers-Steps marshal_time whole_seconds times (r ∷ refs) s ts =
      then_all (report-Steps marshal_time whole_seconds (times r) r s ts)
        (report_workers-Steps marshal_time whole_seconds times refs _ ts)

  create-Steps :
      (now : Time) (id : String) (body : String ⊎ CreateWorkerRequest) (s : System W)
      (ts : List Task)
      → ((req : CreateWorkerRequest)
          → body ≡ inr req
          → IsAmount (model_or_default req).vram_requirement)
      → let (s', a) = create_worker now id body s in
        Steps docker
          (record { system = s; tasks = ts })
          (record { system = s'; tasks = tasks_of s'.heap (answer_create a).1 ++ ts })
  unfolding create_worker answer_create
  create-Steps now id (inl err) s ts amounts = here
  create-Steps now id (inr req) s ts amounts = elim (Bool-cases (req.model_image == "")) [
    | inl a ↦ rw (a, create_worker) here
    | inr a ↦ elim (Bool-cases (req.tenant_id == "")) [
      | inl b ↦ rw (a, b, create_worker) here
      | inr b ↦
          elim (Option-cases (
            schedule s.scheduler (model_or_default req).name
              (model_or_default req).vram_requirement)) [
                | inl e ↦ rw (a, b, e, create_worker) here
                | inr (chosen, e) ↦
                    rw (a, b, e, create_worker)
                      (enlist-Steps now id req chosen s ts e (amounts req refl))
              ]
    ]
  ]

  inspect-Steps :
      (w : WorkerState) (s : System W) (ts : List Task)
      → Steps docker
          (record { system = s; tasks = ts })
          (record { system = record s { docker = (endpoint_of docker s.docker w).0 }; tasks = ts })
  unfolding endpoint_of
  inspect-Steps w s ts = elim (Bool-cases (get_container_id w == "")) [
    | inl e ↦ rw (e, endpoint_of) here
    | inr e ↦ then_step here (inspects (get_container_id w) (rw (e, endpoint_of) refl) refl)
  ]

  delete-Steps :
      (id : String) (s : System W) (ts : List Task)
      → Steps docker
          (record { system = s; tasks = ts })
          (record {
            system = s;
            tasks = tasks_of s.heap (answer_delete id (delete_worker id s)).1 ++ ts;
          })
  unfolding answer_delete
  delete-Steps id s ts = elim (outcome (delete_worker id s)) [
    | inl (err, e) ↦ rw (e, answer_delete) here
    | inr (r, e) ↦ then_step here (deletes id r e refl (rw (e, answer_delete) refl))
  ]

module _ (marshal_time : Time → Option String) (whole_seconds : Duration → ℤ)
    (type_error : Json → String) {W : Type 0} (docker : Docker W) where
  get-Steps :
      (times : Time × Time) (id : String) (s : System W) (ts : List Task)
      → Steps docker
          (record { system = s; tasks = ts })
          (record {
            system = (handle_get_worker marshal_time whole_seconds docker times id s).0;
            tasks = ts;
          })
  unfolding handle_get_worker
  get-Steps times id s ts = elim (Bool-cases (id == "")) [
    | inl e ↦ rw e here
    | inr e ↦ elim (Option-cases (get_worker s.pool id)) [
      | inl g ↦ rw (e, g) here
      | inr (r, g) ↦
          let d = (endpoint_of docker s.docker (s.heap r)).0 in
          let steps =
            then_all docker (inspect-Steps docker (s.heap r) s ts) (
              report-Steps docker marshal_time whole_seconds times r (record s { docker = d })
                ts) in
          elim (Option-cases (report_worker marshal_time whole_seconds times (s.heap r)).1) [
            | inl j ↦ rw (e, g, j) steps
            | inr (j, q) ↦ rw (e, g, q) steps
          ]
    ]
  ]

  handle-Steps :
      (at : Readings) (req : Request) (f : Found) (s : System W) (ts : List Task)
      → ((body : CreateWorkerRequest)
          → decode_request type_error req.body ≡ inr body
          → IsAmount (model_or_default body).vram_requirement)
      → let (s', (response, started)) =
          handle marshal_time whole_seconds type_error docker at req f s in
        Steps docker
          (record { system = s; tasks = ts })
          (record { system = s'; tasks = tasks_of s'.heap started ++ ts })
  unfolding handle handle_list_workers
  handle-Steps at req no_page s ts amounts = here
  handle-Steps at req wrong_method s ts amounts = here
  handle-Steps at req (matched creates id) s ts amounts =
      create-Steps docker at.now at.worker_id (decode_request type_error req.body) s ts amounts
  handle-Steps at req (matched lists id) s ts amounts =
      report_workers-Steps docker marshal_time whole_seconds at.times
        (list_workers s.heap s.pool.workers req.tenant_id) s ts
  handle-Steps at req (matched gets id) s ts amounts = get-Steps at.reported id s ts
  handle-Steps at req (matched deletes_one id) s ts amounts = delete-Steps docker id s ts
  handle-Steps at req (matched checks_health id) s ts amounts = here
  handle-Steps at req (matched lists_gpus id) s ts amounts = here

  -- Any request that is served without interruption, one to create a worker with an amount of at least 0, is a sequence of steps of the server, and what it starts in the background is then a task of it: the routes and handlers refine the step relation of Api/Server.
  pub serve-Steps :
      (at : Readings) (req : Request) (s : System W) (ts : List Task)
      → ((body : CreateWorkerRequest)
          → decode_request type_error req.body ≡ inr body
          → IsAmount (model_or_default body).vram_requirement)
      → let (s', (response, started)) =
          serve marshal_time whole_seconds type_error docker at req s in
        Steps docker
          (record { system = s; tasks = ts })
          (record { system = s'; tasks = tasks_of s'.heap started ++ ts })
  unfolding serve
  serve-Steps at req s ts amounts =
      handle-Steps at req (dispatch routes req.method req.path) s ts amounts
