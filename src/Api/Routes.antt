-- ===== src/Api/Routes.antt =====
pub mod Safety
pub mod Sequels
pub mod Refinement
mod Tests
-- pkg/api/handlers.go: the routes, the handlers as they answer, and the middleware that logs.
-- A path is the list of its decoded segments, as the router of net/http has them: a path that is not
-- clean never comes to a handler. That the answer to HEAD loses its body is left to net/http as well.
use Prim.Native.String.{◌++◌ as ◌<>◌}
use aether_runner.Base.{
  ℕ, String, ◌==◌, Bool, true, false, ◌&&◌, ◌||◌, Option, none, some, List, [], ◌∷◌, ◌⊎◌, inl, inr,
  if◌then◌else◌, ◌>>=◌,
}
use aether_runner.Base.Int.{ℤ, pos}
use aether_runner.Base.Clock.{Time, Duration, time_sub, milliseconds}
use aether_runner.Base.Json.{Json, text, object, member, end}
use aether_runner.Worker.{status_terminating}
use aether_runner.Wire.{Rfc3339}
use aether_runner.Pool.{Ref}
use aether_runner.Docker.{Docker}
use aether_runner.Api.{
  System, CreateWorkerRequest, Job, Answer, refused, accepted, create_worker, delete_worker,
}
use aether_runner.Api.Bodies.{decode_request}
use aether_runner.Api.Errors.{ApiError, Response, write_error}
use aether_runner.Api.Reports.{
  handle_list_gpus, handle_health_check, handle_list_workers, handle_get_worker,
}

pub data Action : Type 0 where
  creates : Action
  lists : Action
  gets : Action
  deletes : Action
  checks_health : Action
  lists_gpus : Action

pub data Segment : Type 0 where
  exactly : String → Segment
  wildcard : Segment

pub record Pattern : Type 0 where
  pub method : String
  pub segments : List Segment
  pub action : Action

-- The patterns of `RegisterRoutes`.
abbrev pub workers_route : String → Action → Pattern
workers_route method action = record {
  method = method;
  segments = exactly "v1" ∷ exactly "workers" ∷ [];
  action = action;
}

abbrev pub one_worker_route : String → Action → Pattern
one_worker_route method action = record {
  method = method;
  segments = exactly "v1" ∷ exactly "workers" ∷ wildcard ∷ [];
  action = action;
}

abbrev pub status_route : String → Action → Pattern
status_route name action = record {
  method = "GET";
  segments = exactly "v1" ∷ exactly name ∷ [];
  action = action;
}

abbrev pub status_routes : List Pattern
status_routes = status_route "health" checks_health ∷ status_route "gpus" lists_gpus ∷ []

abbrev pub routes : List Pattern
routes =
    workers_route "POST" creates
    ∷ workers_route "GET" lists
    ∷ one_worker_route "GET" gets
    ∷ one_worker_route "DELETE" deletes
    ∷ status_routes

-- A pattern with GET is met by HEAD as well.
abbrev pub meets : String → String → Bool
meets pattern method = pattern == method || (pattern == "GET" && method == "HEAD")

-- Whether a path fits, and `PathValue("id")`, which is empty where the pattern has no wildcard. A
-- wildcard stands for one segment that is not empty.
unfoldable pub match_path : List Segment → List String → Option String
match_path [] [] = some ""
match_path [] (s ∷ path) = none
match_path (p ∷ ps) [] = none
match_path (exactly t ∷ ps) (s ∷ path) =
    let rest = match_path ps path in if t == s then rest else none
match_path (wildcard ∷ ps) (s ∷ path) =
    let rest = match_path ps path in
    if s == "" then none else elim rest [ none ↦ none | some id ↦ some s ]

pub data Found : Type 0 where
  matched : Action → String → Found
  wrong_method : Found
  no_page : Found

-- What is left to answer when a pattern fits in its path but not in its method.
unfoldable pub path_exists : Found → Found
path_exists (matched action id) = matched action id
path_exists wrong_method = wrong_method
path_exists no_page = wrong_method

-- The choice of the router: no two of the patterns have a path in common under one method.
unfoldable pub dispatch : List Pattern → String → List String → Found
unfolding path_exists
dispatch [] method path = no_page
dispatch (p ∷ ps) method path =
    let rest = dispatch ps method path in
    elim (match_path p.segments path) [
      | none ↦ rest
      | some id ↦ if meets p.method method then matched p.action id else path_exists rest
    ]

-- `tenant_id` is what the query has under that key; the body is a value, or what is wrong with its text.
pub record Request : Type 0 where
  pub method : String
  pub path : List String
  pub tenant_id : String
  pub body : String ⊎ Json

-- What a handler starts with `go`.
pub data Background : Type 0 where
  to_start : Job → Background
  to_terminate : Ref → Background

unfoldable pub answer_create : Answer → Response × Option Background
answer_create (refused e) = (write_error e, none)
answer_create (accepted r job) = (
  record {
    status_code = 202;
    body =
        some (object (member "worker_id" (text r.worker_id) (member "status" (text r.status) end)));
  },
  some (to_start job),
)

-- A map is encoded in the order of its keys.
unfoldable pub answer_delete : String → ApiError ⊎ Ref → Response × Option Background
answer_delete worker_id (inl e) = (write_error e, none)
answer_delete worker_id (inr r) = (
  record {
    status_code = 202;
    body = some (
        object
          (member "status" (text status_terminating) (member "worker_id" (text worker_id) end)));
  },
  some (to_terminate r),
)

-- The readings of the clock, for a list of workers those for each of them; and the UUID that is made.
pub record Readings : Type 0 where
  pub now : Time
  pub worker_id : String
  pub reported : Time × Time
  pub times : Ref → Time × Time

-- The router's own answers are no JSON.
abbrev pub plain : ℕ → Response
plain status_code = record { status_code = status_code; body = none }

-- `type_error` is the text of the decoder's error for a value that does not fit.
module _ (marshal_time : Time → Option String) (whole_seconds : Duration → ℤ)
    (type_error : Json → String) {W : Type 0} (docker : Docker W) where
  unfoldable pub handle :
      Readings → Request → Found → System W → System W × (Response × Option Background)
  handle at req no_page s = (s, (plain 404, none))
  handle at req wrong_method s = (s, (plain 405, none))
  handle at req (matched creates id) s =
      let (s', a) = create_worker at.now at.worker_id (decode_request type_error req.body) s in
      (s', answer_create a)
  handle at req (matched lists id) s =
      let (s', response) =
        handle_list_workers marshal_time whole_seconds at.times req.tenant_id s in
      (s', (response, none))
  handle at req (matched gets id) s =
      let (s', response) = handle_get_worker marshal_time whole_seconds docker at.reported id s in
      (s', (response, none))
  handle at req (matched deletes id) s = (s, answer_delete id (delete_worker id s))
  handle at req (matched checks_health id) s =
      (s, (handle_health_check marshal_time docker at.now s, none))
  handle at req (matched lists_gpus id) s = (s, (handle_list_gpus s.scheduler, none))

  unfoldable pub serve : Readings → Request → System W → System W × (Response × Option Background)
  serve at req s = handle at req (dispatch routes req.method req.path) s

-- `r.URL.Path`
unfoldable pub url_path : List String → String
url_path [] = ""
url_path (s ∷ path) = "/" <> (s <> url_path path)

-- The line that `JSONLogger` prints; `remote` is what `RemoteAddr` has up to its first colon.
pub record RequestLog : Type 0 where
  pub timestamp : String
  pub method : String
  pub path : String
  pub status : ℕ
  pub duration_ms : ℤ
  pub remote : String

-- `statusCode` of the response writer: 200, unless a handler writes a header.
unfoldable pub json_logger : Rfc3339 → Time → Time → Time → String → Request → Response → RequestLog
json_logger clock start printed measured remote req response = record {
  timestamp = clock.format printed;
  method = req.method;
  path = url_path req.path;
  status = response.status_code;
  duration_ms = milliseconds (time_sub measured start);
  remote = remote;
}
