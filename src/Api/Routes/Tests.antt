-- ===== src/Api/Routes/Tests.antt =====
-- Requests to a small server through the routes of pkg/api/handlers.go.
use aether_runner.Base.{
  ◌≡◌, refl, sym, ◌∙◌, subst, ◌++◌, arith, ℕ, String, Option, some, List, [], ◌∷◌, inr, text_ne,
}
use aether_runner.Base.Int.{ℤ, pos}
use aether_runner.Base.Json.{Json}
use aether_runner.Api.Bodies.{decode_request, write_request}
use aether_runner.Api.Bodies.RoundTrip.{decode_request-write_request}
use aether_runner.Base.Clock.{Time, Duration}
use aether_runner.Api.{model_or_default, CreateWorkerRequest, System}
use aether_runner.Api.Errors.{Response}
use aether_runner.Api.Tests.{daemon, server, request}
use aether_runner.Api.Routes.{
  Request, Readings, Background, matched, wrong_method, no_page, routes, match_path, dispatch,
  path_exists, gets, serve, url_path,
}
use aether_runner.Api.Routes.Safety.{OnlyReported, serve-OnlyReported}
use aether_runner.Api.Routes.Refinement.{tasks_of, serve-Steps}
use aether_runner.Api.Server.{Steps, IsAmount}

abbrev marshal_time : Time → Option String
marshal_time t = some "a time"

abbrev seconds : Duration → ℤ
seconds d = d

abbrev type_error : Json → String
type_error j = "json: cannot unmarshal"

abbrev readings : Readings
readings = record {
  now = 2000;
  worker_id = "w-9";
  reported = (3000, 4000);
  times = λ r. (3000, 4000);
}

abbrev request_for : String → List String → Request
request_for method path = record {
  method = method;
  path = path;
  tenant_id = "";
  body = inr (write_request request);
}

abbrev post : Request
post = request_for "POST" ("v1" ∷ "workers" ∷ [])

abbrev one : Request
one = request_for "HEAD" ("v1" ∷ "workers" ∷ "w-9" ∷ [])

abbrev serve_here : Request → System ℕ → System ℕ × (Response × Option Background)
serve_here = serve marshal_time seconds type_error daemon readings

serve-OnlyReported_example :
    let (s', (response, task)) = serve_here one server in OnlyReported server s' task
serve-OnlyReported_example =
    serve-OnlyReported marshal_time seconds type_error daemon readings one server (text_ne _ _ refl)
      (text_ne _ _ refl)

-- HEAD goes where GET goes.
head : dispatch routes "HEAD" ("v1" ∷ "workers" ∷ "w-9" ∷ []) ≡ matched gets "w-9"
unfolding dispatch match_path path_exists
head = refl

patched : dispatch routes "PATCH" ("v1" ∷ "workers" ∷ "w-9" ∷ []) ≡ wrong_method
unfolding dispatch match_path path_exists
patched = refl

-- A wildcard is not empty.
no_id : dispatch routes "DELETE" ("v1" ∷ "workers" ∷ "" ∷ []) ≡ no_page
unfolding dispatch match_path path_exists
no_id = refl

path_back : url_path ("v1" ∷ "gpus" ∷ []) ≡ "/v1/gpus"
unfolding url_path
path_back = refl

abbrev sent : CreateWorkerRequest
sent = record request {
  model = some (record { name = "phi"; version = ""; vram_requirement = pos 6000 });
  gpu_count = pos 1;
}

decode_request-write_request_example :
    decode_request type_error (inr (write_request sent)) ≡ inr sent
decode_request-write_request_example =
    decode_request-write_request type_error sent
      ((omega arith, omega arith), (omega arith, omega arith))

sent-IsAmount :
    (body : CreateWorkerRequest)
    → decode_request type_error (inr (write_request sent)) ≡ inr body
    → IsAmount (model_or_default body).vram_requirement
sent-IsAmount body e =
    let read : inr sent ≡ inr body =
      sym (
        decode_request-write_request type_error sent
          ((omega arith, omega arith), (omega arith, omega arith)))
      ∙ e in
    let same : sent ≡ body = cc in
    subst (λ (b : CreateWorkerRequest). IsAmount (model_or_default b).vram_requirement) same
      (omega arith, omega arith)

serve-Steps_example :
    let req = record post { body = inr (write_request sent) } in
    let (s', (response, started)) = serve_here req server in
    Steps daemon
      (record { system = server; tasks = [] })
      (record { system = s'; tasks = tasks_of s'.heap started ++ [] })
serve-Steps_example =
    serve-Steps marshal_time seconds type_error daemon readings
      (record post { body = inr (write_request sent) }) server [] sent-IsAmount
