-- ===== src/Api/Errors.antt =====
-- pkg/api/errors.go: the errors of the API, with their codes and HTTP statuses, and how they are
-- answered. `Encode` of a value that has no JSON writes nothing, which is `none`.
use Prim.Native.String.{◌++◌ as ◌<>◌}
use aether_runner.Base.Json.{Json, text, object, member, end}
use aether_runner.Base.Int.{pos}
use aether_runner.Base.Decimal.{itoa}
use aether_runner.Base.{ℕ, String, some, Option}
use aether_runner.Pool.{PoolError, at_capacity}

-- A message: a text, or the text of an error of the pool.
pub data Message : Type 0 where
  literal : String → Message
  error_of : PoolError → Message

pub record ApiError : Type 0 where
  pub code : String
  pub message : Message
  pub status_code : ℕ

unfoldable pub with_message : ApiError → Message → ApiError
with_message e message = record e { message = message }

abbrev pub err_resource_exhausted : ApiError
err_resource_exhausted = record {
  code = "RESOURCE_EXHAUSTED";
  message = literal "No GPUs available with sufficient VRAM";
  status_code = 503;
}

abbrev pub err_tenant_quota_exceeded : ApiError
err_tenant_quota_exceeded = record {
  code = "TENANT_QUOTA_EXCEEDED";
  message = literal "Tenant has reached maximum concurrent workers";
  status_code = 429;
}

abbrev pub err_worker_not_found : ApiError
err_worker_not_found = record {
  code = "WORKER_NOT_FOUND";
  message = literal "Worker with the specified ID was not found";
  status_code = 404;
}

abbrev pub err_invalid_request : ApiError
err_invalid_request = record {
  code = "INVALID_REQUEST";
  message = literal "The request body is invalid or malformed";
  status_code = 400;
}

abbrev pub err_gpu_unavailable : ApiError
err_gpu_unavailable = record {
  code = "GPU_UNAVAILABLE";
  message = literal "Requested GPU index not found or not accessible";
  status_code = 503;
}

abbrev pub err_docker_failed : ApiError
err_docker_failed = record {
  code = "DOCKER_FAILED";
  message = literal "Docker daemon error occurred";
  status_code = 500;
}

abbrev pub err_invalid_image : ApiError
err_invalid_image = record {
  code = "INVALID_IMAGE";
  message = literal "Container image not found or invalid";
  status_code = 400;
}

abbrev pub err_internal_error : ApiError
err_internal_error = record {
  code = "INTERNAL_ERROR";
  message = literal "An internal error occurred";
  status_code = 500;
}

abbrev pub err_invalid_state_transition : ApiError
err_invalid_state_transition = record {
  code = "INVALID_STATE_TRANSITION";
  message = literal "The requested state transition is not valid";
  status_code = 409;
}

unfoldable pub message_text : Message → String
message_text (literal s) = s
message_text (error_of (at_capacity n max_workers)) =
    "worker pool at capacity (" <> (itoa (pos n) <> ("/" <> (itoa max_workers <> ")")))

-- `Error()`
unfoldable pub error_text : ApiError → String
error_text e = message_text e.message

unfoldable pub new_api_error : String → String → ℕ → ApiError
new_api_error code message status_code = record {
  code = code;
  message = literal message;
  status_code = status_code;
}

pub record Response : Type 0 where
  pub status_code : ℕ
  pub body : Option Json

unfoldable pub write_error : ApiError → Response
write_error e = record {
  status_code = e.status_code;
  body = some (
      object (
        member "error"
          (object (member "code" (text e.code) (member "message" (text (error_text e)) end))) end));
}

unfoldable pub write_error_with_message : ApiError → String → Response
write_error_with_message e message = write_error (with_message e (literal message))

-- An `error`: one of the API's, or another with its text.
pub data AnyError : Type 0 where
  api_error : ApiError → AnyError
  other_error : String → AnyError

unfoldable pub from_error : AnyError → ApiError
from_error (api_error e) = e
from_error (other_error s) = record {
  code = "INTERNAL_ERROR";
  message = literal s;
  status_code = 500;
}
