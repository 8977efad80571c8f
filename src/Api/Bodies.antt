-- ===== src/Api/Bodies.antt =====
pub mod RoundTrip
-- pkg/api/handlers.go: the body of a request to create a worker, by the tags of its types.
use aether_runner.Base.{String, ◌==◌, Bool, Option, none, some, if◌then◌else◌, ◌>>=◌, ◌⊎◌, inl, inr}
use aether_runner.Base.Int.{ℤ, pos, eq_ℤ}
use aether_runner.Base.Json.{
  Json, number, text, object, end, member, omit_if, omit_nil, same_key, read_text, read_int,
  read_struct, read_pointer,
}
use aether_runner.Worker.{ModelConfig}
use aether_runner.Api.{CreateWorkerRequest}

abbrev pub zero_config : ModelConfig
zero_config = record { name = ""; version = ""; vram_requirement = pos 0 }

abbrev pub zero_request : CreateWorkerRequest
zero_request = record { model_image = ""; tenant_id = ""; model = none; gpu_count = pos 0 }

-- One member into the field that its key names; another is passed over.
unfoldable pub config_field : String → Json → ModelConfig → Option ModelConfig
config_field key value m =
    if same_key key "name"
    then read_text value m.name >>= (λ x. some (record m { name = x }))
    else if same_key key "version"
    then read_text value m.version >>= (λ x. some (record m { version = x }))
    else if same_key key "vram_requirement_mb"
    then read_int value m.vram_requirement >>= (λ x. some (record m { vram_requirement = x }))
    else some m

unfoldable pub request_field : String → Json → CreateWorkerRequest → Option CreateWorkerRequest
request_field key value req =
    if same_key key "model_image"
    then read_text value req.model_image >>= (λ x. some (record req { model_image = x }))
    else if same_key key "tenant_id"
    then read_text value req.tenant_id >>= (λ x. some (record req { tenant_id = x }))
    else if same_key key "model"
    then read_pointer (read_struct config_field) zero_config value req.model
      >>= (λ x. some (record req { model = x }))
    else if same_key key "gpu_count"
    then read_int value req.gpu_count >>= (λ x. some (record req { gpu_count = x }))
    else some req

-- `Decode(&req)`, on a body that is not JSON, with the error's text, or on its value.
unfoldable pub decode_request : (Json → String) → String ⊎ Json → String ⊎ CreateWorkerRequest
decode_request type_error (inl err) = inl err
decode_request type_error (inr j) = elim (read_struct request_field j zero_request) [
  | none ↦ inl (type_error j)
  | some req ↦ inr req
]

-- What a client of the same types sends; no code of the repository does.
unfoldable pub write_config : ModelConfig → Json
write_config m = object (
    member "name" (text m.name) (
      omit_if (m.version == "") "version" (text m.version)
        (member "vram_requirement_mb" (number m.vram_requirement) end)))

unfoldable pub write_request : CreateWorkerRequest → Json
write_request req = object (
    member "model_image" (text req.model_image) (
      member "tenant_id" (text req.tenant_id) (
        omit_nil write_config "model" req.model
          (omit_if (eq_ℤ req.gpu_count (pos 0)) "gpu_count" (number req.gpu_count) end))))
