-- ===== src/Api/Bodies/RoundTrip.antt =====
-- A body that a client of the same types sends to pkg/api/handlers.go.
use aether_runner.Base.{
  ◌≡◌, refl, String, Option, none, some, text_cases, inl, inr, ap, sym, ◌∙◌, suc, nat_eq_iff, arith,
  ◌+◌, Bool-cases, true,
}
use aether_runner.Base.Int.{ℤ, pos, negsuc, eq_ℤ}
use aether_runner.Base.Machine.{InRange}
use aether_runner.Base.Json.{
  Json, Members, read_struct, read_pointer, read_members, same_key, omit_if, read_text, number,
  omit_nil, end,
}
use aether_runner.Base.Json.Reading.{read_int-number}
use aether_runner.Worker.{ModelConfig}
use aether_runner.Api.{CreateWorkerRequest}
use aether_runner.Api.Bodies.{
  config_field, request_field, write_config, write_request, zero_config, zero_request,
  decode_request,
}

abbrev pub ConfigFits : Option ModelConfig → Type 0
ConfigFits none = Unit
ConfigFits (some m) = InRange m.vram_requirement

-- The integers are those of Go's `int`.
abbrev pub RequestFits : CreateWorkerRequest → Type 0
RequestFits req = ConfigFits req.model × InRange req.gpu_count

config_back :
    (m : ModelConfig)
    → InRange m.vram_requirement
    → read_struct config_field (write_config m) zero_config ≡ some m
unfolding read_struct read_members write_config config_field same_key omit_if read_text
config_back m h = elim (text_cases m.version "") [
  | inl (e, t) ↦
      rw (t, read_int-number m.vram_requirement (pos 0) h)
        (ap (λ v. some (record m { version = v })) (sym e))
  | inr (_, t) ↦ rw (t, read_int-number m.vram_requirement (pos 0) h)
]

no_gpus : (z : ℤ) → eq_ℤ z (pos 0) ≡ true → z ≡ pos 0
no_gpus (pos n) e = let same : n + 0 ≡ 0 = (nat_eq_iff (n + 0) 0).0 e in ap pos (omega arith)
no_gpus (negsuc n) e =
    let same : 0 ≡ 0 + suc n = (nat_eq_iff 0 (0 + suc n)).0 e in absurd (omega arith)

count_back :
    (req : CreateWorkerRequest)
    → InRange req.gpu_count
    → read_members request_field
        (omit_if (eq_ℤ req.gpu_count (pos 0)) "gpu_count" (number req.gpu_count) end)
        (record req { gpu_count = pos 0 })
      ≡ some req
unfolding read_members request_field same_key omit_if
count_back req h = elim (Bool-cases (eq_ℤ req.gpu_count (pos 0))) [
  | inl e ↦ rw e (ap (λ n. some (record req { gpu_count = n })) (sym (no_gpus req.gpu_count e)))
  | inr e ↦ rw (e, read_int-number req.gpu_count (pos 0) h)
]

config_member :
    (req : CreateWorkerRequest) (rest : Members) (m : Option ModelConfig)
    → ConfigFits m
    → read_members request_field
        (omit_nil write_config "model" m rest)
        (record req { model = none })
      ≡ read_members request_field rest (record req { model = m })
unfolding read_members request_field same_key omit_nil read_pointer write_config
config_member req rest none h = refl
config_member req rest (some m) h = rw (read_pointer, config_back m h)

-- A request that a client writes by the tags of the types, its integers within 64 bits, is decoded as the same request.
pub decode_request-write_request :
    (type_error : Json → String) (req : CreateWorkerRequest)
    → RequestFits req
    → decode_request type_error (inr (write_request req)) ≡ inr req
unfolding decode_request read_struct read_members write_request request_field same_key read_text
decode_request-write_request type_error req (h, k) =
    let back : read_struct request_field (write_request req) zero_request ≡ some req =
      config_member (record req { gpu_count = pos 0 }) _ req.model h ∙ count_back req k in
    rw (back, decode_request) refl
