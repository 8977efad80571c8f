-- ===== src/Wire/Payloads/RoundTrip.antt =====
-- The payloads of pkg/orchestrator/wire.go, written as JSON and read back.
use aether_runner.Base.{
  ◌≡◌, refl, sym, ap, ◌∙◌, String, ◌==◌, Option, none, some, List, [], ◌∷◌, All, text_cases, inl,
  inr, All-intro, All-map,
}
use aether_runner.Base.Int.{pos}
use aether_runner.Base.Machine.{InRange}
use aether_runner.Base.Json.{
  Members, end, text, omit_if, omit_nil, read_struct, read_members, read_text, read_bool,
  read_pointer, read_list, write_list, same_key,
}
use aether_runner.Base.Json.Reading.{read_int-number, read_list-write_list}
use aether_runner.Wire.{WireWorkerState}
use aether_runner.Wire.Encoding.{write_worker}
use aether_runner.Wire.Encoding.RoundTrip.{WorkerFits, worker_back}
use aether_runner.Wire.Payloads.{
  WireGpuStats, HeartbeatPayload, CommandPayload, AckPayload, write_heartbeat, write_command,
  write_ack, write_gpu_stats, heartbeat_field, command_field, ack_field, gpu_stats_field,
  zero_gpu_stats, zero_heartbeat, zero_command, zero_ack, is_empty, write_pointer, read_worker,
}

-- The integers are those of Go's `int`.
abbrev pub SpecFits : Option WireWorkerState → Type 0
SpecFits none = Unit
SpecFits (some w) = WorkerFits w

abbrev pub StatsFit : WireGpuStats → Type 0
StatsFit g = InRange g.index × InRange g.total_vram_mb × InRange g.allocated_mb

texts_back : (xs : List String) → read_list (λ j. read_text j "") (write_list text xs) ≡ some xs
unfolding read_text
texts_back xs = read_list-write_list text (λ j. read_text j "") xs (All-intro (λ x. refl) xs)

gpu_stats_back :
    (g : WireGpuStats)
    → StatsFit g
    → read_struct gpu_stats_field (write_gpu_stats g) zero_gpu_stats ≡ some g
unfolding read_struct read_members write_gpu_stats gpu_stats_field same_key read_text
gpu_stats_back g (h, k, l) = rw (
  read_int-number g.index (pos 0) h,
  read_int-number g.total_vram_mb (pos 0) k,
  read_int-number g.allocated_mb (pos 0) l,
  texts_back g.loaded_models,
  texts_back g.active_workers,
)

read_worker_back :
    (o : Option WireWorkerState) → SpecFits o → read_worker (write_pointer write_worker o) ≡ some o
unfolding read_worker write_pointer read_pointer write_worker
read_worker_back none h = refl
read_worker_back (some w) h = rw (worker_back w h)

workers_back :
    (ws : List (Option WireWorkerState))
    → All SpecFits ws
    → All (λ o. read_worker (write_pointer write_worker o) ≡ some o) ws
workers_back ws h =
    All-map SpecFits (λ o. read_worker (write_pointer write_worker o) ≡ some o) ws read_worker_back
      h

stats_back :
    (gs : List WireGpuStats)
    → All StatsFit gs
    → All (λ g. read_struct gpu_stats_field (write_gpu_stats g) zero_gpu_stats ≡ some g) gs
stats_back gs h =
    All-map StatsFit (λ g. read_struct gpu_stats_field (write_gpu_stats g) zero_gpu_stats ≡ some g)
      gs gpu_stats_back h

module _ (p : AckPayload) (rest : Members) where
  error_member :
      (e : String)
      → read_members ack_field (omit_if (e == "") "error" (text e) rest) (record p { error = "" })
        ≡ read_members ack_field rest (record p { error = e })
  unfolding read_members ack_field same_key read_text omit_if
  error_member e = elim (text_cases e "") [
    | inl (q, t) ↦ rw t (ap (λ x. read_members ack_field rest (record p { error = x })) (sym q))
    | inr (_, t) ↦ rw t
  ]

  worker_id_member :
      (id : String)
      → read_members ack_field
          (omit_if (id == "") "worker_id" (text id) rest)
          (record p { worker_id = "" })
        ≡ read_members ack_field rest (record p { worker_id = id })
  unfolding read_members ack_field same_key read_text omit_if
  worker_id_member id = elim (text_cases id "") [
    | inl (q, t) ↦ rw t (ap (λ x. read_members ack_field rest (record p { worker_id = x })) (sym q))
    | inr (_, t) ↦ rw t
  ]

pub ack_back : (p : AckPayload) → read_struct ack_field (write_ack p) zero_ack ≡ some p
unfolding read_struct read_members write_ack ack_field same_key read_text read_bool
ack_back p =
    error_member (record p { worker_id = "" }) _ p.error ∙ worker_id_member p end p.worker_id

module _ (p : CommandPayload) (rest : Members) where
  target_gpu_member :
      (gpu : String)
      → read_members command_field
          (omit_if (gpu == "") "target_gpu" (text gpu) rest)
          (record p { target_gpu = "" })
        ≡ read_members command_field rest (record p { target_gpu = gpu })
  unfolding read_members command_field same_key read_text omit_if
  target_gpu_member gpu = elim (text_cases gpu "") [
    | inl (q, t) ↦
        rw t (ap (λ x. read_members command_field rest (record p { target_gpu = x })) (sym q))
    | inr (_, t) ↦ rw t
  ]

  worker_spec_member :
      (spec : Option WireWorkerState)
      → SpecFits spec
      → read_members command_field
          (omit_nil write_worker "worker_spec" spec rest)
          (record p { worker_spec = none })
        ≡ read_members command_field rest (record p { worker_spec = spec })
  unfolding read_members command_field same_key omit_nil read_pointer write_worker
  worker_spec_member none h = refl
  worker_spec_member (some w) h = rw (worker_back w h)

pub command_back :
    (p : CommandPayload)
    → SpecFits p.worker_spec
    → read_struct command_field (write_command p) zero_command ≡ some p
unfolding read_struct read_members write_command command_field same_key read_text
command_back p h =
    target_gpu_member (record p { worker_spec = none }) _ p.target_gpu
    ∙ worker_spec_member p end p.worker_spec h

gpu_stats_member :
    (p : HeartbeatPayload) (rest : Members) (gs : List WireGpuStats)
    → All StatsFit gs
    → read_members heartbeat_field
        (omit_if (is_empty gs) "gpu_stats" (write_list write_gpu_stats gs) rest)
        (record p { gpu_stats = [] })
      ≡ read_members heartbeat_field rest (record p { gpu_stats = gs })
unfolding read_members heartbeat_field same_key omit_if is_empty
gpu_stats_member p rest [] h = refl
gpu_stats_member p rest (g ∷ gs) h = rw (
    read_list-write_list write_gpu_stats (λ j. read_struct gpu_stats_field j zero_gpu_stats)
      (g ∷ gs) (stats_back (g ∷ gs) h))

pub heartbeat_back :
    (p : HeartbeatPayload)
    → All SpecFits p.workers
    → All StatsFit p.gpu_stats
    → read_struct heartbeat_field (write_heartbeat p) zero_heartbeat ≡ some p
unfolding read_struct read_members write_heartbeat heartbeat_field same_key read_text
heartbeat_back p h k =
    rw
      (read_list-write_list (write_pointer write_worker) read_worker p.workers
        (workers_back p.workers h))
      (gpu_stats_member p end p.gpu_stats k)
