-- ===== src/Main/Gpus.antt =====
-- setupSimulatedGPUs of cmd/aether/main.go: which GPUs the scheduler knows afterwards.
use Prim.Native.String.{◌++◌ as ◌<>◌}
use mathlib.Core.List.{append_cancel_left, append_cancel_right}
use aether_runner.Base.{
  ◌≡◌, refl, sym, ap, ◌∙◌, ℕ, zero, suc, ◌+◌, ◌≤◌, ◌<◌, String, ◌==◌, ◌&&◌, none, some, [], arith,
  if◌then◌else◌, ltb, leb, nat_eq, text_cases, inl, inr, Option-cases, nat_eq_iff, Bool-cases, All,
}
use aether_runner.Base.Int.{ℤ, pos, pos_part, ltb_ℤ, ◌<ℤ◌}
use aether_runner.Base.Machine.{InRange, half_range}
use aether_runner.Base.Assoc.{lookup, lookup-insert, All-insert}
use aether_runner.Base.Decimal.{itoa, atoi, runes, read_int}
use aether_runner.Base.Decimal.Reading.{atoi-itoa, atoi-InRange, runes-append}
use aether_runner.Scheduler.{Scheduler, GpuResidency, new_scheduler, register_gpu}
use aether_runner.Main.{
  Environment, positive_setting, gpu_count, vram_mb, simulated_uuid, register_gpus,
  setup_simulated_gpus,
}

-- Two GPUs have the same name only if they have the same index.
simulated_uuid_inj :
    (i k : ℕ) → i < half_range → k < half_range → simulated_uuid i ≡ simulated_uuid k → i ≡ k
unfolding simulated_uuid atoi
simulated_uuid_inj i k p q h =
    let tail = λ (n : ℕ). runes-append (itoa (pos n)) "-simulated" in
    let front = λ (n : ℕ). runes-append "GPU-" (itoa (pos n) <> "-simulated") in
    let drop =
      append_cancel_left (runes "GPU-") (runes (itoa (pos i) <> "-simulated"))
        (runes (itoa (pos k) <> "-simulated")) (sym (front i) ∙ ap runes h ∙ front k) in
    let same : runes (itoa (pos i)) ≡ runes (itoa (pos k)) =
      append_cancel_right (runes (itoa (pos i))) (runes (itoa (pos k))) (runes "-simulated")
        (sym (tail i) ∙ drop ∙ tail k) in
    let read =
      sym (atoi-itoa (pos i) (p, omega arith))
      ∙ ap read_int same
      ∙ atoi-itoa (pos k) (q, omega arith) in
    cc read

simulated_uuid_eq :
    (i k : ℕ)
    → i < half_range
    → k < half_range
    → (simulated_uuid i == simulated_uuid k) ≡ nat_eq i k
simulated_uuid_eq i k p q = elim (text_cases (simulated_uuid i) (simulated_uuid k)) [
  | inl (e, t) ↦ rw t (sym ((nat_eq_iff i k).1 (simulated_uuid_inj i k p q e)))
  | inr (n, t) ↦ rw t (ground (arith, nat_eq_iff i k, λ (e : i ≡ k). n (ap simulated_uuid e)))
]

-- The GPU as it is registered.
abbrev pub registered : ℕ → ℤ → GpuResidency
registered i vram = record {
  gpu_uuid = simulated_uuid i;
  gpu_index = pos i;
  total_vram_mb = vram;
  allocated_vram = pos 0;
  loaded_models = [];
  active_workers = [];
}

register_gpu-lookup :
    (i k : ℕ) (vram : ℤ) (s : Scheduler)
    → i < half_range
    → k < half_range
    → lookup (simulated_uuid k) (register_gpu s (simulated_uuid i) (pos i) vram).gpus
      ≡ (if nat_eq i k then some (registered k vram) else lookup (simulated_uuid k) s.gpus)
unfolding register_gpu
register_gpu-lookup i k vram s p q =
    rw
      (
        lookup-insert (simulated_uuid i) (simulated_uuid k) (registered i vram) s.gpus,
        simulated_uuid_eq i k p q,
      )
      (elim (Bool-cases (nat_eq i k)) [
        | inl e ↦ rw e (ap (λ n. some (registered n vram)) ((nat_eq_iff i k).0 e))
        | inr e ↦ rw e
      ])

register_gpus-lookup :
    (rounds i k : ℕ) (vram : ℤ) (s : Scheduler)
    → i + rounds < half_range
    → k < half_range
    → lookup (simulated_uuid k) (register_gpus rounds i vram s).gpus ≡ (
        if leb i k && ltb k (i + rounds)
        then some (registered k vram)
        else lookup (simulated_uuid k) s.gpus)
unfolding register_gpus
register_gpus-lookup zero i k vram s p q = ground arith
register_gpus-lookup (suc rounds) i k vram s p q =
    register_gpus-lookup rounds (suc i) k vram (register_gpu s (simulated_uuid i) (pos i) vram)
      (omega arith) q
    ∙ rw (register_gpu-lookup i k vram s (omega arith) q) (ground (arith, nat_eq_iff i k))

-- A positive setting is positive and fits in 64 bits, whatever the variable says.
pub positive_setting-InRange :
    (default : ℤ) (value : String)
    → pos 0 <ℤ default
    → InRange default
    → (pos 0 <ℤ positive_setting default value) × InRange (positive_setting default value)
unfolding positive_setting
positive_setting-InRange default value h k = elim (text_cases value "") [
  | inl (_, t) ↦ rw t (h, k)
  | inr (_, t) ↦ elim (Option-cases (atoi value)) [
    | inl e ↦ rw (t, e) (h, k)
    | inr (c, e) ↦ elim (Bool-cases (ltb_ℤ (pos 0) c)) [
      | inl l ↦ rw (t, e, l) (ground arith, atoi-InRange value c e)
      | inr l ↦ rw (t, e, l) (h, k)
    ]
  ]
]

-- The name of one of so many GPUs.
abbrev pub Simulated : ℕ → String → Type 0
Simulated n uuid = (k : ℕ) × (k < n) × (uuid ≡ simulated_uuid k)

register_gpus-Simulated :
    (n rounds i : ℕ) (vram : ℤ) (s : Scheduler)
    → i + rounds ≤ n
    → All (λ e. Simulated n e.0) s.gpus
    → All (λ e. Simulated n e.0) (register_gpus rounds i vram s).gpus
unfolding register_gpus register_gpu
register_gpus-Simulated n zero i vram s p h = h
register_gpus-Simulated n (suc rounds) i vram s p h =
    register_gpus-Simulated n rounds (suc i) vram (register_gpu s (simulated_uuid i) (pos i) vram)
      (omega arith)
      (All-insert (λ e. Simulated n e.0) (simulated_uuid i) (registered i vram) s.gpus
        (i, omega arith, refl) h)

-- After setupSimulatedGPUs on a new scheduler the GPUs that it knows are GPU-k-simulated for the indices k below the number of GPUs, each with its index and the memory that is configured, and free.
pub setup_simulated_gpus-lookup :
    (getenv : Environment) (k : ℕ)
    → k < half_range
    → (lookup (simulated_uuid k) (setup_simulated_gpus getenv new_scheduler).gpus ≡ (
        if ltb k (pos_part (gpu_count getenv)) then some (registered k (vram_mb getenv)) else none))
      × All
          (λ e. Simulated (pos_part (gpu_count getenv)) e.0)
          (setup_simulated_gpus getenv new_scheduler).gpus
unfolding setup_simulated_gpus new_scheduler gpu_count vram_mb lookup
setup_simulated_gpus-lookup getenv k h =
    let n = pos_part (gpu_count getenv) in
    let range =
      positive_setting-InRange (pos 1) (getenv "AETHER_GPU_COUNT") (omega arith) (omega arith) in
    (
      register_gpus-lookup n 0 k (vram_mb getenv) new_scheduler (omega (arith, range.1)) h
          ∙ ground arith,
      register_gpus-Simulated n n 0 (vram_mb getenv) new_scheduler (omega arith) tt,
    )
