-- ===== src/Api/Reports/Floats.antt =====
-- The answers of pkg/api/handlers.go that go through a `map[string]interface{}`, where a number is a float64.
use aether_runner.Base.{
  ◌≡◌, refl, ap, ℕ, ◌≤◌, ◌+◌, String, ◌==◌, false, Option, none, some, arith, inl, inr,
  Option-cases, Bool-cases,
}
use aether_runner.Base.Int.{ℤ, pos, negsuc, pos_part, neg_part}
use aether_runner.Base.Json.{
  Json, Members, end, omit_nil, untyped, untyped_members, float64, float_at, nearest, set_member,
  omit_if,
}
use aether_runner.Wire.{WireModel, WireGpu, WireMetrics, WireWorkerState}
use aether_runner.Wire.Encoding.{write_model, write_gpu, write_metrics, write_worker}
use aether_runner.Api.{suc}

-- A float64 has the integer, up to 2 ^ 53.
abbrev pub Small : ℤ → Type 0
Small z = (pos_part z ≤ 9007199254740992) × (neg_part z ≤ 9007199254740992)

-- What holds of the value that is there.
abbrev pub Each : {A : Type 0} → (A → Type 0) → Option A → Type 0
Each P none = Unit
Each P (some x) = P x

abbrev pub ModelSmall : WireModel → Type 0
ModelSmall m = Small m.vram_requirement

abbrev pub GpuSmall : WireGpu → Type 0
GpuSmall g = Small g.index × Small g.memory_allocated_mb

abbrev pub MetricsSmall : WireMetrics → Type 0
MetricsSmall m = Small m.uptime_seconds × Small m.total_requests

abbrev pub WorkerSmall : WireWorkerState → Type 0
WorkerSmall w =
    Each ModelSmall w.model × Each GpuSmall w.gpu_assignment × Each MetricsSmall w.metrics

nearest_one : (n : ℕ) → nearest n 1 ≡ n
unfolding nearest
nearest_one n = ground arith

float_at_small : (doublings n : ℕ) → n ≤ 9007199254740992 → float_at (suc doublings) 1 n ≡ n
unfolding float_at
float_at_small doublings n h = ground (arith, nearest_one n)

float64-Small : (z : ℤ) → Small z → float64 z ≡ z
unfolding float64
float64-Small (pos n) h = ap pos (float_at_small 9 n h.0)
float64-Small (negsuc n) h = rw (float_at_small 9 (n + 1) (omega arith)) (ground arith)

model_untyped : (m : WireModel) → Small m.vram_requirement → untyped (write_model m) ≡ write_model m
unfolding untyped write_model omit_if
model_untyped m h = elim (Bool-cases (m.version == "")) [
  | inl t ↦ rw (t, float64-Small m.vram_requirement h)
  | inr t ↦ rw (t, float64-Small m.vram_requirement h)
]

gpu_untyped :
    (g : WireGpu)
    → Small g.index × Small g.memory_allocated_mb
    → untyped (write_gpu g) ≡ write_gpu g
unfolding untyped write_gpu
gpu_untyped g (h, k) = rw (float64-Small g.index h, float64-Small g.memory_allocated_mb k)

metrics_untyped :
    (m : WireMetrics)
    → Small m.uptime_seconds × Small m.total_requests
    → untyped (write_metrics m) ≡ write_metrics m
unfolding untyped write_metrics omit_nil
metrics_untyped m (h, k) = elim (Option-cases m.last_request_at) [
  | inl e ↦ rw (e, float64-Small m.uptime_seconds h, float64-Small m.total_requests k)
  | inr (t, e) ↦ rw (e, float64-Small m.uptime_seconds h, float64-Small m.total_requests k)
]

module _ {A : Type 0} (write : A → Json) (key : String) (rest : Members) where
  untyped_members-omit_nil :
      (P : A → Type 0) (o : Option A)
      → ((x : A) → P x → untyped (write x) ≡ write x)
      → Each P o
      → untyped_members (omit_nil write key o rest) ≡ omit_nil write key o (untyped_members rest)
  unfolding untyped omit_nil
  untyped_members-omit_nil P none small h = refl
  untyped_members-omit_nil P (some x) small h = rw (small x h)

  pub set_member-omit_nil :
      (other : String) (value : Json) (o : Option A)
      → (key == other) ≡ false
      → set_member other value (omit_nil write key o rest)
        ≡ omit_nil write key o (set_member other value rest)
  unfolding set_member omit_nil
  set_member-omit_nil other value none h = refl
  set_member-omit_nil other value (some x) h = rw h

pub worker_untyped :
    (w : WireWorkerState) → WorkerSmall w → untyped (write_worker w) ≡ write_worker w
unfolding untyped write_worker
worker_untyped w (h, k, l) = rw (
  untyped_members-omit_nil write_model "model" _ ModelSmall w.model model_untyped h,
  untyped_members-omit_nil write_gpu "gpu_assignment" _ GpuSmall w.gpu_assignment gpu_untyped k,
  untyped_members-omit_nil write_metrics "metrics" end MetricsSmall w.metrics metrics_untyped l,
)
