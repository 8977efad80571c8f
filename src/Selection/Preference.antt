-- ===== src/Selection/Preference.antt =====
-- `SelectWorker` and `SelectWorkerForModel` of pkg/orchestrator/scheduler.go, in terms of the registered workers and of the memory that is free on each GPU.
use aether_runner.Base.{
  ◌≡◌, ◌↔◌, ◌∙◌, sym, String, true, false, none, some, [], ◌∷◌, Memᴰ, All, All-Memᴰ, Bool-cases,
  inl, inr, refl, subst, eq_iff, Option-cases,
}
use aether_runner.Base.Int.{ℤ, pos, ◌≤ℤ◌, leb_ℤ, leb_ℤ→le, le→leb_ℤ}
use aether_runner.Base.Machine.{sub64}
use aether_runner.Base.Assoc.{Map}
use aether_runner.Worker.{WorkerState, ModelConfig, status_idle}
use aether_runner.Scheduler.{GpuResidency, Scheduler, has_available_gpu, available}
use aether_runner.Pool.{Ref, Heap, WorkerPool, list_workers, has_model}
use aether_runner.Pool.Queries.{Belongs, list_workers-mem}
use aether_runner.Selection.{SelectWorkerResult, select_worker, select_worker_for_model}
use aether_runner.Selection.Passes.{IsIdle, HasModel, HasRoom}
use aether_runner.Selection.Routing.{
  Routing, warm_hit, repurpose, cold_start, exhausted, select_worker-Routing,
  select_worker_for_model-Routing,
}

-- A registered worker of the tenant, or any registered worker for the empty tenant.
abbrev pub Candidate : Heap → WorkerPool → String → Ref → Type 0
Candidate h p tenant_id r = ((id : String) × Memᴰ (id, r) p.workers) × Belongs h tenant_id r

-- A registered GPU whose total exceeds what is allocated by the amount or more.
abbrev pub HasFree : Map GpuResidency → ℤ → Type 0
HasFree gpus v =
    (uuid : String) × (g : GpuResidency) × Memᴰ (uuid, g) gpus
    × (v ≤ℤ sub64 g.total_vram_mb g.allocated_vram)

-- A worker in IDLE whose model has the name.
abbrev pub IsWarm : String → WorkerState → Type 0
IsWarm model_name w =
    (w.status ≡ status_idle) × ((m : ModelConfig) × (w.model ≡ some m) × (m.name ≡ model_name))

HasModel-IsWarm :
    (model_name : String) (w : WorkerState) → HasModel model_name w ↔ IsWarm model_name w
unfolding has_model
HasModel-IsWarm model_name w = (
  λ (i, e). (
    i,
    elim (Option-cases w.model) [
      | inl q ↦ let bad : false ≡ true = rw q at e in cc
      | inr (m, q) ↦ (m, q, (eq_iff m.name model_name).0 (rw q at e))
    ],
  ),
  λ (i, (m, q, e)). (i, rw q ((eq_iff m.name model_name).1 e)),
)

-- The four answers in order of preference.
pub data Preference (h : Heap) (Candidates : Ref → Type 0) (model_name : String)
    (Reusable : WorkerState → Type 0) (Free : Type 0) (out : SelectWorkerResult) : Type 0 where
  uses_warm :
      (r : Ref)
      → Candidates r
      → IsWarm model_name (h r)
      → out.worker ≡ some r
      → out.is_warm_hit ≡ true
      → out.is_cold_hit ≡ false
      → Preference h Candidates model_name Reusable Free out
  reuses :
      (r : Ref)
      → Candidates r
      → ((q : Ref) → Candidates q → ¬ IsWarm model_name (h q))
      → Reusable (h r)
      → out.worker ≡ some r
      → out.is_warm_hit ≡ false
      → out.is_cold_hit ≡ false
      → Preference h Candidates model_name Reusable Free out
  starts_new :
      ((q : Ref) → Candidates q → ¬ IsWarm model_name (h q))
      → ((q : Ref) → Candidates q → ¬ Reusable (h q))
      → Free
      → out.worker ≡ none
      → out.is_warm_hit ≡ false
      → out.is_cold_hit ≡ true
      → Preference h Candidates model_name Reusable Free out
  finds_nothing :
      ((q : Ref) → Candidates q → ¬ IsWarm model_name (h q))
      → ((q : Ref) → Candidates q → ¬ Reusable (h q))
      → ¬ Free
      → out.worker ≡ none
      → out.is_warm_hit ≡ false
      → out.is_cold_hit ≡ false
      → Preference h Candidates model_name Reusable Free out

listed-Candidate :
    (h : Heap) (p : WorkerPool) (tenant_id : String) (r : Ref)
    → Memᴰ r (list_workers h p.workers tenant_id) ↔ Candidate h p tenant_id r
listed-Candidate h p tenant_id r = (
  λ m. let (id, q, k, b, e) = (list_workers-mem h p tenant_id r).0 m in rw e ((id, k), b),
  λ ((id, k), b). (list_workers-mem h p tenant_id r).1 (id, r, k, b, refl),
)

has_available_gpu-HasFree :
    (gpus : Map GpuResidency) (v : ℤ) → (has_available_gpu gpus v ≡ true) ↔ HasFree gpus v
unfolding has_available_gpu available
has_available_gpu-HasFree gpus v = (to gpus, λ (uuid, g, m, l). from uuid g gpus m l)
  where
    to : (gpus : Map GpuResidency) → has_available_gpu gpus v ≡ true → HasFree gpus v
    to [] e = let bad : false ≡ true = e in cc
    to ((uuid, g) ∷ gpus) e = elim (Bool-cases (leb_ℤ v (available g))) [
      | inl t ↦ (uuid, g, Memᴰ.head refl, leb_ℤ→le v (available g) t)
      | inr t ↦ let (k, q, m, l) = to gpus (rw t at e) in (k, q, Memᴰ.tail m, l)
    ]

    from :
        (uuid : String) (g : GpuResidency) (gpus : Map GpuResidency)
        → Memᴰ (uuid, g) gpus
        → v ≤ℤ sub64 g.total_vram_mb g.allocated_vram
        → has_available_gpu gpus v ≡ true
    from uuid g [] m l = elim m [ ]
    from uuid g ((k, q) ∷ gpus) (Memᴰ.head e) l =
        rw
          (le→leb_ℤ v (available q) (subst (λ (x : String × GpuResidency). v ≤ℤ available x.1) e l))
          refl
    from uuid g ((k, q) ∷ gpus) (Memᴰ.tail m) l = elim (Bool-cases (leb_ℤ v (available q))) [
      | inl t ↦ rw t refl
      | inr t ↦ rw t (from uuid g gpus m l)
    ]

Routing-Preference :
    (h : Heap) (p : WorkerPool) (gpus : Map GpuResidency) (tenant_id model_name : String) (v : ℤ)
    (Reusable : WorkerState → Type 0) (out : SelectWorkerResult)
    → Routing h
        (list_workers h p.workers tenant_id)
        model_name
        Reusable
        (has_available_gpu gpus v)
        out
    → Preference h (Candidate h p tenant_id) model_name Reusable (HasFree gpus v) out
Routing-Preference h p gpus tenant_id model_name v Reusable out routing =
    let all : (P : Ref → Type 0)
        → All P (list_workers h p.workers tenant_id)
        → (q : Ref) → Candidate h p tenant_id q
        → P q =
      λ P a q c. All-Memᴰ P ((listed-Candidate h p tenant_id q).1 c) a in
    let cold : All (λ q. ¬ HasModel model_name (h q)) (list_workers h p.workers tenant_id)
        → (q : Ref) → Candidate h p tenant_id q
        → ¬ IsWarm model_name (h q) =
      λ a q c x.
        all (λ q. ¬ HasModel model_name (h q)) a q c ((HasModel-IsWarm model_name (h q)).1 x) in
    elim routing [
      | warm_hit r m x w b c ↦
          uses_warm r ((listed-Candidate h p tenant_id r).0 m)
            ((HasModel-IsWarm model_name (h r)).0 x) w b c
      | repurpose r m a x w b c ↦ reuses r ((listed-Candidate h p tenant_id r).0 m) (cold a) x w b c
      | cold_start a b f w i j ↦
          starts_new (cold a) (all (λ q. ¬ Reusable (h q)) b)
            ((has_available_gpu-HasFree gpus v).0 f) w i j
      | exhausted a b f w i j ↦
          finds_nothing (cold a) (all (λ q. ¬ Reusable (h q)) b)
            (λ free.
              let bad : true ≡ false = sym ((has_available_gpu-HasFree gpus v).1 free) ∙ f in cc)
            w i j
    ]

-- `SelectWorker`, over the registered workers of the tenant (of all tenants for the empty one), answers with a worker in IDLE that holds the model if there is one, else with any worker in IDLE, else with a cold start if some GPU has at least 8000 MB that are not allocated, else with nothing.
pub select_worker-Preference :
    (s : Scheduler) (h : Heap) (p : WorkerPool) (model_name tenant_id : String)
    → Preference h
        (Candidate h p tenant_id)
        model_name
        IsIdle
        (HasFree s.gpus (pos 8000))
        (select_worker s h p model_name tenant_id)
select_worker-Preference s h p model_name tenant_id =
    Routing-Preference h p s.gpus tenant_id model_name (pos 8000) IsIdle _
      (select_worker-Routing s h p model_name tenant_id)

-- `SelectWorkerForModel`, over the registered workers of the tenant (of all tenants for the empty one), answers with a worker in IDLE that holds the model if there is one, else with one in IDLE whose GPU share is at least the amount, else with a cold start if some GPU has at least that amount that is not allocated, else with nothing.
pub select_worker_for_model-Preference :
    (s : Scheduler) (h : Heap) (p : WorkerPool) (model_name : String) (v : ℤ) (tenant_id : String)
    → Preference h
        (Candidate h p tenant_id)
        model_name
        (HasRoom v)
        (HasFree s.gpus v)
        (select_worker_for_model s h p model_name v tenant_id)
select_worker_for_model-Preference s h p model_name v tenant_id =
    Routing-Preference h p s.gpus tenant_id model_name v (HasRoom v) _
      (select_worker_for_model-Routing s h p model_name v tenant_id)
