-- ===== src/Demo/Isolation.antt =====
-- The last part of cmd/demo/main.go, which means to show that tenants are apart.
use aether_runner.Base.Int.{ℤ, pos}
use aether_runner.Base.{
  ◌≡◌, ◌≢◌, refl, sym, ◌∙◌, String, Bool, true, false, none, some, List, [], ◌∷◌, inl, inr,
  text_cases, Option-cases, text_ne, All, All-Memᴰ,
}
use aether_runner.Base.Clock.{Time}
use aether_runner.Base.Assoc.{Map}
use aether_runner.Worker.{status_idle}
use aether_runner.Selection.Agreement.{select_worker-Serves}
use aether_runner.Pool.{Ref, Heap, list_workers, new_worker_pool}
use aether_runner.Docker.Mock.{MockClient}
use aether_runner.Api.{System}
use aether_runner.Demo.Launching.{Moments, launch_worker}
use aether_runner.Demo.Scenarios.{
  decide, LaunchStage, starts, answered, ends, Pair, next_step, step_llama, step_phi, interleave,
  DemoClock, idle_first, run_parallel_demo, run_warm_pool_demo, run_multi_tenant_demo, demo_system,
  run_demo, only_first,
}
use aether_runner.Demo.Calm.{
  Quiet, store-AllQuiet, transition-tenant, Calm, place_worker-Calm, launch_worker-Calm,
}

-- A worker that is sent to IDLE stays with its tenant.
idle_first-Calm :
    (now : Time) (workers : List Ref) (s : System MockClient)
    → All (λ r. (s.heap r).tenant_id ≢ "acme-corp") workers
    → Calm s
    → Calm (idle_first now workers s)
unfolding idle_first
idle_first-Calm now [] s t a = a
idle_first-Calm now (r ∷ workers) s t a =
    store-AllQuiet s.heap r _ s.pool.workers
      (λ e. absurd (t.0 (sym (transition-tenant now (s.heap r) status_idle) ∙ e))) a

-- The workers of another tenant that `ListWorkers` returns are not the first tenant's.
list_workers-other :
    (h : Heap) (workers : Map Ref) (tenant_id : String)
    → tenant_id ≢ ""
    → tenant_id ≢ "acme-corp"
    → All (λ r. (h r).tenant_id ≢ "acme-corp") (list_workers h workers tenant_id)
unfolding list_workers
list_workers-other h [] tenant_id n m = tt
list_workers-other h ((id, r) ∷ workers) tenant_id n m =
    let ih = list_workers-other h workers tenant_id n m in
    elim (text_cases tenant_id "") [
      | inl (e, _) ↦ absurd (n e)
      | inr (_, q) ↦ elim (text_cases (h r).tenant_id tenant_id) [
        | inl (e, t) ↦ rw (q, t) (λ x. m (sym e ∙ x), ih)
        | inr (_, t) ↦ rw (q, t) ih
      ]
    ]

next_step-Calm :
    (at : Moments) (tenant_id model_name : String) (vram_mb : ℤ) (stage : LaunchStage)
    (s : System MockClient)
    → Calm s
    → Calm (next_step at tenant_id model_name vram_mb stage s).0
unfolding next_step
next_step-Calm at tenant_id model_name vram_mb starts s a = a
next_step-Calm at tenant_id model_name vram_mb (answered none) s a = a
next_step-Calm at tenant_id model_name vram_mb (answered (some chosen)) s a =
    place_worker-Calm at tenant_id model_name vram_mb chosen s a
next_step-Calm at tenant_id model_name vram_mb (ends launch) s a = a

step_llama-Calm : (at : Moments) (m : Pair) → Calm m.system → Calm (step_llama at m).system
unfolding step_llama
step_llama-Calm at m a = next_step-Calm at _ _ _ m.llama m.system a

step_phi-Calm : (at : Moments) (m : Pair) → Calm m.system → Calm (step_phi at m).system
unfolding step_phi
step_phi-Calm at m a = next_step-Calm at _ _ _ m.phi m.system a

interleave-Calm :
    (at₁ at₂ : Moments) (turns : List Bool) (m : Pair)
    → Calm m.system
    → Calm (interleave at₁ at₂ turns m).system
unfolding interleave
interleave-Calm at₁ at₂ [] m a =
    step_phi-Calm at₂ _
      (step_phi-Calm at₂ _ (step_llama-Calm at₁ (step_llama at₁ m) (step_llama-Calm at₁ m a)))
interleave-Calm at₁ at₂ (true ∷ turns) m a =
    interleave-Calm at₁ at₂ turns (step_llama at₁ m) (step_llama-Calm at₁ m a)
interleave-Calm at₁ at₂ (false ∷ turns) m a =
    interleave-Calm at₁ at₂ turns (step_phi at₂ m) (step_phi-Calm at₂ m a)

warm_pool-Calm :
    (at : Moments) (now : Time) (s : System MockClient)
    → Calm s
    → Calm (run_warm_pool_demo at now s).0
unfolding run_warm_pool_demo
warm_pool-Calm at now s a =
    idle_first-Calm now _ _
      (list_workers-other _ _ "globex-inc" (text_ne _ _ refl) (text_ne _ _ refl))
      (launch_worker-Calm at _ _ _ s a)

-- From such a system on, a decision for the first tenant names no worker.
decide-Calm :
    (s : System MockClient) (model_name : String)
    → Calm s
    → (decide s model_name "acme-corp").worker ≡ none
decide-Calm s model_name a = elim (Option-cases (decide s model_name "acme-corp").worker) [
  | inl e ↦ e
  | inr (r, e) ↦
      let serves =
        select_worker-Serves s.scheduler s.heap s.pool model_name "acme-corp" (pos 0) r
          (text_ne _ _ refl) (inl e) in
      absurd (All-Memᴰ (λ e. Quiet (s.heap e.1)) serves.registered.1 a serves.tenant serves.idle)
]

multi_tenant-Calm :
    (at₁ at₂ : Moments) (s : System MockClient)
    → Calm s
    → ((run_multi_tenant_demo at₁ at₂ s).1.result_a.worker ≡ none)
      × ((run_multi_tenant_demo at₁ at₂ s).1.verified ≡ false)
unfolding run_multi_tenant_demo only_first
multi_tenant-Calm at₁ at₂ s a =
    let s₁ = (launch_worker at₁ "acme-corp" "gpt-neo-2.7b" (pos 6000) s).0 in
    let s₂ = (launch_worker at₂ "globex-inc" "bert-large" (pos 4000) s₁).0 in
    let calm : Calm s₂ = launch_worker-Calm at₂ _ _ _ s₁ (launch_worker-Calm at₁ _ _ _ s a) in
    let nobody = decide-Calm s₂ "gpt-neo-2.7b" calm in
    (nobody, rw (nobody, run_multi_tenant_demo) refl)

-- The check of the demonstration's last part never succeeds. Whatever the clock reads, in whatever order the goroutines take their turns, and whatever the launches come to, no worker of the first tenant is idle, so the decision for that tenant names no worker and isolation is not reported as verified.
pub run_demo-verified :
    (at : DemoClock) (turns : List Bool) (h : Heap)
    → ((run_demo at turns h).1.result_a.worker ≡ none) × ((run_demo at turns h).1.verified ≡ false)
unfolding run_demo run_parallel_demo demo_system new_worker_pool
run_demo-verified at turns h =
    multi_tenant-Calm at.gpt_neo at.bert _
      (warm_pool-Calm at.mistral at.idle _ (interleave-Calm at.llama at.phi turns _ tt))
