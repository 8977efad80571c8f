-- ===== src/Pool/Queries.antt =====
-- What the registry answers: the workers of a tenant, an idle worker with a model, the statistics.
use aether_runner.Base.{
  ◌≡◌, refl, sym, ◌∙◌, ◌⊎◌, ◌↔◌, inl, inr, String, ◌==◌, eq_iff, Bool, true, false, ◌||◌, Option,
  none, some, [], ◌∷◌, Bool-cases, text_cases, Memᴰ, All,
}
use aether_runner.Base.Assoc.{Map}
use aether_runner.Worker.{get_status, status_idle}
use aether_runner.Base.Select.{select, select-mem}
use aether_runner.Pool.{Ref, Heap, WorkerPool, list_workers, find_idle_worker, has_model}

-- The tenant asked for, where the empty text asks for all.
abbrev pub Belongs : Heap → String → Ref → Type 0
Belongs h tenant_id r = (tenant_id ≡ "") ⊎ ((h r).tenant_id ≡ tenant_id)

abbrev belongs : Heap → String → Ref → Bool
belongs h tenant_id r = tenant_id == "" || (h r).tenant_id == tenant_id

belongs-Belongs :
    (h : Heap) (tenant_id : String) (r : Ref)
    → (belongs h tenant_id r ≡ true) ↔ Belongs h tenant_id r
belongs-Belongs h tenant_id r = (to, from)
  where
    to : belongs h tenant_id r ≡ true → Belongs h tenant_id r
    to t = elim (text_cases tenant_id "") [
      | inl (e, _) ↦ inl e
      | inr (_, q) ↦ inr ((eq_iff (h r).tenant_id tenant_id).0 (rw q at t))
    ]

    from : Belongs h tenant_id r → belongs h tenant_id r ≡ true
    from (inl e) = rw ((eq_iff tenant_id "").1 e)
    from (inr e) = elim (Bool-cases (tenant_id == "")) [
      | inl q ↦ rw q
      | inr q ↦ rw (q, (eq_iff (h r).tenant_id tenant_id).1 e)
    ]

list_workers-select :
    (h : Heap) (tenant_id : String) (ws : Map Ref)
    → list_workers h ws tenant_id ≡ select (belongs h tenant_id) (λ r. r) ws
unfolding list_workers select
list_workers-select h tenant_id [] = refl
list_workers-select h tenant_id ((id, r) ∷ ws) = rw (list_workers-select h tenant_id ws)

-- `ListWorkers` returns the registered workers of the tenant and no others; asked for the empty tenant, all of them.
pub list_workers-mem :
    (h : Heap) (p : WorkerPool) (tenant_id : String) (r : Ref)
    → Memᴰ r (list_workers h p.workers tenant_id)
      ↔ ((id : String) × (q : Ref) × Memᴰ (id, q) p.workers × Belongs h tenant_id q × (r ≡ q))
list_workers-mem h p tenant_id r = rw list_workers-select (
    select-mem (belongs h tenant_id) (λ q. q) (Belongs h tenant_id) (belongs-Belongs h tenant_id)
      p.workers r)

-- An idle worker of the tenant that holds the model.
pub record IsWarm (h : Heap) (tenant_id model_name : String) (r : Ref) : Type 0 where
  pub tenant : (h r).tenant_id ≡ tenant_id
  pub idle : (h r).status ≡ status_idle
  pub model : has_model (h r).model model_name ≡ true

IsWarm-cases :
    (h : Heap) (tenant_id model_name : String) (id : String) (r : Ref) (ws : Map Ref)
    → (IsWarm h tenant_id model_name r
        × (find_idle_worker h ((id, r) ∷ ws) tenant_id model_name ≡ some r))
      ⊎ ((¬ IsWarm h tenant_id model_name r)
          × (find_idle_worker h ((id, r) ∷ ws) tenant_id model_name
              ≡ find_idle_worker h ws tenant_id model_name))
unfolding find_idle_worker get_status
IsWarm-cases h tenant_id model_name id r ws = elim (text_cases (h r).tenant_id tenant_id) [
  | inr (n, t) ↦ inr (λ w. n w.tenant, rw t)
  | inl (a, t) ↦ elim (text_cases (h r).status status_idle) [
    | inr (n, u) ↦ inr (λ w. n w.idle, rw (t, u))
    | inl (b, u) ↦ elim (Bool-cases (has_model (h r).model model_name)) [
      | inl c ↦ inl (record { tenant = a; idle = b; model = c }, rw (t, u, c))
      | inr c ↦ inr (λ w. let bad : false ≡ true = sym c ∙ w.model in cc, rw (t, u, c))
    ]
  ]
]

pub data Found (h : Heap) (ws : Map Ref) (tenant_id model_name : String) (o : Option Ref)
    : Type 0 where
  missing :
      o ≡ none
      → All (λ e. ¬ IsWarm h tenant_id model_name e.1) ws
      → Found h ws tenant_id model_name o
  found :
      (id : String) (r : Ref)
      → Memᴰ (id, r) ws
      → IsWarm h tenant_id model_name r
      → o ≡ some r
      → Found h ws tenant_id model_name o

search_entries :
    (h : Heap) (ws : Map Ref) (tenant_id model_name : String)
    → Found h ws tenant_id model_name (find_idle_worker h ws tenant_id model_name)
search_entries h [] tenant_id model_name = missing (unfold find_idle_worker in refl) tt
search_entries h ((id, r) ∷ ws) tenant_id model_name =
    elim (IsWarm-cases h tenant_id model_name id r ws) [
      | inl (w, e) ↦ found id r (Memᴰ.head refl) w e
      | inr (n, e) ↦ elim (search_entries h ws tenant_id model_name) [
        | missing f a ↦ missing (e ∙ f) (n, a)
        | found id' r' m w f ↦ found id' r' (Memᴰ.tail m) w (e ∙ f)
      ]
    ]

-- `FindIdleWorker` returns nil exactly when no registered worker of the tenant is idle with the model, and otherwise one that is.
pub find_idle_worker-Found :
    (h : Heap) (p : WorkerPool) (tenant_id model_name : String)
    → Found h p.workers tenant_id model_name (find_idle_worker h p.workers tenant_id model_name)
find_idle_worker-Found h p = search_entries h p.workers
