-- ===== src/Pool/Balance.antt =====
-- The counters of the pool, `totalCreated` and `totalTerminated`, against what is registered.
use aether_runner.Base.{
  ℕ, suc, ◌≡◌, ◌∙◌, refl, ap, inl, inr, String, none, some, List, [], ◌∷◌, eq_refl,
}
use aether_runner.Base.Int.{ℤ, pos, ◌+ℤ◌, int_laws}
use aether_runner.Base.Machine.{wrap, add64, wrap-wrap_add}
use aether_runner.Base.Assoc.{
  lookup, delete, Distinct, lookup-delete, insert-Distinct, delete-Distinct, delete_missing,
}
use aether_runner.Pool.{
  Ref, WorkerPool, WorkerPoolConfig, new_worker_pool, count, get_worker, remove_worker,
}
use aether_runner.Pool.Registry.{
  Call, adds, removes, step, run, add_worker_cases, count-insert_new, count-delete,
}

-- An ID is added once until it is removed, and only what is there is removed.
abbrev pub IsProper : WorkerPool → Call → Type 0
IsProper p (adds h r) = get_worker p (h r).worker_id ≡ none
IsProper p (removes id) = (r : Ref) × (get_worker p id ≡ some r)

abbrev pub AllProper : WorkerPool → List Call → Type 0
AllProper p [] = Unit
AllProper p (c ∷ calls) = IsProper p c × AllProper (step p c) calls

-- Created is terminated plus present, in 64 bits.
abbrev pub Balanced : WorkerPool → Type 0
Balanced p = p.total_created ≡ wrap (p.total_terminated +ℤ pos (count p.workers))

plus_one : (t : ℤ) (n : ℕ) → t +ℤ pos n +ℤ pos 1 ≡ t +ℤ pos (suc n)
plus_one t n = omega int_laws

shift_one : (t : ℤ) (n : ℕ) → t +ℤ pos 1 +ℤ pos n ≡ t +ℤ pos (suc n)
shift_one t n = omega int_laws

step-Balanced :
    (p : WorkerPool) (c : Call)
    → Distinct p.workers
    → Balanced p
    → IsProper p c
    → Balanced (step p c)
unfolding step remove_worker get_worker add64
step-Balanced p (adds h r) d b q = elim (add_worker_cases h p r) [
  | inl (_, e) ↦ rw (e, step) b
  | inr (_, e) ↦
      rw (e, step) (rw (count-insert_new (h r).worker_id r p.workers q, b, wrap-wrap_add, plus_one))
]
step-Balanced p (removes id) d b (r, q) =
    rw wrap-wrap_add (rw (shift_one, count-delete id r p.workers d q) b)

step-Distinct : (p : WorkerPool) (c : Call) → Distinct p.workers → Distinct (step p c).workers
unfolding step remove_worker
step-Distinct p (adds h r) d = elim (add_worker_cases h p r) [
  | inl (_, e) ↦ rw (e, step) d
  | inr (_, e) ↦ rw (e, step) (insert-Distinct (h r).worker_id r p.workers d)
]
step-Distinct p (removes id) d = delete-Distinct id p.workers d

run-Balanced :
    (p : WorkerPool) (calls : List Call)
    → Distinct p.workers
    → Balanced p
    → AllProper p calls
    → Balanced (run p calls)
unfolding run
run-Balanced p [] d b q = b
run-Balanced p (c ∷ calls) d b q =
    run-Balanced (step p c) calls (step-Distinct p c d) (step-Balanced p c d b q.0) q.1

-- If IDs are added while absent and removed while present, the workers created are those terminated and those present, in 64 bits, from a new pool on.
pub run-new_worker_pool-Balanced :
    (config : WorkerPoolConfig) (calls : List Call)
    → AllProper (new_worker_pool config) calls
    → Balanced (run (new_worker_pool config) calls)
unfolding new_worker_pool count
run-new_worker_pool-Balanced config calls q =
    run-Balanced (new_worker_pool config) calls tt (unfold wrap ◌+ℤ◌ in refl) q

-- Removing a worker that is gone changes nothing but the count of those terminated, which grows.
pub remove_worker_twice :
    (p : WorkerPool) (id : String)
    → let p' = remove_worker p id in
      let p'' = remove_worker p' id in
      (p''.workers ≡ p'.workers)
      × (get_worker p'' id ≡ none)
      × (p''.total_terminated ≡ wrap (p.total_terminated +ℤ pos 2))
unfolding remove_worker get_worker add64
remove_worker_twice p id =
    let gone : lookup id (delete id p.workers) ≡ none =
      lookup-delete id id p.workers ∙ rw (eq_refl id) in
    (
      delete_missing id (delete id p.workers) gone,
      rw (delete_missing id (delete id p.workers) gone) gone,
      wrap-wrap_add (p.total_terminated +ℤ pos 1) 1 ∙ ap wrap (omega int_laws),
    )
