-- ===== src/Pool/Registry.antt =====
-- `AddWorker`, `GetWorker`, `RemoveWorker` and `Count`: the registry as a map of bounded size.
use aether_runner.Base.{
  suc, ◌≡◌, refl, ap, ◌≢◌, ◌⊎◌, inl, inr, String, ◌==◌, none, some, List, [], ◌∷◌, arith,
  if◌then◌else◌, Bool-cases, text_cases, ◌≤◌, subst, All,
}
use aether_runner.Base.Int.{pos, ◌≤ℤ◌, ◌<ℤ◌, leb_ℤ, leb_ℤ→le, leb_ℤ→lt, pos_part, neg_part}
use aether_runner.Base.Machine.{add64}
use aether_runner.Base.Assoc.{
  Map, lookup, insert, delete, Distinct, lookup-insert, insert-Distinct, delete-Distinct,
  delete_missing, apart-lookup, keys,
}
use aether_runner.Pool.{
  Ref, Heap, WorkerPool, WorkerPoolConfig, at_capacity, new_worker_pool, count, add_worker,
  get_worker, remove_worker,
}

pub count-insert_new :
    (k : String) (r : Ref) (m : Map Ref) → lookup k m ≡ none → count (insert k r m) ≡ suc (count m)
unfolding count insert lookup
count-insert_new k r [] h = refl
count-insert_new k r ((j, q) ∷ m) h = elim (text_cases j k) [
  | inl (_, t) ↦ let bad : some q ≡ none = rw t at h in cc
  | inr (_, t) ↦ rw (t, count-insert_new k r m (rw t at h))
]

count-insert-le : (k : String) (r : Ref) (m : Map Ref) → count (insert k r m) ≤ suc (count m)
unfolding count insert
count-insert-le k r [] = omega arith
count-insert-le k r ((j, q) ∷ m) = ground (arith, count-insert-le k r m)

count-delete-le : (k : String) (m : Map Ref) → count (delete k m) ≤ count m
unfolding count delete
count-delete-le k [] = omega arith
count-delete-le k ((j, q) ∷ m) = ground (arith, count-delete-le k m)

pub count-delete :
    (k : String) (r : Ref) (m : Map Ref)
    → Distinct m
    → lookup k m ≡ some r
    → suc (count (delete k m)) ≡ count m
unfolding count delete lookup
count-delete k r [] d h = cc
count-delete k r ((j, q) ∷ m) d h = elim (text_cases j k) [
  | inl (e, t) ↦
      rw (t, delete_missing k m (apart-lookup k m (subst (λ x. All (λ i. i ≢ x) (keys m)) e d.0)))
  | inr (_, t) ↦ rw (t, count-delete k r m d.1 (rw t at h))
]

-- The pool with one more worker.
abbrev pub registered : WorkerPool → String → Ref → WorkerPool
registered p id r = record p {
  workers = insert id r p.workers;
  total_created = add64 p.total_created (pos 1);
}

pub add_worker_cases :
    (h : Heap) (p : WorkerPool) (r : Ref)
    → ((p.max_workers ≤ℤ pos (count p.workers))
        × (add_worker h p r ≡ (p, some (at_capacity (count p.workers) p.max_workers))))
      ⊎ ((pos (count p.workers) <ℤ p.max_workers)
          × (add_worker h p r ≡ (registered p (h r).worker_id r, none)))
unfolding add_worker
add_worker_cases h p r = elim (Bool-cases (leb_ℤ p.max_workers (pos (count p.workers)))) [
  | inl full ↦ inl (leb_ℤ→le p.max_workers (pos (count p.workers)) full, rw (add_worker, full))
  | inr room ↦ inr (leb_ℤ→lt p.max_workers (pos (count p.workers)) room, rw (add_worker, room))
]

-- `AddWorker` refuses exactly when the registry holds its maximum, and then changes nothing. Otherwise it registers the worker under its ID, changes no other entry and counts one more created.
pub add_worker_lem :
    (h : Heap) (p : WorkerPool) (r : Ref)
    → let (p', e) = add_worker h p r in
      ((p.max_workers ≤ℤ pos (count p.workers))
        × (p' ≡ p)
        × (e ≡ some (at_capacity (count p.workers) p.max_workers)))
      ⊎ ((pos (count p.workers) <ℤ p.max_workers)
          × (e ≡ none)
          × ((id : String)
              → get_worker p' id ≡ (if (h r).worker_id == id then some r else get_worker p id))
          × (p'.total_created ≡ add64 p.total_created (pos 1))
          × (p'.total_terminated ≡ p.total_terminated))
unfolding get_worker
add_worker_lem h p r = elim (add_worker_cases h p r) [
  | inl (full, q) ↦ rw q (inl (full, refl, refl))
  | inr (room, q) ↦
      rw q (inr (room, refl, λ id. lookup-insert (h r).worker_id id r p.workers, refl, refl))
]

-- The calls that change the registry; `AddWorker` reads the worker from the heap of the moment.
pub data Call : Type 0 where
  adds : Heap → Ref → Call
  removes : String → Call

unfoldable pub step : WorkerPool → Call → WorkerPool
step p (adds h r) = (add_worker h p r).0
step p (removes worker_id) = remove_worker p worker_id

unfoldable pub run : WorkerPool → List Call → WorkerPool
run p [] = p
run p (c ∷ calls) = run (step p c) calls

pub record Bounded (config : WorkerPoolConfig) (p : WorkerPool) : Type 0 where
  pub same_max : p.max_workers ≡ config.max_workers
  pub within : pos (count p.workers) ≤ℤ config.max_workers
  pub distinct : Distinct p.workers

pub step-Bounded :
    (config : WorkerPoolConfig) (p : WorkerPool) (c : Call)
    → Bounded config p
    → Bounded config (step p c)
unfolding step remove_worker
step-Bounded config p (adds h r) b = elim (add_worker_cases h p r) [
  | inl (_, q) ↦ rw (q, step) b
  | inr (room, q) ↦
      rw (q, step)
        (record {
          same_max = b.same_max;
          within = omega (
            arith,
            count-insert-le (h r).worker_id r p.workers,
            room,
            ap pos_part b.same_max,
            ap neg_part b.same_max,
          );
          distinct = insert-Distinct (h r).worker_id r p.workers b.distinct;
        })
]
step-Bounded config p (removes k) b = record {
  same_max = b.same_max;
  within = omega (arith, count-delete-le k p.workers, b.within);
  distinct = delete-Distinct k p.workers b.distinct;
}

run-Bounded :
    (config : WorkerPoolConfig) (p : WorkerPool) (calls : List Call)
    → Bounded config p
    → Bounded config (run p calls)
unfolding run
run-Bounded config p [] b = b
run-Bounded config p (c ∷ calls) b = run-Bounded config (step p c) calls (step-Bounded config p c b)

-- After any sequence of calls a pool that was made with a maximum of at least 0 holds at most that many workers, each under a key of its own.
pub run-new_worker_pool-Bounded :
    (config : WorkerPoolConfig) (calls : List Call)
    → pos 0 ≤ℤ config.max_workers
    → Bounded config (run (new_worker_pool config) calls)
unfolding new_worker_pool count
run-new_worker_pool-Bounded config calls h =
    run-Bounded config (new_worker_pool config) calls
      (record { same_max = refl; within = h; distinct = tt })
