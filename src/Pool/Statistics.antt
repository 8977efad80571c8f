-- ===== src/Pool/Statistics.antt =====
-- `Stats`: the counts by status against the registry.
use aether_runner.Base.{
  ℕ, suc, ◌+◌, ◌≡◌, refl, ap, ◌∙◌, inl, inr, ◌==◌, Option, none, some, [], ◌∷◌, arith,
  if◌then◌else◌, Option-cases, text_cases,
}
use aether_runner.Base.Assoc.{Map, lookup, insert, lookup-insert}
use aether_runner.Worker.{WorkerStatus, get_status}
use aether_runner.Pool.{Ref, Heap, WorkerPool, PoolStats, count, bump, tally, stats}

-- `stats.ByStatus[status]`: a missing key reads as 0.
abbrev pub value : Option ℕ → ℕ
value none = 0
value (some n) = n

abbrev pub reading : WorkerStatus → Map ℕ → ℕ
reading status m = value (lookup status m)

abbrev pub sum_values : Map ℕ → ℕ
sum_values [] = 0
sum_values ((k, n) ∷ m) = n + sum_values m

-- How many registered workers have a status.
abbrev pub number_with : Heap → WorkerStatus → Map Ref → ℕ
number_with h status [] = 0
number_with h status ((id, r) ∷ ws) =
    let rest = number_with h status ws in if (h r).status == status then suc rest else rest

bump-insert : (t : WorkerStatus) (m : Map ℕ) → bump t m ≡ insert t (reading t m + 1) m
unfolding bump
bump-insert t m = elim (Option-cases (lookup t m)) [
  | inl e ↦ rw (e, bump)
  | inr (n, e) ↦ rw (e, bump)
]

reading-bump :
    (s t : WorkerStatus) (m : Map ℕ)
    → reading s (bump t m) ≡ (if t == s then suc (reading s m) else reading s m)
reading-bump s t m =
    ap (reading s) (bump-insert t m)
    ∙ ap value (lookup-insert t s (reading t m + 1) m)
    ∙ elim (text_cases t s) [ inl (e, q) ↦ rw q (rw e (omega arith)) | inr (_, q) ↦ rw q ]

sum_values-insert :
    (t : WorkerStatus) (v : ℕ) (m : Map ℕ)
    → sum_values (insert t v m) + reading t m ≡ sum_values m + v
unfolding insert lookup
sum_values-insert t v [] = omega arith
sum_values-insert t v ((j, n) ∷ m) = ground (arith, sum_values-insert t v m)

sum_values-bump : (t : WorkerStatus) (m : Map ℕ) → sum_values (bump t m) ≡ suc (sum_values m)
sum_values-bump t m = rw bump-insert (omega (arith, sum_values-insert t (reading t m + 1) m))

-- The loop adds to what it is given.
tally_lem :
    (h : Heap) (ws : Map Ref) (acc : PoolStats) (s : WorkerStatus)
    → let out = tally h ws acc in
      (out.current_active ≡ acc.current_active + count ws)
      × (sum_values out.by_status ≡ sum_values acc.by_status + count ws)
      × (reading s out.by_status ≡ reading s acc.by_status + number_with h s ws)
      × (out.total_created ≡ acc.total_created)
      × (out.total_terminated ≡ acc.total_terminated)
unfolding tally count get_status
tally_lem h [] acc s = (omega arith, omega arith, omega arith, refl, refl)
tally_lem h ((id, r) ∷ ws) acc s =
    let acc' : PoolStats = record acc {
      by_status = bump (h r).status acc.by_status;
      current_active = acc.current_active + 1;
    } in
    let (a, b, c, d, e) = tally_lem h ws acc' s in
    (
      omega (arith, a),
      omega (arith, b, sum_values-bump (h r).status acc.by_status),
      ground (arith, c, reading-bump s (h r).status acc.by_status),
      d,
      e,
    )

-- `Stats` counts the registered workers, under each status those that have it, and the counts by status add up to the whole.
pub stats_lem :
    (h : Heap) (p : WorkerPool) (s : WorkerStatus)
    → let out = stats h p in
      (out.current_active ≡ count p.workers)
      × (sum_values out.by_status ≡ out.current_active)
      × (reading s out.by_status ≡ number_with h s p.workers)
      × (out.total_created ≡ p.total_created)
      × (out.total_terminated ≡ p.total_terminated)
unfolding stats lookup
stats_lem h p s =
    let start : PoolStats = record {
      total_created = p.total_created;
      total_terminated = p.total_terminated;
      current_active = 0;
      by_status = [];
    } in
    let (a, b, c, d, e) = tally_lem h p.workers start s in
    (omega (arith, a), omega (arith, a, b), omega (arith, c), d, e)
