-- ===== src/Pool/Heartbeats.antt =====
-- Heartbeats: who is overdue, who is healthy, and what a heartbeat does about it.
use aether_runner.Base.{
  ℕ, suc, ◌+◌, ◌≡◌, refl, sym, ap, ◌∙◌, ◌≢◌, inl, inr, String, ◌==◌, Bool, true, false, not, ◌&&◌,
  Option, none, some, [], ◌∷◌, arith, if◌then◌else◌, Option-cases, text_cases, length, Memᴰ, ◌↔◌,
  ◌⊎◌,
}
use aether_runner.Base.Int.{ltb_ℤ, ◌≤ℤ◌, ◌<ℤ◌, lt→ltb_ℤ}
use aether_runner.Base.Clock.{Time, Duration, is_zero, time_sub}
use aether_runner.Base.Assoc.{Map, lookup}
use aether_runner.Worker.{WorkerState, status_terminating}
use aether_runner.Base.Select.{select, select-mem}
use aether_runner.Pool.{Ref, Heap, WorkerPool, count, get_worker}
use aether_runner.Pool.Health.{
  check_heartbeats, get_healthy_worker_count, is_overdue, record_heartbeat, merge_metrics,
}

-- How many registered workers are terminating.
abbrev pub number_ending : Heap → Map Ref → ℕ
number_ending h [] = 0
number_ending h ((id, r) ∷ ws) =
    let rest = number_ending h ws in if (h r).status == status_terminating then suc rest else rest

partition :
    (now : Time) (h : Heap) (ws : Map Ref) (timeout : Duration)
    → get_healthy_worker_count now h ws timeout
        + length (check_heartbeats now h ws timeout)
        + number_ending h ws
      ≡ count ws
unfolding get_healthy_worker_count check_heartbeats is_overdue count
partition now h [] timeout = omega arith
partition now h ((id, r) ∷ ws) timeout = ground (arith, partition now h ws timeout)

-- At any moment the healthy workers, the overdue ones and the terminating ones add up to the registry.
pub heartbeat_partition :
    (now : Time) (h : Heap) (p : WorkerPool) (timeout : Duration)
    → get_healthy_worker_count now h p.workers timeout
        + length (check_heartbeats now h p.workers timeout)
        + number_ending h p.workers
      ≡ count p.workers
heartbeat_partition now h p timeout = partition now h p.workers timeout

abbrev late : Time → Heap → Duration → Ref → Bool
late now h timeout r = not ((h r).status == status_terminating) && is_overdue now timeout (h r)

check_heartbeats-select :
    (now : Time) (h : Heap) (timeout : Duration) (ws : Map Ref)
    → check_heartbeats now h ws timeout ≡ select (late now h timeout) (λ r. (h r).worker_id) ws
unfolding check_heartbeats select
check_heartbeats-select now h timeout [] = refl
check_heartbeats-select now h timeout ((id, r) ∷ ws) =
    ground (arith, check_heartbeats-select now h timeout ws)

-- A worker that is not terminating, has sent a heartbeat and whose last one is further back than the timeout.
pub record IsLate (now : Time) (timeout : Duration) (w : WorkerState) : Type 0 where
  pub live : w.status ≢ status_terminating
  pub heard : w.last_heartbeat ≢ 0
  pub overdue : timeout <ℤ time_sub now w.last_heartbeat

heard-is_zero : (t : Time) → t ≢ 0 → is_zero t ≡ false
heard-is_zero t n = ground arith

late-IsLate :
    (now : Time) (h : Heap) (timeout : Duration) (r : Ref)
    → (late now h timeout r ≡ true) ↔ IsLate now timeout (h r)
unfolding is_overdue
late-IsLate now h timeout r = (to, from)
  where
    to : late now h timeout r ≡ true → IsLate now timeout (h r)
    to e = elim (text_cases (h r).status status_terminating) [
      | inl (_, t) ↦ let bad : false ≡ true = rw t at e in cc
      | inr (n, t) ↦
          let f : (not (is_zero (h r).last_heartbeat)
                && ltb_ℤ timeout (time_sub now (h r).last_heartbeat))
              ≡ true =
            rw t at e in
          record { live = n; heard = ground arith; overdue = ground arith }
    ]

    from : IsLate now timeout (h r) → late now h timeout r ≡ true
    from l = elim (text_cases (h r).status status_terminating) [
      | inl (e, _) ↦ absurd (l.live e)
      | inr (_, t) ↦
          let known : is_zero (h r).last_heartbeat ≡ false =
            heard-is_zero (h r).last_heartbeat l.heard in
          let long : ltb_ℤ timeout (time_sub now (h r).last_heartbeat) ≡ true =
            lt→ltb_ℤ timeout (time_sub now (h r).last_heartbeat) l.overdue in
          rw (t, known, long)
    ]

-- `CheckHeartbeats` returns the IDs of exactly the registered workers that are not terminating, have sent a heartbeat and whose last one is further back than the timeout.
pub check_heartbeats-mem :
    (now : Time) (h : Heap) (p : WorkerPool) (timeout : Duration) (id : String)
    → Memᴰ id (check_heartbeats now h p.workers timeout) ↔ (
        (k : String) × (r : Ref) × Memᴰ (k, r) p.workers
        × IsLate now timeout (h r)
        × (id ≡ (h r).worker_id))
check_heartbeats-mem now h p timeout id = rw check_heartbeats-select (
    select-mem (late now h timeout) (λ r. (h r).worker_id) (λ r. IsLate now timeout (h r))
      (late-IsLate now h timeout) p.workers id)

-- `RecordHeartbeat` of an ID that is not registered changes nothing and returns false. Of a registered one it sets the time and touches no other worker, and status, tenant, model and assignment stay.
pub record_heartbeat_lem :
    (now : Time) (h : Heap) (p : WorkerPool) (id : String) (state : Option WorkerState)
    → let (h', found) = record_heartbeat now h p id state in
      ((get_worker p id ≡ none) × (h' ≡ h) × (found ≡ false))
      ⊎ ((r : Ref) × (get_worker p id ≡ some r)
          × (found ≡ true)
          × (h' r
              ≡ record (h r) { last_heartbeat = now; metrics = merge_metrics (h r).metrics state })
          × ((q : Ref) → q ≢ r → h' q ≡ h q))
unfolding record_heartbeat get_worker
record_heartbeat_lem now h p id state = elim (Option-cases (lookup id p.workers)) [
  | inl e ↦ rw (e, record_heartbeat) (inl (refl, refl, refl))
  | inr (r, e) ↦ rw (e, record_heartbeat) (inr (r, refl, refl, ground arith, λ q n. ground arith))
]

-- A registered worker whose heartbeat has just been recorded is not overdue at any later reading of the clock that lies within the timeout of it.
pub record_heartbeat-alive :
    (now later : Time) (h : Heap) (p : WorkerPool) (id : String) (state : Option WorkerState)
    (r : Ref) (timeout : Duration)
    → get_worker p id ≡ some r
    → time_sub later now ≤ℤ timeout
    → ¬ IsLate later timeout ((record_heartbeat now h p id state).0 r)
record_heartbeat-alive now later h p id state r timeout e within l =
    elim (record_heartbeat_lem now h p id state) [
      | inl (m, _, _) ↦ let bad : none ≡ some r = sym m ∙ e in cc
      | inr (q, f, _, w, _) ↦
          let both : some r ≡ some q = sym e ∙ f in
          let same : r ≡ q = cc in
          let beat : ((record_heartbeat now h p id state).0 r).last_heartbeat ≡ now =
            rw same (ap (λ x. x.last_heartbeat) w) in
          let long : timeout <ℤ time_sub later now = rw beat at l.overdue in omega arith
    ]
