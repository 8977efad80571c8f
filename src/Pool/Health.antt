-- ===== src/Pool/Health.antt =====
-- pkg/orchestrator/worker_pool.go: heartbeats, and the idle workers that are terminated.
use aether_runner.Base.{
  ℕ, suc, String, ◌==◌, Bool, true, false, not, ◌&&◌, ◌||◌, Option, none, some, List, [], ◌∷◌,
  if◌then◌else◌,
}
use aether_runner.Base.Int.{pos, ltb_ℤ, leb_ℤ}
use aether_runner.Base.Clock.{Time, Duration, is_zero, time_sub}
use aether_runner.Base.Assoc.{Map, lookup}
use aether_runner.Worker.{
  WorkerState, WorkerMetrics, metrics_or_new, get_status, status_idle, status_terminating,
}
use aether_runner.Pool.{Ref, Heap, store, WorkerPool}

pub record HeartbeatConfig : Type 0 where
  pub interval : Duration
  pub timeout : Duration

abbrev pub default_heartbeat_config : HeartbeatConfig
default_heartbeat_config = record { interval = pos 3000000000; timeout = pos 10000000000 }

-- The metrics that a heartbeat carries, if it carries any.
unfoldable pub merge_metrics : Option WorkerMetrics → Option WorkerState → Option WorkerMetrics
merge_metrics old none = old
merge_metrics old (some state) = elim state.metrics [
  | none ↦ old
  | some m ↦ some (record (metrics_or_new old) {
    total_requests = m.total_requests;
    last_request_at = m.last_request_at;
  })
]

unfoldable pub record_heartbeat :
    Time → Heap → WorkerPool → String → Option WorkerState → Heap × Bool
record_heartbeat now h p worker_id state = elim (lookup worker_id p.workers) [
  | none ↦ (h, false)
  | some r ↦ (
    store h r (record (h r) { last_heartbeat = now; metrics = merge_metrics (h r).metrics state }),
    true,
  )
]

-- `!lastHeartbeat.IsZero() && now.Sub(lastHeartbeat) > timeout`
unfoldable pub is_overdue : Time → Duration → WorkerState → Bool
is_overdue now timeout w =
    not (is_zero w.last_heartbeat) && ltb_ℤ timeout (time_sub now w.last_heartbeat)

-- The loop of `CheckHeartbeats`.
unfoldable pub check_heartbeats : Time → Heap → Map Ref → Duration → List String
check_heartbeats now h [] timeout = []
check_heartbeats now h ((worker_id, r) ∷ workers) timeout =
    let rest = check_heartbeats now h workers timeout in
    if (h r).status == status_terminating
    then rest
    else if is_overdue now timeout (h r)
    then (h r).worker_id ∷ rest
    else rest

-- The loop of `GetHealthyWorkerCount`.
unfoldable pub get_healthy_worker_count : Time → Heap → Map Ref → Duration → ℕ
get_healthy_worker_count now h [] timeout = 0
get_healthy_worker_count now h ((worker_id, r) ∷ workers) timeout =
    let rest = get_healthy_worker_count now h workers timeout in
    if not ((h r).status == status_terminating)
    then if is_zero (h r).last_heartbeat || leb_ℤ (time_sub now (h r).last_heartbeat) timeout
      then suc rest
      else rest
    else rest

unfoldable pub last_activity : WorkerState → Time
last_activity w = elim w.metrics [
  | none ↦ w.updated_at
  | some m ↦ elim m.last_request_at [ none ↦ w.updated_at | some t ↦ t ]
]

unfoldable pub is_idle_too_long : Time → Duration → WorkerState → Bool
is_idle_too_long now idle_timeout w = ltb_ℤ idle_timeout (time_sub now (last_activity w))

-- What `checkIdleWorkers` calls: the heap as the state has it, and the function that terminates a
-- worker by its ID, which returns an error or nil.
pub record Terminator (S Err : Type 0) : Type 0 where
  pub heap : S → Heap
  pub terminate : S → String → S × Option Err

module _ {S Err : Type 0} (t : Terminator S Err) where
  -- One visit.
  unfoldable pub visit_idle : Time → Duration → S → Ref → S
  visit_idle now idle_timeout s r =
      let w = t.heap s r in
      if not (get_status w == status_idle)
      then s
      else if is_idle_too_long now idle_timeout w
      then (t.terminate s w.worker_id).0
      else s

  -- The loop over the entries that `Range` visits.
  unfoldable pub check_idle_workers : Time → Duration → S → Map Ref → S
  check_idle_workers now idle_timeout s [] = s
  check_idle_workers now idle_timeout s ((worker_id, r) ∷ workers) =
      check_idle_workers now idle_timeout (visit_idle now idle_timeout s r) workers
