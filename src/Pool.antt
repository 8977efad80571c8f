-- ===== src/Pool.antt =====
pub mod Health
pub mod Loops
pub mod Registry
pub mod Balance
pub mod Queries
pub mod Statistics
pub mod Heartbeats
pub mod Idle
mod Tests
-- pkg/orchestrator/worker_pool.go: the registry of workers, its counters and its channels.
-- A `*WorkerState` is a reference into a heap, since the registry shares it with the goroutine that
-- starts the worker. A `sync.Map` is a list of entries in the order in which `Range` visits them.
use aether_runner.Base.{
  ℕ, suc, ◌+◌, String, ◌==◌, Bool, true, false, not, ◌&&◌, ◌||◌, Option, none, some, List, [], ◌∷◌,
  ◌++◌, if◌then◌else◌, length, ltb, nat_eq,
}
use aether_runner.Base.Int.{ℤ, pos, leb_ℤ}
use aether_runner.Base.Machine.{add64}
use aether_runner.Base.Clock.{Time, Duration}
use aether_runner.Base.Assoc.{Map, lookup, insert, delete}
use aether_runner.Worker.{WorkerState, WorkerStatus, ModelConfig, get_status, status_idle}

abbrev pub Ref : Type 0
Ref = ℕ

abbrev pub Heap : Type 0
Heap = Ref → WorkerState

-- A write through a reference.
abbrev pub store : Heap → Ref → WorkerState → Heap
store h r w q = if nat_eq r q then w else h q

pub record WorkerStateUpdate : Type 0 where
  pub worker_id : String
  pub old_state : WorkerStatus
  pub new_state : WorkerStatus
  pub timestamp : Time

pub record WorkerPoolConfig : Type 0 where
  pub idle_timeout : Duration
  pub max_workers : ℤ

-- `state_updates` is what the channel's buffer holds, and `stopped` says that `stopChan` is closed.
pub record WorkerPool : Type 0 where
  pub workers : Map Ref
  pub state_updates : List WorkerStateUpdate
  pub stopped : Bool
  pub idle_timeout : Duration
  pub max_workers : ℤ
  pub total_created : ℤ
  pub total_terminated : ℤ

-- Five minutes, and a hundred workers.
abbrev pub default_worker_pool_config : WorkerPoolConfig
default_worker_pool_config = record { idle_timeout = pos 300000000000; max_workers = pos 100 }

unfoldable pub new_worker_pool : WorkerPoolConfig → WorkerPool
new_worker_pool config = record {
  workers = [];
  state_updates = [];
  stopped = false;
  idle_timeout = config.idle_timeout;
  max_workers = config.max_workers;
  total_created = pos 0;
  total_terminated = pos 0;
}

-- The loop of `Count`.
unfoldable pub count : Map Ref → ℕ
count [] = 0
count ((worker_id, r) ∷ workers) = suc (count workers)

-- "worker pool at capacity (count/max)"
pub data PoolError : Type 0 where
  at_capacity : ℕ → ℤ → PoolError

-- The capacity check of `AddWorker`, and what follows it. No lock is held over the two.
abbrev pub has_room_for_one : WorkerPool → Bool
has_room_for_one p = not (leb_ℤ p.max_workers (pos (count p.workers)))

abbrev pub store_worker : Heap → WorkerPool → Ref → WorkerPool
store_worker h p r = record p {
  workers = insert (h r).worker_id r p.workers;
  total_created = add64 p.total_created (pos 1);
}

-- `AddWorker` with no other caller between its check and its `Store`.
unfoldable pub add_worker : Heap → WorkerPool → Ref → WorkerPool × Option PoolError
add_worker h p r =
    let n = count p.workers in
    if leb_ℤ p.max_workers (pos n)
    then (p, some (at_capacity n p.max_workers))
    else (store_worker h p r, none)

unfoldable pub get_worker : WorkerPool → String → Option Ref
get_worker p worker_id = lookup worker_id p.workers

unfoldable pub remove_worker : WorkerPool → String → WorkerPool
remove_worker p worker_id = record p {
  workers = delete worker_id p.workers;
  total_terminated = add64 p.total_terminated (pos 1);
}

-- The loop of `ListWorkers`.
unfoldable pub list_workers : Heap → Map Ref → String → List Ref
list_workers h [] tenant_id = []
list_workers h ((worker_id, r) ∷ workers) tenant_id =
    let rest = list_workers h workers tenant_id in
    if tenant_id == "" || (h r).tenant_id == tenant_id then r ∷ rest else rest

-- `worker.Model != nil && worker.Model.Name == modelName`
unfoldable pub has_model : Option ModelConfig → String → Bool
has_model none model_name = false
has_model (some m) model_name = m.name == model_name

-- The loop of `FindIdleWorker`, which stops at the first match.
unfoldable pub find_idle_worker : Heap → Map Ref → String → String → Option Ref
find_idle_worker h [] tenant_id model_name = none
find_idle_worker h ((worker_id, r) ∷ workers) tenant_id model_name =
    let rest = find_idle_worker h workers tenant_id model_name in
    if (h r).tenant_id == tenant_id
    then if get_status (h r) == status_idle
      then if has_model (h r).model model_name then some r else rest
      else rest
    else rest

abbrev pub update_buffer : ℕ
update_buffer = 100

-- The send of `NotifyStateChange`; the flag is false where the buffer is full and the update is dropped.
unfoldable pub notify_state_change :
    Time → WorkerPool → String → WorkerStatus → WorkerStatus → WorkerPool × Bool
notify_state_change now p worker_id old_state new_state =
    let update : WorkerStateUpdate = record {
      worker_id = worker_id;
      old_state = old_state;
      new_state = new_state;
      timestamp = now;
    } in
    if ltb (length p.state_updates) update_buffer
    then (record p { state_updates = p.state_updates ++ update ∷ [] }, true)
    else (p, false)

-- One round of `processStateUpdates`: the oldest update, which it logs. `none`: it waits.
unfoldable pub take_update :
    List WorkerStateUpdate → WorkerPool → Option (WorkerStateUpdate × WorkerPool)
take_update [] p = none
take_update (u ∷ us) p = some (u, record p { state_updates = us })

unfoldable pub process_state_update : WorkerPool → Option (WorkerStateUpdate × WorkerPool)
unfolding take_update
process_state_update p = take_update p.state_updates p

-- Closing a closed channel panics: `none`.
unfoldable pub stop : WorkerPool → Option WorkerPool
stop p = if p.stopped then none else some (record p { stopped = true })

pub record PoolStats : Type 0 where
  pub total_created : ℤ
  pub total_terminated : ℤ
  pub current_active : ℕ
  pub by_status : Map ℕ

-- `stats.ByStatus[status]++`
unfoldable pub bump : WorkerStatus → Map ℕ → Map ℕ
bump status by_status = elim (lookup status by_status) [
  | none ↦ insert status 1 by_status
  | some n ↦ insert status (n + 1) by_status
]

-- The loop of `Stats`.
unfoldable pub tally : Heap → Map Ref → PoolStats → PoolStats
tally h [] stats = stats
tally h ((worker_id, r) ∷ workers) stats = tally h workers (record stats {
  by_status = bump (get_status (h r)) stats.by_status;
  current_active = stats.current_active + 1;
})

unfoldable pub stats : Heap → WorkerPool → PoolStats
stats h p = tally h p.workers (record {
  total_created = p.total_created;
  total_terminated = p.total_terminated;
  current_active = 0;
  by_status = [];
})
