-- ===== src/Pool/Loops.antt =====
pub mod Updates
mod Tests
-- pkg/orchestrator/worker_pool.go: the loops of its goroutines, over what their `select` receives.
-- What other goroutines do between two receptions is part of the second one.
use aether_runner.Base.{
  ℕ, ◌≤◌, String, Bool, true, false, Option, none, some, List, [], ◌∷◌, ◌++◌, if◌then◌else◌, length,
  leb,
}
use aether_runner.Base.Clock.{Time, Duration}
use aether_runner.Base.Assoc.{Map}
use aether_runner.Worker.{WorkerStatus}
use aether_runner.Pool.{
  Ref, Heap, WorkerPool, WorkerStateUpdate, notify_state_change, process_state_update, stop,
}
use aether_runner.Pool.Health.{HeartbeatConfig, Terminator, check_idle_workers, check_heartbeats}

-- The context is done, the pool is stopped, or the ticker ticks.
pub data Signal (S : Type 0) : Type 0 where
  ctx_done : Signal S
  pool_stopped : Signal S
  ticks : Time → (S → S) → Signal S

module _ {S : Type 0} (workers : S → Map Ref) where
  -- `StartIdleChecker`; at the end of the list it waits.
  unfoldable pub start_idle_checker :
      {Err : Type 0} → Terminator S Err → Duration → List (Signal S) → S → S
  start_idle_checker t idle_timeout [] s = s
  start_idle_checker t idle_timeout (ctx_done ∷ signals) s = s
  start_idle_checker t idle_timeout (pool_stopped ∷ signals) s = s
  start_idle_checker t idle_timeout (ticks now others ∷ signals) s =
      let s' = others s in
      start_idle_checker t idle_timeout signals
        (check_idle_workers t now idle_timeout s' (workers s'))

  -- The calls of `onOffline`, if it is not nil.
  unfoldable pub report_offline : Option (S → String → S) → List String → S → S
  report_offline on_offline [] s = s
  report_offline none (worker_id ∷ ids) s = report_offline none ids s
  report_offline (some f) (worker_id ∷ ids) s = report_offline (some f) ids (f s worker_id)

  unfoldable pub start_heartbeat_checker :
      (S → Heap) → HeartbeatConfig → Option (S → String → S) → List (Signal S) → S → S
  start_heartbeat_checker heap config on_offline [] s = s
  start_heartbeat_checker heap config on_offline (ctx_done ∷ signals) s = s
  start_heartbeat_checker heap config on_offline (pool_stopped ∷ signals) s = s
  start_heartbeat_checker heap config on_offline (ticks now others ∷ signals) s =
      let s' = others s in
      let offline = check_heartbeats now (heap s') (workers s') config.timeout in
      start_heartbeat_checker heap config on_offline signals (report_offline on_offline offline s')

-- What happens around the channel of updates: a worker reports, the pool is stopped, and the loop of
-- `processStateUpdates` receives an update, or sees that the pool is stopped.
pub data Event : Type 0 where
  notifies : Time → String → WorkerStatus → WorkerStatus → Event
  stops : Event
  receives : Event
  sees_stop : Event

-- The pool and whether the loop has returned; what was put into the channel, and what the loop logged.
pub record Traffic : Type 0 where
  pub pool : WorkerPool
  pub returned : Bool
  pub sent : List WorkerStateUpdate
  pub logged : List WorkerStateUpdate

unfoldable pub after_receiving : Traffic → Option (WorkerStateUpdate × WorkerPool) → Traffic
after_receiving t none = t
after_receiving t (some (u, p)) = record t { pool = p; logged = t.logged ++ u ∷ [] }

unfoldable pub receive : Traffic → Traffic
receive t = after_receiving t (process_state_update t.pool)

-- A second `Stop` panics, which ends the program: it changes nothing here.
unfoldable pub happen : Event → Traffic → Traffic
happen (notifies now worker_id old_state new_state) t =
    let (p, taken) = notify_state_change now t.pool worker_id old_state new_state in
    record t {
      pool = p;
      sent =
          if taken
          then t.sent
            ++ (record {
              worker_id = worker_id;
              old_state = old_state;
              new_state = new_state;
              timestamp = now;
            })
              ∷ []
          else t.sent;
    }
happen stops t = elim (stop t.pool) [ none ↦ t | some p ↦ record t { pool = p } ]
happen receives t = if t.returned then t else receive t
happen sees_stop t = if t.pool.stopped then record t { returned = true } else t

unfoldable pub process_state_updates : List Event → Traffic → Traffic
process_state_updates [] t = t
process_state_updates (e ∷ events) t = process_state_updates events (happen e t)
