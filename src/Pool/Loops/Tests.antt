-- ===== src/Pool/Loops/Tests.antt =====
-- Runs of the loops of worker_pool.go, and the theorem about the channel of updates there.
use aether_runner.Base.{◌≡◌, refl, [], ◌∷◌, length, List, false}
use aether_runner.Base.Int.{pos}
use aether_runner.Worker.{status_pending, status_starting, status_running}
use aether_runner.Pool.{
  WorkerPoolConfig, new_worker_pool, notify_state_change, stop, process_state_update,
}
use aether_runner.Pool.Loops.{
  Event, Traffic, notifies, stops, receives, sees_stop, process_state_updates, happen, receive,
  after_receiving,
}
use aether_runner.Pool.Loops.Updates.{InOrder, new_worker_pool-InOrder}

abbrev config : WorkerPoolConfig
config = record { idle_timeout = pos 300; max_workers = pos 4 }

abbrev at_first : Traffic
at_first = record { pool = new_worker_pool config; returned = false; sent = []; logged = [] }

-- Two reports, of which one is logged before the pool is stopped.
abbrev events : List Event
events =
    notifies 1 "w-1" status_pending status_starting
    ∷ notifies 2 "w-1" status_starting status_running
    ∷ receives
    ∷ stops
    ∷ sees_stop
    ∷ receives
    ∷ []

one_is_left : length (process_state_updates events at_first).pool.state_updates ≡ 1
unfolding process_state_updates happen receive after_receiving new_worker_pool notify_state_change
    stop process_state_update
one_is_left = refl

one_is_logged : length (process_state_updates events at_first).logged ≡ 1
unfolding process_state_updates happen receive after_receiving new_worker_pool notify_state_change
    stop process_state_update
one_is_logged = refl

new_worker_pool-InOrder_example : InOrder (process_state_updates events at_first)
new_worker_pool-InOrder_example = new_worker_pool-InOrder config events
