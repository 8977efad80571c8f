-- ===== src/Pool/Loops/Updates.antt =====
-- The channel of state updates of pkg/orchestrator/worker_pool.go: its order and its bound.
use mathlib.Core.List.{append_assoc}
use aether_runner.Base.{
  ◌≡◌, refl, sym, ap, ◌∙◌, ◌≤◌, List, [], ◌∷◌, ◌++◌, length, length-append, arith, false, String,
}
use aether_runner.Base.Clock.{Time}
use aether_runner.Worker.{WorkerStatus}
use aether_runner.Pool.{
  WorkerStateUpdate, WorkerPoolConfig, new_worker_pool, notify_state_change, process_state_update,
  take_update, update_buffer, stop,
}
use aether_runner.Pool.Loops.{
  Event, Traffic, after_receiving, notifies, stops, receives, sees_stop, receive, happen,
  process_state_updates,
}

-- What was sent is what was logged and then what is in the channel, which holds its capacity at most.
pub record InOrder (t : Traffic) : Type 0 where
  pub fifo : t.sent ≡ t.logged ++ t.pool.state_updates
  pub bounded : length t.pool.state_updates ≤ update_buffer

append_snoc :
    (xs ys : List WorkerStateUpdate) (u : WorkerStateUpdate) → xs ++ (u ∷ ys) ≡ (xs ++ u ∷ []) ++ ys
append_snoc xs ys u = sym (append_assoc xs (u ∷ []) ys)

taken-InOrder :
    (us : List WorkerStateUpdate) (t : Traffic)
    → t.pool.state_updates ≡ us
    → InOrder t
    → InOrder (after_receiving t (take_update us t.pool))
unfolding take_update after_receiving
taken-InOrder [] t e i = i
taken-InOrder (u ∷ us) t e i = record {
  fifo = i.fifo ∙ ap (λ vs. t.logged ++ vs) e ∙ append_snoc t.logged us u;
  bounded = omega (arith, i.bounded, ap length e);
}

receive-InOrder : (t : Traffic) → InOrder t → InOrder (receive t)
unfolding receive process_state_update
receive-InOrder t i = taken-InOrder t.pool.state_updates t refl i

notified-InOrder :
    (now : Time) (id : String) (old new : WorkerStatus) (t : Traffic)
    → InOrder t
    → InOrder (happen (notifies now id old new) t)
unfolding happen notify_state_change
notified-InOrder now id old new t i =
    let u : WorkerStateUpdate = record {
      worker_id = id;
      old_state = old;
      new_state = new;
      timestamp = now;
    } in
    let buffer = t.pool.state_updates in
    let longer = ap (λ us. us ++ u ∷ []) i.fifo ∙ append_assoc t.logged buffer (u ∷ []) in
    record {
      fifo = ground (arith, longer, i.fifo);
      bounded = ground (arith, i.bounded, length-append buffer (u ∷ []));
    }

happen-InOrder : (e : Event) (t : Traffic) → InOrder t → InOrder (happen e t)
unfolding happen stop
happen-InOrder (notifies now id old new) t i = notified-InOrder now id old new t i
happen-InOrder stops t i = record { fifo = ground arith; bounded = ground arith }
happen-InOrder receives t i = record {
  fifo = ground (arith, receive-InOrder t i);
  bounded = ground (arith, receive-InOrder t i);
}
happen-InOrder sees_stop t i = record { fifo = ground arith; bounded = ground arith }

run-InOrder :
    (events : List Event) (t : Traffic) → InOrder t → InOrder (process_state_updates events t)
unfolding process_state_updates
run-InOrder [] t i = i
run-InOrder (e ∷ events) t i = run-InOrder events (happen e t) (happen-InOrder e t i)

-- Whatever workers report and whenever the pool is stopped, on a new pool: processStateUpdates logs the updates that NotifyStateChange put into the channel in the order in which they came, those that it has not logged are in the channel, in their order, and these are at most 100.
pub new_worker_pool-InOrder :
    (config : WorkerPoolConfig) (events : List Event)
    → InOrder (
        process_state_updates events
          (record { pool = new_worker_pool config; returned = false; sent = []; logged = [] }))
unfolding new_worker_pool
new_worker_pool-InOrder config events =
    run-InOrder events _ (record { fifo = refl; bounded = omega arith })
