-- ===== src/Api/IdleCheck.antt =====
-- The idle checker of the pool with the closure that main.go gives it.
use aether_runner.Base.{◌≡◌, String, none, some, List}
use aether_runner.Base.Clock.{Time, Duration}
use aether_runner.Base.Assoc.{Distinct}
use aether_runner.Base.Select.{select}
use aether_runner.Worker.{WorkerState, WorkerMetrics}
use aether_runner.Pool.Health.{Terminator, check_idle_workers}
use aether_runner.Pool.Idle.{expired, Keyed}
use aether_runner.Docker.{Docker}
use aether_runner.Api.{System, terminate_idle}

-- The time of a worker's last request, or of its last update where it has none.
pub data ActiveAt (w : WorkerState) (t : Time) : Type 0 where
  requested : (m : WorkerMetrics) → w.metrics ≡ some m → m.last_request_at ≡ some t → ActiveAt w t
  no_request :
      (m : WorkerMetrics)
      → w.metrics ≡ some m
      → m.last_request_at ≡ none
      → t ≡ w.updated_at
      → ActiveAt w t
  no_metrics : w.metrics ≡ none → t ≡ w.updated_at → ActiveAt w t

module _ {W : Type 0} (docker : Docker W) where
  abbrev pub idle_terminator : Terminator (System W) String
  idle_terminator = record { heap = λ s. s.heap; terminate = terminate_idle docker }

  module _ (now : Time) (timeout : Duration) (s : System W) (keyed : Keyed s.heap s.pool.workers)
      (distinct : Distinct s.pool.workers) where
    abbrev checked : System W
    checked = check_idle_workers idle_terminator now timeout s s.pool.workers

    abbrev ended : List String
    ended = select (expired now timeout s.heap) (λ r. (s.heap r).worker_id) s.pool.workers
