-- ===== src/Api/Server/Tests.antt =====
-- Steps of the server of Api/Tests, and the theorems about all of them there.
use aether_runner.Base.{text_ne, ◌+◌, ◌++◌, ℕ, ◌≡◌, refl, none, some, [], ◌∷◌, arith}
use aether_runner.Base.Int.{◌<ℤ◌, pos}
use aether_runner.Base.Assoc.{lookup}
use aether_runner.Worker.{status_terminating}
use aether_runner.Pool.{get_worker, WorkerPoolConfig, count}
use aether_runner.Api.{System, Job, get_worker}
use aether_runner.Api.Start.{starting, running, advance}
use aether_runner.Api.Server.{
  Server, Task, admitted, placed, launches, Pick, first, Steps, here, then_step, admits, enrolls,
  places, assigns, advances, remaining, enroll, place, assign, register, registers, counted,
}
use aether_runner.Api.Server.Sanity.{IsSound, Steps-IsSound}
use aether_runner.Api.Server.Race.{add_worker_overshoots}
use aether_runner.Api.Server.Finality.{IsOver, Steps-IsOver}
use aether_runner.Api.Tests.{daemon, worker, server, request, chosen, job, enlisted, server-Inv}

-- A request is admitted and enlisted, and the worker's start makes its first call.
abbrev at_first : Server ℕ
at_first = record { system = server; tasks = [] }

abbrev with_request : Server ℕ
with_request = record { system = server; tasks = admitted "w-9" request chosen ∷ [] }

abbrev with_worker : Server ℕ
with_worker = record {
  system = (enroll 2000 "w-9" request chosen server).0;
  tasks = (enroll 2000 "w-9" request chosen server).1 ++ [];
}

abbrev with_entry : Server ℕ
with_entry = record {
  system = register 1 with_worker.system;
  tasks = Task.enlisted 1 "w-9" request chosen ∷ [];
}

abbrev with_memory : Server ℕ
with_memory = record {
  system = place "w-9" request chosen with_entry.system;
  tasks = placed 1 request chosen ∷ [];
}

abbrev with_gpu : Server ℕ
with_gpu = record {
  system = assign 1 request chosen with_memory.system;
  tasks = launches job starting ∷ [];
}

abbrev with_start : Server ℕ
with_start = record {
  system = (advance daemon 3000 job starting with_gpu.system).0;
  tasks =
      remaining job (with_gpu.system.heap 1).worker_id
        (advance daemon 3000 job starting with_gpu.system).1
      ++ [];
}

its_place : Pick (counted 1 "w-9" request chosen) with_worker.tasks []
unfolding enroll count
its_place = first

a_start : Steps daemon at_first with_start
a_start =
    then_step
      (then_step
        (then_step
          (then_step {s' = with_worker}
            (then_step {s' = with_request}
              (then_step here (admits "w-9" request chosen enlisted.scheduled refl refl))
              (enrolls 2000 "w-9" request chosen [] first (omega arith, omega arith) refl refl))
            (registers 1 "w-9" request chosen [] its_place refl refl))
          (places 1 "w-9" request chosen [] first (omega arith, omega arith) refl refl))
        (assigns 1 request chosen [] first refl refl))
      (advances 3000 job starting [] first refl refl)

abbrev four_at_most : WorkerPoolConfig
four_at_most = record { idle_timeout = pos 300; max_workers = pos 4 }

server-IsSound : IsSound four_at_most server
unfolding count
server-IsSound = record {
  gpus = server-Inv;
  same_max = refl;
  distinct = tt;
  models = λ r m e. let bad : none ≡ some m = e in cc;
}

Steps-IsSound_example : IsSound four_at_most with_start.system
Steps-IsSound_example = Steps-IsSound daemon four_at_most a_start server-IsSound

-- A worker is deleted while its start is about to say that it runs.
abbrev deleted : System ℕ
deleted = record server { heap = λ r. record worker { status = status_terminating } }

abbrev late_start : Job
late_start = record { worker = 0; image = "llama"; gpu = chosen }

abbrev before_running : Server ℕ
before_running = record { system = deleted; tasks = launches late_start running ∷ [] }

abbrev after_running : Server ℕ
after_running = record {
  system = (advance daemon 9000 late_start running deleted).0;
  tasks = remaining late_start "w-0" (advance daemon 9000 late_start running deleted).1 ++ [];
}

a_late_start : Steps daemon before_running after_running
a_late_start = then_step here (advances 9000 late_start running [] first refl refl)

Steps-IsOver_example : IsOver 0 after_running.system
Steps-IsOver_example =
    Steps-IsOver daemon 0 a_late_start (record { allocated = omega arith; terminating = refl })

server_has_room : pos (count server.pool.workers) <ℤ server.pool.max_workers
unfolding count
server_has_room = omega arith

-- The server with room for one worker.
abbrev tight : System ℕ
tight = record server { pool = record server.pool { max_workers = pos 1 } }

add_worker_overshoots_example :
    (s' : Server ℕ) × Steps daemon (record { system = tight; tasks = [] }) s'
    × (s'.system.pool.max_workers ≡ pos 1)
    × (count s'.system.pool.workers ≡ count tight.pool.workers + 2)
    × (s'.system.pool.max_workers <ℤ pos (count s'.system.pool.workers))
unfolding count get_worker lookup
add_worker_overshoots_example =
    add_worker_overshoots daemon 2000 request chosen "w-8" "w-9" tight (text_ne "w-8" "w-9" refl)
      refl refl refl enlisted.scheduled (omega arith, omega arith)
