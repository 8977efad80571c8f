-- ===== src/Lib.antt =====
pub mod Base
pub mod Worker
pub mod Scheduler
pub mod Pool
pub mod Selection
pub mod Wire
pub mod Docker
pub mod Api
pub mod Main
pub mod Demo

-- Aether-Runner, an orchestrator of GPU workers in Go: a verification library.
--
-- The program. The API server keeps a pool of workers, each a small state machine, and a scheduler
-- that knows the memory of every GPU and which models are loaded there. A request to create a worker
-- asks the scheduler for a GPU, registers the worker, reserves memory and starts a container in the
-- background; idle checks and heartbeats take workers away again. Node agents send the state of their
-- workers over a wire format.
--
-- The files.
--   Worker: pkg/orchestrator/state.go. `WorkerState` with `transition_to`, `increment_requests` and
--     so on. Worker/Transitions is the table of the transitions as a relation, Worker/History the
--     runs of `TransitionTo`.
--   Scheduler: pkg/orchestrator/scheduler.go up to `HasAvailableGPU`, and the queries at its end.
--     Scheduler/Sorting and Placement are about `Schedule`, Agreement about the agreement of
--     `Schedule`, `HasAvailableGPU`, `CanSliceGPU` and `Allocate`, Accounting about the memory of a
--     GPU, Ledger and Books about the abstract view, a ledger of leases, and History about all
--     interleavings of the calls.
--   Selection: `SelectWorker` and `SelectWorkerForModel` of the same file, which read the pool and
--     the scheduler. Passes are its loops; Routing, Preference and Agreement are about the answers.
--   Pool: pkg/orchestrator/worker_pool.go. The registry, the counters and the channels; Pool/Health
--     has the heartbeats and the idle check, Pool/Loops the loops of the goroutines. Registry,
--     Balance, Queries, Statistics, Heartbeats, Idle and Loops/Updates are about them.
--   Wire: pkg/orchestrator/wire.go. Wire itself has the types of a worker, its validation and the
--     conversions; Wire/Uuid, Schema, Exchange and Delivery are about these. Wire/Encoding is the
--     worker as JSON by the tags of its types, Wire/Payloads the payloads of the messages, and
--     Wire/Messages the messages, their constructors and parsers; each has a RoundTrip.
--   Docker: the types of pkg/docker/client.go, its calls as an interface of the API, and the filter
--     by labels. Docker/Client is the client itself, over the Docker SDK as a record of calls
--     (Docker/Sdk); Daemon says what is relied on of a daemon, Launch and Removal are about the
--     containers that are there after a call, and Waiting about the loop that waits for a healthy
--     one. Docker/Mock is pkg/docker/mock_client.go, which fills the interface, and
--     Docker/Mock/Containers is about it.
--   Api: pkg/api/handlers.go and errors.go, and the closure for idle workers of cmd/aether/main.go,
--     on a system of the heap, the pool, the scheduler and a daemon. Api/Start is the goroutine that
--     starts a container, one call at a time; Creation, Lifecycle, Startup and IdleCheck are about
--     them. Api/Server is the whole server as a step relation, in which requests, goroutines and the
--     idle checker come in any order; Api/Server/Sanity, Finality and Running are about every such
--     order, Api/Server/Race about two requests at once, and Api/Server/Sequence is about the order
--     without interruptions. Api/Reports has the handlers that report, and `ToJSON`; Gpus, Floats,
--     Workers, Shown and Answers below it are about what a client reads. Api/Bodies is the body of a
--     request to create a worker, by the tags of its types, with a RoundTrip. Api/Routes has the
--     routes, each request with what its handler answers and starts, and the line of the logging
--     middleware; Safety and Sequels below it are about one request and about what follows one, and
--     Refinement is about requests as steps of Api/Server.
--   Main: cmd/aether/main.go, from the environment to the system that the handlers share. Main/Gpus
--     and Startup are about it. Main/Process is a run of `main` from its start to its end, and
--     Main/Shutdown is about how it ends.
--   Demo: cmd/demo/main.go, on the simulated Docker client. Demo/Launching is `launchWorker`,
--     Demo/Scenarios the three parts; Calm and Isolation are about the last one.
--   Base: what the sources use of Go: integers of 64 bits that wrap around (Machine, over the
--     integers of Int), maps as lists of entries (Assoc), time (Clock), the package strconv
--     (Decimal), structs as JSON values (Json), the loops over maps (Select), and helpers on lists,
--     options and tests.
--   The Tests module of each part has concrete runs and applications of the theorems.
--
-- How state is modelled. A method that holds its lock for its whole body is one function from the
-- state to the state and a result; a handler, which holds none, is such a function for a run without
-- interruption, and a sequence of tasks in Api/Server. `AddWorker` holds no lock over its check and
-- its `Store`: it is one function in Pool and two steps in Api/Server. A `*WorkerState` is shared
-- between the pool and the goroutines, so it is a reference into a heap, which is an argument of the
-- pool's operations; a `*GPUResidency` is reached through the scheduler's map only and is a value
-- there. A map is a list of entries in the order in which `range` visits it, so a theorem about any
-- list is one about any order of the visit. The stable insertion sort in place of `sort.Slice` loses
-- nothing, since the order of the candidates it is given is arbitrary as well. `time.Now()` is an
-- argument, in nanoseconds since the zero time. A loop that waits for signals goes over the list of
-- what it receives, and the rest of the program between two of them is a function that the signal
-- carries. Errors are values. All loops are structural recursion over the lists, so no fuel is
-- needed; the goroutine that starts a container has seven calls, one for each of its stages, as a
-- call leads to later stages only; a printed number has its value and one, as it has no more digits
-- than that; and `WaitForHealthy` has a round for every half second of its timeout and two more, one
-- for the last part of one and one that meets the deadline. A context without a deadline leaves the
-- most that a time.Duration can hold. Where a context and a timer are ready at once, the context says
-- which of the two Go takes. A JSON text is modelled by the value that it stands for: the decoder
-- ignores the case of keys, passes over unknown ones, leaves a field at null, and fails on a value of
-- another type; that a slice decoded twice, under a repeated key, reuses the old items is left out.
--
-- Parameters. The rounding of seconds through a float, RFC 3339 formatting and parsing (with the law
-- that parsing reads back what formatting writes, to the second, before the year 10000), and the
-- callback that terminates an idle worker; for the API the Docker client, the text of a decoder's
-- error, the new UUID, and the JSON of a time, which an instant after the year 9999 does not have;
-- for cmd/aether the environment, `time.ParseDuration`, the text of a duration, and what the Docker
-- client, the listener and `Shutdown` answer; for the Docker client the SDK's calls, its clock and
-- the context's end, with laws on the containers that a daemon holds and runs and on the time that a
-- pause takes.
--
-- Not modelled. JSON texts, of which the values are, and with them the order of keys; headers, the
-- answer to HEAD and unclean paths; listening and signals in cmd/aether, but for what they come to;
-- the goroutines' tickers and the log output, except as values; the elapsed times and the layout of
-- what cmd/demo prints.
