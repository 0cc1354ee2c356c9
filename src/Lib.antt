-- ===== src/Lib.antt =====
-- Verification of the radahn job scheduler.
--
-- A coordinator keeps jobs and workers in two repositories, queues the jobs that wait, and leases
-- them to workers that have the resources. Workers report by heartbeats; the coordinator renews
-- leases, ends the ones that expired, queues the jobs again, and recovers its state at start.
-- A service offers the coordinator's calls over gRPC; worker processes and a command-line client
-- are its callers.
--
-- The files follow the libraries of the repository:
--   Domain: libs/domain. Id (StrongId), Workload (WorkloadSpec), Resource (ResourceRequirements,
--     WorkerResources), JobState (JobStateMachine), Job, Worker (WorkerSnapshot), Eligibility
--     (evaluate_worker) and WorkerRecord (reserve, release). A constructor that throws is a
--     function into `Outcome`; Error names the exceptions by the place that throws them.
--   Scheduler: libs/scheduler. JobQueue (InMemoryJobQueue), WorkerFilter (find_eligible_workers),
--     Policy (LeastLoadedPolicy, RoundRobinPolicy) and Planner (DispatchPlanner).
--   Persistence: libs/persistence, the in-memory repositories of jobs and of workers, and in Sqlite
--     the repositories of libs/persistence/src/sqlite_job_repository.cpp (JobRow, Reads, JobTable)
--     and sqlite_worker_repository.cpp (WorkerRow, WorkerReads, WorkerTable): the values of columns,
--     the rows, and the operations over a connection (Session) whose statements are a parameter.
--     Transactions has what holds inside a transaction, and Schema is
--     libs/persistence/src/sqlite_schema.cpp: the schema's upgrades, with the texts that are
--     executed, command by command, in SchemaText, and the tables as Contents.
--   Coordinator: libs/coordinator/src/in_memory_coordinator.cpp. State has the fields and the
--     monad of calls that may throw: the changes made before an exception stay, as in C++, and
--     `try`/`catch` is `on_error`. Submit, Heartbeat, Expiry, Dispatch, Finish, Recover and Queries
--     have one function for each operation; what the clock gives is an argument. Invariant says
--     what holds between two calls: identifiers are distinct, records and workers are valid, the
--     queue mirrors the stored jobs, and every account covers what the worker holds. Loops has the
--     rules for loops that change the repositories that they read. Reachable has the sequences of
--     calls on a coordinator that the constructor made. Lifecycle is the abstract view: a stored
--     job on its way through the job states.
--   Service: apps/coordinator/main.cpp and proto/. Messages has the conversions (fill_job_info,
--     copy_workload, checked_size_t), and Handlers a function for each handler, from the arguments
--     of the request to the reply and the coordinator that it leaves; `scan` is a round of
--     run_liveness_monitor. The handlers hold a lock around their calls, so requests are served one
--     after the other. Chains, Registered, Calls and History say which calls of the coordinator they
--     make; Submitted, Accepted, Started, Finished, Acquired and Handover what they answer.
--   WorkerApp: apps/worker. Process has main and its loop over the stub of the service, a parameter
--     whose calls change a world that other processes share; Session is the protocol.
--   Cli: apps/cli/main.cpp. Parse reads numbers and options, Submit makes the request and Commands
--     has main; the conversions of the C++ library (stol, stod, stoull) and the stub are parameters.
--   Common: what they share: Boolean tests, results, integers, byte strings, vectors searched by
--     a key (Keyed) and sorting.
--   Examples: concrete values, and the theorems applied to them.
--
-- Numbers and text. `std::uint64_t` and `std::size_t` are natural numbers, with the wrap-around
-- of additions and subtractions written out (add64, sub64). Doubles are a parameter: Domain/Double
-- has the operations that the code uses, and IsIeee the laws of IEEE 754 that a theorem relies on.
-- Times are integers, in the ticks of the system clock. Text is a list of bytes. `int` priorities
-- are only compared, so they are integers without a bound. Loops over a vector are by structural
-- recursion and need no fuel. The worker's loop, which may go on for ever, is run for a number of
-- rounds, and WorkerApp/Session relates all such numbers to the protocol.
--
-- `std::sort` and `std::min_element` are written as insertion sort and as the loop of the standard's
-- definition. The names of the policies are an enumeration.
--
-- A tick of the system clock is a nanosecond where times are stored as milliseconds.
--
-- The service is modelled over the coordinator with its in-memory repositories. Service/Stored has
-- what the SQLite repository of jobs adds to that: the insertions that it refuses, and how a job is
-- read back. Jobs and workers are listed as the in-memory repositories list them, where SQLite
-- lists jobs by the time of creation and workers by identifier. A name or a tag that begins with a
-- zero byte, which it cannot read back, an identifier with a zero byte, the workers that the SQLite
-- repository of workers refuses, and what a failing database makes of a request are not modelled.
--
-- Not modelled: the SQLite connection (libs/persistence/src/sqlite_database.cpp) and the start of
-- the gRPC server, which are calls of libraries that are not part of the repository; the threads of
-- the liveness monitor and of the heartbeats, of which only the calls are; what is printed; and the
-- `to_string` functions. A bind call that SQLite refuses is a failure of the statement.
pub mod Common
pub mod Domain
pub mod Scheduler
pub mod Persistence
pub mod Service
pub mod WorkerApp
pub mod Cli
pub mod Coordinator
pub mod Examples
