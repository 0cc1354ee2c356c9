-- ===== src/Service/History.antt =====
-- What the calls that a service takes, one after the other, make of its coordinator.
use radahn.Common.{◌<◌, ◌≤◌, ◌≡◌, ℤ, pos, some, Str, word_mod, false, leb_ℤ}
use radahn.Common.Keyed
use radahn.Domain.Double.{Double, IsIeee}
use radahn.Scheduler.Policy.{least_loaded}
use radahn.Persistence.JobRepository.{JobRepository}
use radahn.Persistence.WorkerRepository.{WorkerRepository, StoredWorker, stored_key}
use radahn.Coordinator.State.{Coordinator}
use radahn.Coordinator.Invariant.{slot, memory, disk, total_held}
use radahn.Coordinator.Recover.{make_coordinator}
use radahn.Coordinator.Recover.Recovered.{Storable}
use radahn.Coordinator.Reachable.{Reachable, begins, never_overcommits}
use radahn.Coordinator.Lifecycle.History.{Calls, no_more, Calls-Reachable}
use radahn.Service.Messages.{SubmitJobRequest, RegisterWorkerRequest, RpcOutcome}
use radahn.Service.Handlers.{
  submit_job_handler, get_job_handler, list_jobs_handler, register_worker_handler,
  heartbeat_handler, acquire_job_handler, start_job_handler, finish_job_handler, scan,
}
use radahn.Service.Registered.{Fits, stored_already, register_worker_handler-Calls}
use radahn.Service.Calls.{
  get_job_handler-Calls, submit_job_handler-Calls, heartbeat_handler-Calls,
  acquire_job_handler-Calls, start_job_handler-Calls, finish_job_handler-Calls, scan-Calls,
}

-- A call of the two services, or a round of the liveness monitor, with what the clock gives.
pub data Request (F : Type 0) : Type 0 where
  submit : ℤ → SubmitJobRequest F → Request F
  get : Str → Request F
  list : Request F
  register : ℤ → ℤ → RegisterWorkerRequest F → Request F
  beat : ℤ → Str → Request F
  acquire : ℤ → Str → Request F
  start : ℤ → Str → Str → Request F
  finish : Str → Str → RpcOutcome → Request F
  watch : ℤ → Request F

module _ {F : Type 0} ⦃d : Double F⦄ where
  -- The coordinator that the request leaves.
  unfoldable pub serve : Request F → Coordinator F → Coordinator F
  serve (submit now request) c = (submit_job_handler now request c).1
  serve (get id) c = (get_job_handler id c).1
  serve list c = (list_jobs_handler c).1
  serve (register now later request) c = (register_worker_handler now later request c).1
  serve (beat time id) c = (heartbeat_handler time id c).1
  serve (acquire now id) c = (acquire_job_handler now id c).1
  serve (start now worker id) c = (start_job_handler now worker id c).1
  serve (finish worker id outcome) c = (finish_job_handler worker id outcome c).1
  serve (watch now) c = (scan now c).1

  -- The message's numbers are of their types, and a worker that is stored does not register again.
  abbrev pub Proper : Request F → Coordinator F → Type 0
  Proper (submit now request) c = request.max_attempts < word_mod
  Proper (get id) c = Unit
  Proper list c = Unit
  Proper (register now later request) c =
      Fits request request.resources × (stored_already request c ≡ false)
  Proper (beat time id) c = Unit
  Proper (acquire now id) c = Unit
  Proper (start now worker id) c = Unit
  Proper (finish worker id outcome) c = Unit
  Proper (watch now) c = Unit

  -- What a proper request to the service, or a round of its liveness monitor, leaves of the
  -- coordinator is what a sequence of the coordinator's calls, with jobs and workers that the
  -- constructors accept, leaves. A request is proper if its counts fit their types and it does
  -- not register a worker that is stored.
  pub serve-Calls :
      (request : Request F) (c : Coordinator F) → Proper request c → Calls c (serve request c)
  unfolding serve get_job_handler list_jobs_handler
  serve-Calls (submit now request) c p = submit_job_handler-Calls now request c p
  serve-Calls (get id) c p = get_job_handler-Calls id c
  serve-Calls list c p = no_more
  serve-Calls (register now later request) c p =
      register_worker_handler-Calls now later request c p.0 p.1
  serve-Calls (beat time id) c p = heartbeat_handler-Calls time id c
  serve-Calls (acquire now id) c p = acquire_job_handler-Calls now id c
  serve-Calls (start now worker id) c p = start_job_handler-Calls now worker id c
  serve-Calls (finish worker id outcome) c p = finish_job_handler-Calls worker id outcome c
  serve-Calls (watch now) c p = scan-Calls now c

  -- The service's coordinator, after zero or more requests.
  pub data Served : Coordinator F → Type 0 where
    starts :
        (jobs : JobRepository F) (workers : WorkerRepository F) (lease : ℤ)
        → leb_ℤ lease (pos 0) ≡ false
        → Storable jobs workers
        → Served (make_coordinator least_loaded jobs workers lease).1
    serves :
        {c : Coordinator F}
        → Served c
        → (request : Request F) → Proper request c
        → Served (serve request c)

  pub Served-Reachable : {c : Coordinator F} → Served c → Reachable c
  Served-Reachable (starts jobs workers lease positive storable) =
      begins least_loaded jobs workers lease positive storable
  Served-Reachable (serves {c = c} before request proper) =
      Calls-Reachable (Served-Reachable before) (serve-Calls request c proper)

  -- For doubles that behave like IEEE ones, after any sequence of proper requests and rounds of
  -- the liveness monitor, on a coordinator made with a positive lease duration over repositories
  -- that an earlier run can have stored, the active jobs assigned to a stored worker number at
  -- most its slots, and need together at most its total memory and disk.
  pub service_never_overcommits :
      (ieee : IsIeee d) (c : Coordinator F) (w : Str) {s : StoredWorker F}
      → Served c
      → Keyed.find stored_key w c.workers ≡ some s
      → (total_held slot w c.jobs ≤ s.worker.max_concurrent_jobs)
        × (total_held memory w c.jobs ≤ s.worker.total_memory_bytes)
        × (total_held disk w c.jobs ≤ s.worker.total_disk_bytes)
  service_never_overcommits ieee c w served found =
      never_overcommits ieee c w (Served-Reachable served) found
