-- ===== src/Coordinator/Reachable.antt =====
-- What a sequence of calls makes of a new coordinator.
use radahn.Common.{false, is_some, inl, inr, ℤ, ◌≡◌, leb_ℤ, pos, ◌≤◌, some, Str, refl}
use radahn.Common.Keyed
use radahn.Domain.Double.{Double, IsIeee}
use radahn.Domain.Id.{JobId, WorkerId}
use radahn.Domain.Resource.Validity.{IsValidRequirements}
use radahn.Domain.Job.{Job}
use radahn.Domain.Job.Attempts.{IsValidJob}
use radahn.Domain.JobState.{succeeded, failed}
use radahn.Domain.WorkerRecord.{WorkerRecord}
use radahn.Domain.WorkerRecord.Accounts.{IsValidWorker}
use radahn.Scheduler.Policy.{Policy}
use radahn.Persistence.WorkerRepository.{StoredWorker, stored_key}
use radahn.Coordinator.State.{Coordinator}
use radahn.Coordinator.Heartbeat.{record_worker_heartbeat, mark_stale_workers_offline}
use radahn.Coordinator.Heartbeat.Beat.{record_worker_heartbeat-Inv}
use radahn.Coordinator.Heartbeat.Stale.{mark_stale_workers_offline-Inv}
use radahn.Coordinator.Expiry.{mark_expired_job_leases, requeue_retry_wait_jobs}
use radahn.Coordinator.Expiry.Ended.{mark_expired_job_leases-Inv}
use radahn.Coordinator.Expiry.Requeued.{requeue_retry_wait_jobs-Inv}
use radahn.Coordinator.Recover.Recovered.{Storable, make_coordinator-IsRecovered}
use radahn.Persistence.JobRepository.{JobRepository}
use radahn.Persistence.WorkerRepository.{WorkerRepository}
use radahn.Coordinator.Recover.{make_coordinator}
use radahn.Coordinator.Submit.{submit_job, register_worker}
use radahn.Coordinator.Submit.Added.{submit_job-Inv, register_worker-Inv}
use radahn.Coordinator.Dispatch.{dispatch_once, dispatch_once_for_worker}
use radahn.Coordinator.Dispatch.Once.{dispatch_once-Inv, dispatch_once_for_worker-Inv}
use radahn.Coordinator.Finish.{mark_running, mark_succeeded, mark_failed}
use radahn.Coordinator.Finish.Running.{mark_running-Inv}
use radahn.Coordinator.Finish.Finished.{finish_job-Inv}
use radahn.Coordinator.Invariant.{queued_job, Inv, slot, memory, disk, total_held}
use radahn.Coordinator.Invariant.Bounds.{no_overcommit, in_queue_iff}
use radahn.Scheduler.JobQueue.{job_key}
use radahn.Persistence.JobRepository.{record_key}

module _ {F : Type 0} ⦃d : Double F⦄ where
  -- One call, whether it returns or throws.
  pub data Call (c : Coordinator F) : Coordinator F → Type 0 where
    submits :
        (job : Job F)
        → IsValidJob job
        → IsValidRequirements job.requirements
        → Call c (submit_job job c).1
    registers :
        (now : ℤ) (w : WorkerRecord F) → IsValidWorker w → Call c (register_worker now w c).1
    dispatches : (now : ℤ) → Call c (dispatch_once now c).1
    dispatches_to : (now : ℤ) (w : WorkerId) → Call c (dispatch_once_for_worker now w c).1
    runs : (now : ℤ) (job : JobId) → Call c (mark_running now job c).1
    beats : (w : WorkerId) (time : ℤ) → Call c (record_worker_heartbeat w time c).1
    finds_stale : (now timeout : ℤ) → Call c (mark_stale_workers_offline now timeout c).1
    expires : (now : ℤ) → Call c (mark_expired_job_leases now c).1
    requeues : Call c (requeue_retry_wait_jobs c).1
    succeeds : (job : JobId) → Call c (mark_succeeded job c).1
    fails : (job : JobId) → Call c (mark_failed job c).1

  -- The calls that follow the constructor, over what an earlier run has stored or over nothing.
  pub data Reachable : Coordinator F → Type 0 where
    begins :
        (policy : Policy) (jobs : JobRepository F) (workers : WorkerRepository F) (lease : ℤ)
        → leb_ℤ lease (pos 0) ≡ false
        → Storable jobs workers
        → Reachable (make_coordinator policy jobs workers lease).1
    goes_on : {c next : Coordinator F} → Reachable c → Call c next → Reachable next

  module _ (ieee : IsIeee d) where
    -- For doubles that behave like IEEE ones, each of the coordinator's eleven calls keeps its
    -- invariant, whether it returns or throws; jobs and workers are ones that the constructors
    -- accept.
    pub Call-Inv : {c next : Coordinator F} → Call c next → Inv c → Inv next
    unfolding mark_succeeded mark_failed
    Call-Inv {c} (submits job vj vr) v = submit_job-Inv job c vj vr v
    Call-Inv {c} (registers now w vw) v = register_worker-Inv now w c vw v
    Call-Inv {c} (dispatches now) v = dispatch_once-Inv ieee now c v
    Call-Inv {c} (dispatches_to now w) v = dispatch_once_for_worker-Inv ieee now w c v
    Call-Inv {c} (runs now job) v = mark_running-Inv now job c v
    Call-Inv {c} (beats w time) v = record_worker_heartbeat-Inv w time c v
    Call-Inv {c} (finds_stale now timeout) v = mark_stale_workers_offline-Inv now timeout c v
    Call-Inv {c} (expires now) v = mark_expired_job_leases-Inv ieee now c v
    Call-Inv {c} requeues v = requeue_retry_wait_jobs-Inv c v
    Call-Inv {c} (succeeds job) v = finish_job-Inv ieee job succeeded c (inl refl) v
    Call-Inv {c} (fails job) v = finish_job-Inv ieee job failed c (inr refl) v

    -- The invariant holds after every sequence of calls.
    pub Reachable-Inv : (c : Coordinator F) → Reachable c → Inv c
    Reachable-Inv c (begins policy jobs workers lease positive st) =
        (make_coordinator-IsRecovered ieee policy jobs workers lease positive st).1.invariant
    Reachable-Inv c (goes_on {c = before} reached call) =
        Call-Inv call (Reachable-Inv before reached)

    -- For doubles that behave like IEEE ones, after any sequence of the coordinator's calls
    -- (submissions, registrations, dispatches, starts, heartbeats, liveness checks, lease
    -- expiries, requeues and ends of jobs), whether they return or throw, with jobs and workers
    -- that the constructors accept, on a coordinator made with a positive lease duration over
    -- repositories that an earlier run can have stored, the active jobs assigned to a stored
    -- worker number at most its slots, and need together at most its total memory and disk.
    pub never_overcommits :
        (c : Coordinator F) (w : Str) {s : StoredWorker F}
        → Reachable c
        → Keyed.find stored_key w c.workers ≡ some s
        → (total_held slot w c.jobs ≤ s.worker.max_concurrent_jobs)
          × (total_held memory w c.jobs ≤ s.worker.total_memory_bytes)
          × (total_held disk w c.jobs ≤ s.worker.total_disk_bytes)
    never_overcommits c w reached found = no_overcommit c w (Reachable-Inv c reached) found

    -- For doubles that behave like IEEE ones, after any sequence of the coordinator's calls
    -- (submissions, registrations, dispatches, starts, heartbeats, liveness checks, lease
    -- expiries, requeues and ends of jobs), whether they return or throw, with jobs and workers
    -- that the constructors accept, on a coordinator made with a positive lease duration over
    -- repositories that an earlier run can have stored, an identifier is in the dispatcher's
    -- queue exactly if a stored record holds its job in the state `queued`: no queued job is
    -- lost, and no other is queued.
    pub queue_complete :
        (c : Coordinator F) (id : Str)
        → Reachable c
        → Keyed.has job_key id c.queue ≡ is_some (queued_job (Keyed.find record_key id c.jobs))
    queue_complete c id reached = in_queue_iff c id (Reachable-Inv c reached)
