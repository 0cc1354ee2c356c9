-- ===== src/Coordinator/Recover/Jobs.antt =====
-- What recovery makes of one stored job.
use radahn.Common.{
  ◌≡◌, refl, inl, inr, Bool, true, false, ◌||◌, none, arith, Bool-cases, Option-cases, ok, [], ◌∷◌,
  ◌++◌, if◌then◌else◌,
}
use radahn.Common.Keyed
use radahn.Domain.Double.{Double}
use radahn.Domain.Resource.Validity.{IsValidRequirements}
use radahn.Domain.JobState.{
  JobState, queued, leased, running, retry_wait, cancellation_requested, succeeded, failed,
  cancelled, state_eq,
}
use radahn.Domain.Job.{can_attempt}
use radahn.Domain.Job.Attempts.{IsValidJob}
use radahn.Scheduler.JobQueue
use radahn.Scheduler.JobQueue.{job_key}
use radahn.Persistence.JobRepository.{JobRecord, record_key}
use radahn.Persistence.JobRepository.Laws.{update_found}
use radahn.Coordinator.State.{Coordinator, is_active_state}
use radahn.Coordinator.Invariant.{IsSoundRecord}
use radahn.Coordinator.Invariant.Current.{JobCurrent}
use radahn.Coordinator.Expiry.Requeued.{restore_as-eq}
use radahn.Coordinator.Recover.{
  recover_abandoned, recover_finished, recover_by, recover_job, detached,
}

-- The state in which a job goes on.
abbrev pub recovered_state : Bool → JobState → JobState
recovered_state may queued = if may then queued else failed
recovered_state may leased = if may then queued else failed
recovered_state may running = if may then queued else failed
recovered_state may retry_wait = if may then queued else failed
recovered_state may cancellation_requested = cancelled
recovered_state may succeeded = succeeded
recovered_state may failed = failed
recovered_state may cancelled = cancelled

abbrev pub was_finished : JobState → Bool
was_finished s = state_eq s succeeded || (state_eq s failed || state_eq s cancelled)

module _ {F : Type 0} where
  -- Only a job that had finished keeps the name of its worker.
  abbrev pub recovered : JobRecord F → JobRecord F
  recovered r = record {
    job = record r.job { state = recovered_state (can_attempt r.job) r.job.state };
    assigned_worker_id = if was_finished r.job.state then r.assigned_worker_id else none;
    lease_expires_at = none;
  }

  abbrev pub after_recovery : JobRecord F → Coordinator F → Coordinator F
  after_recovery r c = record c {
    jobs = Keyed.replace record_key (recovered r) c.jobs;
    queue =
        if state_eq (recovered r).job.state queued
        then c.queue ++ (recovered r).job ∷ []
        else c.queue;
  }

  abandoned-eq :
      (r : JobRecord F) (c : Coordinator F)
      → recovered_state (can_attempt r.job) r.job.state
        ≡ (if can_attempt r.job then queued else failed)
      → was_finished r.job.state ≡ false
      → IsValidJob r.job
      → JobCurrent c r
      → Keyed.has job_key (record_key r) c.queue ≡ false
      → recover_abandoned r c ≡ (ok tt, after_recovery r c)
  unfolding recover_abandoned JobQueue.enqueue JobQueue.contains
  abandoned-eq r c goes_on lost v held new = elim (Bool-cases (can_attempt r.job)) [
    | inl may ↦ ground (arith, restore_as-eq queued r.job v, update_found (recovered r) c.jobs held)
    | inr spent ↦
        ground (arith, restore_as-eq failed r.job v, update_found (recovered r) c.jobs held)
  ]

  finished-eq :
      (r : JobRecord F) (c : Coordinator F)
      → was_finished r.job.state ≡ true
      → JobCurrent c r
      → recover_finished r c ≡ (ok tt, after_recovery r c)
  unfolding recover_finished
  finished-eq r c done held = elim (Option-cases r.lease_expires_at) [
    | inl free ↦ ground (arith, Keyed.replace_self record_key r c.jobs held)
    | inr (deadline, e) ↦
        ground (arith, update_found (record r { lease_expires_at = none }) c.jobs held)
  ]

  recover_by-eq :
      (state : JobState) (r : JobRecord F) (c : Coordinator F)
      → r.job.state ≡ state
      → IsValidJob r.job
      → JobCurrent c r
      → Keyed.has job_key (record_key r) c.queue ≡ false
      → recover_by state r c ≡ (ok tt, after_recovery r c)
  unfolding recover_by JobQueue.enqueue JobQueue.contains
  recover_by-eq queued r c e v held new = elim (Bool-cases (can_attempt r.job)) [
    | inl may ↦ ground (arith, update_found (detached r) c.jobs held)
    | inr spent ↦
        ground (arith, restore_as-eq failed r.job v, update_found (recovered r) c.jobs held)
  ]
  recover_by-eq leased r c e v held new = abandoned-eq r c (rw e) (rw e) v held new
  recover_by-eq running r c e v held new = abandoned-eq r c (rw e) (rw e) v held new
  recover_by-eq retry_wait r c e v held new = abandoned-eq r c (rw e) (rw e) v held new
  recover_by-eq cancellation_requested r c e v held new =
      ground (arith, restore_as-eq cancelled r.job v, update_found (recovered r) c.jobs held)
  recover_by-eq succeeded r c e v held new = finished-eq r c (ground arith) held
  recover_by-eq failed r c e v held new = finished-eq r c (ground arith) held
  recover_by-eq cancelled r c e v held new = finished-eq r c (ground arith) held

  -- The body of recovery's loop over the jobs does not throw.
  pub recover_job-eq :
      (r : JobRecord F) (c : Coordinator F)
      → IsValidJob r.job
      → JobCurrent c r
      → Keyed.has job_key (record_key r) c.queue ≡ false
      → recover_job r c ≡ (ok tt, after_recovery r c)
  recover_job-eq r c v held new = recover_by-eq r.job.state r c refl v held new

module _ {F : Type 0} ⦃d : Double F⦄ where
  -- A recovered record is sound, and no worker holds it.
  pub recovered-IsSoundRecord :
      (r : JobRecord F)
      → IsValidJob r.job
      → IsValidRequirements r.job.requirements
      → IsSoundRecord (recovered r)
  unfolding is_active_state
  recovered-IsSoundRecord r v vr = ground (arith, v, vr)

pub recovered_idle : (may : Bool) (s : JobState) → is_active_state (recovered_state may s) ≡ false
unfolding is_active_state
recovered_idle may s = ground arith
