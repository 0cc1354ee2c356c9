-- ===== src/Coordinator/Dispatch/Prepare.antt =====
-- What the first half of `apply_dispatch_decision` gives when it does not throw.
use radahn.Common.{◌+◌, ◌<◌, ◌≡◌, sym, ap, inl, inr, ok, arith, Bool-cases, Result-cases}
use radahn.Domain.Double.{Double}
use radahn.Domain.JobState.{leased}
use radahn.Domain.Job.{Job, can_attempt, record_attempt, transition_to}
use radahn.Domain.Job.Attempts.{IsValidJob, record_attempt_iff, transition_to_iff}
use radahn.Domain.WorkerRecord.{WorkerRecord}
use radahn.Domain.WorkerRecord.Accounts.{IsValidWorker, reserved, reserve_cases, view}
use radahn.Domain.Eligibility.Sound.{Meets}
use radahn.Coordinator.Dispatch.{prepare}

module _ {F : Type 0} where
  abbrev pub leased_job : Job F → Job F
  leased_job job = record job { attempt_count = job.attempt_count + 1; state = leased }

module _ {F : Type 0} ⦃d : Double F⦄ where
  pub prepare_lem :
      (job : Job F) (w : WorkerRecord F) (p : Job F × WorkerRecord F)
      → IsValidJob job
      → IsValidWorker w
      → prepare job w ≡ ok p
      → Meets job.requirements (view w)
        × (job.attempt_count < job.max_attempts)
        × (p ≡ (leased_job job, reserved job.requirements w))
  unfolding prepare
  prepare_lem job w p vj vw h = elim (Bool-cases (can_attempt job)) [
    | inr never ↦ cc
    | inl may ↦ elim (Result-cases (record_attempt job)) [
      | inr (e, refused) ↦ cc
      | inl (attempted, counted) ↦
          let (was_queued, fits, next) = (record_attempt_iff job attempted vj).0 counted in
          elim (reserve_cases attempted.requirements w vw) [
            | inr (n, refused) ↦ cc
            | inl (m, taken) ↦ elim (Result-cases (transition_to leased attempted)) [
              | inr (e, illegal) ↦ cc
              | inl (job', moved) ↦
                  let (legal, last) = (transition_to_iff attempted job' leased).0 moved in
                  (rw (sym (ap (λ (j : Job F). j.requirements) next)) m, fits, ground arith)
            ]
          ]
    ]
  ]
