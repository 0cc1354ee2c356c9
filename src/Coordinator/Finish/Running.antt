-- ===== src/Coordinator/Finish/Running.antt =====
-- `mark_running` on every branch.
use mathlib.Core.Path.{subst}
use radahn.Common.{
  ℤ, ◌+ℤ◌, ◌≡◌, sym, ap, ◌⊎◌, inl, inr, true, some, is_some, ok, err, arith, Option-cases,
  Bool-cases,
}
use radahn.Common.Keyed
use radahn.Domain.Double.{Double}
use radahn.Domain.Id.{JobId}
use radahn.Domain.JobState.{JobState, leased, running, can_transition, validate_transition}
use radahn.Domain.Job.{transition_to}
use radahn.Domain.Error.{Error, start_unknown_job, start_unassigned_job, illegal_transition}
use radahn.Persistence.JobRepository
use radahn.Persistence.JobRepository.{JobRecord, record_key}
use radahn.Persistence.JobRepository.Laws.{update_found}
use radahn.Coordinator.State.{Coordinator, is_active_state}
use radahn.Coordinator.Invariant.{Inv, IsSoundRecord}
use radahn.Coordinator.Invariant.Changes.{relabel_job-Inv, queue_stays}
use radahn.Coordinator.Finish.{mark_running}

to_running : (s : JobState) → can_transition s running ≡ true → s ≡ leased
unfolding can_transition
to_running s h = ground arith

module _ {F : Type 0} where
  -- The record of a job that starts now.
  abbrev pub started : ℤ → JobRecord F → JobRecord F
  started deadline r = record r {
    job = record r.job { state = running };
    lease_expires_at = some deadline;
  }

  -- `mark_running` either throws and changes nothing, or finds a stored, assigned and leased job,
  -- makes it running, and renews its lease from `now`.
  pub mark_running_cases :
      (now : ℤ) (job_id : JobId) (c : Coordinator F)
      → ((e : Error) × (mark_running now job_id c ≡ (err e, c)))
        ⊎ ((r : JobRecord F) × (Keyed.find record_key job_id.value c.jobs ≡ some r)
            × (is_some r.assigned_worker_id ≡ true)
            × (r.job.state ≡ leased)
            × (mark_running now job_id c ≡ (
              ok tt,
              record c {
                jobs = Keyed.replace record_key (started (now +ℤ c.lease_duration) r) c.jobs;
              },
            )))
  unfolding mark_running JobRepository.get transition_to validate_transition
  mark_running_cases now job_id c =
      elim (Option-cases (Keyed.find record_key job_id.value c.jobs)) [
        | inl e ↦ inl (start_unknown_job, ground arith)
        | inr (r, e) ↦ elim (Option-cases r.assigned_worker_id) [
          | inl free ↦ inl (start_unassigned_job, ground arith)
          | inr (w, taken) ↦ elim (Bool-cases (can_transition r.job.state running)) [
            | inl legal ↦ inr (
              r,
              e,
              ground arith,
              to_running r.job.state legal,
              ground (
                arith,
                update_found (started (now +ℤ c.lease_duration) r) c.jobs
                    (Keyed.find-key record_key job_id.value c.jobs e),
              ),
            )
            | inr illegal ↦ inl (illegal_transition, ground arith)
          ]
        ]
      ]

module _ {F : Type 0} ⦃d : Double F⦄ where
  -- `mark_running` keeps the coordinator's invariant, whether it throws or not.
  pub mark_running-Inv :
      (now : ℤ) (job_id : JobId) (c : Coordinator F) → Inv c → Inv (mark_running now job_id c).1
  unfolding is_active_state
  mark_running-Inv now job_id c v = elim (mark_running_cases now job_id c) [
    | inl (e, p) ↦ subst Inv (ap (λ x. x.1) (sym p)) v
    | inr (r, found, taken, was_leased, p) ↦
        let self = Keyed.find-key record_key job_id.value c.jobs found in
        let sound =
          Keyed.All-find record_key IsSoundRecord job_id.value c.jobs v.records_sound found in
        subst Inv (ap (λ x. x.1) (sym p)) (
          relabel_job-Inv c (started (now +ℤ c.lease_duration) r) r c.queue v self
            (ground (arith, sound)) (λ w. ground arith) v.queue_unique
            (queue_stays c (started (now +ℤ c.lease_duration) r) r v self (ground arith)))
  ]
