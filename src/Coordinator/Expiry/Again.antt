-- ===== src/Coordinator/Expiry/Again.antt =====
-- What `requeue_retry_wait_jobs` makes of the stored jobs.
use radahn.Common.{
  ◌≡◌, refl, ap, ◌∙◌, inl, inr, Bool, ◌&&◌, [], map, ok, some, arith, if◌then◌else◌,
}
use radahn.Common.Keyed
use radahn.Domain.Double.{Double}
use radahn.Domain.Job.{can_attempt}
use radahn.Domain.JobState.{queued, failed, retry_wait, state_eq}
use radahn.Persistence.JobRepository
use radahn.Persistence.JobRepository.{JobRecord, record_key}
use radahn.Coordinator.State.{Coordinator}
use radahn.Coordinator.Loops.Mapped.{count, Turns, count_each-map}
use radahn.Coordinator.Invariant.{Inv}
use radahn.Coordinator.Expiry.{requeue, requeue_retry_wait_jobs}
use radahn.Coordinator.Expiry.Requeued.{in_job_state, requeue_cases, requeue-Keeps}

module _ {F : Type 0} where
  abbrev pub tries_again : JobRecord F → Bool
  tries_again r = state_eq r.job.state retry_wait && can_attempt r.job

  -- A job that waits is queued if it may be tried again, and has failed otherwise.
  abbrev pub after_wait : JobRecord F → JobRecord F
  after_wait r =
      if state_eq r.job.state retry_wait
      then in_job_state (if can_attempt r.job then queued else failed) r
      else r

  key-after_wait : (r : JobRecord F) → record_key (after_wait r) ≡ record_key r
  key-after_wait r = ground arith

module _ {F : Type 0} ⦃d : Double F⦄ where
  requeue-Turns :
      (r : JobRecord F) (c : Coordinator F)
      → Inv c
      → Keyed.find record_key (record_key r) c.jobs ≡ some r
      → ((requeue r c).0 ≡ ok (tries_again r))
        × Turns record_key
            (λ (x : Coordinator F). x.jobs)
            Inv
            after_wait
            key-after_wait
            (requeue r c).1
            c
            r
  requeue-Turns r c v held =
      let kept = (requeue-Keeps r c v held).0 in
      elim (requeue_cases r c v held) [
        | inl (other, e) ↦ (
          ground (arith, e),
          record {
            kept = kept;
            stored = ground (arith, e, Keyed.replace_self record_key r c.jobs held);
          },
        )
        | inr (inl (waits, spent, e)) ↦
            (ground (arith, e), record { kept = kept; stored = ground (arith, e) })
        | inr (inr (waits, may, e)) ↦
            (ground (arith, e), record { kept = kept; stored = ground (arith, e) })
      ]

  -- In a coordinator that satisfies the invariant, `requeue_retry_wait_jobs` returns, it maps
  -- each stored job that waits to be tried again to `queued` if attempts are left and to `failed`
  -- otherwise and keeps the others, and its result is how many it queued.
  pub requeue_retry_wait_jobs_lem :
      (c : Coordinator F)
      → Inv c
      → ((requeue_retry_wait_jobs c).0 ≡ ok (count tries_again c.jobs))
        × ((requeue_retry_wait_jobs c).1.jobs ≡ map after_wait c.jobs)
  unfolding requeue_retry_wait_jobs JobRepository.list
  requeue_retry_wait_jobs_lem c v =
      let (counted, stored) =
        count_each-map record_key (λ (x : Coordinator F). x.jobs) Inv after_wait key-after_wait
          requeue tries_again requeue-Turns [] c.jobs 0 c v refl v.jobs_unique in
      (counted ∙ ap ok (omega arith), stored)
