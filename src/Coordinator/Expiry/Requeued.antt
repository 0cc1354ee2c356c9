-- ===== src/Coordinator/Expiry/Requeued.antt =====
-- `requeue_retry_wait_jobs`.
use radahn.Common.{
  ◌≡◌, refl, ap, ◌⊎◌, inl, inr, true, false, arith, Bool-cases, ok, str_eq_iff, [], ◌∷◌, ◌++◌,
}
use radahn.Common.Keyed
use radahn.Domain.Double.{Double}
use radahn.Domain.JobState.{JobState, queued, failed, retry_wait, state_eq}
use radahn.Domain.Job.{Job, can_attempt}
use radahn.Domain.Job.Attempts.{IsValidJob, make_job-eq}
use radahn.Scheduler.JobQueue
use radahn.Scheduler.JobQueue.{JobQueue, job_key}
use radahn.Persistence.JobRepository
use radahn.Persistence.JobRepository.{JobRecord, record_key}
use radahn.Persistence.JobRepository.Laws.{update_found}
use radahn.Coordinator.State.{Coordinator, is_active_state, restore_as}
use radahn.Coordinator.Loops.{Keeps, count_each_inv}
use radahn.Coordinator.Invariant.{Inv, IsSoundRecord}
use radahn.Coordinator.Invariant.Changes.{relabel_job-Inv, queue_stays, QueueAfter}
use radahn.Coordinator.Invariant.Current.{JobCurrent, Keeps-same, Keeps-replace}
use radahn.Coordinator.Expiry.{requeue, requeue_retry_wait_jobs}

module _ {F : Type 0} where
  -- `Job::restore` with a valid job's own values never throws.
  pub restore_as-eq :
      (state : JobState) (job : Job F)
      → IsValidJob job
      → restore_as state job ≡ ok (record job { state = state })
  unfolding restore_as
  restore_as-eq state job v = make_job-eq (record job { state = state }) (ground (arith, v))

  abbrev pub in_job_state : JobState → JobRecord F → JobRecord F
  in_job_state state r = record r { job = record r.job { state = state } }

  abbrev pub given_up : JobRecord F → Coordinator F → Coordinator F
  given_up r c = record c { jobs = Keyed.replace record_key (in_job_state failed r) c.jobs }

  abbrev pub queued_again : JobRecord F → Coordinator F → Coordinator F
  queued_again r c = record c {
    jobs = Keyed.replace record_key (in_job_state queued r) c.jobs;
    queue = c.queue ++ record r.job { state = queued } ∷ [];
  }

module _ {F : Type 0} ⦃d : Double F⦄ where
  not_in_queue :
      (r : JobRecord F) (c : Coordinator F)
      → Inv c
      → JobCurrent c r
      → r.job.state ≡ retry_wait
      → Keyed.has job_key (record_key r) c.queue ≡ false
  not_in_queue r c v held waits =
      ground (arith, v.queue_view (record_key r), Keyed.has-find job_key (record_key r) c.queue)

  -- The loop's body does not throw. A job that waits to be tried again fails if it has no attempt
  -- left, and is queued otherwise; any other stays.
  pub requeue_cases :
      (r : JobRecord F) (c : Coordinator F)
      → Inv c
      → JobCurrent c r
      → (state_eq r.job.state retry_wait ≡ false) × (requeue r c ≡ (ok false, c))
        ⊎ ((r.job.state ≡ retry_wait)
              × (can_attempt r.job ≡ false)
              × (requeue r c ≡ (ok false, given_up r c))
            ⊎ (r.job.state ≡ retry_wait)
              × (can_attempt r.job ≡ true)
              × (requeue r c ≡ (ok true, queued_again r c)))
  unfolding requeue JobQueue.enqueue JobQueue.contains
  requeue_cases r c v held =
      let sound = Keyed.All-find record_key IsSoundRecord _ c.jobs v.records_sound held in
      elim (Bool-cases (state_eq r.job.state retry_wait)) [
        | inr other ↦ inl (other, ground arith)
        | inl wait ↦
            let waits : r.job.state ≡ retry_wait = ground arith in
            let (unassigned, unleased) = sound.waiting_free (ground arith) in
            elim (Bool-cases (can_attempt r.job)) [
              | inr spent ↦ inr (
                  inl (
                    waits,
                    spent,
                    ground (
                      arith,
                      restore_as-eq failed r.job sound.job_valid,
                      update_found (in_job_state failed r) c.jobs held,
                    ),
                  ))
              | inl may ↦ inr (
                  inr (
                    waits,
                    may,
                    ground (
                      arith,
                      restore_as-eq queued r.job sound.job_valid,
                      update_found (in_job_state queued r) c.jobs held,
                      not_in_queue r c v held waits,
                    ),
                  ))
            ]
      ]

  in_job_state-IsSoundRecord :
      (state : JobState) (r : JobRecord F)
      → is_active_state state ≡ false
      → r.job.state ≡ retry_wait
      → IsSoundRecord r
      → IsSoundRecord (in_job_state state r)
  unfolding is_active_state
  in_job_state-IsSoundRecord state r idle waits s = ground (arith, s)

  given_up-Inv :
      (r : JobRecord F) (c : Coordinator F)
      → Inv c
      → JobCurrent c r
      → r.job.state ≡ retry_wait
      → Inv (given_up r c)
  unfolding is_active_state
  given_up-Inv r c v held waits =
      let sound = Keyed.All-find record_key IsSoundRecord _ c.jobs v.records_sound held in
      relabel_job-Inv c (in_job_state failed r) r c.queue v held
        (in_job_state-IsSoundRecord failed r refl waits sound) (λ w. ground arith) v.queue_unique
        (queue_stays c (in_job_state failed r) r v held (ground arith))

  queue_with :
      (r : JobRecord F) (c : Coordinator F)
      → Keyed.has job_key (record_key r) c.queue ≡ false
      → QueueAfter (in_job_state queued r) c.queue (c.queue ++ record r.job { state = queued } ∷ [])
  queue_with r c new id = ground (
    arith,
    Keyed.find-append job_key id c.queue (record r.job { state = queued }),
    Keyed.has-find job_key id c.queue,
    str_eq_iff (record_key r) id,
  )

  queued_again-Inv :
      (r : JobRecord F) (c : Coordinator F)
      → Inv c
      → JobCurrent c r
      → r.job.state ≡ retry_wait
      → Inv (queued_again r c)
  unfolding is_active_state
  queued_again-Inv r c v held waits =
      let sound = Keyed.All-find record_key IsSoundRecord _ c.jobs v.records_sound held in
      let new = not_in_queue r c v held waits in
      relabel_job-Inv c (in_job_state queued r) r (c.queue ++ record r.job { state = queued } ∷ [])
        v held (in_job_state-IsSoundRecord queued r refl waits sound) (λ w. ground arith)
        (Keyed.append-Unique job_key (record r.job { state = queued }) c.queue v.queue_unique new)
        (queue_with r c new)

  pub requeue-Keeps :
      (r : JobRecord F) (c : Coordinator F)
      → Inv c
      → JobCurrent c r
      → Keeps record_key Inv JobCurrent r c (requeue r c).1
  requeue-Keeps r c v held = elim (requeue_cases r c v held) [
    | inl (other, e) ↦ Keeps-same r c _ v (ap (λ x. x.1) e)
    | inr (inl (waits, spent, e)) ↦
        Keeps-replace (in_job_state failed r) r c _ _ (ap (λ x. x.1) e)
          (given_up-Inv r c v held waits) refl refl
    | inr (inr (waits, may, e)) ↦
        Keeps-replace (in_job_state queued r) r c _ _ (ap (λ x. x.1) e)
          (queued_again-Inv r c v held waits) refl refl
  ]

  pub requeue_retry_wait_jobs-Inv : (c : Coordinator F) → Inv c → Inv (requeue_retry_wait_jobs c).1
  unfolding requeue_retry_wait_jobs JobRepository.list
  requeue_retry_wait_jobs-Inv c v =
      count_each_inv record_key Inv JobCurrent requeue requeue-Keeps c.jobs 0 c v v.jobs_unique
        (Keyed.All-find_self record_key c.jobs v.jobs_unique)
