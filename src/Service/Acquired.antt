-- ===== src/Service/Acquired.antt =====
-- What AcquireJob answers, and answers again.
use radahn.Common.{
  ℤ, ◌≡◌, ◌≤◌, sym, ap, ◌∙◌, inl, inr, ◌&&◌, some, none, List, [], ◌∷◌, Str, arith, Bool-cases,
  Option-cases, Result-cases, ok,
}
use radahn.Common.Keyed
use mathlib.Core.Path.{subst}
use radahn.Domain.Double.{Double, IsIeee}
use radahn.Domain.Id.{WorkerId, make_id}
use radahn.Domain.Id
use radahn.Domain.Job.{Job}
use radahn.Domain.JobState.{leased, state_eq}
use radahn.Domain.WorkerRecord.Accounts.{snapshot-eq}
use radahn.Persistence.JobRepository
use radahn.Persistence.JobRepository.{JobRecord, record_key}
use radahn.Persistence.WorkerRepository
use radahn.Persistence.WorkerRepository.{StoredWorker, stored_key}
use radahn.Coordinator.State.{Coordinator, is_active_state}
use radahn.Coordinator.Heartbeat.{is_assigned}
use radahn.Coordinator.Invariant.{Inv, IsSoundWorker, Account, slot, total_held}
use radahn.Coordinator.Queries.{find_leased, leased_job_for_worker, worker_snapshot}
use radahn.Coordinator.Dispatch.{dispatch_once_for_worker}
use radahn.Coordinator.Dispatch.Once.{dispatch_once_for_worker-Inv}
use radahn.Service.Messages.{JobInfo}
use radahn.Service.Stored.{stored_info}
use radahn.Service.Handlers.{answer, acquire_from, acquire_by, acquire_job_handler}

module _ {F : Type 0} ⦃d : Double F⦄ where
  -- A worker to which a job is leased holds at least this one.
  find_leased-held :
      (w : WorkerId) (records : List (JobRecord F)) (job : Job F)
      → find_leased w records ≡ some job
      → 1 ≤ total_held slot w.value records
  unfolding find_leased is_active_state
  find_leased-held w [] job h = ground arith
  find_leased-held w (r ∷ records) job h =
      elim (Bool-cases (is_assigned r.assigned_worker_id w && state_eq r.job.state leased)) [
        | inl here ↦ ground arith
        | inr later ↦ ground (arith, find_leased-held w records job)
      ]

  -- In a coordinator that satisfies the invariant, a worker to which a job is leased is stored.
  leased-stored :
      (w : WorkerId) (c : Coordinator F) (job : Job F)
      → Inv c
      → leased_job_for_worker w c ≡ some job
      → (s : StoredWorker F) × (Keyed.find stored_key w.value c.workers ≡ some s)
  unfolding leased_job_for_worker JobRepository.list
  leased-stored w c job v h = elim (Option-cases (Keyed.find stored_key w.value c.workers)) [
    | inr known ↦ known
    | inl lost ↦
        let account = subst (λ o. Account w.value o c.jobs) lost (v.accounts w.value) in
        let some_held = find_leased-held w c.jobs job h in ground (arith, account, some_held)
  ]

  acquire_by-leased :
      (later : ℤ) (id : Str) (w : WorkerId) (c : Coordinator F) (job : Job F)
      → Inv c
      → make_id Id.worker id ≡ ok w
      → leased_job_for_worker w c ≡ some job
      → acquire_job_handler later id c ≡ (answer (some (stored_info job)), c)
  unfolding acquire_job_handler acquire_by acquire_from worker_snapshot WorkerRepository.get
  acquire_by-leased later id w c job v made h =
      let (s, known) = leased-stored w c job v h in
      let sound = Keyed.All-find stored_key IsSoundWorker w.value c.workers v.workers_sound known in
      ground (arith, snapshot-eq s.worker sound)

  -- What an answer with a job says of the coordinator that the call leaves.
  pub record Acquires (id : Str) (next : Coordinator F) (info : JobInfo F) : Type 0 where
    pub worker_id : WorkerId
    pub made : make_id Id.worker id ≡ ok worker_id
    pub job : Job F
    pub leased_here : leased_job_for_worker worker_id next ≡ some job
    pub reported : info ≡ stored_info job
    pub invariant : Inv next

  module _ (ieee : IsIeee d) where
    pub acquire_job_handler-Acquires :
        (now : ℤ) (id : Str) (c next : Coordinator F) (info : JobInfo F)
        → Inv c
        → acquire_job_handler now id c ≡ (answer (some info), next)
        → Acquires id next info
    unfolding acquire_job_handler acquire_by acquire_from
    acquire_job_handler-Acquires now id c next info v h =
        elim (Result-cases (make_id Id.worker id)) [
          | inr (e, bad) ↦ ground arith
          | inl (w, made) ↦ elim (Result-cases (worker_snapshot w c)) [
            | inr (e, bad) ↦ ground arith
            | inl (none, unknown) ↦ ground arith
            | inl (some s, known) ↦ elim (Option-cases (leased_job_for_worker w c)) [
              | inr (job, is) ↦
                  let p = acquire_by-leased now id w c job v made is in
                  let same : c ≡ next = ground (arith, p) in
                  record {
                    worker_id = w;
                    made = made;
                    job = job;
                    leased_here = subst (λ x. leased_job_for_worker w x ≡ some job) same is;
                    reported = ground (arith, p);
                    invariant = subst Inv same v;
                  }
              | inl free ↦ elim (Result-cases (dispatch_once_for_worker now w c).0) [
                | inr (e, thrown) ↦ ground arith
                | inl (chosen, p) ↦
                    let after = (dispatch_once_for_worker now w c).1 in
                    elim (Option-cases (leased_job_for_worker w after)) [
                      | inl nothing ↦ ground arith
                      | inr (job, is) ↦
                          let same : after ≡ next = ground arith in
                          record {
                            worker_id = w;
                            made = made;
                            job = job;
                            leased_here = subst (λ x. leased_job_for_worker w x ≡ some job) same is;
                            reported = ground arith;
                            invariant =
                                subst Inv same (dispatch_once_for_worker-Inv ieee now w c v);
                          }
                    ]
              ]
            ]
          ]
        ]

    -- For doubles that behave like IEEE ones, in a coordinator that satisfies the invariant, if
    -- AcquireJob answers a job, then asking again gives the same answer and changes nothing.
    pub acquire_again :
        (now later : ℤ) (id : Str) (c next : Coordinator F) (info : JobInfo F)
        → Inv c
        → acquire_job_handler now id c ≡ (answer (some info), next)
        → acquire_job_handler later id next ≡ (answer (some info), next)
    acquire_again now later id c next info v h =
        let a = acquire_job_handler-Acquires now id c next info v h in
        acquire_by-leased later id a.worker_id next a.job a.invariant a.made a.leased_here
        ∙ ap (λ x. (answer (some x), next)) (sym a.reported)
