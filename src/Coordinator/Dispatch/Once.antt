-- ===== src/Coordinator/Dispatch/Once.antt =====
-- `dispatch_once` and `dispatch_once_for_worker` keep the invariant.
use mathlib.Core.Path.{subst}
use radahn.Common.{
  ◌⊎◌, ℤ, ◌≡◌, refl, sym, ap, ◌∙◌, inl, inr, none, some, List, [], ◌∷◌, ok, arith, Result-cases,
  Option-cases, All, All-map, map, Str,
}
use radahn.Common.Keyed
use radahn.Common.Sorting
use radahn.Domain.Double.{Double, IsIeee}
use radahn.Domain.Id.{WorkerId}
use radahn.Domain.JobState.{queued}
use radahn.Domain.Job.{Job}
use radahn.Domain.Worker.{WorkerSnapshot}
use radahn.Domain.WorkerRecord.Accounts.{view, snapshot-eq}
use radahn.Scheduler.JobQueue.{job_key, should_run_before, ordered_jobs}
use radahn.Scheduler.Policy.{Policy}
use radahn.Scheduler.Planner.{DispatchDecision, plan}
use radahn.Scheduler.Planner.Choice.{IsPlanned, plan-IsPlanned}
use radahn.Persistence.JobRepository.{JobRecord, record_key}
use radahn.Persistence.WorkerRepository
use radahn.Persistence.WorkerRepository.{StoredWorker, stored_key}
use radahn.Coordinator.State.{Coordinator}
use radahn.Coordinator.Invariant.{Inv, IsSoundWorker}
use radahn.Coordinator.Dispatch.{
  snapshots, ask_planner, apply_dispatch_decision, dispatch_among, dispatch_once,
  dispatch_once_for_worker,
}
use radahn.Coordinator.Dispatch.Applied.{Names}
use radahn.Coordinator.Dispatch.Kept.{apply_dispatch_decision-Inv}

module _ {F : Type 0} ⦃d : Double F⦄ where
  -- Valid workers all have snapshots.
  snapshots-eq :
      (ws : List (StoredWorker F))
      → All IsSoundWorker ws
      → snapshots (WorkerRepository.list ws) ≡ ok (map (λ s. view s.worker) ws)
  unfolding snapshots WorkerRepository.list
  snapshots-eq [] a = refl
  snapshots-eq (s ∷ ws) a = ground (arith, snapshot-eq s.worker a.0, snapshots-eq ws a.1)

  -- What the queue holds is stored, and queued.
  queued_record :
      (c : Coordinator F) (k : Str) (job : Job F)
      → Inv c
      → Keyed.find job_key k c.queue ≡ some job
      → (r : JobRecord F) × (Keyed.find record_key k c.jobs ≡ some r)
        × (r.job ≡ job)
        × (r.job.state ≡ queued)
  queued_record c k job v h = elim (Option-cases (Keyed.find record_key k c.jobs)) [
    | inl e ↦ cc (v.queue_view k)
    | inr (r, e) ↦ (r, e, ground (arith, v.queue_view k), ground (arith, v.queue_view k))
  ]

  -- A job that the queue finds under its key.
  abbrev IsQueued : Coordinator F → Job F → Type 0
  IsQueued c job = Keyed.find job_key (job_key job) c.queue ≡ some job

  -- The view of a worker that the repository finds under its key.
  abbrev IsView : Coordinator F → WorkerSnapshot F → Type 0
  IsView c w =
      (s : StoredWorker F) × (Keyed.find stored_key (stored_key s) c.workers ≡ some s)
      × (w ≡ view s.worker)

  All-IsQueued : (c : Coordinator F) → Inv c → All (IsQueued c) (ordered_jobs c.queue)
  unfolding ordered_jobs
  All-IsQueued c v =
      Sorting.All-sort should_run_before (IsQueued c) c.queue
        (Keyed.All-find_self job_key c.queue v.queue_unique)

  planned-Names :
      (c : Coordinator F) (views : List (WorkerSnapshot F)) (decision : DispatchDecision F)
      → Inv c
      → IsPlanned (IsQueued c) (IsView c) decision views (ordered_jobs c.queue)
      → (r : JobRecord F) × (s : StoredWorker F) × Names decision r s c
  planned-Names c views decision v p =
      let (s, stored, seen) = p.of_worker in
      let (r, found, same, waiting) = queued_record c (job_key p.job) p.job v p.of_job in
      (
        r,
        s,
        record {
          job_named = ground (arith, p.job_id);
          worker_named = p.worker_id ∙ ap (λ (w : WorkerSnapshot F). w.id) seen;
          job_stored = Keyed.find-key record_key (job_key p.job) c.jobs found;
          worker_stored = stored;
          job_queued =
              subst (λ (j : Job F). Keyed.find job_key (job_key j) c.queue ≡ some j) (sym same)
                p.of_job;
          is_queued = waiting;
        },
      )

  -- The planner's policy may move on.
  abbrev pub moved_on : Policy → Coordinator F → Coordinator F
  moved_on policy c = record c { policy = policy }

  pub moved_on-Inv : (policy : Policy) (c : Coordinator F) → Inv c → Inv (moved_on policy c)
  moved_on-Inv policy c v = record {
    jobs_unique = v.jobs_unique;
    workers_unique = v.workers_unique;
    queue_unique = v.queue_unique;
    records_sound = v.records_sound;
    workers_sound = v.workers_sound;
    queue_view = v.queue_view;
    accounts = v.accounts;
  }

  moved_on-Names :
      (policy : Policy) (decision : DispatchDecision F) (r : JobRecord F) (s : StoredWorker F)
      (c : Coordinator F)
      → Names decision r s c
      → Names decision r s (moved_on policy c)
  moved_on-Names policy decision r s c n = record {
    job_named = n.job_named;
    worker_named = n.worker_named;
    job_stored = n.job_stored;
    worker_stored = n.worker_stored;
    job_queued = n.job_queued;
    is_queued = n.is_queued;
  }

  among-none :
      (now : ℤ) (views : List (WorkerSnapshot F)) (c : Coordinator F)
      → (plan c.policy c.queue views).0 ≡ none
      → (dispatch_among now views c).1 ≡ moved_on (plan c.policy c.queue views).1 c
  unfolding dispatch_among ask_planner
  among-none now views c h = rw h refl

  among-some :
      (now : ℤ) (views : List (WorkerSnapshot F)) (c : Coordinator F)
      (decision : DispatchDecision F)
      → (plan c.policy c.queue views).0 ≡ some decision
      → (dispatch_among now views c).1
        ≡ (apply_dispatch_decision now decision (moved_on (plan c.policy c.queue views).1 c)).1
  unfolding dispatch_among ask_planner
  among-some now views c decision h =
      elim (Result-cases
        (apply_dispatch_decision now decision (moved_on (plan c.policy c.queue views).1 c)).0) [
          | inl (u, e) ↦ ground arith
          | inr (x, e) ↦ ground arith
        ]

  -- What a dispatch does: the policy moves on, and then at most one decision, which names a queued
  -- job and a worker that are stored, is carried out.
  abbrev pub Dispatches : ℤ → Coordinator F → Coordinator F → Type 0
  Dispatches now c next =
      (policy : Policy) × ((next ≡ moved_on policy c)
        ⊎ ((decision : DispatchDecision F) × (r : JobRecord F) × (s : StoredWorker F) × Names
              decision r s (moved_on policy c)
            × (next ≡ (apply_dispatch_decision now decision (moved_on policy c)).1)))

  among-Dispatches :
      (now : ℤ) (views : List (WorkerSnapshot F)) (c : Coordinator F)
      → Inv c
      → All (IsView c) views
      → Dispatches now c (dispatch_among now views c).1
  among-Dispatches now views c v a = (
    (plan c.policy c.queue views).1,
    elim (Option-cases (plan c.policy c.queue views).0) [
      | inl h ↦ inl (among-none now views c h)
      | inr (decision, h) ↦
          let (r, s, n) = planned-Names c views decision v (
            plan-IsPlanned (IsQueued c) (IsView c) c.policy c.queue views decision
              (All-IsQueued c v) a h) in
          inr (decision, r, s, moved_on-Names _ decision r s c n, among-some now views c decision h)
    ],
  )

  All-views :
      (P : WorkerSnapshot F → Type 0) (ws : List (StoredWorker F))
      → All (λ s. P (view s.worker)) ws
      → All P (map (λ s. view s.worker) ws)
  All-views P [] a = tt
  All-views P (s ∷ ws) a = (a.0, All-views P ws a.1)

  pub dispatch_once-Dispatches :
      (now : ℤ) (c : Coordinator F) → Inv c → Dispatches now c (dispatch_once now c).1
  unfolding dispatch_once
  dispatch_once-Dispatches now c v =
      subst (Dispatches now c) (sym (ground (arith, snapshots-eq c.workers v.workers_sound))) (
        among-Dispatches now (map (λ s. view s.worker) c.workers) c v (
          All-views (IsView c) c.workers (
            All-map c.workers (λ s found. (s, found, refl))
              (Keyed.All-find_self stored_key c.workers v.workers_unique))))

  pub dispatch_once_for_worker-Dispatches :
      (now : ℤ) (worker_id : WorkerId) (c : Coordinator F)
      → Inv c
      → Dispatches now c (dispatch_once_for_worker now worker_id c).1
  unfolding dispatch_once_for_worker WorkerRepository.get
  dispatch_once_for_worker-Dispatches now worker_id c v =
      elim (Option-cases (Keyed.find stored_key worker_id.value c.workers)) [
        | inl h ↦ rw h (c.policy, inl refl)
        | inr (s, h) ↦
            let sound = Keyed.All-find stored_key IsSoundWorker _ c.workers v.workers_sound h in
            let found = Keyed.find-key stored_key worker_id.value c.workers h in
            subst (Dispatches now c) (sym (ground (arith, snapshot-eq s.worker sound)))
              (among-Dispatches now (view s.worker ∷ []) c v ((s, found, refl), tt))
      ]

  module _ (ieee : IsIeee d) where
    Dispatches-Inv : (now : ℤ) (c next : Coordinator F) → Inv c → Dispatches now c next → Inv next
    Dispatches-Inv now c next v (policy, inl e) = subst Inv (sym e) (moved_on-Inv policy c v)
    Dispatches-Inv now c next v (policy, inr (decision, r, s, n, e)) = subst Inv (sym e) (
        apply_dispatch_decision-Inv ieee now decision r s (moved_on policy c)
          (moved_on-Inv policy c v) n)

    -- `dispatch_once` keeps the coordinator's invariant, whether it throws or not.
    pub dispatch_once-Inv : (now : ℤ) (c : Coordinator F) → Inv c → Inv (dispatch_once now c).1
    dispatch_once-Inv now c v = Dispatches-Inv now c _ v (dispatch_once-Dispatches now c v)

    -- `dispatch_once_for_worker` keeps the coordinator's invariant, whether it throws or not.
    pub dispatch_once_for_worker-Inv :
        (now : ℤ) (worker_id : WorkerId) (c : Coordinator F)
        → Inv c
        → Inv (dispatch_once_for_worker now worker_id c).1
    dispatch_once_for_worker-Inv now worker_id c v =
        Dispatches-Inv now c _ v (dispatch_once_for_worker-Dispatches now worker_id c v)
