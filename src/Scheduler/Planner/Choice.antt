-- ===== src/Scheduler/Planner/Choice.antt =====
-- The planner's choice.
use mathlib.Core.List.{Mem, mem-cons_self, mem-cons_of_mem}
use mathlib.Core.List.Perm
use mathlib.Core.Option.{some-injective}
use radahn.Common.{
  ◌≡◌, ap, inl, inr, true, none, some, List, [], ◌∷◌, arith, All, Option-cases, All-map, All-zip,
  sym, ◌∙◌,
}
use radahn.Common.Sorting.{IsSorted}
use radahn.Domain.Double.{Double}
use radahn.Domain.Worker.{WorkerSnapshot}
use radahn.Domain.Job.{Job}
use radahn.Domain.Eligibility.Sound.{Meets}
use radahn.Scheduler.JobQueue.{JobQueue, should_run_before, ordered_jobs}
use radahn.Scheduler.JobQueue.Order.{should_run_before_asymm, ordered_jobs_lem}
use radahn.Scheduler.WorkerFilter.{find_eligible_workers}
use radahn.Scheduler.WorkerFilter.Candidates.{
  All-find_eligible_workers, find_eligible_workers-Meets,
}
use radahn.Scheduler.Policy.{Policy, SchedulingDecision, select_worker}
use radahn.Scheduler.Policy.Choice.{select_worker_choice, select_worker-none}
use radahn.Scheduler.Planner.{DispatchDecision, decide_for, plan_jobs, plan}

module _ {F : Type 0} ⦃d : Double F⦄ where
  plan_jobs-step_none :
      (policy : Policy) (job : Job F) (jobs : List (Job F)) (ws : List (WorkerSnapshot F))
      → (select_worker policy job.requirements ws).0 ≡ none
      → plan_jobs policy (job ∷ jobs) ws
        ≡ plan_jobs (select_worker policy job.requirements ws).1 jobs ws
  unfolding plan_jobs
  plan_jobs-step_none policy job jobs ws e = rw (e, plan_jobs)

  plan_jobs-step_some :
      (policy : Policy) (job : Job F) (jobs : List (Job F)) (ws : List (WorkerSnapshot F))
      (s : SchedulingDecision F)
      → (select_worker policy job.requirements ws).0 ≡ some s
      → (plan_jobs policy (job ∷ jobs) ws).0 ≡ some (decide_for job s)
  unfolding plan_jobs
  plan_jobs-step_some policy job jobs ws s e = rw (e, plan_jobs)

  -- No job that should run before this one has a candidate.
  abbrev pub NoneEarlier : Job F → List (WorkerSnapshot F) → List (Job F) → Type 0
  NoneEarlier job ws =
      All (λ k. should_run_before k job ≡ true → find_eligible_workers k.requirements ws ≡ [])

  -- `Q` holds of the queue's jobs, `P` of the workers.
  module _ (Q : Job F → Type 0) (P : WorkerSnapshot F → Type 0) where
    pub record IsPlanned (decision : DispatchDecision F) (ws : List (WorkerSnapshot F))
        (jobs : List (Job F)) : Type 0 where
      pub job : Job F
      pub worker : WorkerSnapshot F
      pub job_id : decision.job_id ≡ job.id
      pub worker_id : decision.worker_id ≡ worker.id
      pub of_job : Q job
      pub of_worker : P worker
      pub meets : Meets job.requirements worker
      pub none_earlier : NoneEarlier job ws jobs

    plan_jobs-IsPlanned :
        (policy : Policy) (jobs : List (Job F)) (ws : List (WorkerSnapshot F))
        (decision : DispatchDecision F)
        → IsSorted should_run_before jobs
        → All Q jobs
        → All P ws
        → (plan_jobs policy jobs ws).0 ≡ some decision
        → IsPlanned decision ws jobs
    unfolding plan_jobs
    plan_jobs-IsPlanned policy [] ws decision s q p h = cc
    plan_jobs-IsPlanned policy (job ∷ jobs) ws decision s q p h =
        elim (Option-cases (select_worker policy job.requirements ws).0) [
          | inl e ↦
              let later =
                plan_jobs-IsPlanned (select_worker policy job.requirements ws).1 jobs ws decision
                  s.1 q.1 p (ap (λ r. r.0) (sym (plan_jobs-step_none policy job jobs ws e)) ∙ h) in
              record {
                job = later.job;
                worker = later.worker;
                job_id = later.job_id;
                worker_id = later.worker_id;
                of_job = later.of_job;
                of_worker = later.of_worker;
                meets = later.meets;
                none_earlier =
                    (λ _. select_worker-none policy job.requirements ws e, later.none_earlier);
              }
          | inr (found, e) ↦
              let same =
                some-injective _ decision
                  (sym (plan_jobs-step_some policy job jobs ws found e) ∙ h) in
              let (w, chosen, mp) =
                select_worker_choice (λ w. Meets job.requirements w × P w) policy job.requirements
                  ws found
                  (All-zip (Meets job.requirements) P _
                    (find_eligible_workers-Meets job.requirements ws)
                    (All-find_eligible_workers job.requirements P ws p))
                  e in
              record {
                job = job;
                worker = w;
                job_id = ap (λ (x : DispatchDecision F). x.job_id) (sym same);
                worker_id = ap (λ (x : DispatchDecision F). x.worker_id) (sym same) ∙ chosen;
                of_job = q.0;
                of_worker = mp.1;
                meets = mp.0;
                none_earlier = (
                  λ before. ground (arith, should_run_before_asymm job job before),
                  All-map jobs (λ k behind before. cc) s.0,
                );
              }
        ]

    -- A plan names a job of the queue and a worker that meets its requirements, and no job that
    -- should run before it has a candidate.
    pub plan-IsPlanned :
        (policy : Policy) (queue : JobQueue F) (ws : List (WorkerSnapshot F))
        (decision : DispatchDecision F)
        → All Q (ordered_jobs queue)
        → All P ws
        → (plan policy queue ws).0 ≡ some decision
        → IsPlanned decision ws (ordered_jobs queue)
    unfolding plan
    plan-IsPlanned policy queue ws decision q p h =
        plan_jobs-IsPlanned policy (ordered_jobs queue) ws decision (ordered_jobs_lem queue).0 q p h

  plan_jobs-none :
      (policy : Policy) (jobs : List (Job F)) (ws : List (WorkerSnapshot F))
      → (plan_jobs policy jobs ws).0 ≡ none
      → All (λ job. find_eligible_workers job.requirements ws ≡ []) jobs
  unfolding plan_jobs
  plan_jobs-none policy [] ws h = tt
  plan_jobs-none policy (job ∷ jobs) ws h =
      elim (Option-cases (select_worker policy job.requirements ws).0) [
        | inl e ↦ (
          select_worker-none policy job.requirements ws e,
          plan_jobs-none (select_worker policy job.requirements ws).1 jobs ws
              (ap (λ r. r.0) (sym (plan_jobs-step_none policy job jobs ws e)) ∙ h),
        )
        | inr (found, e) ↦ cc (plan_jobs-step_some policy job jobs ws found e)
      ]

  -- Without a plan, no job of the queue has an eligible worker.
  pub plan-none :
      (policy : Policy) (queue : JobQueue F) (ws : List (WorkerSnapshot F))
      → (plan policy queue ws).0 ≡ none
      → All (λ job. find_eligible_workers job.requirements ws ≡ []) (ordered_jobs queue)
  unfolding plan
  plan-none policy queue ws h = plan_jobs-none policy (ordered_jobs queue) ws h

All-mem {ℓ} : {A : Type ℓ} (xs : List A) → All (λ x. Mem x xs) xs
All-mem [] = tt
All-mem (x ∷ xs) = (mem-cons_self, All-map xs (λ y m. mem-cons_of_mem x m) (All-mem xs))

module _ {F : Type 0} ⦃d : Double F⦄ where
  pub plan_lem :
      (policy : Policy) (queue : JobQueue F) (ws : List (WorkerSnapshot F))
      (decision : DispatchDecision F)
      → (plan policy queue ws).0 ≡ some decision
      → IsPlanned (λ job. Mem job queue) (λ w. Mem w ws) decision ws (ordered_jobs queue)
  plan_lem policy queue ws decision h =
      plan-IsPlanned (λ job. Mem job queue) (λ w. Mem w ws) policy queue ws decision
        (All-map (ordered_jobs queue) (λ job m. (Perm.mem_iff (ordered_jobs_lem queue).1).0 m)
          (All-mem (ordered_jobs queue)))
        (All-mem ws) h
