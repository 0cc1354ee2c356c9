-- ===== src/WorkerApp/Session.antt =====
-- The worker's protocol, as a relation, and that the loop follows it.
use mathlib.Core.Path.{subst}
use radahn.Common.{
  ℕ, zero, suc, ◌≡◌, ◌↔◌, refl, sym, ap, ok, err, Result-cases, Bool-cases, ◌⊎◌, inl, inr, Option,
  none, some, Str, arith,
}
use radahn.Domain.Error.{Error}
use radahn.Domain.Workload.{WorkloadSpec}
use radahn.Service.Messages.{
  JobInfo, RpcWorkload, RpcOutcome, outcome_succeeded, outcome_failed, copy_workload,
}
use radahn.WorkerApp.Workloads.{execute_job_iff}
use radahn.WorkerApp.Process.{Stub, outcome_of, execute_job, one_round, rounds}

-- What a call of the stub gives.
call_cases :
    {A W : Type 0} (r : Option A × W)
    → ((w : W) × (r ≡ (none, w))) ⊎ ((a : A) × (w : W) × (r ≡ (some a, w)))
call_cases (none, w) = inl (w, refl)
call_cases (some a, w) = inr (a, w, refl)

-- What is reported of a workload: success of one that the service accepts, else failure.
pub data Reported (m : RpcWorkload) : RpcOutcome → Type 0 where
  ran : (w : WorkloadSpec) → copy_workload m ≡ ok w → Reported m outcome_succeeded
  refused : (e : Error) → copy_workload m ≡ err e → Reported m outcome_failed

Reported-outcome_of :
    {m : RpcWorkload} {outcome : RpcOutcome}
    → Reported m outcome
    → outcome_of (execute_job (some m)) ≡ outcome
Reported-outcome_of {m} (ran w p) = ap outcome_of ((execute_job_iff m).1 (w, p))
Reported-outcome_of {m} (refused e p) = elim (Bool-cases (execute_job (some m))) [
  | inl did ↦ let (w, q) = (execute_job_iff m).0 did in ground (arith, p, q)
  | inr failed ↦ ap outcome_of failed
]

outcome_of-Reported : (m : RpcWorkload) → Reported m (outcome_of (execute_job (some m)))
outcome_of-Reported m = elim (Result-cases (copy_workload m)) [
  | inl (w, p) ↦ subst (Reported m) (sym (Reported-outcome_of (ran w p))) (ran w p)
  | inr (e, p) ↦ subst (Reported m) (sym (Reported-outcome_of (refused e p))) (refused e p)
]

module _ {F W : Type 0} (stub : Stub F W) (worker_id : Str) where
  -- From the first world, the worker ends with the exit code in the last one.
  pub data Session : W → ℕ → W → Type 0 where
    not_acquired : {w after : W} → stub.acquire worker_id w ≡ (none, after) → Session w 1 after
    no_job :
        {w asked last : W} {code : ℕ}
        → stub.acquire worker_id w ≡ (some none, asked)
        → Session (stub.pause asked) code last
        → Session w code last
    not_started :
        {w asked after : W} (job : JobInfo F)
        → stub.acquire worker_id w ≡ (some (some job), asked)
        → stub.start worker_id job.id asked ≡ (none, after)
        → Session w 1 after
    not_finished :
        {w asked begun after : W} {outcome : RpcOutcome} (job started : JobInfo F)
        → stub.acquire worker_id w ≡ (some (some job), asked)
        → stub.start worker_id job.id asked ≡ (some started, begun)
        → Reported job.workload outcome
        → stub.finish worker_id job.id outcome begun ≡ (none, after)
        → Session w 1 after
    job_done :
        {w asked begun after : W} {outcome : RpcOutcome} (job started finished : JobInfo F)
        → stub.acquire worker_id w ≡ (some (some job), asked)
        → stub.start worker_id job.id asked ≡ (some started, begun)
        → Reported job.workload outcome
        → stub.finish worker_id job.id outcome begun ≡ (some finished, after)
        → Session w 0 after

  Session-rounds :
      {w last : W} {code : ℕ}
      → Session w code last
      → (n : ℕ) × (rounds stub worker_id n w ≡ (some code, last))
  unfolding rounds one_round
  Session-rounds (not_acquired p) = (1, ground (arith, p))
  Session-rounds (no_job p rest) = let (n, q) = Session-rounds rest in (suc n, ground (arith, p, q))
  Session-rounds (not_started job p q) = (1, ground (arith, p, q))
  Session-rounds (not_finished job started p q o r) =
      (1, ground (arith, p, q, r, Reported-outcome_of o))
  Session-rounds (job_done job started finished p q o r) =
      (1, ground (arith, p, q, r, Reported-outcome_of o))

  ended :
      {w after last : W} {found code : ℕ}
      → Session w found after
      → found ≡ code
      → after ≡ last
      → Session w code last
  ended {w} {after} {last} {found} {code} s same_code same_world =
      subst (λ x. Session w x last) same_code (subst (Session w found) same_world s)

  rounds-Session :
      (n : ℕ) (w last : W) (code : ℕ)
      → rounds stub worker_id n w ≡ (some code, last)
      → Session w code last
  unfolding rounds one_round
  rounds-Session zero w last code h = ground arith
  rounds-Session (suc n) w last code h = elim (call_cases (stub.acquire worker_id w)) [
    | inl (after, p) ↦ ended (not_acquired p) (ground (arith, p)) (ground (arith, p))
    | inr (none, asked, p) ↦
        no_job p (rounds-Session n (stub.pause asked) last code (ground (arith, p)))
    | inr (some job, asked, p) ↦ elim (call_cases (stub.start worker_id job.id asked)) [
      | inl (after, q) ↦ ended (not_started job p q) (ground (arith, p, q)) (ground (arith, p, q))
      | inr (started, begun, q) ↦
          elim (call_cases
            (stub.finish worker_id job.id (outcome_of (execute_job (some job.workload))) begun)) [
              | inl (after, r) ↦
                  ended (not_finished job started p q (outcome_of-Reported job.workload) r)
                    (ground (arith, p, q, r)) (ground (arith, p, q, r))
              | inr (finished, after, r) ↦
                  ended (job_done job started finished p q (outcome_of-Reported job.workload) r)
                    (ground (arith, p, q, r)) (ground (arith, p, q, r))
            ]
    ]
  ]

  -- The worker's loop ends with an exit code, after enough rounds, exactly if its protocol does:
  -- it asks for a job until it gets one, starts it, reports success if the job's workload is one
  -- that the service accepts and failure if not, and ends with 0 if all calls were answered and
  -- with 1 at the first that was not.
  pub rounds_iff :
      (w last : W) (code : ℕ)
      → ((n : ℕ) × (rounds stub worker_id n w ≡ (some code, last))) ↔ Session w code last
  rounds_iff w last code =
      (λ r. rounds-Session r.0 w last code r.1, λ session. Session-rounds session)
