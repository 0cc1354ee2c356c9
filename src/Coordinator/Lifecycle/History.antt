-- ===== src/Coordinator/Lifecycle/History.antt =====
-- What a whole history of calls makes of one job.
use mathlib.Core.Path.{subst}
use mathlib.Core.Option.{some-injective}
use radahn.Common.{◌+◌, ◌≤◌, ◌≡◌, refl, sym, ap, ◌∙◌, true, some, arith, List, Str}
use radahn.Common.Keyed
use radahn.Domain.Double.{Double, IsIeee}
use radahn.Domain.Job.Attempts.{IsValidJob}
use radahn.Domain.JobState.{JobState, is_terminal}
use radahn.Domain.JobState.Graph.{Route, Route-nil, leases, terminal_stays}
use radahn.Persistence.JobRepository.{JobRecord, record_key}
use radahn.Coordinator.State.{Coordinator}
use radahn.Coordinator.Invariant.{IsSoundRecord}
use radahn.Coordinator.Reachable.{Call, Reachable, goes_on, Reachable-Inv}
use radahn.Coordinator.Lifecycle.{Evolves, Follows, Follows-same, Goes-trans}
use radahn.Coordinator.Lifecycle.Calls.{Call-Follows}

module _ {F : Type 0} ⦃d : Double F⦄ where
  -- Zero or more calls.
  pub data Calls : Coordinator F → Coordinator F → Type 0 where
    no_more : {c : Coordinator F} → Calls c c
    next_call : {a b c : Coordinator F} → Call a b → Calls b c → Calls a c

  pub Calls-Reachable : {c next : Coordinator F} → Reachable c → Calls c next → Reachable next
  Calls-Reachable reached no_more = reached
  Calls-Reachable reached (next_call call more) = Calls-Reachable (goes_on reached call) more

  module _ (ieee : IsIeee d) where
    -- For doubles that behave like IEEE ones, from a coordinator that calls can reach, every
    -- sequence of calls refines the job state machine: a stored job stays stored under its
    -- identifier, has moved along legal transitions only, has counted each entry into `leased` as
    -- an attempt, and is otherwise unchanged.
    pub Calls-Follows : (c next : Coordinator F) → Reachable c → Calls c next → Follows c next
    Calls-Follows c next reached no_more = Follows-same c c.jobs refl
    Calls-Follows c next reached (next_call {b = b} call more) =
        Goes-trans c.jobs b.jobs next.jobs
          (Call-Follows ieee c b call (Reachable-Inv ieee c reached))
          (Calls-Follows b next (goes_on reached call) more)

    -- One job, at two moments of a history.
    module _ (c next : Coordinator F) (id : Str) (reached : Reachable c) (calls : Calls c next)
        {before after : JobRecord F} (found_before : Keyed.find record_key id c.jobs ≡ some before)
        (found_after : Keyed.find record_key id next.jobs ≡ some after) where
      moments-Evolves : Evolves before after
      moments-Evolves =
          let (r, found, went) = Calls-Follows c next reached calls id before found_before in
          subst (Evolves before) (some-injective r after (sym found ∙ found_after)) went

      after-IsValidJob : IsValidJob after.job
      after-IsValidJob =
          (Keyed.All-find record_key IsSoundRecord id next.jobs
            (Reachable-Inv ieee next (Calls-Reachable reached calls)).records_sound
            found_after).job_valid

      -- For doubles that behave like IEEE ones, between two moments of a history that calls can
      -- reach, a stored job has moved along legal transitions, its attempts have grown by how
      -- often these enter `leased`, and they are at most its `max_attempts`.
      pub lease_bound :
          (entered : List JobState) × Route before.job.state entered after.job.state
          × (after.job.attempt_count ≡ before.job.attempt_count + leases entered)
          × (after.job.attempt_count ≤ before.job.max_attempts)
      lease_bound =
          let went = moments-Evolves in
          (
            went.entered,
            went.route,
            went.attempts,
            omega (arith, ap (λ j. j.max_attempts) went.same, after-IsValidJob.attempts_le_max),
          )

      -- For doubles that behave like IEEE ones, once a job is in a terminal state, no sequence of
      -- calls changes the stored job.
      pub final_stays : is_terminal before.job.state ≡ true → after.job ≡ before.job
      unfolding leases
      final_stays final =
          let went = moments-Evolves in
          let still = terminal_stays final went.route in
          ground (arith, went.same, went.attempts, still, Route-nil went.route still)
