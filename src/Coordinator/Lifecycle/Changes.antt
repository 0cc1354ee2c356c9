-- ===== src/Coordinator/Lifecycle/Changes.antt =====
-- How often the state of a job changes in a history of calls.
use mathlib.Core.Option
use radahn.Common.{ℕ, ◌+◌, ◌*◌, ◌≤◌, ◌≡◌, refl, Option, some, arith, List, Str, if◌then◌else◌}
use radahn.Common.Keyed
use radahn.Domain.Double.{Double, IsIeee}
use radahn.Domain.JobState.{JobState, state_eq}
use radahn.Domain.JobState.Graph.{Route, here, step, leases, rank, rank_le, steps_bound}
use radahn.Persistence.JobRepository.{JobRecord, record_key}
use radahn.Coordinator.State.{Coordinator}
use radahn.Coordinator.Reachable.{Reachable, goes_on, Reachable-Inv}
use radahn.Coordinator.Lifecycle.Calls.{Call-Follows}
use radahn.Coordinator.Lifecycle.History.{Calls, no_more, next_call, lease_bound}

abbrev changed : Option JobState → Option JobState → ℕ
changed (some s) (some t) = if state_eq s t then 0 else 1
changed _ _ = 0

changed_le : (s t : JobState) → changed (some s) (some t) ≤ 1
changed_le s t = ground arith

changed_same : (s : JobState) → changed (some s) (some s) ≡ 0
changed_same s = ground arith

one_change :
    {s t : JobState} {entered : List JobState}
    → Route s entered t
    → changed (some s) (some t) + rank t ≤ rank s + 5 * leases entered
one_change {s} here = omega (arith, changed_same s)
one_change {s} {t} (step c p) = omega (arith, changed_le s t, steps_bound (step c p))

module _ {F : Type 0} ⦃d : Double F⦄ where
  abbrev state_at : Str → Coordinator F → Option JobState
  state_at id c = Option.map (λ r. r.job.state) (Keyed.find record_key id c.jobs)

  -- The number of calls of the history that leave the stored job in another state.
  unfoldable pub state_changes : {c next : Coordinator F} → Str → Calls c next → ℕ
  state_changes id no_more = 0
  state_changes id (next_call {a = a} {b = b} call more) =
      changed (state_at id a) (state_at id b) + state_changes id more

  module _ (ieee : IsIeee d) (id : Str) where
    -- What the changes use up.
    spent :
        {c next : Coordinator F} {before : JobRecord F}
        → Reachable c
        → (calls : Calls c next) → Keyed.find record_key id c.jobs ≡ some before
        → (after : JobRecord F) × (Keyed.find record_key id next.jobs ≡ some after)
          × (state_changes id calls + rank after.job.state + 5 * before.job.attempt_count
              ≤ rank before.job.state + 5 * after.job.attempt_count)
    unfolding state_changes
    spent {before = before} reached no_more found = (before, found, omega arith)
    spent {c} {before = before} reached (next_call {b = b} call more) found =
        let (r, held, went) =
          Call-Follows ieee c b call (Reachable-Inv ieee c reached) id before found in
        let (after, found', bound) = spent (goes_on reached call) more held in
        let one = one_change went.route in
        let counted : state_changes id (next_call call more)
            ≡ changed (some before.job.state) (some r.job.state) + state_changes id more =
          rw (found, held) refl in
        (after, found', omega (arith, counted, one, went.attempts, bound))

    -- For doubles that behave like IEEE ones, in a history that calls can reach, the state of a
    -- stored job changes at most 5 + 5 * `max_attempts` times: it is different after at most so
    -- many of the calls.
    pub life_bound :
        {c next : Coordinator F} {before : JobRecord F}
        → Reachable c
        → (calls : Calls c next) → Keyed.find record_key id c.jobs ≡ some before
        → state_changes id calls ≤ 5 + 5 * before.job.max_attempts
    life_bound {c} {next} {before} reached calls found =
        let (after, found', bound) = spent reached calls found in
        let (entered, route, counted, most) =
          lease_bound ieee c next id reached calls found found' in
        omega (arith, bound, most, rank_le before.job.state)
