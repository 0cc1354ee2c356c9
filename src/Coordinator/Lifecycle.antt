-- ===== src/Coordinator/Lifecycle.antt =====
-- The abstract view of the stored jobs: each goes its way through the job states.
pub mod Loops
pub mod Calls
pub mod History
pub mod Changes
use mathlib.Core.Option.{some-injective}
use mathlib.Core.Path.{subst}
use radahn.Common.{
  str_eq_sound, ℕ, ◌≤◌, ◌≡◌, refl, sym, ap, ◌∙◌, inl, inr, Bool, true, false, Option, none, some,
  is_some, arith, Bool-cases, List, [], ◌∷◌, ◌++◌, if◌then◌else◌, Str, str_eq, str_eq_iff,
  str_eq_refl, ◌+◌,
}
use radahn.Common.Keyed
use radahn.Domain.JobState.{JobState, can_transition}
use radahn.Domain.JobState.Graph.{Route, here, step, leases}
use radahn.Persistence.JobRepository.{JobRecord, JobRepository, record_key}
use radahn.Coordinator.State.{Coordinator}

Route-append :
    {s t u : JobState} {xs ys : List JobState} → Route s xs t → Route t ys u → Route s (xs ++ ys) u
Route-append here q = q
Route-append (step h p) q = step h (Route-append p q)

leases-append : (xs ys : List JobState) → leases (xs ++ ys) ≡ leases xs + leases ys
unfolding leases
leases-append [] ys = omega arith
leases-append (x ∷ xs) ys = omega (arith, leases-append xs ys)

module _ {F : Type 0} where
  -- The job goes along legal transitions, counts its leases as attempts, and keeps all else.
  pub record Evolves (old r : JobRecord F) : Type 0 where
    pub entered : List JobState
    pub route : Route old.job.state entered r.job.state
    pub attempts : r.job.attempt_count ≡ old.job.attempt_count + leases entered
    pub same : r.job ≡ record old.job { state = r.job.state; attempt_count = r.job.attempt_count }

  pub Evolves-refl : (r : JobRecord F) → Evolves r r
  unfolding leases
  Evolves-refl r = record { entered = []; route = here; attempts = omega arith; same = refl }

  pub Evolves-trans : (a b c : JobRecord F) → Evolves a b → Evolves b c → Evolves a c
  Evolves-trans a b c p q = record {
    entered = p.entered ++ q.entered;
    route = Route-append p.route q.route;
    attempts = omega (arith, p.attempts, q.attempts, leases-append p.entered q.entered);
    same = ground (arith, p.same, q.same);
  }

  -- Every job that was stored is stored, and has gone on.
  abbrev pub Goes : JobRepository F → JobRepository F → Type 0
  Goes jobs next =
      (id : Str) (old : JobRecord F)
      → Keyed.find record_key id jobs ≡ some old
      → (r : JobRecord F) × (Keyed.find record_key id next ≡ some r) × Evolves old r

  abbrev pub Follows : Coordinator F → Coordinator F → Type 0
  Follows c next = Goes c.jobs next.jobs

  pub Follows-same : (c : Coordinator F) (next : JobRepository F) → next ≡ c.jobs → Goes c.jobs next
  Follows-same c next e id old h =
      (old, ap (λ js. Keyed.find record_key id js) e ∙ h, Evolves-refl old)

  pub Goes-trans : (a b c : JobRepository F) → Goes a b → Goes b c → Goes a c
  Goes-trans a b c p q id old h =
      let (r, found, went) = p id old h in
      let (t, found', went') = q id r found in (t, found', Evolves-trans old r t went went')

  pub Follows-replace :
      (c : Coordinator F) (next : JobRepository F) (r old : JobRecord F)
      → Keyed.find record_key (record_key old) c.jobs ≡ some old
      → record_key r ≡ record_key old
      → next ≡ Keyed.replace record_key r c.jobs
      → Evolves old r
      → Goes c.jobs next
  Follows-replace c next r old held same e went id x h =
      elim (Bool-cases (str_eq (record_key old) id)) [
        | inl mine ↦ (
          r,
          ap (λ js. Keyed.find record_key id js) e
              ∙ ground (
                arith,
                Keyed.find-replace record_key id r c.jobs,
                Keyed.has-find record_key id c.jobs,
              ),
          subst (λ y. Evolves y r)
              (some-injective old x
                (sym held ∙ ap (λ k. Keyed.find record_key k c.jobs) (str_eq_sound _ id mine) ∙ h))
              went,
        )
        | inr other ↦ (
          x,
          ap (λ js. Keyed.find record_key id js) e
              ∙ ground (arith, Keyed.find-replace record_key id r c.jobs),
          Evolves-refl x,
        )
      ]
