-- ===== src/Domain/JobState/Graph.antt =====
-- The life of a job as a graph of states.
use radahn.Common.{
  ◌≡◌, refl, ◌↔◌, true, false, List, [], ◌∷◌, arith, ℕ, ◌+◌, ◌*◌, ◌≤◌, if◌then◌else◌, length,
}
use radahn.Domain.JobState.{
  JobState, queued, leased, running, retry_wait, cancellation_requested, succeeded, failed,
  cancelled, can_transition, is_terminal, state_eq,
}

-- A path of legal transitions: the states that it enters, in order.
pub data Route : JobState → List JobState → JobState → Type 0 where
  here : {s : JobState} → Route s [] s
  step :
      {s t u : JobState} {entered : List JobState}
      → can_transition s t ≡ true
      → Route t entered u
      → Route s (t ∷ entered) u

-- How often a path enters `leased`.
unfoldable pub leases : List JobState → ℕ
leases [] = 0
leases (s ∷ entered) = (if state_eq s leased then 1 else 0) + leases entered

-- How many more states a job can enter without another lease.
unfoldable pub rank : JobState → ℕ
rank leased = 5
rank running = 4
rank cancellation_requested = 3
rank retry_wait = 3
rank queued = 2
rank _ = 0

pub rank_le : (s : JobState) → rank s ≤ 5
unfolding rank
rank_le s = ground arith

rank_falls :
    (s t : JobState) → can_transition s t ≡ true → 1 + rank t ≤ rank s + 5 * leases (t ∷ [])
unfolding can_transition rank leases
rank_falls s t h = ground arith

-- A path of legal transitions enters at most five states for each time that it enters `leased`,
-- and five more.
pub steps_bound :
    {s t : JobState} {entered : List JobState}
    → Route s entered t
    → length entered + rank t ≤ rank s + 5 * leases entered
unfolding leases
steps_bound here = omega arith
steps_bound {s} (step {t = t} c p) = omega (arith, rank_falls s t c, steps_bound p)

-- `is_terminal` holds exactly of the states with no legal transition out of them.
pub is_terminal_iff :
    (s : JobState) → (is_terminal s ≡ true) ↔ ((t : JobState) → can_transition s t ≡ false)
unfolding is_terminal can_transition
is_terminal_iff queued = (λ h t. cc, λ h. ground (arith, h leased))
is_terminal_iff leased = (λ h t. cc, λ h. ground (arith, h running))
is_terminal_iff running = (λ h t. cc, λ h. ground (arith, h failed))
is_terminal_iff retry_wait = (λ h t. cc, λ h. ground (arith, h failed))
is_terminal_iff cancellation_requested = (λ h t. cc, λ h. ground (arith, h failed))
is_terminal_iff succeeded = (λ h t. refl, λ h. refl)
is_terminal_iff failed = (λ h t. refl, λ h. refl)
is_terminal_iff cancelled = (λ h t. refl, λ h. refl)

-- A job in a final state stays there.
pub terminal_stays :
    {s t : JobState} {entered : List JobState}
    → is_terminal s ≡ true
    → Route s entered t
    → entered ≡ []
unfolding is_terminal can_transition
terminal_stays h here = refl
terminal_stays {s} h (step {t = t} c p) = ground (arith, (is_terminal_iff s).0 h t)

pub Route-nil :
    {s t : JobState} {entered : List JobState} → Route s entered t → entered ≡ [] → s ≡ t
Route-nil here e = refl
Route-nil (step c p) e = cc
