-- ===== src/Domain/JobState.antt =====
-- libs/domain/src/job_state.cpp: the states of a job and the transitions between them.
pub mod Graph
use radahn.Common.{Bool, true, false, ◌||◌, not, ok, throw_if, ◌>>=◌, ◌>>◌}
use radahn.Domain.Error.{Outcome, illegal_transition}

pub data JobState : Type 0 where
  queued leased running retry_wait cancellation_requested succeeded failed cancelled : JobState

-- `==` of states.
abbrev pub state_eq : JobState → JobState → Bool
state_eq queued queued = true
state_eq leased leased = true
state_eq running running = true
state_eq retry_wait retry_wait = true
state_eq cancellation_requested cancellation_requested = true
state_eq succeeded succeeded = true
state_eq failed failed = true
state_eq cancelled cancelled = true
state_eq _ _ = false

unfoldable pub can_transition : JobState → JobState → Bool
can_transition queued to = state_eq to leased || state_eq to cancelled
can_transition leased to = state_eq to running || (state_eq to retry_wait || state_eq to cancelled)
can_transition running to =
    state_eq to succeeded
    || (state_eq to failed || (state_eq to retry_wait || state_eq to cancellation_requested))
can_transition retry_wait to = state_eq to queued || (state_eq to failed || state_eq to cancelled)
can_transition cancellation_requested to =
    state_eq to cancelled || (state_eq to succeeded || state_eq to failed)
can_transition succeeded to = false
can_transition failed to = false
can_transition cancelled to = false

unfoldable pub validate_transition : JobState → JobState → Outcome (Unit {0})
unfolding can_transition
validate_transition from to = throw_if (not (can_transition from to)) illegal_transition

unfoldable pub is_terminal : JobState → Bool
is_terminal state = state_eq state succeeded || (state_eq state failed || state_eq state cancelled)
