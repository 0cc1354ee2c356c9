-- ===== src/Domain/Worker.antt =====
-- libs/domain/src/worker.cpp: what the scheduler sees of a worker.
pub mod Validity
use radahn.Common.{
  ℕ, ltb, ◌==◌, Bool, true, false, ◌||◌, List, [], ◌∷◌, Str, str_eq, Result, ok, throw_if, ◌>>=◌,
  ◌>>◌,
}
use radahn.Domain.Id.{WorkerId}
use radahn.Domain.Resource.{WorkerResources, check_tags}
use radahn.Domain.Error.{Outcome, max_concurrent_zero, running_exceeds_max, worker_tag_empty}

pub data WorkerState : Type 0 where
  online draining offline disabled : WorkerState

-- `==` of states.
abbrev pub worker_state_eq : WorkerState → WorkerState → Bool
worker_state_eq online online = true
worker_state_eq draining draining = true
worker_state_eq offline offline = true
worker_state_eq disabled disabled = true
worker_state_eq _ _ = false

pub record WorkerSnapshot (F : Type 0) : Type 0 where
  pub id : WorkerId
  pub state : WorkerState
  pub resources : WorkerResources F
  pub running_jobs : ℕ  -- std::size_t
  pub max_concurrent_jobs : ℕ  -- std::size_t
  pub tags : List Str

-- `std::find(tags, tag) != end`.
unfoldable pub has_text : List Str → Str → Bool
has_text [] tag = false
has_text (t ∷ tags) tag = str_eq t tag || has_text tags tag

module _ {F : Type 0} where
  -- The constructor.
  unfoldable pub make_snapshot : WorkerSnapshot F → Outcome (WorkerSnapshot F)
  make_snapshot s = do
    throw_if (s.max_concurrent_jobs == 0) max_concurrent_zero
    throw_if (ltb s.max_concurrent_jobs s.running_jobs) running_exceeds_max
    check_tags worker_tag_empty s.tags
    ok s

  unfoldable pub has_execution_slot : WorkerSnapshot F → Bool
  has_execution_slot s = ltb s.running_jobs s.max_concurrent_jobs

  unfoldable pub has_tag : WorkerSnapshot F → Str → Bool
  has_tag s tag = has_text s.tags tag
