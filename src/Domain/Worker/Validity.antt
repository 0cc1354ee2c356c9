-- ===== src/Domain/Worker/Validity.antt =====
-- Which snapshots the constructor of worker.cpp accepts.
use radahn.Common.{◌≤◌, ◌<◌, ◌≡◌, ◌↔◌, ok, arith}
use radahn.Domain.Error.{worker_tag_empty}
use radahn.Domain.Resource.Validity.{TagsNonempty, check_tags_iff}
use radahn.Domain.Worker.{WorkerSnapshot, make_snapshot}

module _ {F : Type 0} where
  pub record IsValidSnapshot (s : WorkerSnapshot F) : Type 0 where
    pub max_positive : 0 < s.max_concurrent_jobs
    pub running_le_max : s.running_jobs ≤ s.max_concurrent_jobs
    pub tags_nonempty : TagsNonempty s.tags

  pub make_snapshot_iff : (s : WorkerSnapshot F) → (make_snapshot s ≡ ok s) ↔ IsValidSnapshot s
  unfolding make_snapshot
  make_snapshot_iff s = (
    λ h. ground (arith, check_tags_iff worker_tag_empty s.tags),
    λ h. ground (arith, check_tags_iff worker_tag_empty s.tags),
  )
