-- ===== src/Domain/Workload.antt =====
-- libs/domain/src/workload.cpp: what a job executes.
use radahn.Common.{ℤ, pos, leb_ℤ, ok, throw_if, ◌>>◌}
use radahn.Domain.Error.{Outcome, sleep_not_positive}

pub data WorkloadKind : Type 0 where
  sleeping : WorkloadKind

pub record WorkloadSpec : Type 0 where
  pub kind : WorkloadKind
  pub sleep_duration : ℤ  -- milliseconds

-- The constructor.
unfoldable pub make_workload : WorkloadKind → ℤ → Outcome WorkloadSpec
make_workload kind sleep_duration = do
  throw_if (leb_ℤ sleep_duration (pos 0)) sleep_not_positive
  ok (record { kind = kind; sleep_duration = sleep_duration })

unfoldable pub sleep : ℤ → Outcome WorkloadSpec
unfolding make_workload
sleep duration = make_workload sleeping duration
