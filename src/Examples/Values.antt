-- ===== src/Examples/Values.antt =====
-- Values that the examples share. Numbers stand for doubles.
use radahn.Common.{ℕ, ◌+◌, ◌-◌, ◌/◌, ltb, leb, ◌==◌, pos, true, false, [], ◌∷◌, arith, refl}
use radahn.Domain.Double.{Double, IsIeee}
use radahn.Domain.Id.{JobId, WorkerId}
use radahn.Domain.Workload.{WorkloadSpec, sleeping}
use radahn.Domain.Resource.{ResourceRequirements}
use radahn.Domain.Resource.Validity.{IsValidRequirements}
use radahn.Domain.JobState.{JobState}
use radahn.Domain.Job.{Job}
use radahn.Domain.Job.Attempts.{IsValidJob}
use radahn.Domain.Worker.{WorkerSnapshot, online}
use radahn.Domain.WorkerRecord.{WorkerRecord}
use radahn.Domain.WorkerRecord.Accounts.{IsValidWorker, view}

instance abbrev pub nat_double : Double ℕ
nat_double = record {
  is_finite = λ a. true;
  lt = ltb;
  le = leb;
  eq = ◌==◌;
  add = ◌+◌;
  sub = ◌-◌;
  div = ◌/◌;
  zero = 0;
  cpu_tolerance = 0;
  of_size = λ n. n;
}

pub nat_double-IsIeee : IsIeee nat_double
nat_double-IsIeee = record {
  lt_irrefl = λ a. ground arith;
  lt_trans = λ a b c h k. ground arith;
  lt_compare = λ a b c f h. ground arith;
  lt_le = λ a b h. ground arith;
  load_finite = λ m n h k l. refl;
  lt_eq = λ a b h. ground arith;
  eq_of_not_lt = λ a b f g h k. ground arith;
  eq_comm = λ a b. ground arith;
  sub_finite = λ a b f g h k. refl;
  sub_nonneg = λ a b f g h. ground arith;
  sub_le = λ a b t f g h k. ground arith;
  add_finite = λ a b t f g h k l m. refl;
  add_nonneg = λ a b f g h k. ground arith;
}

abbrev pub job_id : ℕ → JobId
job_id n = record { value = b'j' ∷ n ∷ [] }

abbrev pub worker_id : ℕ → WorkerId
worker_id n = record { value = b'w' ∷ n ∷ [] }

-- Two processors, 100 bytes of memory and 50 of disk, and the tag "x".
abbrev pub small : ResourceRequirements ℕ
small = record {
  cpu_cores = 2;
  memory_bytes = 100;
  disk_bytes = 50;
  requires_gpu = false;
  required_tags = (b'x' ∷ []) ∷ [];
}

pub small-IsValidRequirements : IsValidRequirements small
small-IsValidRequirements = record {
  cpu_finite = refl;
  cpu_positive = refl;
  tags_nonempty = (refl, tt);
}

abbrev pub sleep_spec : WorkloadSpec
sleep_spec = record { kind = sleeping; sleep_duration = pos 1000 }

abbrev pub job_in : JobState → ℕ → ℕ → Job ℕ
job_in state n priority = record {
  id = job_id n;
  name = b'n' ∷ [];
  priority = pos priority;
  requirements = small;
  workload = sleep_spec;
  state = state;
  created_at = pos 0;
  attempt_count = 0;
  max_attempts = 3;
}

pub job_in-IsValidJob : (state : JobState) (n priority : ℕ) → IsValidJob (job_in state n priority)
job_in-IsValidJob state n priority = ground arith

-- An idle worker with eight processors, 1000 bytes of memory and of disk, and two slots.
abbrev pub idle_worker : ℕ → WorkerRecord ℕ
idle_worker n = record {
  id = worker_id n;
  state = online;
  total_cpu_cores = 8;
  available_cpu_cores = 8;
  total_memory_bytes = 1000;
  available_memory_bytes = 1000;
  total_disk_bytes = 1000;
  available_disk_bytes = 1000;
  gpu_available = false;
  running_jobs = 0;
  max_concurrent_jobs = 2;
  tags = (b'x' ∷ []) ∷ [];
}

pub idle_worker-IsValidWorker : (n : ℕ) → IsValidWorker (idle_worker n)
idle_worker-IsValidWorker n = ground arith

abbrev pub idle_view : ℕ → WorkerSnapshot ℕ
idle_view n = view (idle_worker n)
