-- ===== src/Domain/WorkerRecord.antt =====
-- libs/domain/src/worker_record.cpp: the coordinator's account of a worker's resources.
pub mod Accounts
pub mod Preserved
use radahn.Common.{ℕ, ◌+◌, ltb, ◌==◌, Bool, not, List, Str, add64, sub64, ok, throw_if, ◌>>=◌, ◌>>◌}
use radahn.Domain.Double
use radahn.Domain.Double.{Double}
use radahn.Domain.Id.{WorkerId}
use radahn.Domain.Resource.{
  ResourceRequirements, ResourceAllocation, WorkerResources, make_resources,
}
use radahn.Domain.Worker.{WorkerState, WorkerSnapshot, make_snapshot}
use radahn.Domain.Eligibility.{evaluate_worker, eligible}
use radahn.Domain.Error.{
  Outcome, cannot_reserve, no_running_job, release_cpu, release_memory, release_disk,
}

pub record WorkerRecord (F : Type 0) : Type 0 where
  pub id : WorkerId
  pub state : WorkerState
  pub total_cpu_cores : F
  pub available_cpu_cores : F
  pub total_memory_bytes : ℕ  -- std::uint64_t
  pub available_memory_bytes : ℕ
  pub total_disk_bytes : ℕ
  pub available_disk_bytes : ℕ
  pub gpu_available : Bool
  pub running_jobs : ℕ  -- std::size_t
  pub max_concurrent_jobs : ℕ
  pub tags : List Str

module _ {F : Type 0} where
  -- The constructor.
  unfoldable pub of_snapshot : WorkerSnapshot F → WorkerRecord F
  of_snapshot s = record {
    id = s.id;
    state = s.state;
    total_cpu_cores = s.resources.total_cpu_cores;
    available_cpu_cores = s.resources.available_cpu_cores;
    total_memory_bytes = s.resources.total_memory_bytes;
    available_memory_bytes = s.resources.available_memory_bytes;
    total_disk_bytes = s.resources.total_disk_bytes;
    available_disk_bytes = s.resources.available_disk_bytes;
    gpu_available = s.resources.gpu_available;
    running_jobs = s.running_jobs;
    max_concurrent_jobs = s.max_concurrent_jobs;
    tags = s.tags;
  }

  unfoldable pub available_resources : WorkerRecord F → ResourceAllocation F
  available_resources w = record {
    cpu_cores = w.available_cpu_cores;
    memory_bytes = w.available_memory_bytes;
    disk_bytes = w.available_disk_bytes;
  }

module _ {F : Type 0} ⦃d : Double F⦄ where
  -- Both constructors on the way check their arguments.
  unfoldable pub snapshot : WorkerRecord F → Outcome (WorkerSnapshot F)
  snapshot w = do
    resources ← make_resources (record {
      total_cpu_cores = w.total_cpu_cores;
      available_cpu_cores = w.available_cpu_cores;
      total_memory_bytes = w.total_memory_bytes;
      available_memory_bytes = w.available_memory_bytes;
      total_disk_bytes = w.total_disk_bytes;
      available_disk_bytes = w.available_disk_bytes;
      gpu_available = w.gpu_available;
    })
    make_snapshot (record {
      id = w.id;
      state = w.state;
      resources = resources;
      running_jobs = w.running_jobs;
      max_concurrent_jobs = w.max_concurrent_jobs;
      tags = w.tags;
    })

  unfoldable pub can_reserve : ResourceRequirements F → WorkerRecord F → Outcome Bool
  can_reserve requirements w = do s ← snapshot w; ok (eligible (evaluate_worker requirements s))

  unfoldable pub allocated_resources : WorkerRecord F → ResourceAllocation F
  allocated_resources w = record {
    cpu_cores = d.sub w.total_cpu_cores w.available_cpu_cores;
    memory_bytes = sub64 w.total_memory_bytes w.available_memory_bytes;
    disk_bytes = sub64 w.total_disk_bytes w.available_disk_bytes;
  }

  unfoldable pub reserve : ResourceRequirements F → WorkerRecord F → Outcome (WorkerRecord F)
  unfolding can_reserve
  reserve requirements w = do
    possible ← can_reserve requirements w
    throw_if (not possible) cannot_reserve
    ok (record w {
      available_cpu_cores = d.sub w.available_cpu_cores requirements.cpu_cores;
      available_memory_bytes = sub64 w.available_memory_bytes requirements.memory_bytes;
      available_disk_bytes = sub64 w.available_disk_bytes requirements.disk_bytes;
      running_jobs = add64 w.running_jobs 1;
    })

  unfoldable pub release : ResourceRequirements F → WorkerRecord F → Outcome (WorkerRecord F)
  release requirements w = do
    throw_if (w.running_jobs == 0) no_running_job
    let reserved_cpu = d.sub w.total_cpu_cores w.available_cpu_cores
    let reserved_memory = sub64 w.total_memory_bytes w.available_memory_bytes
    let reserved_disk = sub64 w.total_disk_bytes w.available_disk_bytes
    throw_if (d.lt (d.add reserved_cpu d.cpu_tolerance) requirements.cpu_cores) release_cpu
    throw_if (ltb reserved_memory requirements.memory_bytes) release_memory
    throw_if (ltb reserved_disk requirements.disk_bytes) release_disk
    ok (record w {
      available_cpu_cores =
          Double.min w.total_cpu_cores (d.add w.available_cpu_cores requirements.cpu_cores);
      available_memory_bytes = add64 w.available_memory_bytes requirements.memory_bytes;
      available_disk_bytes = add64 w.available_disk_bytes requirements.disk_bytes;
      running_jobs = sub64 w.running_jobs 1;
    })
