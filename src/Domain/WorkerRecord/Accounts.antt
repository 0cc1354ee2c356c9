-- ===== src/Domain/WorkerRecord/Accounts.antt =====
-- The accounts of a worker stay in order: reserving and releasing.
use radahn.Common.{
  ◌+◌, ◌-◌, ◌≤◌, ◌<◌, ◌≡◌, sym, ◌∙◌, Bool-cases, ok-injective, ◌↔◌, ◌⊎◌, inl, inr, false, ok, err,
  arith, word_mod, add64-eq-add, sub64-eq-sub,
}
use radahn.Domain.Double
use radahn.Domain.Double.{Double, IsIeee}
use radahn.Domain.Resource.{ResourceRequirements, WorkerResources}
use radahn.Domain.Resource.Validity.{IsValidResources, make_resources_iff}
use radahn.Domain.Worker.{WorkerSnapshot}
use radahn.Domain.Worker.Validity.{IsValidSnapshot, make_snapshot_iff}
use radahn.Domain.Eligibility.{evaluate_worker, eligible}
use radahn.Domain.Eligibility.Sound.{Meets, eligible_iff}
use radahn.Domain.Error.{cannot_reserve, release_cpu}
use radahn.Domain.WorkerRecord.{WorkerRecord, snapshot, reserve, release}

module _ {F : Type 0} where
  abbrev pub resources_of : WorkerRecord F → WorkerResources F
  resources_of w = record {
    total_cpu_cores = w.total_cpu_cores;
    available_cpu_cores = w.available_cpu_cores;
    total_memory_bytes = w.total_memory_bytes;
    available_memory_bytes = w.available_memory_bytes;
    total_disk_bytes = w.total_disk_bytes;
    available_disk_bytes = w.available_disk_bytes;
    gpu_available = w.gpu_available;
  }

  -- The snapshot with no check.
  abbrev pub view : WorkerRecord F → WorkerSnapshot F
  view w = record {
    id = w.id;
    state = w.state;
    resources = resources_of w;
    running_jobs = w.running_jobs;
    max_concurrent_jobs = w.max_concurrent_jobs;
    tags = w.tags;
  }

module _ {F : Type 0} ⦃d : Double F⦄ where
  pub record IsValidWorker (w : WorkerRecord F) : Type 0 where
    pub resources_valid : IsValidResources (resources_of w)
    pub snapshot_valid : IsValidSnapshot (view w)
    pub memory_word : w.total_memory_bytes < word_mod
    pub disk_word : w.total_disk_bytes < word_mod
    pub slots_word : w.max_concurrent_jobs < word_mod

  -- A valid worker always has a snapshot.
  pub snapshot-eq : (w : WorkerRecord F) → IsValidWorker w → snapshot w ≡ ok (view w)
  unfolding snapshot
  snapshot-eq w v = ground (
    arith,
    (make_resources_iff (resources_of w)).1 v.resources_valid,
    (make_snapshot_iff (view w)).1 v.snapshot_valid,
  )

  abbrev pub reserved : ResourceRequirements F → WorkerRecord F → WorkerRecord F
  reserved r w = record w {
    available_cpu_cores = d.sub w.available_cpu_cores r.cpu_cores;
    available_memory_bytes = w.available_memory_bytes - r.memory_bytes;
    available_disk_bytes = w.available_disk_bytes - r.disk_bytes;
    running_jobs = w.running_jobs + 1;
  }

  -- `reserve` succeeds exactly when the worker meets the requirements, and otherwise throws.
  pub reserve-Meets :
      (r : ResourceRequirements F) (w : WorkerRecord F)
      → IsValidWorker w
      → Meets r (view w)
      → reserve r w ≡ ok (reserved r w)
  unfolding reserve
  reserve-Meets r w v m = ground (
    arith,
    snapshot-eq w v,
    (eligible_iff r (view w)).1 m,
    sub64-eq-sub w.available_memory_bytes r.memory_bytes,
    sub64-eq-sub w.available_disk_bytes r.disk_bytes,
    add64-eq-add w.running_jobs 1,
  )

  reserve_refused :
      (r : ResourceRequirements F) (w : WorkerRecord F)
      → IsValidWorker w
      → eligible (evaluate_worker r (view w)) ≡ false
      → reserve r w ≡ err cannot_reserve
  unfolding reserve
  reserve_refused r w v e = ground (arith, snapshot-eq w v)

  -- On a valid worker, `reserve` takes the resources exactly if the worker meets the
  -- requirements, and otherwise throws.
  pub reserve_cases :
      (r : ResourceRequirements F) (w : WorkerRecord F)
      → IsValidWorker w
      → Meets r (view w) × (reserve r w ≡ ok (reserved r w))
        ⊎ (¬ Meets r (view w)) × (reserve r w ≡ err cannot_reserve)
  reserve_cases r w v = elim (Bool-cases (eligible (evaluate_worker r (view w)))) [
    | inl e ↦ let m = (eligible_iff r (view w)).0 e in inl (m, reserve-Meets r w v m)
    | inr e ↦ inr (λ m. ground (arith, (eligible_iff r (view w)).1 m), reserve_refused r w v e)
  ]

  abbrev pub released : ResourceRequirements F → WorkerRecord F → WorkerRecord F
  released r w = record w {
    available_cpu_cores = Double.min w.total_cpu_cores (d.add w.available_cpu_cores r.cpu_cores);
    available_memory_bytes = w.available_memory_bytes + r.memory_bytes;
    available_disk_bytes = w.available_disk_bytes + r.disk_bytes;
    running_jobs = w.running_jobs - 1;
  }

  -- What `release` asks of a worker.
  pub record Holds (r : ResourceRequirements F) (w : WorkerRecord F) : Type 0 where
    pub busy : 0 < w.running_jobs
    pub cpu_reserved :
        d.lt (d.add (d.sub w.total_cpu_cores w.available_cpu_cores) d.cpu_tolerance) r.cpu_cores
        ≡ false
    pub memory_reserved : r.memory_bytes + w.available_memory_bytes ≤ w.total_memory_bytes
    pub disk_reserved : r.disk_bytes + w.available_disk_bytes ≤ w.total_disk_bytes

  -- On a valid worker, `release` succeeds exactly if a job runs there and the accounts show at
  -- least these resources as reserved; it then gives back memory, disk and the slot exactly, and
  -- processor shares up to the total.
  pub release_iff :
      (r : ResourceRequirements F) (w next : WorkerRecord F)
      → IsValidWorker w
      → (release r w ≡ ok next) ↔ (Holds r w × (next ≡ released r w))
  unfolding release
  release_iff r w next v = (
    λ h. ground (
      arith,
      sub64-eq-sub w.total_memory_bytes w.available_memory_bytes,
      sub64-eq-sub w.total_disk_bytes w.available_disk_bytes,
      add64-eq-add w.available_memory_bytes r.memory_bytes,
      add64-eq-add w.available_disk_bytes r.disk_bytes,
      sub64-eq-sub w.running_jobs 1,
    ),
    λ h. ground (
      arith,
      sub64-eq-sub w.total_memory_bytes w.available_memory_bytes,
      sub64-eq-sub w.total_disk_bytes w.available_disk_bytes,
      add64-eq-add w.available_memory_bytes r.memory_bytes,
      add64-eq-add w.available_disk_bytes r.disk_bytes,
      sub64-eq-sub w.running_jobs 1,
    ),
  )

  abbrev pub restored : ResourceRequirements F → WorkerRecord F → WorkerRecord F
  restored r w = record w {
    available_cpu_cores =
        Double.min w.total_cpu_cores (d.add (d.sub w.available_cpu_cores r.cpu_cores) r.cpu_cores);
  }

  release-reserved :
      (r : ResourceRequirements F) (w : WorkerRecord F)
      → IsValidWorker w
      → Meets r (view w)
      → (release r (reserved r w) ≡ err release_cpu)
        ⊎ (release r (reserved r w) ≡ ok (restored r w))
  unfolding release
  release-reserved r w v m = ground (
    arith,
    sub64-eq-sub w.total_memory_bytes (w.available_memory_bytes - r.memory_bytes),
    sub64-eq-sub w.total_disk_bytes (w.available_disk_bytes - r.disk_bytes),
    add64-eq-add (w.available_memory_bytes - r.memory_bytes) r.memory_bytes,
    add64-eq-add (w.available_disk_bytes - r.disk_bytes) r.disk_bytes,
    sub64-eq-sub (w.running_jobs + 1) 1,
  )

  -- What was reserved on a valid worker can be released: memory, disk and the slot come back
  -- exactly, and only the comparison of processor shares can refuse it.
  pub release-reserve :
      (r : ResourceRequirements F) (w next : WorkerRecord F)
      → IsValidWorker w
      → reserve r w ≡ ok next
      → (release r next ≡ err release_cpu) ⊎ (release r next ≡ ok (restored r w))
  release-reserve r w next v h = elim (reserve_cases r w v) [
    | inl (m, e) ↦ rw (ok-injective next (reserved r w) (sym h ∙ e)) (release-reserved r w v m)
    | inr (n, e) ↦ cc
  ]

  -- A release keeps the worker's identifier.
  pub id-release :
      (r : ResourceRequirements F) (w next : WorkerRecord F)
      → release r w ≡ ok next
      → next.id ≡ w.id
  unfolding release
  id-release r w next h = ground arith
