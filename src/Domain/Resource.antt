-- ===== src/Domain/Resource.antt =====
-- libs/domain/src/resource.cpp: what a job requires and what a worker has. `F` is `double`.
pub mod Validity
use radahn.Common.{
  ℕ, ltb, Bool, ◌||◌, not, List, [], ◌∷◌, Str, is_empty, Result, ok, throw_if, ◌>>=◌, ◌>>◌,
}
use radahn.Domain.Double.{Double}
use radahn.Domain.Error.{
  Error, Outcome, required_cpu_invalid, required_tag_empty, total_cpu_invalid,
  available_cpu_invalid, available_memory_exceeds_total, available_disk_exceeds_total,
}

pub record ResourceRequirements (F : Type 0) : Type 0 where
  pub cpu_cores : F
  pub memory_bytes : ℕ  -- std::uint64_t
  pub disk_bytes : ℕ  -- std::uint64_t
  pub requires_gpu : Bool
  pub required_tags : List Str

pub record ResourceAllocation (F : Type 0) : Type 0 where
  pub cpu_cores : F
  pub memory_bytes : ℕ
  pub disk_bytes : ℕ

pub record WorkerResources (F : Type 0) : Type 0 where
  pub total_cpu_cores : F
  pub available_cpu_cores : F
  pub total_memory_bytes : ℕ
  pub available_memory_bytes : ℕ
  pub total_disk_bytes : ℕ
  pub available_disk_bytes : ℕ
  pub gpu_available : Bool

-- The loop that refuses an empty tag.
unfoldable pub check_tags : Error → List Str → Outcome (Unit {0})
check_tags e [] = ok tt
check_tags e (tag ∷ tags) = do throw_if (is_empty tag) e; check_tags e tags

module _ {F : Type 0} ⦃d : Double F⦄ where
  -- The constructors: the value that they build, after their checks.
  unfoldable pub make_requirements : ResourceRequirements F → Outcome (ResourceRequirements F)
  make_requirements r = do
    throw_if (not (d.is_finite r.cpu_cores) || d.le r.cpu_cores d.zero) required_cpu_invalid
    check_tags required_tag_empty r.required_tags
    ok r

  unfoldable pub make_resources : WorkerResources F → Outcome (WorkerResources F)
  make_resources r = do
    throw_if (not (d.is_finite r.total_cpu_cores) || d.le r.total_cpu_cores d.zero)
        total_cpu_invalid
    throw_if
        (not (d.is_finite r.available_cpu_cores)
          || (d.lt r.available_cpu_cores d.zero || d.lt r.total_cpu_cores r.available_cpu_cores))
        available_cpu_invalid
    throw_if (ltb r.total_memory_bytes r.available_memory_bytes) available_memory_exceeds_total
    throw_if (ltb r.total_disk_bytes r.available_disk_bytes) available_disk_exceeds_total
    ok r
