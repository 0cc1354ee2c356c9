-- ===== src/Domain/Resource/Validity.antt =====
-- Which values the constructors of resource.cpp accept.
use radahn.Common.{◌≤◌, ◌≡◌, refl, ◌↔◌, true, false, List, [], ◌∷◌, Str, is_empty, ok, arith, All}
use radahn.Domain.Double.{Double}
use radahn.Domain.Error.{Error, required_tag_empty}
use radahn.Domain.Resource.{
  ResourceRequirements, WorkerResources, check_tags, make_requirements, make_resources,
}

-- No tag is empty.
abbrev pub TagsNonempty : List Str → Type 0
TagsNonempty = All (λ tag. is_empty tag ≡ false)

pub check_tags_iff : (e : Error) (tags : List Str) → (check_tags e tags ≡ ok tt) ↔ TagsNonempty tags
unfolding check_tags
check_tags_iff e [] = (λ _. tt, λ _. refl)
check_tags_iff e (tag ∷ tags) = (
  λ h. (ground arith, (check_tags_iff e tags).0 (ground arith)),
  λ h. ground (arith, (check_tags_iff e tags).1 h.1),
)

module _ {F : Type 0} ⦃d : Double F⦄ where
  pub record IsValidRequirements (r : ResourceRequirements F) : Type 0 where
    pub cpu_finite : d.is_finite r.cpu_cores ≡ true
    pub cpu_positive : d.le r.cpu_cores d.zero ≡ false
    pub tags_nonempty : TagsNonempty r.required_tags

  pub record IsValidResources (r : WorkerResources F) : Type 0 where
    pub total_finite : d.is_finite r.total_cpu_cores ≡ true
    pub total_positive : d.le r.total_cpu_cores d.zero ≡ false
    pub available_finite : d.is_finite r.available_cpu_cores ≡ true
    pub available_nonneg : d.lt r.available_cpu_cores d.zero ≡ false
    pub available_le_total : d.lt r.total_cpu_cores r.available_cpu_cores ≡ false
    pub memory_le_total : r.available_memory_bytes ≤ r.total_memory_bytes
    pub disk_le_total : r.available_disk_bytes ≤ r.total_disk_bytes

  -- The constructor of `WorkerResources` builds what it is given exactly if the resources are
  -- valid.
  pub make_resources_iff : (r : WorkerResources F) → (make_resources r ≡ ok r) ↔ IsValidResources r
  unfolding make_resources
  make_resources_iff r = (λ h. ground arith, λ h. ground arith)

  pub make_requirements_iff :
      (r : ResourceRequirements F) → (make_requirements r ≡ ok r) ↔ IsValidRequirements r
  unfolding make_requirements
  make_requirements_iff r = (
    λ h. ground (arith, check_tags_iff required_tag_empty r.required_tags),
    λ h. ground (arith, check_tags_iff required_tag_empty r.required_tags),
  )
