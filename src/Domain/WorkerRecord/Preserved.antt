-- ===== src/Domain/WorkerRecord/Preserved.antt =====
-- Reserving and releasing keep a worker valid.
use mathlib.Core.Path.{subst}
use radahn.Common.{◌≡◌, sym, ◌∙◌, inl, inr, ok, arith, ok-injective}
use radahn.Domain.Double.{Double, IsIeee}
use radahn.Domain.Resource.{ResourceRequirements}
use radahn.Domain.Resource.Validity.{IsValidRequirements}
use radahn.Domain.Eligibility.Sound.{Meets}
use radahn.Domain.WorkerRecord.{WorkerRecord, reserve, release}
use radahn.Domain.WorkerRecord.Accounts.{
  IsValidWorker, Holds, view, reserved, released, reserve_cases, release_iff,
}

module _ {F : Type 0} ⦃d : Double F⦄ where
  module _ (ieee : IsIeee d) where
    pub reserved-IsValidWorker :
        (r : ResourceRequirements F) (w : WorkerRecord F)
        → IsValidRequirements r
        → IsValidWorker w
        → Meets r (view w)
        → IsValidWorker (reserved r w)
    reserved-IsValidWorker r w vr v m = ground (
      arith,
      ieee.sub_finite w.available_cpu_cores r.cpu_cores,
      ieee.sub_nonneg w.available_cpu_cores r.cpu_cores,
      ieee.sub_le w.available_cpu_cores r.cpu_cores w.total_cpu_cores,
    )

    pub released-IsValidWorker :
        (r : ResourceRequirements F) (w : WorkerRecord F)
        → IsValidRequirements r
        → IsValidWorker w
        → Holds r w
        → IsValidWorker (released r w)
    released-IsValidWorker r w vr v h = ground (
      arith,
      ieee.add_finite w.available_cpu_cores r.cpu_cores w.total_cpu_cores,
      ieee.add_nonneg w.available_cpu_cores r.cpu_cores,
      ieee.lt_le w.total_cpu_cores d.zero,
      ieee.lt_irrefl w.total_cpu_cores,
      ieee.lt_trans w.total_cpu_cores (d.add w.available_cpu_cores r.cpu_cores) w.total_cpu_cores,
    )

    -- For doubles that behave like IEEE ones, `reserve` of valid requirements leaves a valid
    -- worker valid: no account becomes negative, wraps around or exceeds its total.
    pub reserve-IsValidWorker :
        (r : ResourceRequirements F) (w next : WorkerRecord F)
        → IsValidRequirements r
        → IsValidWorker w
        → reserve r w ≡ ok next
        → IsValidWorker next
    reserve-IsValidWorker r w next vr v h = elim (reserve_cases r w v) [
      | inl (m, e) ↦
          subst IsValidWorker (sym (ok-injective next (reserved r w) (sym h ∙ e)))
            (reserved-IsValidWorker r w vr v m)
      | inr (n, e) ↦ cc
    ]

    -- For doubles that behave like IEEE ones, `release` of valid requirements leaves a valid
    -- worker valid.
    pub release-IsValidWorker :
        (r : ResourceRequirements F) (w next : WorkerRecord F)
        → IsValidRequirements r
        → IsValidWorker w
        → release r w ≡ ok next
        → IsValidWorker next
    release-IsValidWorker r w next vr v h =
        let (holds, e) = (release_iff r w next v).0 h in
        subst IsValidWorker (sym e) (released-IsValidWorker r w vr v holds)
