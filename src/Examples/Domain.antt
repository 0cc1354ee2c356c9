-- ===== src/Examples/Domain.antt =====
-- The theorems about jobs, workers and resources at concrete values.
use radahn.Common.{ℕ, ◌≡◌, refl, ◌↔◌, ◌⊎◌, true, List, [], ◌∷◌, ok, err, arith, str_eq}
use radahn.Domain.Error.{release_cpu}
use radahn.Domain.JobState.{JobState, queued, leased, running, succeeded, can_transition}
use radahn.Domain.JobState.Graph.{Route, here, step}
use radahn.Domain.Worker.{has_tag, has_text}
use radahn.Domain.Eligibility.{evaluate_worker, eligible}
use radahn.Domain.Eligibility.Sound.{Meets, eligible_iff}
use radahn.Domain.WorkerRecord.{WorkerRecord, release}
use radahn.Domain.WorkerRecord.Accounts.{
  IsValidWorker, Holds, reserved, released, restored, reserve-Meets, release_iff, release-reserve,
}
use radahn.Examples.Values.{nat_double, small, idle_worker, idle_worker-IsValidWorker, idle_view}

idle-Meets-small : Meets small (idle_view 1)
unfolding has_tag has_text str_eq
idle-Meets-small = ground arith

abbrev loaded_worker : WorkerRecord ℕ
loaded_worker = reserved small (idle_worker 1)

loaded-Holds-small : Holds small loaded_worker
loaded-Holds-small = ground arith

loaded-IsValidWorker : IsValidWorker loaded_worker
loaded-IsValidWorker = ground arith

release-reserve_example :
    (release small loaded_worker ≡ err release_cpu)
    ⊎ (release small loaded_worker ≡ ok (restored small (idle_worker 1)))
release-reserve_example =
    release-reserve small (idle_worker 1) loaded_worker (idle_worker-IsValidWorker 1)
      (reserve-Meets small (idle_worker 1) (idle_worker-IsValidWorker 1) idle-Meets-small)

release_loaded : release small loaded_worker ≡ ok (released small loaded_worker)
release_loaded =
    (release_iff small loaded_worker (released small loaded_worker) loaded-IsValidWorker).1
      (loaded-Holds-small, refl)

eligible_iff_example :
    (eligible (evaluate_worker small (idle_view 1)) ≡ true) ↔ Meets small (idle_view 1)
eligible_iff_example = eligible_iff small (idle_view 1)

abbrev short_life : List JobState
short_life = leased ∷ running ∷ succeeded ∷ []

short_life-Route : Route queued short_life succeeded
unfolding can_transition
short_life-Route = step refl (step refl (step refl here))
