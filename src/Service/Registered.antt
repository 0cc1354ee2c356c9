-- ===== src/Service/Registered.antt =====
-- RegisterWorker, as a sequence of the coordinator's calls.
use radahn.Common.{arith, ℤ, ◌≡◌, ap, ◌∙◌, Bool, false, Option, none, some}
use radahn.Domain.Double.{Double}
use radahn.Domain.Resource.{WorkerResources}
use radahn.Domain.WorkerRecord.Accounts.{IsValidWorker}
use radahn.Domain.WorkerRecord.{WorkerRecord, of_snapshot}
use radahn.Persistence.WorkerRepository
use radahn.Coordinator.State.{Coordinator}
use radahn.Coordinator.Heartbeat.{record_worker_heartbeat}
use radahn.Coordinator.Reachable.{registers, beats}
use radahn.Coordinator.Lifecycle.History.{Calls, no_more}
use radahn.Service.Messages.{RegisterWorkerRequest, requested_worker}
use radahn.Service.Handlers.{store_worker, register_with, register_worker_handler}
use radahn.Service.Built.{requested, FitsWords, requested-IsValidWorker}
use radahn.Service.Chains.{one-Call, chain-Calls, step-Calls, pick-Calls}

module _ {F : Type 0} ⦃d : Double F⦄ where
  store_worker-Calls :
      (now : ℤ) (w : WorkerRecord F) (c : Coordinator F)
      → IsValidWorker w
      → WorkerRepository.contains w.id c.workers ≡ false
      → Calls c (store_worker now w c).1
  unfolding store_worker
  store_worker-Calls now w c valid new =
      pick-Calls (WorkerRepository.contains w.id c.workers) _ _ c
        (λ stored. ground (arith, new, stored)) (λ unknown. one-Call (registers now w valid))

  abbrev pub Fits : RegisterWorkerRequest F → Option (WorkerResources F) → Type 0
  Fits request none = Unit
  Fits request (some resources) = FitsWords request resources

  abbrev pub stored_already : RegisterWorkerRequest F → Coordinator F → Bool
  stored_already request c =
      WorkerRepository.contains (record { value = request.worker_id }) c.workers

  register_with-Calls :
      (now later : ℤ) (request : RegisterWorkerRequest F) (resources : Option (WorkerResources F))
      (c : Coordinator F)
      → Fits request resources
      → stored_already request c ≡ false
      → Calls c (register_with now later request resources c).1
  unfolding register_with of_snapshot
  register_with-Calls now later request none c fits new = no_more
  register_with-Calls now later request (some resources) c fits new =
      step-Calls (requested_worker request resources) _ c (λ w made.
        let is : w.id ≡ record { value = request.worker_id } =
          ap (λ x. x.id) (requested request resources w made).0 in
        chain-Calls (store_worker now w) _ c
          (store_worker-Calls now w c (requested-IsValidWorker request resources w fits made)
            (ap (λ x. WorkerRepository.contains x c.workers) is ∙ new))
          (λ u e.
            chain-Calls (record_worker_heartbeat w.id later) _ _ (one-Call (beats w.id later))
              (λ v f. no_more)))

  pub register_worker_handler-Calls :
      (now later : ℤ) (request : RegisterWorkerRequest F) (c : Coordinator F)
      → Fits request request.resources
      → stored_already request c ≡ false
      → Calls c (register_worker_handler now later request c).1
  unfolding register_worker_handler
  register_worker_handler-Calls now later request c fits new =
      register_with-Calls now later request request.resources c fits new
