-- ===== src/Service/Built.antt =====
-- What the constructors accept of a request.
use radahn.Common.{ℕ, ◌<◌, ◌≡◌, sym, ap, ◌∙◌, Str, word_mod, ok, arith, on_return, ok-injective, ℤ}
use mathlib.Core.Path.{subst}
use radahn.Domain.Double.{Double}
use radahn.Domain.Id.{Tag, StrongId, JobId, make_id, worker}
use radahn.Domain.Job.{Job, new_job, restore, make_job}
use radahn.Domain.Job.Attempts.{IsValidJob}
use radahn.Domain.JobState.{queued}
use radahn.Domain.Resource.{
  ResourceRequirements, WorkerResources, make_requirements, make_resources,
}
use radahn.Domain.Resource.Validity.{
  IsValidRequirements, IsValidResources, make_requirements_iff, make_resources_iff,
}
use radahn.Domain.Worker.{WorkerSnapshot, online, make_snapshot}
use radahn.Domain.Worker.Validity.{IsValidSnapshot, make_snapshot_iff}
use radahn.Domain.Workload.{WorkloadSpec}
use radahn.Domain.WorkerRecord.{WorkerRecord, of_snapshot}
use radahn.Domain.WorkerRecord.Accounts.{IsValidWorker}
use radahn.Service.Messages.{
  RegisterWorkerRequest, checked_size_t, requested_attempts, requested_worker,
}

pub made_id :
    {t : Tag} (s : Str) (id : StrongId t) → make_id t s ≡ ok id → id ≡ record { value = s }
unfolding make_id
made_id s id h = ground arith

pub requested_attempts_word : (n m : ℕ) → n < word_mod → requested_attempts n ≡ ok m → m < word_mod
unfolding requested_attempts checked_size_t
requested_attempts_word n m w h = ground arith

checked : (n m : ℕ) → checked_size_t n ≡ ok m → m ≡ n
unfolding checked_size_t
checked n m h = ground arith

module _ {F : Type 0} where
  pub made_job :
      (id : JobId) (name : Str) (priority : ℤ) (requirements : ResourceRequirements F)
      (workload : WorkloadSpec) (max_attempts : ℕ) (now : ℤ) (job : Job F)
      → new_job id name priority requirements workload max_attempts now ≡ ok job
      → job ≡ record {
        id = id;
        name = name;
        priority = priority;
        requirements = requirements;
        workload = workload;
        state = queued;
        created_at = now;
        attempt_count = 0;
        max_attempts = max_attempts;
      }
  unfolding new_job restore make_job
  made_job id name priority requirements workload max_attempts now job h = ground arith

  pub made_job-IsValidJob :
      (id : JobId) (name : Str) (priority : ℤ) (requirements : ResourceRequirements F)
      (workload : WorkloadSpec) (max_attempts : ℕ) (now : ℤ) (job : Job F)
      → max_attempts < word_mod
      → new_job id name priority requirements workload max_attempts now ≡ ok job
      → IsValidJob job
  unfolding new_job restore make_job
  made_job-IsValidJob id name priority requirements workload max_attempts now job w h = ground arith

module _ {F : Type 0} ⦃d : Double F⦄ where
  pub made_requirements :
      (r made : ResourceRequirements F)
      → make_requirements r ≡ ok made
      → (made ≡ r) × IsValidRequirements r
  unfolding make_requirements
  made_requirements r made h =
      let same : made ≡ r = ground arith in (same, (make_requirements_iff r).0 (h ∙ ap ok same))

  made_resources :
      (r made : WorkerResources F) → make_resources r ≡ ok made → (made ≡ r) × IsValidResources r
  unfolding make_resources
  made_resources r made h =
      let same : made ≡ r = ground arith in (same, (make_resources_iff r).0 (h ∙ ap ok same))

  made_snapshot :
      (s made : WorkerSnapshot F) → make_snapshot s ≡ ok made → (made ≡ s) × IsValidSnapshot s
  unfolding make_snapshot
  made_snapshot s made h =
      let same : made ≡ s = ground arith in (same, (make_snapshot_iff s).0 (h ∙ ap ok same))

  -- The snapshot that a registration describes.
  abbrev pub described : RegisterWorkerRequest F → WorkerResources F → WorkerSnapshot F
  described request resources = record {
    id = record { value = request.worker_id };
    state = online;
    resources = resources;
    running_jobs = request.running_jobs;
    max_concurrent_jobs = request.max_concurrent_jobs;
    tags = request.tags;
  }

  -- The numbers of the messages are of type `uint64`.
  pub record FitsWords (request : RegisterWorkerRequest F) (resources : WorkerResources F)
      : Type 0 where
    pub memory : resources.total_memory_bytes < word_mod
    pub disk : resources.total_disk_bytes < word_mod
    pub slots : request.max_concurrent_jobs < word_mod

  pub requested :
      (request : RegisterWorkerRequest F) (resources : WorkerResources F) (w : WorkerRecord F)
      → requested_worker request resources ≡ ok w
      → (w ≡ of_snapshot (described request resources))
        × IsValidResources resources
        × IsValidSnapshot (described request resources)
  unfolding requested_worker
  requested request resources w h =
      on_return (make_id worker request.worker_id) _ w h (λ id made h1.
        on_return (checked_size_t request.running_jobs) _ w h1 (λ running r_is h2.
          on_return (checked_size_t request.max_concurrent_jobs) _ w h2 (λ slots s_is h3.
            on_return (make_resources resources) _ w h3 (λ kept k_is h4.
              on_return (make_snapshot _) _ w h4 (λ snap m_is h5.
                let from = made_snapshot _ snap m_is in
                let sound = made_resources resources kept k_is in
                let same : ◌≡◌ {A = WorkerSnapshot F}
                    (record {
                      id = id;
                      state = online;
                      resources = kept;
                      running_jobs = running;
                      max_concurrent_jobs = slots;
                      tags = request.tags;
                    })
                    (described request resources) =
                  ground (
                    arith,
                    made_id request.worker_id id made,
                    checked request.running_jobs running r_is,
                    checked request.max_concurrent_jobs slots s_is,
                    sound.0,
                  ) in
                (
                  sym (ok-injective _ _ h5) ∙ ap of_snapshot (from.0 ∙ same),
                  sound.1,
                  subst IsValidSnapshot same from.1,
                ))))))

  -- A registration that is accepted describes a valid worker.
  pub requested-IsValidWorker :
      (request : RegisterWorkerRequest F) (resources : WorkerResources F) (w : WorkerRecord F)
      → FitsWords request resources
      → requested_worker request resources ≡ ok w
      → IsValidWorker w
  unfolding of_snapshot
  requested-IsValidWorker request resources w fits h =
      let (same, r, s) = requested request resources w h in
      subst IsValidWorker (sym same) (record {
        resources_valid = r;
        snapshot_valid = s;
        memory_word = fits.memory;
        disk_word = fits.disk;
        slots_word = fits.slots;
      })
