-- ===== src/Cli/Requests.antt =====
-- The requests that the client sends.
use mathlib.Core.Path.{subst}
use radahn.Common.{
  ◌≤◌, length, is_empty, ℕ, ◌<◌, ◌≡◌, refl, inl, inr, true, false, Option, some, List, [], ◌∷◌,
  ◌++◌, Str, arith, ℤ, pos, word_mod, ok, Result-cases, Option-cases, on_return,
}
use radahn.Common.Keyed
use radahn.Domain.Double.{Double}
use radahn.Domain.Resource.{ResourceRequirements}
use radahn.Domain.Resource.Validity.{IsValidRequirements}
use radahn.Domain.Workload.{sleeping, sleep, make_workload}
use radahn.Persistence.JobRepository.{record_key}
use radahn.Coordinator.State.{Coordinator}
use radahn.Coordinator.Invariant.{Inv}
use radahn.Service.Handlers.{answer, submit_job_handler}
use radahn.Service.Submitted.{Accepts}
use radahn.Service.Stored.{has_too_long, has_twice}
use radahn.Persistence.Sqlite.Values.{max_int, max_int64}
use radahn.Service.Accepted.{IsAcceptable, submit_job_handler-Accepts}
use radahn.Service.Messages.{
  JobInfo, SubmitJobRequest, rpc_sleep, requested_attempts, checked_size_t, copy_workload,
  copy_workload_of, copy_sleep,
}
use radahn.Cli.Parse.{
  Options, default_options, int_limit, flag_of, parse_int, parse_double, parse_mib, parse_attempts,
  read_options,
}
use radahn.Cli.Read.{flag_cases}
use radahn.Cli.Submit.{
  Conversions, submit_request, default_sleep_duration_ms, priority_field, cpu_field, memory_field,
  disk_field,
}

-- A number of attempts that an `int` can hold.
abbrev InRange : ℕ → Type 0
InRange n = (0 < n) × (n < int_limit)

module _ (stol : Str → Option (ℤ × ℕ)) where
  parse_attempts-InRange : (text : Str) (n : ℕ) → parse_attempts stol text ≡ ok n → InRange n
  unfolding parse_attempts parse_int
  parse_attempts-InRange text n h = elim (Option-cases (stol text)) [
    | inl thrown ↦ ground (arith, thrown)
    | inr ((value, consumed), read) ↦ ground (arith, read)
  ]

  read_options-InRange :
      (arguments : List Str) (before after : Options)
      → InRange before.max_attempts
      → read_options stol before arguments ≡ ok after
      → InRange after.max_attempts
  unfolding read_options
  read_options-InRange [] before after v h = ground (arith, v)
  read_options-InRange (a ∷ []) before after v h = elim (flag_cases (flag_of a)) [
    | inl e ↦ ground (arith, e, v)
    | inr (inl e) ↦ ground (arith, e)
    | inr (inr (inl e)) ↦ ground (arith, e)
    | inr (inr (inr e)) ↦ ground (arith, e)
  ]
  read_options-InRange (a ∷ b ∷ rest) before after v h = elim (flag_cases (flag_of a)) [
    | inl e ↦
        read_options-InRange (b ∷ rest) (record before { requires_gpu = true }) after v
          (ground (arith, e))
    | inr (inl e) ↦
        read_options-InRange rest (record before { tags = before.tags ++ b ∷ [] }) after v
          (ground (arith, e))
    | inr (inr (inl e)) ↦ elim (Result-cases (parse_attempts stol b)) [
      | inl (n, p) ↦
          read_options-InRange rest (record before { max_attempts = n }) after
            (parse_attempts-InRange b n p) (ground (arith, e, p))
      | inr (x, p) ↦ ground (arith, e, p)
    ]
    | inr (inr (inr e)) ↦ ground (arith, e)
  ]

InRange-fits : (n : ℕ) → InRange n → (n < word_mod) × (requested_attempts n ≡ ok n)
unfolding requested_attempts checked_size_t
InRange-fits n v = (omega arith, ground arith)

module _ {F : Type 0} ⦃d : Double F⦄ (convert : Conversions F) where
  -- What the arguments have made, if the client sends a request.
  pub record Requested (id name : Str) (request : SubmitJobRequest F) : Type 0 where
    pub same_id : request.id ≡ id
    pub same_name : request.name ≡ name
    pub positive : 0 < request.max_attempts
    pub fits : request.max_attempts < word_mod
    pub within : request.max_attempts < int_limit
    pub kept : requested_attempts request.max_attempts ≡ ok request.max_attempts
    pub required : ResourceRequirements F
    pub requirements_given : request.requirements ≡ some required
    pub workload_given :
        request.workload
        ≡ some (record { kind = rpc_sleep; sleep_duration_ms = default_sleep_duration_ms })

  submit_request-Requested :
      (id name priority cpu memory disk : Str) (options : List Str) (request : SubmitJobRequest F)
      → submit_request convert id name priority cpu memory disk options ≡ ok request
      → Requested id name request
  unfolding submit_request
  submit_request-Requested id name priority cpu memory disk options request h =
      on_return (parse_int convert.stol priority priority_field) _ request h (λ p p_is h1.
        on_return (parse_double convert.stod cpu cpu_field) _ request h1 (λ cores c_is h2.
          on_return (parse_mib convert.stoull memory memory_field) _ request h2 (λ m m_is h3.
            on_return (parse_mib convert.stoull disk disk_field) _ request h3 (λ k k_is h4.
              on_return (read_options convert.stol default_options options) _ request h4
                (λ o o_is h5.
                  let range =
                    read_options-InRange convert.stol options default_options o (ground arith)
                      o_is in
                  let (fits, kept) = InRange-fits o.max_attempts range in
                  record {
                    same_id = ground arith;
                    same_name = ground arith;
                    positive = ground (arith, range);
                    fits = ground (arith, fits);
                    within = ground (arith, range);
                    kept = ground (arith, kept);
                    required = record {
                      cpu_cores = cores;
                      memory_bytes = m;
                      disk_bytes = k;
                      requires_gpu = o.requires_gpu;
                      required_tags = o.tags;
                    };
                    requirements_given = ground arith;
                    workload_given = ground arith;
                  })))))

  -- A request that the client makes of its arguments is accepted by the service, in a coordinator
  -- that satisfies the invariant, if the requirements are valid, the identifier and the name are
  -- not empty, the lengths of these and of the tags fit an `int`, the identifier is not stored
  -- yet, memory and disk fit the signed columns of the repository, and no tag is named twice.
  pub client_submits :
      (id name priority cpu memory disk : Str) (options : List Str) (request : SubmitJobRequest F)
      (required : ResourceRequirements F) (now : ℤ) (c : Coordinator F)
      → submit_request convert id name priority cpu memory disk options ≡ ok request
      → Inv c
      → request.requirements ≡ some required
      → IsValidRequirements required
      → is_empty id ≡ false
      → is_empty name ≡ false
      → Keyed.has record_key id c.jobs ≡ false
      → length id ≤ max_int
      → length name ≤ max_int
      → required.memory_bytes ≤ max_int64
      → required.disk_bytes ≤ max_int64
      → has_too_long required.required_tags ≡ false
      → has_twice required.required_tags ≡ false
      → (info : JobInfo F) × (next : Coordinator F) × (submit_job_handler now request c
          ≡ (answer info, next))
        × Accepts id c next info
  unfolding copy_workload copy_workload_of copy_sleep sleep make_workload
  client_submits id name priority cpu memory disk options request required now c h v given valid
        has_id has_name unknown id_fits name_fits memory_fits disk_fits tags_fit differ =
      let r = submit_request-Requested id name priority cpu memory disk options request h in
      let a : IsAcceptable request c = record {
        required = required;
        requirements_given = given;
        requirements_valid = valid;
        workload = _;
        workload_given = r.workload_given;
        work = record { kind = sleeping; sleep_duration = pos default_sleep_duration_ms };
        workload_valid = refl;
        attempts = request.max_attempts;
        attempts_valid = r.kept;
        attempts_positive = r.positive;
        named = ground (arith, r.same_name);
        identified = ground (arith, r.same_id);
        unknown = ground (arith, r.same_id);
        id_fits = ground (arith, r.same_id, id_fits);
        name_fits = ground (arith, r.same_name, name_fits);
        memory_fits = memory_fits;
        disk_fits = disk_fits;
        sleep_fits = omega arith;
        attempts_fit = omega (arith, r.within);
        tags_fit = tags_fit;
        tags_differ = differ;
      } in
      subst
        (λ i.
          (info : JobInfo F) × (next : Coordinator F) × (submit_job_handler now request c
            ≡ (answer info, next))
          × Accepts i c next info)
        r.same_id (submit_job_handler-Accepts now request c v a)
