-- ===== src/Scheduler/Policy/RoundRobin.antt =====
-- The rotation of the round robin policy.
use native.Mathlib.Nat.{mod-add-mod, mod-lt, add-mod-mod, add-mod_right, mod-eq_of_lt}
use mathlib.Core.Path.{◌≡⟨◌⟩◌, ◌∎}
use radahn.Common.{
  ℕ, zero, suc, ◌+◌, ◌-◌, ◌%◌, ◌<◌, ◌≡◌, refl, ap, sym, ◌∙◌, none, some, List, [], ◌∷◌, arith,
  length, get_elem?,
}
use radahn.Domain.Double.{Double}
use radahn.Domain.Worker.{WorkerSnapshot}
use radahn.Scheduler.Policy.{SchedulingDecision, get_or, round_robin_name, select_round_robin}

get_elem?-lt {ℓ} :
    {A : Type ℓ} (xs : List A) (i : ℕ) {x : A} → get_elem? xs i ≡ some x → i < length xs
get_elem?-lt [] i h = cc
get_elem?-lt (y ∷ xs) zero h = omega arith
get_elem?-lt (y ∷ xs) (suc i) h = omega (arith, get_elem?-lt xs i h)

-- A position below the length is in range, whatever stands for the exception.
get_or-get_elem? {ℓ} :
    {A : Type ℓ} (xs : List A) (i : ℕ) (d : A)
    → i < length xs
    → get_elem? xs i ≡ some (get_or xs i d)
get_or-get_elem? [] i d h = elim h [ ]
get_or-get_elem? (x ∷ xs) zero d h = refl
get_or-get_elem? (x ∷ xs) (suc i) d h = get_or-get_elem? xs i d (omega arith)

shift : (i k n : ℕ) → ((i % n + 1) % n + k) % n ≡ (i + suc k) % n
shift i k n = mod-add-mod (i % n + 1) n k ∙ ap (λ t. t % n) (omega arith) ∙ mod-add-mod i n (suc k)

-- The call that reaches position `p` from position `i`.
turn_for : (i p n : ℕ) → p < n → (k : ℕ) × (k < n) × ((i + k) % n ≡ p)
turn_for i p n h = ((p + (n - i % n)) % n, mod-lt _ (omega arith), reaches)
  where
    reaches : (i + (p + (n - i % n)) % n) % n ≡ p
    reaches =
        (i + (p + (n - i % n)) % n) % n
        ≡⟨ add-mod-mod i _ n ⟩ (i + (p + (n - i % n))) % n
        ≡⟨ sym (mod-add-mod i n _) ⟩ (i % n + (p + (n - i % n))) % n
        ≡⟨ ap (λ t. t % n) (omega (arith, mod-lt i {m = n} (omega arith))) ⟩ (p + n) % n
        ≡⟨ add-mod_right p n ⟩ p % n
        ≡⟨ mod-eq_of_lt h ⟩ p ∎

module _ {F : Type 0} ⦃d : Double F⦄ where
  pub round_robin_decision : WorkerSnapshot F → ℕ → SchedulingDecision F
  round_robin_decision worker size = record {
    worker_id = worker.id;
    policy_name = round_robin_name;
    eligible_worker_count = size;
    score = none;
  }

  -- A call with candidates selects the one at `next_index % size` and steps on by one.
  pub select_round_robin_lem :
      (next_index : ℕ) (ws : List (WorkerSnapshot F)) (worker : WorkerSnapshot F)
      → get_elem? ws (next_index % length ws) ≡ some worker
      → select_round_robin next_index ws
        ≡ (some (round_robin_decision worker (length ws)), (next_index % length ws + 1) % length ws)
  unfolding select_round_robin round_robin_decision
  select_round_robin_lem next_index [] worker h = cc
  select_round_robin_lem next_index (first ∷ rest) worker h =
      ground (arith, get_or-get_elem? (first ∷ rest) (next_index % length (first ∷ rest)) first)

  -- The index after `k` calls that are given the same candidates.
  pub index_after : ℕ → ℕ → List (WorkerSnapshot F) → ℕ
  index_after zero next_index ws = next_index
  index_after (suc k) next_index ws = index_after k (select_round_robin next_index ws).1 ws

  index_after-mod :
      (k next_index : ℕ) (ws : List (WorkerSnapshot F))
      → 0 < length ws
      → index_after k next_index ws % length ws ≡ (next_index + k) % length ws
  unfolding index_after select_round_robin
  index_after-mod zero next_index ws h = ap (λ n. n % length ws) (omega arith)
  index_after-mod (suc k) next_index [] h = elim h [ ]
  index_after-mod (suc k) next_index (first ∷ rest) h =
      let n : ℕ = length (first ∷ rest) in
      index_after-mod k ((next_index % n + 1) % n) (first ∷ rest) h ∙ shift next_index k n

  -- From any index, among as many successive round-robin selections as there are candidates,
  -- every candidate is selected by one.
  pub round_robin_fair :
      (next_index p : ℕ) (ws : List (WorkerSnapshot F)) (worker : WorkerSnapshot F)
      → get_elem? ws p ≡ some worker
      → (k : ℕ) × (k < length ws)
        × ((select_round_robin (index_after k next_index ws) ws).0
            ≡ some (round_robin_decision worker (length ws)))
  round_robin_fair next_index p ws worker h =
      let below = get_elem?-lt ws p h in
      let (k, k_lt, reached) = turn_for next_index p (length ws) below in
      (
        k,
        k_lt,
        ap (λ r. r.0)
            (select_round_robin_lem (index_after k next_index ws) ws worker
              (rw (index_after-mod k next_index ws (omega arith), reached) h)),
      )
