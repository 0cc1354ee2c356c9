-- ===== src/Coordinator/Loops.antt =====
-- The rule for the coordinator's loops. A loop works through a list that it read at its start,
-- while its body changes the stores.
pub mod Mapped
use mathlib.Core.Path.{subst}
use radahn.Common.{
  ℕ, suc, ◌≡◌, refl, sym, ap, inl, inr, Bool, true, false, List, [], ◌∷◌, ok, err, arith, All,
  All-map, All-zip, Result-cases, Str, str_eq, str_eq_comm, if◌then◌else◌, ◌∙◌,
}
use radahn.Common.Keyed
use radahn.Coordinator.State.{Coordinator, M, for_each, count_each}

-- `P` is the invariant; `Current c x` says that the stores still hold the element `x`.
module _ {F A : Type 0} (key : A → Str) (P : Coordinator F → Type 0)
    (Current : Coordinator F → A → Type 0) where
  -- From `c` to `next` the invariant is kept, and what the stores hold under other keys.
  abbrev pub Keeps : A → Coordinator F → Coordinator F → Type 0
  Keeps x c next =
      P next × ((y : A) → str_eq (key x) (key y) ≡ false → Current c y → Current next y)

  module _ {B : Type 0} (body : A → M F B)
      (keep : (x : A) (c : Coordinator F) → P c → Current c x → Keeps x c (body x c).1) where
    -- The elements that are left are still held after the body.
    still_Current :
        (x : A) (xs : List A) (c : Coordinator F)
        → P c
        → Current c x
        → Keyed.has key (key x) xs ≡ false
        → All (Current c) xs
        → All (Current (body x c).1) xs
    still_Current x xs c p now new later =
        All-map xs (λ y q. (keep x c p now).1 y (str_eq_comm (key x) (key y) ∙ q.1) q.0)
          (All-zip (Current c) (λ y. str_eq (key y) (key x) ≡ false) xs later
            (Keyed.All-other key (key x) xs new))

  module _ (body : A → M F (Unit {0}))
      (keep : (x : A) (c : Coordinator F) → P c → Current c x → Keeps x c (body x c).1) where
    pub for_each_inv :
        (xs : List A) (c : Coordinator F)
        → P c
        → Keyed.Unique key xs
        → All (Current c) xs
        → P (for_each body xs c).1
    unfolding for_each
    for_each_inv [] c p u a = p
    for_each_inv (x ∷ xs) c p u a = elim (Result-cases (body x c).0) [
      | inr (e, thrown) ↦ rw (thrown, for_each) ((keep x c p a.0).0)
      | inl (done, returned) ↦
          rw (returned, for_each)
            (for_each_inv xs (body x c).1 (keep x c p a.0).0 u.1
              (still_Current body keep x xs c p a.0 u.0 a.1))
    ]

  module _ (body : A → M F Bool)
      (keep : (x : A) (c : Coordinator F) → P c → Current c x → Keeps x c (body x c).1) where
    pub count_each_inv :
        (xs : List A) (n : ℕ) (c : Coordinator F)
        → P c
        → Keyed.Unique key xs
        → All (Current c) xs
        → P (count_each body xs n c).1
    unfolding count_each
    count_each_inv [] n c p u a = p
    count_each_inv (x ∷ xs) n c p u a = elim (Result-cases (body x c).0) [
      | inr (e, thrown) ↦ rw (thrown, count_each) ((keep x c p a.0).0)
      | inl (b, returned) ↦
          rw (returned, count_each)
            (count_each_inv xs (if b then suc n else n) (body x c).1 (keep x c p a.0).0 u.1
              (still_Current body keep x xs c p a.0 u.0 a.1))
    ]

-- The invariant may speak of the elements that are left; the body does not throw.
module _ {F A : Type 0} (P : List A → Coordinator F → Type 0) (body : A → M F (Unit {0}))
    (step : (x : A) (xs : List A) (c : Coordinator F)
      → P (x ∷ xs) c
      → ((body x c).0 ≡ ok tt) × P xs (body x c).1) where
  pub for_each_returns :
      (xs : List A) (c : Coordinator F)
      → P xs c
      → ((for_each body xs c).0 ≡ ok tt) × P [] (for_each body xs c).1
  unfolding for_each
  for_each_returns [] c p = (refl, p)
  for_each_returns (x ∷ xs) c p =
      let (returned, next) = step x xs c p in
      rw (returned, for_each) (for_each_returns xs (body x c).1 next)
