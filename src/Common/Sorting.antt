-- ===== src/Common/Sorting.antt =====
-- `std::sort` by a strict comparison, as insertion sort: where the comparison tells all elements
-- apart, every sorting algorithm gives this list.
use mathlib.Core.List.{Perm}
use mathlib.Core.List.Perm
use radahn.Common.{
  ◌≡◌, ◌⊎◌, inl, inr, Bool, true, false, List, [], ◌∷◌, arith, All, if◌then◌else◌, Bool-cases,
}

-- What the standard library asks of a comparison.
pub record IsStrictWeak {A : Type 0} (lt : A → A → Bool) : Type 0 where
  pub asymm : (a b : A) → lt a b ≡ true → lt b a ≡ false
  pub compare : (a b c : A) → lt a c ≡ true → (lt a b ≡ true) ⊎ (lt b c ≡ true)

module _ {A : Type 0} (lt : A → A → Bool) where
  unfoldable pub insert : A → List A → List A
  insert x [] = x ∷ []
  insert x (y ∷ ys) = if lt y x then y ∷ insert x ys else x ∷ y ∷ ys

  unfoldable pub sort : List A → List A
  unfolding insert
  sort [] = []
  sort (x ∷ xs) = insert x (sort xs)

  -- No later element goes before an earlier one.
  abbrev pub IsSorted : List A → Type 0
  IsSorted [] = Unit
  IsSorted (x ∷ xs) = All (λ y. lt y x ≡ false) xs × IsSorted xs

  insert-perm : (x : A) (ys : List A) → Perm (insert x ys) (x ∷ ys)
  unfolding insert
  insert-perm x [] = Perm.rfl
  insert-perm x (y ∷ ys) = elim (Bool-cases (lt y x)) [
    | inl e ↦ rw e (Perm.trans (Perm.cons y (insert-perm x ys)) (Perm.swap x y ys))
    | inr e ↦ rw e Perm.rfl
  ]

  pub sort-perm : (xs : List A) → Perm (sort xs) xs
  unfolding sort
  sort-perm [] = Perm.nil
  sort-perm (x ∷ xs) = Perm.trans (insert-perm x (sort xs)) (Perm.cons x (sort-perm xs))

  All-insert {κ} : (P : A → Type κ) (x : A) (ys : List A) → P x → All P ys → All P (insert x ys)
  unfolding insert
  All-insert P x [] p a = (p, tt)
  All-insert P x (y ∷ ys) p a = elim (Bool-cases (lt y x)) [
    | inl e ↦ rw e (a.0, All-insert P x ys p a.1)
    | inr e ↦ rw e (p, a)
  ]

  pub All-sort {κ} : (P : A → Type κ) (xs : List A) → All P xs → All P (sort xs)
  unfolding sort
  All-sort P [] a = tt
  All-sort P (x ∷ xs) a = All-insert P x (sort xs) a.0 (All-sort P xs a.1)

  module _ (order : IsStrictWeak lt) where
    -- What is not before `y`, which is not before `x`, is not before `x`.
    pub not_before : (x y z : A) → lt y x ≡ false → lt z y ≡ false → lt z x ≡ false
    not_before x y z h k = elim (Bool-cases (lt z x)) [
      | inl e ↦ ground (arith, order.compare z y x e)
      | inr e ↦ e
    ]

    All-not_before :
        (x y : A) (zs : List A)
        → lt y x ≡ false
        → All (λ z. lt z y ≡ false) zs
        → All (λ z. lt z x ≡ false) zs
    All-not_before x y [] h a = tt
    All-not_before x y (z ∷ zs) h a = (not_before x y z h a.0, All-not_before x y zs h a.1)

    insert-IsSorted : (x : A) (ys : List A) → IsSorted ys → IsSorted (insert x ys)
    unfolding insert
    insert-IsSorted x [] s = (tt, tt)
    insert-IsSorted x (y ∷ ys) s = elim (Bool-cases (lt y x)) [
      | inl e ↦
          rw e (
            All-insert (λ z. lt z y ≡ false) x ys (order.asymm y x e) s.0,
            insert-IsSorted x ys s.1,
          )
      | inr e ↦ rw e ((e, All-not_before x y ys e s.0), s)
    ]

    pub sort-IsSorted : (xs : List A) → IsSorted (sort xs)
    unfolding sort
    sort-IsSorted [] = tt
    sort-IsSorted (x ∷ xs) = insert-IsSorted x (sort xs) (sort-IsSorted xs)
