-- ===== src/Common/Keyed.antt =====
-- A vector searched by the key of its elements: the `std::find_if`, `std::any_of`, replacement
-- and `erase` that the job queue and both in-memory repositories share.
use mathlib.Core.Path.{subst}
use mathlib.Core.Option.{some-injective}
use radahn.Common.{
  All-map, All-zip, str_eq_refl, ℕ, ◌+◌, ◌≡◌, refl, inl, inr, Bool, false, ◌||◌, Option, none, some,
  List, [], ◌∷◌, ◌++◌, arith, Str, str_eq, str_eq_iff, str_eq_refl, str_eq_sound, if◌then◌else◌,
  is_some, sum_of, All, str_eq_comm, Bool-cases,
}

module _ {A : Type 0} (key : A → Str) where
  -- The first element with this key.
  unfoldable pub find : Str → List A → Option A
  find k [] = none
  find k (x ∷ xs) = if str_eq (key x) k then some x else find k xs

  unfoldable pub has : Str → List A → Bool
  has k [] = false
  has k (x ∷ xs) = str_eq (key x) k || has k xs

  -- The first element with the key of `v` becomes `v`.
  unfoldable pub replace : A → List A → List A
  replace v [] = []
  replace v (x ∷ xs) = if str_eq (key x) (key v) then v ∷ xs else x ∷ replace v xs

  -- The first element with this key goes.
  unfoldable pub erase : Str → List A → List A
  erase k [] = []
  erase k (x ∷ xs) = if str_eq (key x) k then xs else x ∷ erase k xs

  -- No two elements share a key.
  abbrev pub Unique : List A → Type 0
  Unique [] = Unit
  Unique (x ∷ xs) = (has (key x) xs ≡ false) × Unique xs

  pub has-find : (k : Str) (xs : List A) → has k xs ≡ is_some (find k xs)
  unfolding find has
  has-find k [] = refl
  has-find k (x ∷ xs) = ground (arith, has-find k xs)

  pub key-find : (k : Str) (xs : List A) {x : A} → find k xs ≡ some x → key x ≡ k
  unfolding find
  key-find k [] h = cc
  key-find k (y ∷ xs) {x} h = ground (arith, str_eq_sound (key y) k, key-find k xs {x = x})

  pub find-append :
      (k : Str) (xs : List A) (v : A)
      → find k (xs ++ v ∷ [])
        ≡ (if has k xs then find k xs else if str_eq (key v) k then some v else none)
  unfolding find has
  find-append k [] v = refl
  find-append k (x ∷ xs) v = ground (arith, find-append k xs v)

  pub has-append :
      (k : Str) (xs : List A) (v : A) → has k (xs ++ v ∷ []) ≡ (has k xs || str_eq (key v) k)
  unfolding has
  has-append k [] v = ground arith
  has-append k (x ∷ xs) v = ground (arith, has-append k xs v)

  pub has-replace : (k : Str) (v : A) (xs : List A) → has k (replace v xs) ≡ has k xs
  unfolding has replace
  has-replace k v [] = refl
  has-replace k v (x ∷ xs) = ground (arith, has-replace k v xs, str_eq_sound (key x) (key v))

  pub find-replace :
      (k : Str) (v : A) (xs : List A)
      → find k (replace v xs)
        ≡ (if str_eq (key v) k then (if has k xs then some v else none) else find k xs)
  unfolding find has replace
  find-replace k v [] = ground arith
  find-replace k v (x ∷ xs) = ground (
    arith,
    find-replace k v xs,
    str_eq_iff (key x) (key v),
    str_eq_iff (key x) k,
    str_eq_iff (key v) k,
  )

  pub replace-Unique : (v : A) (xs : List A) → Unique xs → Unique (replace v xs)
  unfolding replace
  replace-Unique v [] u = tt
  replace-Unique v (x ∷ xs) u =
      ground
        (arith, replace-Unique v xs u.1, has-replace (key x) v xs, str_eq_sound (key x) (key v))

  pub append-Unique :
      (v : A) (xs : List A) → Unique xs → has (key v) xs ≡ false → Unique (xs ++ v ∷ [])
  unfolding has
  append-Unique v [] u h = (refl, tt)
  append-Unique v (x ∷ xs) u h =
      ground (arith, append-Unique v xs u.1, has-append (key x) xs v, str_eq_comm (key x) (key v))

  pub has-erase :
      (k j : Str) (xs : List A)
      → Unique xs
      → has j (erase k xs) ≡ (if str_eq k j then false else has j xs)
  unfolding has erase
  has-erase k j [] u = ground arith
  has-erase k j (x ∷ xs) u =
      ground
        (arith, has-erase k j xs u.1, str_eq_iff (key x) k, str_eq_iff (key x) j, str_eq_iff k j)

  pub find-none : (k : Str) (xs : List A) → has k xs ≡ false → find k xs ≡ none
  find-none k xs h = ground (arith, has-find k xs)

  pub find-erase :
      (k j : Str) (xs : List A)
      → Unique xs
      → find j (erase k xs) ≡ (if str_eq k j then none else find j xs)
  unfolding find has erase
  find-erase k j [] u = ground arith
  find-erase k j (x ∷ xs) u = ground (
    arith,
    find-erase k j xs u.1,
    find-none j xs,
    str_eq_iff (key x) k,
    str_eq_iff (key x) j,
    str_eq_iff k j,
  )

  pub erase-Unique : (k : Str) (xs : List A) → Unique xs → Unique (erase k xs)
  unfolding erase
  erase-Unique k [] u = tt
  erase-Unique k (x ∷ xs) u = ground (arith, erase-Unique k xs u.1, has-erase k (key x) xs u.1)

  -- What a sum over the elements becomes.
  pub sum_of-replace :
      (f : A → ℕ) (v : A) (xs : List A) {x : A}
      → find (key v) xs ≡ some x
      → sum_of f (replace v xs) + f x ≡ sum_of f xs + f v
  unfolding find replace
  sum_of-replace f v [] h = cc
  sum_of-replace f v (y ∷ xs) {x} h = ground (arith, sum_of-replace f v xs {x = x})

  pub All-find {κ} :
      (P : A → Type κ) (k : Str) (xs : List A) {x : A} → All P xs → find k xs ≡ some x → P x
  unfolding find
  All-find P k [] a h = cc
  All-find P k (y ∷ xs) {x} a h = elim (Bool-cases (str_eq (key y) k)) [
    | inl e ↦ subst P (some-injective y x (rw e at h)) a.0
    | inr e ↦ All-find P k xs a.1 (rw e at h)
  ]

  pub All-replace {κ} :
      (P : A → Type κ) (v : A) (xs : List A) → All P xs → P v → All P (replace v xs)
  unfolding replace
  All-replace P v [] a h = tt
  All-replace P v (x ∷ xs) a h = elim (Bool-cases (str_eq (key x) (key v))) [
    | inl e ↦ rw e (h, a.1)
    | inr e ↦ rw e (a.0, All-replace P v xs a.1 h)
  ]

  pub find-key : (k : Str) (xs : List A) {x : A} → find k xs ≡ some x → find (key x) xs ≡ some x
  find-key k xs {x} h = rw (key-find k xs h) h

  -- What was appended last can be taken back.
  pub erase-append :
      (v : A) (xs : List A) → has (key v) xs ≡ false → erase (key v) (xs ++ v ∷ []) ≡ xs
  unfolding has erase
  erase-append v [] h = rw (str_eq_refl (key v))
  erase-append v (x ∷ xs) h = ground (arith, erase-append v xs)

  pub find-append_self :
      (v : A) (xs : List A) → has (key v) xs ≡ false → find (key v) (xs ++ v ∷ []) ≡ some v
  find-append_self v xs h = ground (arith, find-append (key v) xs v, str_eq_refl (key v))

  pub All-other :
      (k : Str) (xs : List A) → has k xs ≡ false → All (λ y. str_eq (key y) k ≡ false) xs
  unfolding has
  All-other k [] h = tt
  All-other k (x ∷ xs) h = (ground arith, All-other k xs (ground arith))

  -- Where keys are distinct, every element is found under its key.
  pub All-find_self : (xs : List A) → Unique xs → All (λ x. find (key x) xs ≡ some x) xs
  unfolding find
  All-find_self [] u = tt
  All-find_self (x ∷ xs) u = (
    ground (arith, str_eq_refl (key x)),
    All-map xs (λ y p. ground (arith, p.0, p.1, str_eq_comm (key x) (key y)))
        (All-zip _ _ xs (All-find_self xs u.1) (All-other (key x) xs u.0)),
  )

  pub replace_self : (x : A) (xs : List A) → find (key x) xs ≡ some x → replace x xs ≡ xs
  unfolding find replace
  replace_self x [] h = cc
  replace_self x (y ∷ xs) h = ground (arith, replace_self x xs)

  pub replace-replace :
      (v u : A) (xs : List A) → key v ≡ key u → replace v (replace u xs) ≡ replace v xs
  unfolding replace
  replace-replace v u [] same = refl
  replace-replace v u (x ∷ xs) same =
      ground (arith, replace-replace v u xs same, str_eq_refl (key u))
