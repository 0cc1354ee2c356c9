-- ===== src/Coordinator/Loops/Mapped.antt =====
-- Loops that change every element of a store in turn make of the store what `map` makes of it.
use mathlib.Core.Path.{subst}
use radahn.Common.{
  ℕ, suc, ◌+◌, ◌≡◌, refl, sym, ap, ◌∙◌, Bool, false, some, List, [], ◌∷◌, ◌++◌, map, ok, arith, Str,
  str_eq, str_eq_comm, str_eq_refl, if◌then◌else◌, sum_of,
}
use radahn.Common.Keyed
use radahn.Coordinator.State.{Coordinator, M, for_each, count_each}

-- How many elements pass a test.
abbrev pub count : {A : Type 0} → (A → Bool) → List A → ℕ
count test xs = sum_of (λ x. if test x then 1 else 0) xs

move_over :
    {A : Type 0} (done : List A) (x : A) (xs : List A) → (done ++ x ∷ []) ++ xs ≡ done ++ x ∷ xs
move_over [] x xs = refl
move_over (y ∷ done) x xs = ap (λ zs. y ∷ zs) (move_over done x xs)

module _ {A : Type 0} (key : A → Str) where
  has-after :
      (k : Str) (x : A) (done xs : List A)
      → Keyed.has key k (done ++ x ∷ xs) ≡ false
      → str_eq (key x) k ≡ false
  unfolding Keyed.has
  has-after k x [] xs e = ground arith
  has-after k x (y ∷ done) xs e = has-after k x done xs (ground arith)

  -- What is known of the element that the loop has reached.
  record Turn (effect : A → A) (x : A) (done xs : List A) : Type 0 where
    found : Keyed.find key (key x) (done ++ x ∷ xs) ≡ some x
    replaced : Keyed.replace key (effect x) (done ++ x ∷ xs) ≡ done ++ effect x ∷ xs

  turn :
      (effect : A → A)
      → ((x : A) → key (effect x) ≡ key x)
      → (x : A) (done xs : List A) → Keyed.Unique key (done ++ x ∷ xs)
      → Turn effect x done xs
  unfolding Keyed.find Keyed.replace
  turn effect same x [] xs u = record {
    found = ground (arith, str_eq_refl (key x));
    replaced = ground (arith, same x, str_eq_refl (key x));
  }
  turn effect same x (y ∷ done) xs u =
      let t = turn effect same x done xs u.1 in
      let other = str_eq_comm (key y) (key x) ∙ has-after (key y) x done xs u.0 in
      record {
        found = ground (arith, t.found, other);
        replaced = ground (arith, t.replaced, other, same x);
      }

  module _ {F : Type 0} (get : Coordinator F → List A) (P : Coordinator F → Type 0) (effect : A → A)
      (same : (x : A) → key (effect x) ≡ key x) where
    -- One turn of the loop.
    pub record Turns (next c : Coordinator F) (x : A) : Type 0 where
      pub kept : P next
      pub stored : get next ≡ Keyed.replace key (effect x) (get c)

    next_turn :
        (x : A) (done xs : List A) (c next : Coordinator F)
        → get c ≡ done ++ x ∷ xs
        → Keyed.Unique key (done ++ x ∷ xs)
        → Turns next c x
        → (get next ≡ (done ++ effect x ∷ []) ++ xs)
          × Keyed.Unique key ((done ++ effect x ∷ []) ++ xs)
    next_turn x done xs c next e u t =
        let at = turn effect same x done xs u in
        (
          t.stored
              ∙ ap (Keyed.replace key (effect x)) e
              ∙ at.replaced
              ∙ sym (move_over done (effect x) xs),
          subst (Keyed.Unique key) (at.replaced ∙ sym (move_over done (effect x) xs))
              (Keyed.replace-Unique key (effect x) (done ++ x ∷ xs) u),
        )

    module _ (body : A → M F Bool) (counts : A → Bool)
        (step : (x : A) (c : Coordinator F)
          → P c
          → Keyed.find key (key x) (get c) ≡ some x
          → ((body x c).0 ≡ ok (counts x)) × Turns (body x c).1 c x) where
      pub count_each-map :
          (done xs : List A) (n : ℕ) (c : Coordinator F)
          → P c
          → get c ≡ done ++ xs
          → Keyed.Unique key (done ++ xs)
          → ((count_each body xs n c).0 ≡ ok (n + count counts xs))
            × (get (count_each body xs n c).1 ≡ done ++ map effect xs)
      unfolding count_each
      count_each-map done [] n c p e u = (ap ok (omega arith), e)
      count_each-map done (x ∷ xs) n c p e u =
          let at = turn effect same x done xs u in
          let (returned, t) = step x c p (ap (Keyed.find key (key x)) e ∙ at.found) in
          let (e', u') = next_turn x done xs c (body x c).1 e u t in
          let (m, rest) =
            count_each-map (done ++ effect x ∷ []) xs (if counts x then suc n else n) (body x c).1
              t.kept e' u' in
          (
            rw (returned, count_each) (m ∙ ap ok (ground arith)),
            rw (returned, count_each) (rest ∙ move_over done (effect x) (map effect xs)),
          )

    module _ (body : A → M F (Unit {0}))
        (step : (x : A) (c : Coordinator F)
          → P c
          → Keyed.find key (key x) (get c) ≡ some x
          → ((body x c).0 ≡ ok tt) × Turns (body x c).1 c x) where
      pub for_each-map :
          (done xs : List A) (c : Coordinator F)
          → P c
          → get c ≡ done ++ xs
          → Keyed.Unique key (done ++ xs)
          → ((for_each body xs c).0 ≡ ok tt)
            × P (for_each body xs c).1
            × (get (for_each body xs c).1 ≡ done ++ map effect xs)
      unfolding for_each
      for_each-map done [] c p e u = (refl, p, e)
      for_each-map done (x ∷ xs) c p e u =
          let at = turn effect same x done xs u in
          let (returned, t) = step x c p (ap (Keyed.find key (key x)) e ∙ at.found) in
          let (e', u') = next_turn x done xs c (body x c).1 e u t in
          let (returned_all, kept, rest) =
            for_each-map (done ++ effect x ∷ []) xs (body x c).1 t.kept e' u' in
          (
            rw (returned, for_each) returned_all,
            rw (returned, for_each) kept,
            rw (returned, for_each) (rest ∙ move_over done (effect x) (map effect xs)),
          )
