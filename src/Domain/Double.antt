-- ===== src/Domain/Double.antt =====
-- The arithmetic of the type `double`, which the language gives and no file of the program
-- defines: a parameter of the model. `Double` holds the operations that the program uses,
-- `IsIeee` the facts of IEEE 754 arithmetic, rounding to nearest, that theorems rely on.
use radahn.Common.{ℕ, ◌<◌, word_mod, ◌≡◌, ◌⊎◌, Bool, true, false, if◌then◌else◌}

pub record Double (F : Type 0) : Type 0 where
  pub is_finite : F → Bool
  pub lt : F → F → Bool
  pub le : F → F → Bool
  pub eq : F → F → Bool
  pub add : F → F → F
  pub sub : F → F → F
  pub div : F → F → F
  pub zero : F
  pub cpu_tolerance : F  -- the literal 0.000001
  pub of_size : ℕ → F  -- static_cast<double> of a std::size_t

-- `std::min(a, b)`.
abbrev pub min : {F : Type 0} ⦃d : Double F⦄ → F → F → F
min ⦃d⦄ a b = if d.lt b a then b else a

-- Comparisons are those of the numbers that finite values stand for, and are false at a NaN.
-- Rounding is monotone and exact at representable values, so that a difference `a - b` with
-- `0 < b ≤ a` lies between 0 and `a`, and a sum of nonnegative values is not negative.
pub record IsIeee {F : Type 0} (d : Double F) : Type 0 where
  pub lt_irrefl : (a : F) → d.lt a a ≡ false
  pub lt_trans : (a b c : F) → d.lt a b ≡ true → d.lt b c ≡ true → d.lt a c ≡ true
  pub lt_compare :
      (a b c : F) → d.is_finite b ≡ true → d.lt a c ≡ true → (d.lt a b ≡ true) ⊎ (d.lt b c ≡ true)
  pub lt_le : (a b : F) → d.lt a b ≡ true → d.le a b ≡ true
  pub load_finite :
      (running max : ℕ)
      → running < word_mod
      → max < word_mod
      → 0 < max
      → d.is_finite (d.div (d.of_size running) (d.of_size max)) ≡ true
  pub lt_eq : (a b : F) → d.lt a b ≡ true → d.eq a b ≡ false
  pub eq_of_not_lt :
      (a b : F)
      → d.is_finite a ≡ true
      → d.is_finite b ≡ true
      → d.lt a b ≡ false
      → d.lt b a ≡ false
      → d.eq a b ≡ true
  pub eq_comm : (a b : F) → d.eq a b ≡ d.eq b a
  pub sub_finite :
      (a b : F)
      → d.is_finite a ≡ true
      → d.is_finite b ≡ true
      → d.le b d.zero ≡ false
      → d.lt a b ≡ false
      → d.is_finite (d.sub a b) ≡ true
  pub sub_nonneg :
      (a b : F)
      → d.is_finite a ≡ true
      → d.is_finite b ≡ true
      → d.lt a b ≡ false
      → d.lt (d.sub a b) d.zero ≡ false
  pub sub_le :
      (a b t : F)
      → d.is_finite a ≡ true
      → d.is_finite b ≡ true
      → d.le b d.zero ≡ false
      → d.lt t a ≡ false
      → d.lt t (d.sub a b) ≡ false
  pub add_finite :
      (a b t : F)
      → d.is_finite t ≡ true
      → d.lt a d.zero ≡ false
      → d.le b d.zero ≡ false
      → d.lt (d.add a b) t ≡ true
      → d.is_finite a ≡ true
      → d.is_finite b ≡ true
      → d.is_finite (d.add a b) ≡ true
  pub add_nonneg :
      (a b : F)
      → d.is_finite a ≡ true
      → d.is_finite b ≡ true
      → d.lt a d.zero ≡ false
      → d.le b d.zero ≡ false
      → d.lt (d.add a b) d.zero ≡ false
