-- ===== src/Common/Outcome.antt =====
-- What a call of the program gives: a value, or the exception that it throws.
use mathlib.Core.Path.{◌≡◌, refl}
use mathlib.Core.Bool.{Bool, true, false}
use mathlib.Core.Logic.{◌⊎◌, inl, inr}
use native.Mathlib.Omega.{arith}

-- `E` is the type of the exceptions.
pub data Result {ℓ} (E : Type ℓ) (A : Type ℓ) : Type ℓ where
  err : E → Result E A
  ok : A → Result E A

-- `if (bad) throw e;`
abbrev pub throw_if {ℓ} : {E : Type ℓ} → Bool → E → Result E (Unit {ℓ})
throw_if false thrown = ok tt
throw_if true thrown = err thrown

pub Result-cases {ℓ} :
    {E A : Type ℓ} (r : Result E A) → ((a : A) × (r ≡ ok a)) ⊎ ((e : E) × (r ≡ err e))
Result-cases (err thrown) = inr (thrown, refl)
Result-cases (ok given) = inl (given, refl)

pub ok-injective {ℓ} : {E A : Type ℓ} (a b : A) → ◌≡◌ {A = Result E A} (ok a) (ok b) → a ≡ b
ok-injective a b h = ground arith

module _ {ℓ} {E B : Type ℓ} where
  infixl 5 ◌>>=◌ ◌>>◌
  -- An exception leaves out what follows.
  abbrev pub ◌>>=◌ : {A : Type ℓ} → Result E A → (A → Result E B) → Result E B
  err thrown >>= next = err thrown
  ok given >>= next = next given

  abbrev pub ◌>>◌ : Result E (Unit {ℓ}) → Result E B → Result E B
  check >> rest = check >>= λ done. rest

  -- A chain that returns has returned at each step.
  pub on_return {κ} :
      {A : Type ℓ} {C : Type κ} (r : Result E A) (next : A → Result E B) (b : B)
      → (r >>= next) ≡ ok b
      → ((a : A) → r ≡ ok a → next a ≡ ok b → C)
      → C
  on_return (ok given) next b h use_it = use_it given refl h
  on_return (err thrown) next b h use_it = ground (arith, h)
