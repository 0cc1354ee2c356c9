-- ===== src/Service/Chains.antt =====
-- The coordinator's calls that a handler makes, one step after the other.
use radahn.Common.{refl, if◌then◌else◌, ◌≡◌, Bool, true, false, ok, err}
use radahn.Domain.Double.{Double}
use radahn.Domain.Error.{Outcome}
use radahn.Coordinator.State.{Coordinator, M, and_then, ◌>>=◌}
use radahn.Coordinator.Reachable.{Call}
use radahn.Coordinator.Lifecycle.History.{Calls, no_more, next_call}

module _ {F : Type 0} ⦃d : Double F⦄ where
  pub Calls-trans : {a b c : Coordinator F} → Calls a b → Calls b c → Calls a c
  Calls-trans no_more more = more
  Calls-trans (next_call call rest) more = next_call call (Calls-trans rest more)

  pub one-Call : {c next : Coordinator F} → Call c next → Calls c next
  one-Call call = next_call call no_more

  and_then-Calls :
      {A B : Type 0} {start : Coordinator F} (r : Outcome A) (rest : A → M F B) (c : Coordinator F)
      → Calls start c
      → ((a : A) → r ≡ ok a → Calls c (rest a c).1)
      → Calls start (and_then r rest c).1
  and_then-Calls (ok a) rest c before after = Calls-trans before (after a refl)
  and_then-Calls (err e) rest c before after = before

  -- What follows a call runs only if that call has returned.
  pub chain-Calls :
      {A B : Type 0} (m : M F A) (rest : A → M F B) (c : Coordinator F)
      → Calls c (m c).1
      → ((a : A) → (m c).0 ≡ ok a → Calls (m c).1 (rest a (m c).1).1)
      → Calls c ((m >>= rest) c).1
  chain-Calls m rest c before after = and_then-Calls (m c).0 rest (m c).1 before after

  -- A step that changes nothing.
  pub step-Calls :
      {A B : Type 0} (r : Outcome A) (rest : A → M F B) (c : Coordinator F)
      → ((a : A) → r ≡ ok a → Calls c (rest a c).1)
      → Calls c (and_then r rest c).1
  step-Calls r rest c after = and_then-Calls r rest c no_more after

  pub pick-Calls :
      {B : Type 0} (test : Bool) (first second : B × Coordinator F) (c : Coordinator F)
      → (test ≡ true → Calls c first.1)
      → (test ≡ false → Calls c second.1)
      → Calls c (if test then first else second).1
  pick-Calls true first second c on_true on_false = on_true refl
  pick-Calls false first second c on_true on_false = on_false refl

  pub branch-Calls :
      {A : Type 0} (test : Bool) (first second : M F A) (c : Coordinator F)
      → Calls c (first c).1
      → Calls c (second c).1
      → Calls c ((if test then first else second) c).1
  branch-Calls true first second c on_true on_false = on_true
  branch-Calls false first second c on_true on_false = on_false
