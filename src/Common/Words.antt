-- ===== src/Common/Words.antt =====
-- The unsigned 64-bit arithmetic of `std::uint64_t` and `std::size_t`, wrap-around written out.
use Prim.Native.Nat.{ℕ, ◌+◌, ◌-◌, ◌%◌, ◌≤◌, ◌<◌}
use mathlib.Core.Path.{◌≡◌}
use native.Mathlib.Omega.{arith}

abbrev pub word_mod : ℕ
word_mod = 18446744073709551616

unfoldable pub add64 : ℕ → ℕ → ℕ
add64 a b = (a + b) % word_mod

unfoldable pub sub64 : ℕ → ℕ → ℕ
sub64 a b = (a + word_mod - b) % word_mod

-- Without a carry or a borrow the operations are those of the numbers.
pub add64-eq-add : (a b : ℕ) → a + b < word_mod → add64 a b ≡ a + b
unfolding add64
add64-eq-add a b h = omega arith

pub sub64-eq-sub : (a b : ℕ) → b ≤ a → a < word_mod → sub64 a b ≡ a - b
unfolding sub64
sub64-eq-sub a b h k = omega arith
