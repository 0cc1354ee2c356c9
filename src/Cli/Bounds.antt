-- ===== src/Cli/Bounds.antt =====
-- Which numbers the client reads.
use radahn.Common.{
  ℕ, ◌*◌, ◌%◌, ◌/◌, ◌-◌, ◌<◌, ◌≤◌, ◌≡◌, ◌↔◌, inl, inr, false, Option, some, Str, arith, length,
  word_mod, ok, Option-cases,
}
use radahn.Cli.Parse.{mebibyte, not_a_size, parse_mib}

size_fits :
    (v : ℕ)
    → v ≤ (word_mod - 1) / mebibyte
    → ((v * mebibyte) % word_mod ≡ v * mebibyte) × (v * mebibyte < word_mod)
size_fits v h = (omega arith, omega arith)

size_small : (v : ℕ) → v * mebibyte < word_mod → v ≤ (word_mod - 1) / mebibyte
size_small v h = omega arith

module _ (stoull : Str → Option (ℕ × ℕ)) where
  -- `parse_mib` reads a size exactly if the text does not begin with a minus sign, `stoull` reads
  -- all of it, and the number of bytes is below 2^64; it gives this number, with no wrap-around.
  pub parse_mib_iff :
      (text field_name : Str) (n : ℕ)
      → (parse_mib stoull text field_name ≡ ok n) ↔ (
          (v : ℕ) × (stoull text ≡ some (v, length text))
          × (not_a_size text ≡ false)
          × (n ≡ v * mebibyte)
          × (n < word_mod))
  unfolding parse_mib
  parse_mib_iff text field_name n = elim (Option-cases (stoull text)) [
    | inl thrown ↦ (λ h. ground (arith, thrown), λ h. ground (arith, thrown))
    | inr ((v, consumed), read) ↦ (
      λ h. (
        v,
        ground (arith, read),
        ground arith,
        ground (arith, size_fits v),
        ground (arith, size_fits v),
      ),
      λ h. ground (arith, size_fits v, h, size_small v),
    )
  ]
