-- ===== src/Base/Bits/Step.antt =====
-- The lowest binary digit of `bit_and`, `bit_or` and `bit_xor`. The native operations stand for a
-- recursion that carries a count of digits to go; any count that is large enough will do.
use Prim.Native.Nat.{
  digits, differ, min, max, ℕ, zero, suc, ◌+◌, ◌*◌, ◌/◌, ◌%◌, ◌≤◌, bit_and, bit_or, bit_xor,
  bit_and-bitwise, bit_or-bitwise, bit_xor-bitwise,
}
use mathlib.Core.Path.{◌≡◌, refl, sym, ap, ◌∙◌}
use native.Mathlib.Omega.{arith}

module _ (last : ℕ → ℕ) (op : ℕ → ℕ → ℕ) where
  -- The count that the operation starts from, its first number, and any greater one agree.
  large_count : (k n a b : ℕ) → n ≤ k → a ≤ n → digits last op n a b ≡ digits last op a a b
  large_count k n zero b h le = from_zero n
    where
      from_zero : (n : ℕ) → digits last op n 0 b ≡ last b
      from_zero zero = refl
      from_zero (suc n) = refl
  large_count k zero (suc a) b h le = absurd (omega arith)
  large_count zero (suc n) (suc a) b h le = absurd (omega arith)
  large_count (suc k) (suc n) (suc a) b h le =
      let half = suc a / 2 in
      ap (λ d. d * 2 + op (suc a % 2) (b % 2))
        (large_count k n half (b / 2) (omega arith) (omega arith)
          ∙ sym (large_count k a half (b / 2) (omega arith) (omega arith)))

  -- The digit of a number that has one.
  low_digit :
      (n m : ℕ)
      → digits last op (suc n) (suc n) m
        ≡ op (suc n % 2) (m % 2) + 2 * digits last op (suc n / 2) (suc n / 2) (m / 2)
  low_digit n m =
      let d = large_count n n (suc n / 2) (m / 2) (omega arith) (omega arith) in rw d (omega arith)

pub bit_and_step : (n m : ℕ) → bit_and n m ≡ min (n % 2) (m % 2) + 2 * bit_and (n / 2) (m / 2)
bit_and_step zero m = simp bit_and-bitwise (omega arith)
bit_and_step (suc n) m = simp bit_and-bitwise (low_digit (λ _. 0) min n m)

pub bit_or_step : (n m : ℕ) → bit_or n m ≡ max (n % 2) (m % 2) + 2 * bit_or (n / 2) (m / 2)
bit_or_step zero m = simp bit_or-bitwise (omega arith)
bit_or_step (suc n) m = simp bit_or-bitwise (low_digit (λ i. i) max n m)

pub bit_xor_step : (n m : ℕ) → bit_xor n m ≡ differ (n % 2) (m % 2) + 2 * bit_xor (n / 2) (m / 2)
bit_xor_step zero m = simp bit_xor-bitwise (omega arith)
bit_xor_step (suc n) m = simp bit_xor-bitwise (low_digit (λ i. i) differ n m)
