-- ===== src/Prelude/Bits.antt =====
-- Which words the operations on bits stay inside of.
use Prim.Native.Nat.{
  ℕ, zero, suc, ◌/◌, ◌%◌, ◌^◌, ◌≤◌, ◌<◌, digits, min, max, differ, bit_or, bit_or-bitwise, bit_and,
  bit_and-bitwise, bit_xor, bit_xor-bitwise,
}
use native.Mathlib.Omega.{arith}

differ_bits : (x y : ℕ) → x ≤ 1 → y ≤ 1 → differ x y ≤ 1
differ_bits zero y h k = k
differ_bits (suc x) zero h k = h
differ_bits (suc zero) (suc zero) h k = omega arith
differ_bits (suc zero) (suc (suc y)) h k = absurd (omega arith)
differ_bits (suc (suc x)) (suc y) h k = absurd (omega arith)

digits_bound : (n k a b : ℕ) → a < 2 ^ k → b < 2 ^ k → digits (λ y. y) differ n a b < 2 ^ k
digits_bound zero k a b h j = j
digits_bound (suc n) k zero b h j = j
digits_bound (suc n) zero (suc a) b h j = absurd (omega arith)
digits_bound (suc n) (suc k) (suc a) b h j = omega (
  arith,
  digits_bound n k (suc a / 2) (b / 2) (omega arith) (omega arith),
  differ_bits (suc a % 2) (b % 2) (omega arith) (omega arith),
)

pub bit_xor_bound : (k a b : ℕ) → a < 2 ^ k → b < 2 ^ k → bit_xor a b < 2 ^ k
bit_xor_bound k a b h j = rw (bit_xor-bitwise a b) (digits_bound a k a b h j)

masked_bound : (n k a b : ℕ) → b < 2 ^ k → digits (λ y. zero) min n a b < 2 ^ k
masked_bound zero k a b h = omega arith
masked_bound (suc n) k zero b h = omega arith
masked_bound (suc n) zero (suc a) b h =
    omega (arith, masked_bound n zero (suc a / 2) (b / 2) (omega arith))
masked_bound (suc n) (suc k) (suc a) b h =
    omega (arith, masked_bound n k (suc a / 2) (b / 2) (omega arith))

pub bit_and_bound : (k a b : ℕ) → b < 2 ^ k → bit_and a b < 2 ^ k
bit_and_bound k a b h = rw (bit_and-bitwise a b) (masked_bound a k a b h)

max_bits : (x y : ℕ) → x ≤ 1 → y ≤ 1 → max x y ≤ 1
max_bits x y h k = omega arith

joined_bound : (n k a b : ℕ) → a < 2 ^ k → b < 2 ^ k → digits (λ y. y) max n a b < 2 ^ k
joined_bound zero k a b h j = j
joined_bound (suc n) k zero b h j = j
joined_bound (suc n) zero (suc a) b h j = absurd (omega arith)
joined_bound (suc n) (suc k) (suc a) b h j = omega (
  arith,
  joined_bound n k (suc a / 2) (b / 2) (omega arith) (omega arith),
  max_bits (suc a % 2) (b % 2) (omega arith) (omega arith),
)

pub bit_or_bound : (k a b : ℕ) → a < 2 ^ k → b < 2 ^ k → bit_or a b < 2 ^ k
bit_or_bound k a b h j = rw (bit_or-bitwise a b) (joined_bound a k a b h j)
