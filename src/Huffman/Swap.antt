-- ===== src/Huffman/Swap.antt =====
-- For src/huffman.c: what its shifts, its `|` and the table of src/bitswap.h do to the bits of
-- bytes.
use Prim.Native.Nat.{digits, bit_or-bitwise}
use native.Mathlib.Nat.{le_refl, pow-suc}
use qwnet_library.Huffman.Bits.{low_first, high_first, split_and, holds_number, holds_number-eq}
use qwnet_library.Huffman.Bitswap.{bitswap_table}
use qwnet_library.Prelude.{
  ℕ, zero, suc, ◌+◌, ◌*◌, ◌/◌, ◌%◌, ◌^◌, ◌≤◌, ◌<◌, bit_or, max, ◌≡◌, refl, ap, Bool, true, false,
  ◌&&◌, some, List, [], ◌∷◌, arith, length, get_elem?,
}

digits_or : (n k a b q : ℕ) → a ≤ n → a ≡ q * 2 ^ k → b < 2 ^ k → digits (λ y. y) max n a b ≡ a + b
digits_or zero k a b q h e j = omega arith
digits_or (suc n) k zero b q h e j = omega arith
digits_or (suc n) zero (suc a) b q h e j =
    omega (
      arith,
      digits_or n 0 (suc a / 2) (b / 2) (suc a / 2) (omega arith) (omega arith) (omega arith),
    )
digits_or (suc n) (suc k) (suc a) b q h e j =
    let twice : q * 2 ^ suc k ≡ q * 2 ^ k * 2 =
      omega (arith, ap (λ (t : ℕ). q * t) (pow-suc 2 k)) in
    let half : suc a / 2 ≡ q * 2 ^ k = omega arith in
    let even : suc a % 2 ≡ 0 = omega arith in
    omega
      (arith, digits_or n k (suc a / 2) (b / 2) q (omega arith) half (omega (arith, pow-suc 2 k)))

pub bit_or-disjoint : (k a b q : ℕ) → a ≡ q * 2 ^ k → b < 2 ^ k → bit_or a b ≡ a + b
bit_or-disjoint k a b q h j = rw (bit_or-bitwise a b) (digits_or a k a b q (le_refl a) h j)

digits_or_low :
    (n k a b q : ℕ) → a ≤ n → a < 2 ^ k → b ≡ q * 2 ^ k → digits (λ y. y) max n a b ≡ a + b
digits_or_low zero k a b q h j e = omega arith
digits_or_low (suc n) k zero b q h j e = omega arith
digits_or_low (suc n) zero (suc a) b q h j e = absurd (omega arith)
digits_or_low (suc n) (suc k) (suc a) b q h j e =
    let twice : q * 2 ^ suc k ≡ q * 2 ^ k * 2 =
      omega (arith, ap (λ (t : ℕ). q * t) (pow-suc 2 k)) in
    let half : b / 2 ≡ q * 2 ^ k = omega arith in
    let even : b % 2 ≡ 0 = omega arith in
    let small : suc a / 2 < 2 ^ k = omega (arith, pow-suc 2 k) in
    omega (arith, digits_or_low n k (suc a / 2) (b / 2) q (omega arith) small half)

pub bit_or-disjoint_low : (k a b q : ℕ) → a < 2 ^ k → b ≡ q * 2 ^ k → bit_or a b ≡ a + b
bit_or-disjoint_low k a b q h j = rw (bit_or-bitwise a b) (digits_or_low a k a b q (le_refl a) h j)

abbrev all_lists : ℕ → (List Bool → Bool) → Bool
all_lists zero p = p []
all_lists (suc n) p = all_lists n (λ xs. p (true ∷ xs)) && all_lists n (λ xs. p (false ∷ xs))

all_lists-at :
    (xs : List Bool) (p : List Bool → Bool) → all_lists (length xs) p ≡ true → p xs ≡ true
all_lists-at [] p h = h
all_lists-at (true ∷ xs) p h = all_lists-at xs (λ ys. p (true ∷ ys)) (split_and _ _ h).0
all_lists-at (false ∷ xs) p h = all_lists-at xs (λ ys. p (false ∷ ys)) (split_and _ _ h).1

-- `bitswaptable` at the number whose bits, read from the highest one, are those of a byte.
abbrev swaps : List Bool → Bool
swaps xs = holds_number (get_elem? bitswap_table (high_first xs)) (low_first xs)

all_swapped : all_lists 8 swaps ≡ true
all_swapped = refl

pub bitswap-high_first :
    (xs : List Bool) → length xs ≡ 8 → get_elem? bitswap_table (high_first xs) ≡ some (low_first xs)
bitswap-high_first xs h = holds_number-eq _ _ (all_lists-at xs swaps (rw h all_swapped))

abbrev swaps_back : List Bool → Bool
swaps_back xs = holds_number (get_elem? bitswap_table (low_first xs)) (high_first xs)

all_swapped_back : all_lists 8 swaps_back ≡ true
all_swapped_back = refl

pub bitswap-low_first :
    (xs : List Bool) → length xs ≡ 8 → get_elem? bitswap_table (low_first xs) ≡ some (high_first xs)
bitswap-low_first xs h = holds_number-eq _ _ (all_lists-at xs swaps_back (rw h all_swapped_back))
