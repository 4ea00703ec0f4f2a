-- ===== src/Huffman/Writing.antt =====
-- src/huffman.c: `huffencbyte` puts the code of a byte behind the bits that are in the buffer.
use mathlib.Core.Path.{subst}
use native.Mathlib.Nat.{mod-eq_of_lt}
use qwnet_library.Huffman.{put, ◌>>=◌, copy_bits}
use qwnet_library.Huffman.Bits.{
  low_first, high_first, zeros, low_first_bound, low_first-append, high_first-append,
  high_first-zeros, low_first-zeros, high_first-div,
}
use qwnet_library.Huffman.Bitswap.{bitswap_table}
use qwnet_library.Huffman.Parts.{get_elem?-middle, set-middle}
use qwnet_library.Huffman.Swap.{bit_or-disjoint_low, bitswap-high_first}
use qwnet_library.Prelude.{
  ℕ, zero, suc, ◌+◌, ◌-◌, ◌*◌, ◌/◌, ◌^◌, ◌<◌, bit_or, min, ◌≡◌, refl, sym, ap, ◌∙◌, Bool, false,
  some, List, [], ◌∷◌, ◌++◌, append_assoc, arith, length, get_elem?, length-append,
  length-replicate, lt→ltb, pos_ne_zero, u8, u16, u32,
}

pub put-middle : (xs ys : List ℕ) (a v : ℕ) → put (xs ++ a ∷ ys) (length xs) v ≡ some (xs ++ v ∷ ys)
unfolding put
put-middle xs ys a v =
    let inside : length xs < length (xs ++ a ∷ ys) = omega (arith, length-append xs (a ∷ ys)) in
    rw (lt→ltb _ _ inside, set-middle xs ys a v) refl

put-next :
    (xs ys : List ℕ) (a b v : ℕ)
    → put (xs ++ a ∷ b ∷ ys) (length xs + 1) v ≡ some (xs ++ a ∷ v ∷ ys)
put-next xs ys a b v =
    let e : length (xs ++ a ∷ []) ≡ length xs + 1 = omega (arith, length-append xs (a ∷ [])) in
    rw (sym e) (
      rw
        (
          sym (append_assoc xs (a ∷ []) (b ∷ ys)),
          put-middle (xs ++ a ∷ []) ys b v,
          append_assoc xs (a ∷ []) (v ∷ ys),
        )
        refl)

-- The byte that the first round of a code writes.
joined_byte :
    (w a : List Bool)
    → length w + length a ≡ 8
    → u8 (bit_or (low_first w) (low_first (zeros (length w) ++ a))) ≡ low_first (w ++ a)
joined_byte w a h =
    let shifted : low_first (zeros (length w) ++ a) ≡ low_first a * 2 ^ length w = omega (
      arith,
      low_first-append (zeros (length w)) a,
      low_first-zeros (length w),
      ap (λ (n : ℕ). 2 ^ n * low_first a) (length-replicate (length w) false),
    ) in
    let joined : bit_or (low_first w) (low_first (zeros (length w) ++ a)) ≡ low_first (w ++ a) =
      bit_or-disjoint_low (length w) _ _ (low_first a) (low_first_bound w) shifted
      ∙ omega (arith, shifted, low_first-append w a) in
    let long : length (w ++ a) ≡ 8 = omega (arith, length-append w a) in
    let small : low_first (w ++ a) < 256 =
      subst (λ n. low_first (w ++ a) < 2 ^ n) long (low_first_bound (w ++ a)) in
    rw joined (mod-eq_of_lt small)

swapped_front :
    (w a b : List Bool)
    → length w + length a ≡ 8
    → length a + length b ≡ 16
    → get_elem? bitswap_table (high_first (a ++ b) / 2 ^ (16 - length a))
      ≡ some (low_first (zeros (length w) ++ a))
swapped_front w a b h j =
    let behind : 16 - length a ≡ length b = omega arith in
    let padded : high_first (zeros (length w) ++ a) ≡ high_first a = omega (
      arith,
      high_first-append (zeros (length w)) a,
      ap (λ (n : ℕ). n * 2 ^ length a) (high_first-zeros (length w)),
    ) in
    let long : length (zeros (length w) ++ a) ≡ 8 =
      omega (arith, length-append (zeros (length w)) a, length-replicate (length w) false) in
    rw (behind, high_first-div a b, sym padded) (bitswap-high_first (zeros (length w) ++ a) long)

pub copy_bits-step :
    (r : ℕ) (xs ys : List ℕ) (w a b : List Bool) (x size l : ℕ)
    → length w + length a ≡ 8
    → length a + length b ≡ 16
    → 0 < size
    → copy_bits
        (suc r)
        (xs ++ low_first w ∷ x ∷ ys)
        (length xs)
        (length a)
        size
        (high_first (a ++ b))
        l
      ≡ copy_bits r
          (xs ++ low_first (w ++ a) ∷ 0 ∷ ys)
          (length xs + 1)
          8
          (size - min size (length a))
          (u16 (high_first (a ++ b) * 2 ^ min size (length a)))
          (u32 (l + min size (length a)))
unfolding copy_bits
copy_bits-step r xs ys w a b x size l h j k =
    rw
      (
        get_elem?-middle xs (x ∷ ys) (low_first w),
        swapped_front w a b h j,
        joined_byte w a h,
        put-middle xs (x ∷ ys) (low_first w) (low_first (w ++ a)),
        put-next xs ys (low_first (w ++ a)) x 0,
      )
      (rw (pos_ne_zero size k, ◌>>=◌) refl)

pub copy_bits-done :
    (r : ℕ) (buf : List ℕ) (o bitsleft code l : ℕ)
    → copy_bits r buf o bitsleft 0 code l ≡ some (buf, l)
unfolding copy_bits
copy_bits-done zero buf o bitsleft code l = refl
copy_bits-done (suc r) buf o bitsleft code l = refl
