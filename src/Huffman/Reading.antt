-- ===== src/Huffman/Reading.antt =====
-- src/huffman.c: `huffdecbyte` finds the byte whose code stands at a place of the buffer.
use mathlib.Core.Path.{subst}
use native.Mathlib.Nat.{mod-eq_of_lt}
use qwnet_library.Huffman.{◌>>=◌, dec_byte}
use qwnet_library.Huffman.Bits.{
  high_first, low_bits, zeros, two_pow_add, length-low_bits, high_first_bound, high_first-append,
  low_first-low_bits, high_first-div, high_first-padded, u16_shifted,
}
use qwnet_library.Huffman.Bitswap.{bitswap_table}
use qwnet_library.Huffman.Decoding.{dec_table}
use qwnet_library.Huffman.Parts.{get_elem?-middle, get_elem?-behind}
use qwnet_library.Huffman.Swap.{bit_or-disjoint, bitswap-low_first}
use qwnet_library.Huffman.Tables.{
  code_bits, length-code_bits, first_place, FitsTables, entry, entry-FitsTables,
}
use qwnet_library.Huffman.Window.{Window}
use qwnet_library.Prelude.{
  ℕ, ◌+◌, ◌-◌, ◌*◌, ◌/◌, ◌%◌, ◌^◌, ◌≤◌, ◌<◌, bit_or, ◌≡◌, refl, sym, ap, ◌∙◌, Bool, false, some,
  List, ◌∷◌, ◌++◌, arith, length, get_elem?, length-append, length-replicate, u16,
}

-- The two parts of `index` that a shift to the left makes, of the first byte and the second one.
upper_bits :
    (w s0 s1 : List Bool)
    → length w + length s0 ≡ 8
    → length s1 ≡ 8
    → bit_or (u16 (high_first (w ++ s0) * 2 ^ (length w + 8))) (high_first s1 * 2 ^ length w)
      ≡ high_first (s0 ++ s1) * 2 ^ length w
upper_bits w s0 s1 h j =
    let kept : u16 (high_first (w ++ s0) * 2 ^ (length w + 8))
        ≡ high_first s0 * 2 ^ (length w + 8) =
      u16_shifted w s0 (length w + 8) (omega arith) ∙ high_first-padded (length w + 8) s0 in
    let sum : high_first (s0 ++ s1) ≡ high_first s0 * 256 + high_first s1 =
      high_first-append s0 s1 ∙ ap (λ n. high_first s0 * 2 ^ n + high_first s1) j in
    let long : length (s1 ++ zeros (length w)) ≡ length w + 8 =
      omega (arith, length-append s1 (zeros (length w)), length-replicate (length w) false) in
    let small : high_first s1 * 2 ^ length w < 2 ^ (length w + 8) =
      rw (sym (high_first-padded (length w) s1), sym long)
        (high_first_bound (s1 ++ zeros (length w))) in
    rw (kept, sum)
      (bit_or-disjoint (length w + 8) _ _ (high_first s0) refl small
        ∙ omega (arith, ap (λ (n : ℕ). high_first s0 * n) (two_pow_add (length w) 8)))

-- `index`: the 16 bits behind the first `length w` ones.
pub index_bits :
    (w s0 s1 s2 r : List Bool)
    → length w + length s0 ≡ 8
    → length s1 ≡ 8
    → length s2 ≡ length w
    → length r ≡ length s0
    → bit_or
        (bit_or (u16 (high_first (w ++ s0) * 2 ^ (length w + 8))) (high_first s1 * 2 ^ length w))
        (high_first (s2 ++ r) / 2 ^ (8 - length w))
      ≡ high_first ((s0 ++ s1) ++ s2)
index_bits w s0 s1 s2 r h j k m =
    let right : 8 - length w ≡ length r = omega arith in
    rw (upper_bits w s0 s1 h j, right, high_first-div s2 r)
      (bit_or-disjoint (length w) _ _ (high_first (s0 ++ s1)) refl
          (subst (λ n. high_first s2 < 2 ^ n) k (high_first_bound s2))
        ∙ sym (
            high_first-append (s0 ++ s1) s2
            ∙ ap (λ n. high_first (s0 ++ s1) * 2 ^ n + high_first s2) k))

pub swapped_byte : (b : ℕ) → b < 256 → get_elem? bitswap_table b ≡ some (high_first (low_bits 8 b))
swapped_byte b h =
    ap (get_elem? bitswap_table) (sym (low_first-low_bits 8 b h))
    ∙ bitswap-low_first (low_bits 8 b) (length-low_bits 8 b)

-- The next 11 bits are the place in the table.
pub place_found :
    (c : ℕ) (front back : List Bool)
    → c < 256
    → length (code_bits (entry c)) + length front ≡ 11
    → length back ≡ 5
    → get_elem? dec_table (u16 (high_first ((code_bits (entry c) ++ front) ++ back)) / 2 ^ 5)
      ≡ some (c, length (code_bits (entry c)))
place_found c front back h j k =
    let fits = entry-FitsTables c h in
    let code : List Bool = code_bits (entry c) in
    let size : length code ≡ (entry c).0 = length-code_bits (entry c) in
    let long : length ((code ++ front) ++ back) ≡ 16 =
      omega (arith, length-append (code ++ front) back, length-append code front) in
    let small : high_first ((code ++ front) ++ back) < 65536 =
      subst (λ n. high_first ((code ++ front) ++ back) < 2 ^ n) long
        (high_first_bound ((code ++ front) ++ back)) in
    let next : high_first ((code ++ front) ++ back) / 2 ^ 5 ≡ high_first (code ++ front) =
      ap (λ n. high_first ((code ++ front) ++ back) / 2 ^ n) (sym k)
      ∙ high_first-div (code ++ front) back in
    let rest : length front ≡ 11 - (entry c).0 = omega arith in
    let place : high_first (code ++ front) ≡ first_place (entry c) + high_first front =
      high_first-append code front ∙ ap (λ n. high_first code * 2 ^ n + high_first front) rest in
    rw (mod-eq_of_lt small, next, place)
      (fits.decodes (high_first front)
          (subst (λ n. high_first front < 2 ^ n) rest (high_first_bound front))
        ∙ ap (λ n. some (c, n)) (sym size))

-- The place in the table that three bytes give.
entry_found :
    (c : ℕ) (x0 x1 x2 w : List Bool)
    → c < 256
    → length x1 ≡ 8
    → Window x0 x1 x2 w (code_bits (entry c))
    → get_elem? dec_table (
        u16 (
          bit_or
            (bit_or (u16 (high_first x0 * 2 ^ (length w + 8))) (high_first x1 * 2 ^ length w))
            (high_first x2 / 2 ^ (8 - length w)))
        / 2 ^ 5)
      ≡ some (c, length (code_bits (entry c)))
entry_found c x0 x1 x2 w byte long v =
    rw (v.first_byte, v.third_byte)
      (ap (λ n. get_elem? dec_table (u16 n / 2 ^ 5))
          (index_bits w v.s0 x1 v.s2 v.unread v.long_first long v.long_third v.long_unread
            ∙ ap high_first v.index)
        ∙ place_found c v.front v.back byte v.eleven v.five)

pub dec_byte-at :
    (c b0 b1 b2 l : ℕ) (full rest : List ℕ) (w : List Bool)
    → c < 256
    → (b0 < 256) × (b1 < 256) × (b2 < 256)
    → l / 8 ≡ length full
    → l % 8 ≡ length w
    → l + 11 < 2 ^ 32
    → Window (low_bits 8 b0) (low_bits 8 b1) (low_bits 8 b2) w (code_bits (entry c))
    → dec_byte (full ++ b0 ∷ b1 ∷ b2 ∷ rest) l ≡ some (c, l + length (code_bits (entry c)))
unfolding dec_byte
dec_byte-at c b0 b1 b2 l full rest w h small e f k v =
    let found = entry_found c _ _ _ w h (length-low_bits 8 b1) v in
    let few : length (code_bits (entry c)) ≤ 11 =
      omega (arith, length-code_bits (entry c), FitsTables.few_bits (entry-FitsTables c h)) in
    let wrap : l + length (code_bits (entry c)) < 2 ^ 32 = omega arith in
    rw
      (
        e,
        f,
        get_elem?-middle full (b1 ∷ b2 ∷ rest) b0,
        get_elem?-behind full (b0 ∷ b1 ∷ b2 ∷ rest) 1,
        get_elem?-behind full (b0 ∷ b1 ∷ b2 ∷ rest) 2,
        ◌>>=◌,
      )
      (rw (swapped_byte b0 small.0, swapped_byte b1 small.1, swapped_byte b2 small.2, ◌>>=◌)
        (rw (found, ◌>>=◌, mod-eq_of_lt wrap) refl))
