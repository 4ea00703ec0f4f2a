-- ===== src/Huffman/Rounds.antt =====
-- src/huffman.c: the rounds of `huffencbyte`'s loop, one that fills a byte and one that does not.
use native.Mathlib.Nat.{mod-eq_of_lt}
use qwnet_library.Huffman.{copy_bits}
use qwnet_library.Huffman.Bits.{
  low_first, high_first, zeros, low_first-append, low_first-zeros, u16_shifted,
}
use qwnet_library.Huffman.Parts.{replicate-add}
use qwnet_library.Huffman.Writing.{copy_bits-step, copy_bits-done}
use qwnet_library.Prelude.{
  ℕ, suc, ◌+◌, ◌-◌, ◌*◌, ◌^◌, ◌≤◌, ◌<◌, min, ◌≡◌, refl, sym, ap, ◌∙◌, Bool, false, some, List, [],
  ◌∷◌, ◌++◌, append_assoc, arith, length, length-append, length-replicate, u16,
}

pub low_first-padded : (n : ℕ) (w : List Bool) → low_first (w ++ zeros n) ≡ low_first w
low_first-padded n w =
    omega
      (arith, low_first-append w (zeros n), ap (λ (k : ℕ). 2 ^ length w * k) (low_first-zeros n))

-- The last round: the code leaves `p` bits of the byte free.
pub copy_bits-last :
    (r : ℕ) (xs ys : List ℕ) (w t : List Bool) (x l p : ℕ)
    → length w + length t + p ≡ 8
    → 0 < length t
    → l + length t < 2 ^ 32
    → copy_bits
        (suc r)
        (xs ++ low_first w ∷ x ∷ ys)
        (length xs)
        (8 - length w)
        (length t)
        (high_first (t ++ zeros (16 - length t)))
        l
      ≡ some (xs ++ low_first (w ++ t) ∷ 0 ∷ ys, l + length t)
copy_bits-last r xs ys w t x l p h j k =
    let long : length (t ++ zeros p) ≡ length t + p =
      omega (arith, length-append t (zeros p), length-replicate p false) in
    let left : 8 - length w ≡ length (t ++ zeros p) = omega arith in
    let cut : zeros (16 - length t) ≡ zeros p ++ zeros (8 + length w) =
      ap zeros (omega arith) ∙ replicate-add p (8 + length w) false in
    let code : t ++ zeros (16 - length t) ≡ (t ++ zeros p) ++ zeros (8 + length w) =
      ap (λ v. t ++ v) cut ∙ sym (append_assoc t (zeros p) (zeros (8 + length w))) in
    let all : min (length t) (length (t ++ zeros p)) ≡ length t = omega arith in
    let none_left : length t - length t ≡ 0 = omega arith in
    let same : low_first (w ++ (t ++ zeros p)) ≡ low_first (w ++ t) =
      ap low_first (sym (append_assoc w t (zeros p))) ∙ low_first-padded p (w ++ t) in
    let sixteen : length (t ++ zeros p) + length (zeros (8 + length w)) ≡ 16 =
      omega (arith, length-replicate (8 + length w) false) in
    rw (left, code)
      (copy_bits-step r xs ys w (t ++ zeros p) (zeros (8 + length w)) x (length t) l (omega arith)
          sixteen j
        ∙ rw (all, none_left, same, mod-eq_of_lt k) (copy_bits-done r _ _ _ _ _))

-- What is left of a code once its first bits have been shifted out.
shifted_code :
    (a b : List Bool) (p : ℕ)
    → length a + length b + p ≡ 16
    → u16 (high_first (a ++ (b ++ zeros p)) * 2 ^ length a)
      ≡ high_first (b ++ zeros (16 - length b))
shifted_code a b p h =
    let cut : (b ++ zeros p) ++ zeros (length a) ≡ b ++ zeros (16 - length b) =
      append_assoc b (zeros p) (zeros (length a))
      ∙ ap (λ v. b ++ v) (sym (replicate-add p (length a) false) ∙ ap zeros (omega arith)) in
    let long : length (b ++ zeros p) + length a ≡ 16 =
      omega (arith, length-append b (zeros p), length-replicate p false) in
    u16_shifted a (b ++ zeros p) (length a) long ∙ ap high_first cut

-- A round that fills a byte.
pub copy_bits-fill :
    (r : ℕ) (xs ys : List ℕ) (w a b : List Bool) (x l : ℕ)
    → length w + length a ≡ 8
    → length a + length b ≤ 16
    → 0 < length a
    → l + length a < 2 ^ 32
    → copy_bits
        (suc r)
        (xs ++ low_first w ∷ x ∷ ys)
        (length xs)
        (8 - length w)
        (length (a ++ b))
        (high_first ((a ++ b) ++ zeros (16 - length (a ++ b))))
        l
      ≡ copy_bits r
          ((xs ++ low_first (w ++ a) ∷ []) ++ low_first [] ∷ ys)
          (length (xs ++ low_first (w ++ a) ∷ []))
          8
          (length b)
          (high_first (b ++ zeros (16 - length b)))
          (l + length a)
copy_bits-fill r xs ys w a b x l h0 h1 h2 h3 =
    let left : 8 - length w ≡ length a = omega arith in
    let both : length (a ++ b) ≡ length a + length b = length-append a b in
    let p : ℕ = 16 - length (a ++ b) in
    let sixteen : length a + length (b ++ zeros p) ≡ 16 =
      omega (arith, length-append b (zeros p), length-replicate p false) in
    let taken : min (length (a ++ b)) (length a) ≡ length a = omega arith in
    let rest : length (a ++ b) - length a ≡ length b = omega arith in
    let place : length (xs ++ low_first (w ++ a) ∷ []) ≡ length xs + 1 =
      omega (arith, length-append xs (low_first (w ++ a) ∷ [])) in
    rw (left, append_assoc a b (zeros p), append_assoc xs (low_first (w ++ a) ∷ []) (0 ∷ ys), place)
      (copy_bits-step r xs ys w a (b ++ zeros p) x (length (a ++ b)) l h0 sixteen (omega arith)
        ∙ rw (taken, rest, shifted_code a b p (omega arith), mod-eq_of_lt h3) refl)
