-- ===== src/Huffman/Codes.antt =====
-- src/huffman.c: `huffencbyte` puts the code of a byte behind the bits that are in the buffer.
use mathlib.Core.Path.{subst}
use native.Mathlib.Nat.{add-zero}
use qwnet_library.Crc.Laws.{AreBytes, append-AreBytes}
use qwnet_library.Huffman.{copy_bits}
use qwnet_library.Huffman.Bits.{
  low_first, high_first, low_bits, bits, zeros, bits-append, low_first_bound, low_bits-low_first,
}
use qwnet_library.Huffman.Parts.{split}
use qwnet_library.Huffman.Rounds.{copy_bits-last, copy_bits-fill}
use qwnet_library.Huffman.Writing.{copy_bits-done}
use qwnet_library.Prelude.{
  ℕ, zero, suc, ◌+◌, ◌-◌, ◌*◌, ◌^◌, ◌≤◌, ◌<◌, ◌≡◌, refl, sym, ap, ◌∙◌, inl, inr, Bool, Option, some,
  List, [], ◌∷◌, ◌++◌, append-nil, append_assoc, arith, length, length-append, ltb, ltb→lt, ltb→le,
  Bool-cases,
}

full_byte : (w : List Bool) → length w ≡ 8 → low_first w < 256
full_byte w h = subst (λ n. low_first w < 2 ^ n) h (low_first_bound w)

-- The bits that are in a buffer: the last byte has some of its bits still free.
pub record Holds (bs : List Bool) (buf : List ℕ) : Type 0 where
  pub full : List ℕ
  pub partial_byte : List Bool
  pub after : List ℕ
  pub as_bytes : buf ≡ full ++ low_first partial_byte ∷ after
  pub room : length partial_byte < 8
  pub all_bits : bs ≡ bits full ++ partial_byte
  pub full_bytes : AreBytes full

-- The code is in the buffer, which has kept its length, and counted.
pub record PutIn (result : Option (List ℕ × ℕ)) (bs : List Bool) (size l : ℕ) : Type 0 where
  pub buf : List ℕ
  pub equation : result ≡ some (buf, l)
  pub holds : Holds bs buf
  pub same_length : length buf ≡ size

bits-full_byte :
    (xs : List ℕ) (w : List Bool) → length w ≡ 8 → bits (xs ++ low_first w ∷ []) ≡ bits xs ++ w
bits-full_byte xs w h =
    let byte : low_bits 8 (low_first w) ≡ w =
      subst (λ n. low_bits n (low_first w) ≡ w) h (low_bits-low_first w) in
    bits-append xs (low_first w ∷ [])
    ∙ ap (λ v. bits xs ++ v) (append-nil (low_bits 8 (low_first w)) ∙ byte)

PutIn-last :
    (r : ℕ) (xs ys : List ℕ) (w t : List Bool) (x l : ℕ)
    → length w + length t < 8
    → 0 < length t
    → l + length t < 2 ^ 32
    → AreBytes xs
    → PutIn
        (copy_bits
          (suc r)
          (xs ++ low_first w ∷ x ∷ ys)
          (length xs)
          (8 - length w)
          (length t)
          (high_first (t ++ zeros (16 - length t)))
          l)
        (bits xs ++ (w ++ t))
        (length xs + suc (suc (length ys)))
        (l + length t)
PutIn-last r xs ys w t x l h j k small = record {
  buf = xs ++ low_first (w ++ t) ∷ 0 ∷ ys;
  equation = copy_bits-last r xs ys w t x l (8 - (length w + length t)) (omega arith) j k;
  holds = record {
    full = xs;
    partial_byte = w ++ t;
    after = 0 ∷ ys;
    as_bytes = refl;
    room = omega (arith, length-append w t);
    all_bits = refl;
    full_bytes = small;
  };
  same_length = length-append xs _;
}

PutIn-fill :
    (r : ℕ) (xs ys : List ℕ) (w a b : List Bool) (x l : ℕ)
    → length w + length a ≡ 8
    → length a + length b ≤ 16
    → 0 < length a
    → l + length a + length b < 2 ^ 32
    → PutIn
        (copy_bits r
          ((xs ++ low_first (w ++ a) ∷ []) ++ low_first [] ∷ ys)
          (length (xs ++ low_first (w ++ a) ∷ []))
          8
          (length b)
          (high_first (b ++ zeros (16 - length b)))
          (l + length a))
        (bits (xs ++ low_first (w ++ a) ∷ []) ++ b)
        (length (xs ++ low_first (w ++ a) ∷ []) + suc (length ys))
        (l + length a + length b)
    → PutIn
        (copy_bits
          (suc r)
          (xs ++ low_first w ∷ x ∷ ys)
          (length xs)
          (8 - length w)
          (length (a ++ b))
          (high_first ((a ++ b) ++ zeros (16 - length (a ++ b))))
          l)
        (bits xs ++ (w ++ (a ++ b)))
        (length xs + suc (suc (length ys)))
        (l + length (a ++ b))
PutIn-fill r xs ys w a b x l h0 h1 h2 h3 rest =
    let joined : length (w ++ a) ≡ 8 = length-append w a ∙ h0 in
    let counted : l + length a + length b ≡ l + length (a ++ b) =
      omega (arith, length-append a b) in
    record {
      buf = rest.buf;
      equation =
          copy_bits-fill r xs ys w a b x l h0 h1 h2 (omega arith)
          ∙ rest.equation
          ∙ ap (λ n. some (rest.buf, n)) counted;
      holds =
          subst (λ bs. Holds bs rest.buf)
            (ap (λ v. v ++ b) (bits-full_byte xs (w ++ a) joined)
              ∙ append_assoc (bits xs) (w ++ a) b
              ∙ ap (λ v. bits xs ++ v) (append_assoc w a b))
            rest.holds;
      same_length = rest.same_length ∙ omega (arith, length-append xs (low_first (w ++ a) ∷ []));
    }

pub copy_bits-PutIn :
    (r : ℕ) (xs ys : List ℕ) (w t : List Bool) (l : ℕ)
    → length w < 8
    → length t ≤ 16
    → length t ≤ r
    → length w + length t ≤ 8 * length ys
    → l + length t < 2 ^ 32
    → AreBytes xs
    → PutIn
        (copy_bits r
          (xs ++ low_first w ∷ ys)
          (length xs)
          (8 - length w)
          (length t)
          (high_first (t ++ zeros (16 - length t)))
          l)
        (bits xs ++ (w ++ t))
        (length xs + suc (length ys))
        (l + length t)
copy_bits-PutIn r xs ys w [] l h0 h1 h2 h3 h4 small = record {
  buf = xs ++ low_first w ∷ ys;
  equation = rw (add-zero l) (copy_bits-done r _ _ _ _ _);
  holds = record {
    full = xs;
    partial_byte = w;
    after = ys;
    as_bytes = refl;
    room = h0;
    all_bits = ap (λ v. bits xs ++ v) (append-nil w);
    full_bytes = small;
  };
  same_length = length-append xs _;
}
copy_bits-PutIn zero xs ys w (t ∷ ts) l h0 h1 h2 h3 h4 small = absurd (omega arith)
copy_bits-PutIn (suc r) xs [] w (t ∷ ts) l h0 h1 h2 h3 h4 small = absurd (omega arith)
copy_bits-PutIn (suc r) xs (y ∷ ys) w (t ∷ ts) l h0 h1 h2 h3 h4 small =
    let code : List Bool = t ∷ ts in
    elim (Bool-cases (ltb (length w + length code) 8)) [
      | inl e ↦ PutIn-last r xs ys w code y l (ltb→lt _ _ e) (omega arith) h4 small
      | inr e ↦
          let enough : 8 ≤ length w + length code = ltb→le _ _ e in
          let s = split (8 - length w) code (omega arith) in
          let sum : length s.front + length s.back ≡ length code =
            sym (length-append s.front s.back) ∙ sym (ap length s.parts) in
          subst
            (λ v.
              PutIn
                (copy_bits (suc r) (xs ++ low_first w ∷ y ∷ ys) (length xs) (8 - length w)
                  (length v) (high_first (v ++ zeros (16 - length v))) l)
                (bits xs ++ (w ++ v)) (length xs + suc (suc (length ys))) (l + length v))
            (sym s.parts)
            (PutIn-fill r xs ys w s.front s.back y l (omega (arith, s.long)) (omega (arith, sum))
              (omega (arith, s.long)) (omega (arith, sum))
              (copy_bits-PutIn r (xs ++ low_first (w ++ s.front) ∷ []) ys [] s.back
                (l + length s.front) (omega arith) (omega (arith, sum)) (omega (arith, sum, s.long))
                (omega (arith, sum, s.long)) (omega (arith, sum))
                (append-AreBytes xs _ small
                  (full_byte (w ++ s.front) (omega (arith, s.long, length-append w s.front)), tt))))
    ]
