-- ===== src/Huffman/Decoder.antt =====
-- src/huffman.c: `huffdecbyte` and the loop of Huff_DecompressPacket, over a buffer in which a stream
-- of codes stands.
use mathlib.Core.Path.{subst}
use qwnet_library.Crc.Laws.{AreBytes}
use qwnet_library.Huffman.{◌>>=◌, dec_byte, decompress_loop}
use qwnet_library.Huffman.Bits.{low_bits, bits, length-low_bits, length-bits, bits-append}
use qwnet_library.Huffman.Parts.{split, same_parts}
use qwnet_library.Huffman.Reading.{dec_byte-at}
use qwnet_library.Huffman.Tables.{
  code_bits, length-code_bits, FitsTables, entry, entry-FitsTables, stream,
}
use qwnet_library.Huffman.Window.{three_bytes}
use qwnet_library.Prelude.{
  ℕ, zero, suc, ◌+◌, ◌-◌, ◌*◌, ◌/◌, ◌%◌, ◌^◌, ◌≤◌, ◌<◌, ◌≡◌, refl, sym, ap, ◌∙◌, Bool, true, false,
  some, List, [], ◌∷◌, ◌++◌, append_assoc, arith, length, length-append, ltb, ◌==◌, lt→ltb, le→ltb,
}

-- The bits that have been read end in the first of the bytes that are left.
bits_left :
    (full rest : List ℕ) (bs t : List Bool)
    → length bs / 8 ≡ length full
    → bits (full ++ rest) ≡ bs ++ t
    → (w : List Bool) × (length w ≡ length bs % 8) × (bits rest ≡ w ++ t)
bits_left full rest bs t h e =
    let d = split (8 * length full) bs (omega arith) in
    let size : length bs ≡ 8 * length full + length d.back =
      ap length d.parts ∙ length-append d.front d.back ∙ ap (λ k. k + length d.back) d.long in
    let parts =
      same_parts (bits full) (bits rest) d.front (d.back ++ t)
        (sym (bits-append full rest) ∙ e ∙ ap (λ v. v ++ t) d.parts ∙ append_assoc d.front d.back t)
        (length-bits full ∙ sym d.long) in
    (d.back, omega (arith, size), parts.1)

dec_byte-rest :
    (c : ℕ) (full rest : List ℕ) (bs t : List Bool)
    → c < 256
    → AreBytes rest
    → 3 ≤ length rest
    → length bs / 8 ≡ length full
    → length bs + 11 < 2 ^ 32
    → bits (full ++ rest) ≡ bs ++ (code_bits (entry c) ++ t)
    → dec_byte (full ++ rest) (length bs) ≡ some (c, length bs + length (code_bits (entry c)))
dec_byte-rest c full [] bs t h small long place k e = absurd (omega arith)
dec_byte-rest c full (b0 ∷ []) bs t h small long place k e = absurd (omega arith)
dec_byte-rest c full (b0 ∷ b1 ∷ []) bs t h small long place k e = absurd (omega arith)
dec_byte-rest c full (b0 ∷ b1 ∷ b2 ∷ rest) bs t h small long place k e =
    let left = bits_left full (b0 ∷ b1 ∷ b2 ∷ rest) bs (code_bits (entry c) ++ t) place e in
    dec_byte-at c b0 b1 b2 (length bs) full rest left.0 h (small.0, small.1.0, small.1.1.0) place
      (sym left.1) k
      (three_bytes (low_bits 8 b0) (low_bits 8 b1) (low_bits 8 b2) (bits rest) left.0
        (code_bits (entry c)) t (length-low_bits 8 b0) (length-low_bits 8 b1) (length-low_bits 8 b2)
        (omega (arith, left.1))
        (omega (arith, length-code_bits (entry c), FitsTables.few_bits (entry-FitsTables c h)))
        left.2)

pub behind-AreBytes : (xs ys : List ℕ) → AreBytes (xs ++ ys) → AreBytes ys
behind-AreBytes [] ys h = h
behind-AreBytes (x ∷ xs) ys h = behind-AreBytes xs ys h.1

pub dec_byte-lem :
    (c : ℕ) (buf : List ℕ) (bs t : List Bool)
    → c < 256
    → AreBytes buf
    → length bs / 8 + 3 ≤ length buf
    → length bs + 11 < 2 ^ 32
    → bits buf ≡ bs ++ (code_bits (entry c) ++ t)
    → dec_byte buf (length bs) ≡ some (c, length bs + length (code_bits (entry c)))
dec_byte-lem c buf bs t h small long k e =
    let s = split (length bs / 8) buf (omega arith) in
    subst (λ v. dec_byte v (length bs) ≡ some (c, length bs + length (code_bits (entry c))))
      (sym s.parts)
      (dec_byte-rest c s.front s.back bs t h
        (behind-AreBytes s.front s.back (subst AreBytes s.parts small))
        (omega (arith, ap length s.parts, length-append s.front s.back, s.long)) (sym s.long) k
        (ap bits (sym s.parts) ∙ e))

-- A buffer that holds the codes of a message ahead, and a place behind them.
pub decompress_loop-lem :
    (room space : ℕ) (cs buf : List ℕ) (bs t : List Bool)
    → AreBytes cs
    → AreBytes buf
    → length cs ≤ room
    → length cs ≤ space
    → (length bs + length (stream cs)) / 8 + 3 ≤ length buf
    → length bs + length (stream cs) + 11 < 2 ^ 32
    → bits buf ≡ bs ++ (stream cs ++ t)
    → decompress_loop room space buf (length bs + length (stream cs)) (length bs) ≡ some cs
unfolding decompress_loop
decompress_loop-lem zero space [] buf bs t h small fits space_left long k e = refl
decompress_loop-lem zero space (c ∷ cs) buf bs t h small fits space_left long k e =
    absurd (omega arith)
decompress_loop-lem (suc room) space [] buf bs t h small fits space_left long k e =
    rw (le→ltb (length bs) (length bs + 0) (omega arith)) refl
decompress_loop-lem (suc room) zero (c ∷ cs) buf bs t h small fits space_left long k e =
    absurd (omega arith)
decompress_loop-lem (suc room) (suc space) (c ∷ cs) buf bs t h small fits space_left long k e =
    let code : List Bool = code_bits (entry c) in
    let some_bit : 1 ≤ length code =
      omega (arith, length-code_bits (entry c), FitsTables.some_bit (entry-FitsTables c h.0)) in
    let both : length (code ++ stream cs) ≡ length code + length (stream cs) =
      length-append code (stream cs) in
    let whole : length bs + length (code ++ stream cs) ≡ length (bs ++ code) + length (stream cs) =
      omega (arith, length-append bs code, both) in
    let more_space : (suc space == 0) ≡ false = ground arith in
    let more : ltb (length bs) (length bs + length (code ++ stream cs)) ≡ true =
      lt→ltb _ _ (omega (arith, both)) in
    let read : dec_byte buf (length bs) ≡ some (c, length bs + length code) =
      dec_byte-lem c buf bs (stream cs ++ t) h.0 small (omega arith) (omega arith)
        (e ∙ ap (λ v. bs ++ v) (append_assoc code (stream cs) t)) in
    let ahead : bits buf ≡ (bs ++ code) ++ (stream cs ++ t) =
      e
      ∙ ap (λ v. bs ++ v) (append_assoc code (stream cs) t)
      ∙ sym (append_assoc bs code (stream cs ++ t)) in
    let rest =
      decompress_loop-lem room (suc space - 1) cs buf (bs ++ code) t h.1 small (omega arith)
        (omega arith) (rw (sym whole) long) (rw (sym whole) k) ahead in
    rw (more, read, ◌>>=◌, sym (length-append bs code), whole)
      (rw (rest, ◌>>=◌) (rw more_space refl))
