-- ===== src/Huffman/RoundTrip.antt =====
-- src/huffman.c: Huff_DecompressPacket takes back what Huff_CompressPacket has packed.
use mathlib.Core.Path.{subst}
use qwnet_library.Crc.Laws.{AreBytes, append-AreBytes}
use qwnet_library.Huffman.{◌>>=◌, compress_packet, max_msglen, copied_bytes, decompress_packet}
use qwnet_library.Huffman.Bits.{
  low_first, low_bits, bits, zeros, length-bits, bits-append, low_first_bound, low_bits-low_first,
}
use qwnet_library.Huffman.Codes.{Holds}
use qwnet_library.Huffman.Decoder.{decompress_loop-lem}
use qwnet_library.Huffman.Encoder.{place_of, compress_loop-Encoded}
use qwnet_library.Huffman.Rounds.{low_first-padded}
use qwnet_library.Huffman.Tables.{stream}
use qwnet_library.Prelude.{
  ℕ, zero, suc, ◌+◌, ◌-◌, ◌*◌, ◌/◌, ◌%◌, ◌^◌, ◌≤◌, ◌<◌, ◌≡◌, refl, sym, ap, ◌∙◌, ◌≢◌, inl, inr,
  Bool, true, false, some, List, [], ◌∷◌, ◌++◌, append-nil, append_assoc, arith, length, take,
  replicate, length-append, length-replicate, take-front, ltb, leb, ◌==◌, lt→ltb, le→ltb, leb→lt,
  ==_iff, Bool-cases, u8, u32, sub32,
}

empty_buffer : (n : ℕ) → 0 < n → Holds [] (replicate n 0)
empty_buffer zero h = absurd (omega arith)
empty_buffer (suc n) h = record {
  full = [];
  partial_byte = [];
  after = replicate n 0;
  as_bytes = refl;
  room = omega arith;
  all_bits = refl;
  full_bytes = tt;
}

decompress_packet-raw :
    (xs tail : List ℕ) (outbuflen : ℕ)
    → length xs ≤ max_msglen
    → length xs < outbuflen
    → decompress_packet ((0x80 ∷ xs) ++ tail) (suc (length xs)) outbuflen ≡ some xs
unfolding decompress_packet copied_bytes
decompress_packet-raw xs tail outbuflen few h =
    let size : sub32 (suc (length xs)) 1 ≡ length xs = omega arith in
    let there : ltb (length (xs ++ tail)) (length xs) ≡ false =
      le→ltb _ _ (omega (arith, length-append xs tail)) in
    rw (le→ltb outbuflen (suc (length xs)) (omega arith), ◌>>=◌, size)
      (rw there (ap some (take-front xs tail (length xs) refl)))

low_first-byte : (w : List Bool) → length w < 8 → low_first w < 256
low_first-byte w h =
    let padded : List Bool = w ++ zeros (8 - length w) in
    let eight : length padded ≡ 8 =
      omega
        (arith, length-append w (zeros (8 - length w)), length-replicate (8 - length w) false) in
    omega (
      arith,
      low_first-padded (8 - length w) w,
      subst (λ n. low_first padded < 2 ^ n) eight (low_first_bound padded),
    )

ne_test : (a b : ℕ) → a ≢ b → (a == b) ≡ false
ne_test a b h = elim (Bool-cases (a == b)) [ inl e ↦ absurd (h ((==_iff a b).0 e)) | inr e ↦ e ]

-- The bytes of a buffer up to the one that is not full, and the bits in them.
module _ (bs : List Bool) (buf tail : List ℕ) (held : Holds bs buf) where
  used_bytes : List ℕ
  used_bytes = held.full ++ low_first held.partial_byte ∷ []

  long : length bs ≡ 8 * length held.full + length held.partial_byte
  long = omega (
    arith,
    ap length held.all_bits,
    length-append (bits held.full) held.partial_byte,
    length-bits held.full,
  )

  length-used_bytes : length used_bytes ≡ length held.full + 1
  unfolding used_bytes
  length-used_bytes = length-append held.full _

  take-used_bytes : take ((length bs + 8) / 8) buf ≡ used_bytes
  unfolding used_bytes
  take-used_bytes =
      let behind : used_bytes ++ held.after ≡ buf =
        append_assoc held.full (low_first held.partial_byte ∷ []) held.after ∙ sym held.as_bytes in
      subst (λ v. take ((length bs + 8) / 8) v ≡ used_bytes) behind
        (take-front used_bytes held.after _ (omega (arith, long, held.room, length-used_bytes)))

  used_bytes-AreBytes : AreBytes tail → AreBytes (used_bytes ++ tail)
  unfolding used_bytes
  used_bytes-AreBytes h =
      append-AreBytes _ tail
        (append-AreBytes held.full _ held.full_bytes
          (low_first-byte held.partial_byte held.room, tt))
        h

  bits-used_bytes : (t : List Bool) × (bits (used_bytes ++ tail) ≡ bs ++ t)
  unfolding used_bytes
  bits-used_bytes =
      let free : ℕ = 8 - length held.partial_byte in
      let eight : length (held.partial_byte ++ zeros free) ≡ 8 = omega (
        arith,
        length-append held.partial_byte (zeros free),
        length-replicate free false,
        held.room,
      ) in
      let last : low_bits 8 (low_first held.partial_byte) ≡ held.partial_byte ++ zeros free =
        ap (low_bits 8) (sym (low_first-padded free held.partial_byte))
        ∙ ap (λ n. low_bits n (low_first (held.partial_byte ++ zeros free))) (sym eight)
        ∙ low_bits-low_first (held.partial_byte ++ zeros free) in
      (
        zeros free ++ bits tail,
        bits-append used_bytes tail
            ∙ ap (λ v. v ++ bits tail)
                (bits-append held.full (low_first held.partial_byte ∷ [])
                  ∙ ap (λ v. bits held.full ++ v)
                      (append-nil (low_bits 8 (low_first held.partial_byte)) ∙ last)
                  ∙ sym (append_assoc (bits held.full) held.partial_byte (zeros free))
                  ∙ ap (λ v. v ++ zeros free) (sym held.all_bits))
            ∙ append_assoc bs (zeros free) (bits tail),
      )

  decompress_packet-coded :
      (xs : List ℕ) (outbuflen : ℕ)
      → AreBytes xs
      → AreBytes tail
      → 2 ≤ length tail
      → bs ≡ stream xs
      → length xs ≤ max_msglen
      → length held.full < length xs
      → length xs < outbuflen
      → decompress_packet
          ((u8 (8 - length bs % 8) ∷ used_bytes) ++ tail)
          (suc (length used_bytes))
          outbuflen
        ≡ some xs
  unfolding decompress_packet used_bytes
  decompress_packet-coded xs outbuflen h small two e few inside fits =
      let n : ℕ = length held.full in
      let p : ℕ = length held.partial_byte in
      let part : length bs % 8 ≡ p = omega (arith, long, held.room) in
      let first : u8 (8 - length bs % 8) ≡ 8 - p = omega (arith, part, held.room) in
      let other : (8 - p == 0x80) ≡ false = ne_test (8 - p) 0x80 (omega arith) in
      let size : suc (length used_bytes) ≡ n + 2 = omega (arith, length-used_bytes) in
      let count : sub32 (u32 (sub32 (n + 2) 1 * 8)) (8 - p) ≡ 0 + length (stream xs) =
        omega (arith, long, held.room, ap length e) in
      let room : ltb outbuflen (n + 2) ≡ false = le→ltb _ _ (omega arith) in
      rw (first, size, room, ◌>>=◌)
        (rw (other) (
          rw count (
            decompress_loop-lem max_msglen outbuflen xs (used_bytes ++ tail) [] bits-used_bytes.0 h
              (used_bytes-AreBytes small) few (omega arith)
              (omega (
                arith,
                long,
                held.room,
                ap length e,
                length-append used_bytes tail,
                length-used_bytes,
              ))
              (omega (arith, long, held.room, ap length e))
              (bits-used_bytes.1 ∙ ap (λ v. v ++ bits-used_bytes.0) e))))

-- A message that is packed, and taken back.
pub record TakenBack (xs tail : List ℕ) (outbuflen room : ℕ) : Type 0 where
  pub packed : List ℕ
  pub returns : compress_packet xs outbuflen ≡ some packed
  pub some_byte : 1 ≤ length packed
  pub one_more : length packed ≤ length xs + 1
  pub unpacked : decompress_packet (packed ++ tail) (length packed) room ≡ some xs

-- For a message of at most 1450 bytes, with room for four more in the output buffer,
-- Huff_CompressPacket writes inside that buffer and makes at most one byte more of the message; with
-- two bytes of memory behind them Huff_DecompressPacket makes the message of these bytes again.
pub decompress_packet-compress_packet :
    (xs tail : List ℕ) (outbuflen room : ℕ)
    → AreBytes xs
    → AreBytes tail
    → length xs ≤ max_msglen
    → length xs + 3 < outbuflen
    → length xs < room
    → 2 ≤ length tail
    → TakenBack xs tail outbuflen room
unfolding compress_packet
decompress_packet-compress_packet xs tail outbuflen room h small few fits_in fits two =
    let size : length {A = ℕ} (replicate (outbuflen - 1) 0) ≡ outbuflen - 1 =
      length-replicate (outbuflen - 1) 0 in
    let run =
      compress_loop-Encoded (length xs) xs (replicate (outbuflen - 1) 0) [] h
        (empty_buffer (outbuflen - 1) (omega arith)) (omega (arith, size)) (omega arith) in
    let large : ltb (length xs) outbuflen ≡ true = lt→ltb _ _ (omega arith) in
    elim (Bool-cases (leb (length xs) (run.count / 8))) [
      | inl e ↦ record {
        packed = 0x80 ∷ xs;
        returns = rw (large, run.equation, ◌>>=◌) (rw e refl);
        some_byte = omega arith;
        one_more = omega arith;
        unpacked = decompress_packet-raw xs tail room few fits;
      }
      | inr e ↦
          let inside : run.count / 8 < length xs = leb→lt _ _ e in
          let whole = run.whole inside in
          let long = length-used_bytes (stream xs) run.buf tail whole.0 in
          let parts = place_of (stream xs) run.buf whole.0 in
          record {
            packed = u8 (8 - length (stream xs) % 8) ∷ used_bytes (stream xs) run.buf tail whole.0;
            returns =
                rw (large, run.equation, ◌>>=◌)
                  (rw (e, whole.1, take-used_bytes (stream xs) run.buf tail whole.0) refl);
            some_byte = omega arith;
            one_more = omega (arith, long, parts.0, whole.1);
            unpacked =
                decompress_packet-coded (stream xs) run.buf tail whole.0 xs room h small two refl
                  few (omega (arith, parts.0, whole.1)) fits;
          }
    ]
