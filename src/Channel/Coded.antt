-- ===== src/Channel/Coded.antt =====
-- src/net_chan.c: Huff_CompressPacketSizebuf and Huff_DecompressPacketSizebuf, and that the second
-- one undoes the first.
use qwnet_library.Crc.Laws.{AreBytes, drop-AreBytes}
use qwnet_library.Huffman.{compress_packet, max_msglen, decompress_packet}
use qwnet_library.Huffman.RoundTrip.{decompress_packet-compress_packet}
use qwnet_library.Prelude.{
  ℕ, zero, suc, ◌+◌, ◌-◌, ◌≤◌, ◌<◌, ◌≡◌, refl, ap, false, ◌||◌, Option, none, some, List, [], ◌∷◌,
  ◌++◌, arith, length, take, drop, length-append, length-take, length-drop, take-front, drop-front,
  ltb, if◌then◌else◌, le→ltb,
}

-- `struct sizebuf_s`: the bytes that `cursize` counts, and `maxsize`.
pub record Sizebuf : Type 0 where
  pub bytes : List ℕ
  pub maxsize : ℕ

-- Huff_CompressPacketSizebuf. `none` is a write outside the buffer on the stack.
unfoldable pub compress_packet_sizebuf : Sizebuf → ℕ → Option Sizebuf
compress_packet_sizebuf msg offset =
    if ltb (length (msg.bytes)) offset
    then some msg
    else elim (compress_packet (drop offset (msg.bytes)) (max_msglen + 1)) [
      | none ↦ none
      | some new ↦
          if ltb (msg.maxsize) (length new + offset)
          then some msg
          else some (record msg { bytes = take offset (msg.bytes) ++ new })
    ]

-- Huff_DecompressPacketSizebuf. `stale` is what stood in the buffer on the stack behind the copied
-- bytes; `none` is an access outside it, or a write outside the message.
unfoldable pub decompress_packet_sizebuf : List ℕ → Sizebuf → ℕ → Option Sizebuf
decompress_packet_sizebuf stale msg offset =
    if ltb (max_msglen + 1) (length (msg.bytes)) || ltb (length (msg.bytes)) (offset + 1)
    then some msg
    else elim (decompress_packet (drop offset (msg.bytes) ++ stale) (length (msg.bytes) - offset)
        (msg.maxsize - offset)) [
          | none ↦ none
          | some new ↦
              if ltb (msg.maxsize) (length new + offset)
              then none
              else some (record msg { bytes = take offset (msg.bytes) ++ new })
        ]

take-append-drop : (n : ℕ) (xs : List ℕ) → take n xs ++ drop n xs ≡ xs
take-append-drop zero xs = refl
take-append-drop (suc n) [] = refl
take-append-drop (suc n) (x ∷ xs) = ap (λ v. x ∷ v) (take-append-drop n xs)

-- A message that is packed, and the message again.
pub record Unpacked (stale : List ℕ) (msg : Sizebuf) (offset : ℕ) : Type 0 where
  pub coded : Sizebuf
  pub packs : compress_packet_sizebuf msg offset ≡ some coded
  pub unpacks : decompress_packet_sizebuf stale coded offset ≡ some msg

-- A message with at most 1447 bytes behind its header, and at most 1450 in all, is packed and
-- unpacked again without a change where it has a byte of room to grow.
pub decompress_packet_sizebuf-Unpacked :
    (stale bytes : List ℕ) (maxsize offset : ℕ)
    → AreBytes bytes
    → AreBytes stale
    → 2 ≤ length stale
    → offset ≤ length bytes
    → length bytes ≤ 1450
    → length bytes ≤ offset + 1447
    → length bytes < maxsize
    → Unpacked stale (record { bytes = bytes; maxsize = maxsize }) offset
unfolding compress_packet_sizebuf decompress_packet_sizebuf
decompress_packet_sizebuf-Unpacked stale bytes maxsize offset h k two inside short few fits =
    let xs : List ℕ = drop offset bytes in
    let head : List ℕ = take offset bytes in
    let size : length xs ≡ length bytes - offset = length-drop offset bytes in
    let front : offset ≡ length head = omega (arith, length-take offset bytes) in
    let back =
      decompress_packet-compress_packet xs stale 1451 (maxsize - offset)
        (drop-AreBytes offset bytes h) k (omega arith) (omega arith) (omega arith) two in
    let whole : length (head ++ back.packed) ≡ offset + length back.packed =
      omega (arith, length-append head back.packed) in
    let room : length (head ++ back.packed) ≤ maxsize = omega (arith, back.one_more) in
    let count : length (head ++ back.packed) - offset ≡ length back.packed = omega arith in
    let reach : ltb (length bytes) offset ≡ false = le→ltb _ _ inside in
    let not_long : ltb 1451 (length (head ++ back.packed)) ≡ false =
      le→ltb _ _ (omega (arith, back.one_more)) in
    let not_short : ltb (length (head ++ back.packed)) (offset + 1) ≡ false =
      le→ltb _ _ (omega (arith, back.some_byte)) in
    let grows : ltb maxsize (length back.packed + offset) ≡ false = le→ltb _ _ (omega arith) in
    let same_size : ltb maxsize (length xs + offset) ≡ false = le→ltb _ _ (omega arith) in
    let ahead : take offset (head ++ back.packed) ≡ head =
      take-front head back.packed offset front in
    let behind : drop offset (head ++ back.packed) ≡ back.packed =
      drop-front head back.packed offset front in
    record {
      coded = record { bytes = head ++ back.packed; maxsize = maxsize };
      packs = rw (reach, back.returns) (rw (grows) refl);
      unpacks =
          rw (not_long, not_short, behind, count, back.unpacked)
            (rw (same_size, ahead, take-append-drop offset bytes) refl);
    }
