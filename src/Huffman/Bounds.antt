-- ===== src/Huffman/Bounds.antt =====
-- src/huffman.c: how far Huff_DecompressPacket reads and how much it writes, whatever it is given.
use native.Mathlib.Nat.{mod-eq_of_lt}
use qwnet_library.Crc.Laws.{AreBytes, take-AreBytes}
use qwnet_library.Huffman.{
  ◌>>=◌, dec_byte, decompress_loop, max_msglen, copied_bytes, decompress_packet,
}
use qwnet_library.Huffman.Bits.{high_first, low_bits, split_and}
use qwnet_library.Huffman.Bitswap.{bitswap_table}
use qwnet_library.Huffman.Decoding.{dec_table}
use qwnet_library.Huffman.Reading.{swapped_byte}
use qwnet_library.Prelude.{
  ℕ, zero, suc, ◌+◌, ◌-◌, ◌*◌, ◌/◌, ◌%◌, ◌^◌, ◌≤◌, ◌<◌, bit_or, max, ◌≡◌, refl, ◌∙◌, inl, inr, Bool,
  true, false, ◌&&◌, Option, some, List, [], ◌∷◌, arith, length, get_elem?, take, length-take, ltb,
  leb, ◌==◌, ltb→lt, le→ltb, leb→le, Bool-cases, u16, u32, sub32,
}

abbrev small_entries : List (ℕ × ℕ) → Bool
small_entries [] = true
small_entries (e ∷ es) = (ltb e.0 256 && leb e.1 11) && small_entries es

table_is_small : small_entries dec_table ≡ true
unfolding dec_table
table_is_small = refl

table_is_long : length dec_table ≡ 2048
unfolding dec_table
table_is_long = refl

-- An entry of the decoding table.
record Entry (es : List (ℕ × ℕ)) (i : ℕ) : Type 0 where
  found : ℕ × ℕ
  here : get_elem? es i ≡ some found
  is_byte : found.0 < 256
  few_bits : found.1 ≤ 11

looked_up_in : (es : List (ℕ × ℕ)) (i : ℕ) → small_entries es ≡ true → i < length es → Entry es i
looked_up_in [] i h j = absurd (omega arith)
looked_up_in (e ∷ es) zero h j =
    let first : (ltb e.0 256 && leb e.1 11) ≡ true = (split_and _ _ h).0 in
    let both : (ltb e.0 256 ≡ true) × (leb e.1 11 ≡ true) = split_and _ _ first in
    record {
      found = e;
      here = refl;
      is_byte = ltb→lt e.0 256 both.0;
      few_bits = leb→le e.1 11 both.1;
    }
looked_up_in (e ∷ es) (suc i) h j =
    let rest = looked_up_in es i (split_and _ _ h).1 (omega arith) in
    record {
      found = rest.found;
      here = rest.here;
      is_byte = rest.is_byte;
      few_bits = rest.few_bits;
    }

-- A byte of a buffer, and its entry in the swap table.
record Swapped (buf : List ℕ) (i : ℕ) : Type 0 where
  byte : ℕ
  swapped : ℕ
  read : get_elem? buf i ≡ some byte
  looked_up : get_elem? bitswap_table byte ≡ some swapped

byte_in_memory : (buf : List ℕ) (i : ℕ) → AreBytes buf → i < length buf → Swapped buf i
byte_in_memory [] i h j = absurd (omega arith)
byte_in_memory (b ∷ bs) zero h j = record {
  byte = b;
  swapped = high_first (low_bits 8 b);
  read = refl;
  looked_up = swapped_byte b h.0;
}
byte_in_memory (b ∷ bs) (suc i) h j =
    let rest = byte_in_memory bs i h.1 (omega arith) in
    record {
      byte = rest.byte;
      swapped = rest.swapped;
      read = rest.read;
      looked_up = rest.looked_up;
    }

-- A byte that was read, and where the reading goes on.
record ByteRead (l : ℕ) (o : Option (ℕ × ℕ)) : Type 0 where
  value : ℕ
  next : ℕ
  returns : o ≡ some (value, next)
  is_byte : value < 256
  near : next ≤ l + 11

dec_byte-ByteRead :
    (buf : List ℕ) (l : ℕ)
    → AreBytes buf
    → l / 8 + 3 ≤ length buf
    → l + 11 < 2 ^ 32
    → ByteRead l (dec_byte buf l)
unfolding dec_byte
dec_byte-ByteRead buf l h j k =
    let a = byte_in_memory buf (l / 8) h (omega arith) in
    let b = byte_in_memory buf (l / 8 + 1) h (omega arith) in
    let c = byte_in_memory buf (l / 8 + 2) h (omega arith) in
    let index : ℕ =
      bit_or (bit_or (u16 (a.swapped * 2 ^ (l % 8 + 8))) (b.swapped * 2 ^ (l % 8)))
        (c.swapped / 2 ^ (8 - l % 8)) in
    let e =
      looked_up_in dec_table (u16 index / 2 ^ 5) table_is_small (omega (arith, table_is_long)) in
    let wrap : l + e.found.1 < 2 ^ 32 = omega (arith, e.few_bits) in
    record {
      value = e.found.0;
      next = l + e.found.1;
      returns =
          rw (a.read, b.read, c.read, ◌>>=◌)
            (rw (a.looked_up, b.looked_up, c.looked_up, ◌>>=◌)
              (rw (e.here, ◌>>=◌, mod-eq_of_lt wrap) refl));
      is_byte = e.is_byte;
      near = omega (arith, e.few_bits);
    }

-- A message of bytes, of bounded length.
pub record BytesUpTo (limit : ℕ) (o : Option (List ℕ)) : Type 0 where
  pub message : List ℕ
  pub returns : o ≡ some message
  pub are_bytes : AreBytes message
  pub short : length message ≤ limit

decompress_loop-BytesUpTo :
    (room space : ℕ) (buf : List ℕ) (limit l : ℕ)
    → AreBytes buf
    → room ≤ space
    → (l + 11 * room) / 8 + 3 ≤ length buf
    → l + 11 * room + 11 < 2 ^ 32
    → BytesUpTo room (decompress_loop room space buf limit l)
unfolding decompress_loop
decompress_loop-BytesUpTo zero space buf limit l h space_left j k = record {
  message = [];
  returns = refl;
  are_bytes = tt;
  short = omega arith;
}
decompress_loop-BytesUpTo (suc room) zero buf limit l h space_left j k = absurd (omega arith)
decompress_loop-BytesUpTo (suc room) (suc space) buf limit l h space_left j k =
    elim (Bool-cases (ltb l limit)) [
      | inr e ↦ record { message = []; returns = rw e refl; are_bytes = tt; short = omega arith }
      | inl e ↦
          let more_space : (suc space == 0) ≡ false = ground arith in
          let first = dec_byte-ByteRead buf l h (omega arith) (omega arith) in
          let rest =
            decompress_loop-BytesUpTo room (suc space - 1) buf limit first.next h (omega arith)
              (omega (arith, first.near)) (omega (arith, first.near)) in
          record {
            message = first.value ∷ rest.message;
            returns = rw (e, first.returns, ◌>>=◌) (rw (rest.returns, ◌>>=◌) (rw more_space refl));
            are_bytes = (first.is_byte, rest.are_bytes);
            short = omega (arith, rest.short);
          }
    ]

pub decompress_packet-BytesUpTo :
    (inbuf : List ℕ) (n outbuflen : ℕ)
    → AreBytes inbuf
    → 1997 ≤ length inbuf
    → n < length inbuf
    → n + 1 < 2 ^ 32
    → max_msglen ≤ outbuflen
    → BytesUpTo (max max_msglen n) (decompress_packet inbuf (n + 1) outbuflen)
unfolding decompress_packet copied_bytes
decompress_packet-BytesUpTo [] n outbuflen h j inside small room = absurd (omega arith)
decompress_packet-BytesUpTo (b ∷ bs) n outbuflen h j inside small room =
    let size : sub32 (n + 1) 1 ≡ n = omega arith in
    elim (Bool-cases (ltb outbuflen (n + 1))) [
      | inl e ↦ record { message = []; returns = rw e refl; are_bytes = tt; short = omega arith }
      | inr e ↦ elim (Bool-cases (b == 0x80)) [
        | inl raw ↦
            let there : ltb (length bs) n ≡ false = le→ltb _ _ (omega arith) in
            record {
              message = take n bs;
              returns = rw (e, raw, size) (rw there refl);
              are_bytes = take-AreBytes n bs h.1;
              short = omega (arith, length-take n bs);
            }
        | inr coded ↦
            let run =
              decompress_loop-BytesUpTo max_msglen outbuflen bs (sub32 (u32 (n * 8)) b) 0 h.1 room
                (omega arith) (omega arith) in
            let opened : decompress_packet (b ∷ bs) (n + 1) outbuflen
                ≡ decompress_loop max_msglen outbuflen bs (sub32 (u32 (n * 8)) b) 0 =
              rw (e, coded, size) refl in
            record {
              message = run.message;
              returns = opened ∙ run.returns;
              are_bytes = run.are_bytes;
              short = omega (arith, run.short);
            }
      ]
    ]
