-- ===== src/Huffman.antt =====
-- src/huffman.c: the static Huffman code of packets. A buffer is a list of bytes; `none` is a read
-- or a write outside it.
mod Encoding
mod Decoding
mod Bitswap
mod Bits
mod Swap
mod Writing
mod Rounds
mod Codes
mod Encoder
mod Parts
mod Reading
mod Decoder
pub mod RoundTrip
pub mod Bounds
mod Window
mod Tables
unfoldable pub use Encoding.{enc_table}
unfoldable pub use Decoding.{dec_table}
unfoldable pub use Bitswap.{bitswap_table}
use qwnet_library.Prelude.{
  ℕ, zero, suc, ◌+◌, ◌-◌, ◌*◌, ◌/◌, ◌%◌, ◌^◌, bit_or, min, Bool, not, ◌||◌, Option, none, some,
  List, [], ◌∷◌, length, get_elem?, set, take, drop, replicate, ltb, leb, ◌==◌, if◌then◌else◌, u8,
  u16, u32, sub32,
}
use qwnet_library.Prelude.Action.{◌>>◌}

-- A write out of range faults.
unfoldable pub put : List ℕ → ℕ → ℕ → Option (List ℕ)
put buf i v = if ltb i (length buf) then some (set buf i v) else none

infixl 5 ◌>>=◌
abbrev pub ◌>>=◌ : {A B : Type 0} → Option A → (A → Option B) → Option B
none >>= f = none
some a >>= f = f a

-- `while(size)`: `o` is the index of the byte, `l` the number of bits so far. The first argument
-- bounds the rounds: each one takes at least one bit.
unfoldable pub copy_bits : ℕ → List ℕ → ℕ → ℕ → ℕ → ℕ → ℕ → Option (List ℕ × ℕ)
unfolding put
copy_bits zero buf o bitsleft size code l = some (buf, l)
copy_bits (suc rounds) buf o bitsleft size code l = if size == 0 then some (buf, l) else do
  old ← get_elem? buf o
  swapped ← get_elem? bitswap_table (code / 2 ^ (16 - bitsleft))
  buf ← put buf o (u8 (bit_or old swapped))
  buf ← put buf (o + 1) 0
  copy_bits rounds buf (o + 1) 8 (size - min size bitsleft) (u16 (code * 2 ^ min size bitsleft))
      (u32 (l + min size bitsleft))

-- `huffencbyte`
unfoldable pub enc_byte : ℕ → List ℕ → ℕ → Option (List ℕ × ℕ)
unfolding copy_bits put
enc_byte inbyte buf l = do
  let bitsleft = 8 - l % 8
  buf ← if bitsleft == 8 then put buf (l / 8) 0 else some buf
  entry ← get_elem? enc_table inbyte
  copy_bits entry.0 buf (l / 8) bitsleft entry.0 entry.1 l

-- `huffdecbyte`: the byte and the new number of bits. `index` is an `unsigned short`.
unfoldable pub dec_byte : List ℕ → ℕ → Option (ℕ × ℕ)
dec_byte buf l = do
  b0 ← get_elem? buf (l / 8)
  b1 ← get_elem? buf (l / 8 + 1)
  b2 ← get_elem? buf (l / 8 + 2)
  s0 ← get_elem? bitswap_table b0
  s1 ← get_elem? bitswap_table b1
  s2 ← get_elem? bitswap_table b2
  let index = bit_or (bit_or (u16 (s0 * 2 ^ (l % 8 + 8))) (s1 * 2 ^ (l % 8))) (s2 / 2 ^ (8 - l % 8))
  entry ← get_elem? dec_table (u16 index / 2 ^ 5)
  some (entry.0, u32 (l + entry.1))

-- Huff_Init: whether there is a table of that checksum.
unfoldable pub init : ℕ → Bool
init tablecrc = tablecrc == 0x5ed5_c4e4 || tablecrc == 0x286f_2e8d

-- `for(i=0;i<inbuflen&&outlen/8<inbuflen;i++)`, over the bytes that are left.
unfoldable pub compress_loop : ℕ → List ℕ → List ℕ → ℕ → Option (List ℕ × ℕ)
unfolding enc_byte
compress_loop inbuflen [] buf outlen = some (buf, outlen)
compress_loop inbuflen (c ∷ cs) buf outlen =
    if not (ltb (outlen / 8) inbuflen)
    then some (buf, outlen)
    else do (buf, outlen) ← enc_byte c buf outlen; compress_loop inbuflen cs buf outlen

-- Huff_CompressPacket: the bytes in front of the returned length. The first one says how many bits
-- of the last byte are unused, or 0x80 that the packet is not compressed.
unfoldable pub compress_packet : List ℕ → ℕ → Option (List ℕ)
unfolding compress_loop
compress_packet inbuf outbuflen = if not (ltb (length inbuf) outbuflen) then some [] else do
  (buf, outlen) ← compress_loop (length inbuf) inbuf (replicate (outbuflen - 1) 0) 0
  if leb (length inbuf) (outlen / 8)
      then some (0x80 ∷ inbuf)
      else some (u8 (8 - outlen % 8) ∷ take ((outlen + 8) / 8) buf)

-- `while(outlen < inbuflen && i < MAX_MSGLEN)`, with `room` bytes left to MAX_MSGLEN and `space` bytes
-- left in the output buffer, which a further byte would be written behind.
unfoldable pub decompress_loop : ℕ → ℕ → List ℕ → ℕ → ℕ → Option (List ℕ)
unfolding dec_byte
decompress_loop zero space encmsg bits outlen = some []
decompress_loop (suc room) space encmsg bits outlen = if not (ltb outlen bits) then some [] else do
  (value, outlen) ← dec_byte encmsg outlen
  rest ← decompress_loop room (space - 1) encmsg bits outlen
  if space == 0 then none else some (value ∷ rest)

abbrev pub max_msglen : ℕ
max_msglen = 1450

-- memcpy of `n` bytes out of the memory; a fault if there are fewer.
unfoldable pub copied_bytes : ℕ → List ℕ → Option (List ℕ)
copied_bytes n memory = if ltb (length memory) n then none else some (take n memory)

-- Huff_DecompressPacket: `inbuf` is the memory from the packet on, of which `inbuflen` bytes are the
-- packet, and `outbuflen` the size of the output buffer. The length of an empty packet wraps round,
-- and the number of bits does if the first byte is too large.
unfoldable pub decompress_packet : List ℕ → ℕ → ℕ → Option (List ℕ)
decompress_packet inbuf inbuflen outbuflen = if ltb outbuflen inbuflen then some [] else do
  first ← get_elem? inbuf 0
  if first == 0x80
      then copied_bytes (sub32 inbuflen 1) (drop 1 inbuf)
      else decompress_loop max_msglen outbuflen (drop 1 inbuf)
          (sub32 (u32 (sub32 inbuflen 1 * 8)) first) 0
