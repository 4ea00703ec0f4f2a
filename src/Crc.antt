-- ===== src/Crc.antt =====
-- Byte order and checksums of src/common.c. An index outside a table or a buffer is `none`.
mod Data
pub mod Laws
unfoldable pub use Data.{chk_table, crc_table}
use qwnet_library.Prelude.{
  ℕ, ◌+◌, ◌*◌, ◌/◌, ◌%◌, ◌^◌, bit_and, bit_xor, Option, none, some, List, [], ◌∷◌, ◌++◌, get_elem?,
  take, u16, u32,
}
use qwnet_library.Prelude.Action.{◌>>◌}

-- `ShortSwap`, on the pattern of the `short`.
unfoldable pub short_swap : ℕ → ℕ
short_swap l = u16 (bit_and l 255 * 2 ^ 8 + bit_and (l / 2 ^ 8) 255)

-- `LongSwap`, on the pattern of the `int`.
unfoldable pub long_swap : ℕ → ℕ
long_swap l = u32 (
    bit_and l 255 * 2 ^ 24
    + bit_and (l / 2 ^ 8) 255 * 2 ^ 16
    + bit_and (l / 2 ^ 16) 255 * 2 ^ 8
    + bit_and (l / 2 ^ 24) 255)

-- `dat1.b[i]` of FloatSwap: byte `i` of the pattern of the float, the lowest first.
abbrev pub float_byte : ℕ → ℕ → ℕ
float_byte f i = f / 2 ^ (8 * i) % 2 ^ 8

-- FloatSwap, on the pattern of the `float`.
unfoldable pub float_swap : ℕ → ℕ
float_swap f =
    float_byte f 3 + float_byte f 2 * 2 ^ 8 + float_byte f 1 * 2 ^ 16 + float_byte f 0 * 2 ^ 24

infixl 5 ◌>>=◌
abbrev ◌>>=◌ : {A B : Type 0} → Option A → (A → Option B) → Option B
none >>= f = none
some a >>= f = f a

-- One round of CRC_Block; `crc` is an `unsigned short`.
unfoldable pub crc_step : ℕ → ℕ → Option ℕ
crc_step crc byte = do
  entry ← get_elem? crc_table (bit_xor (crc / 2 ^ 8) byte)
  some (u16 (bit_xor (crc * 2 ^ 8) entry))

unfoldable pub crc_from : ℕ → List ℕ → Option ℕ
unfolding crc_step
crc_from crc [] = some crc
crc_from crc (b ∷ bs) = do next ← crc_step crc b; crc_from next bs

-- CRC_Block, from CRC_INIT_VALUE.
unfoldable pub crc_block : List ℕ → Option ℕ
unfolding crc_from
crc_block bytes = crc_from 0xffff bytes

-- COM_BlockSequenceCRCByte: the checksum of the first 60 bytes and of four that the sequence number
-- selects.
unfoldable pub sequence_crc_byte : List ℕ → ℕ → Option ℕ
unfolding crc_block
sequence_crc_byte base sequence = do
  let p = u32 sequence % 1020
  p0 ← get_elem? chk_table p
  p1 ← get_elem? chk_table (p + 1)
  p2 ← get_elem? chk_table (p + 2)
  p3 ← get_elem? chk_table (p + 3)
  let tail =
      bit_xor (bit_and sequence 0xff) p0
      ∷ p1
      ∷ bit_xor (bit_and (sequence / 2 ^ 8) 0xff) p2
      ∷ p3
      ∷ []
  crc ← crc_block (take 60 base ++ tail)
  some (bit_and crc 0xff)
