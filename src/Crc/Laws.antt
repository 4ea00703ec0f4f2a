-- ===== src/Crc/Laws.antt =====
-- The checksum is always found: no index leaves a table.
use qwnet_library.Crc.{float_byte, float_swap, crc_step, crc_from, crc_block, sequence_crc_byte}
use qwnet_library.Crc.Data.{chk_table, crc_table}
use qwnet_library.Prelude.{
  ℕ, zero, suc, ◌+◌, ◌*◌, ◌/◌, ◌%◌, ◌^◌, ◌<◌, bit_and, bit_xor, ◌≡◌, refl, Bool, true, ◌&&◌, Option,
  some, List, [], ◌∷◌, ◌++◌, arith, length, get_elem?, get_or, take, drop, get_elem?-eq-get_or, ltb,
  u16, u32,
}
use qwnet_library.Prelude.Bits.{bit_xor_bound, bit_and_bound}

test_crc :
    crc_block (b'1' ∷ b'2' ∷ b'3' ∷ b'4' ∷ b'5' ∷ b'6' ∷ b'7' ∷ b'8' ∷ b'9' ∷ []) ≡ some 0x29b1
unfolding crc_block
test_crc = refl

abbrev pub AreBytes : List ℕ → Type 0
AreBytes [] = Unit {0}
AreBytes (b ∷ bs) = (b < 256) × AreBytes bs

pub append-AreBytes : (xs ys : List ℕ) → AreBytes xs → AreBytes ys → AreBytes (xs ++ ys)
append-AreBytes [] ys h k = k
append-AreBytes (x ∷ xs) ys h k = (h.0, append-AreBytes xs ys h.1 k)

pub take-AreBytes : (n : ℕ) (xs : List ℕ) → AreBytes xs → AreBytes (take n xs)
take-AreBytes zero xs h = tt
take-AreBytes (suc n) [] h = tt
take-AreBytes (suc n) (x ∷ xs) h = (h.0, take-AreBytes n xs h.1)

pub drop-AreBytes : (n : ℕ) (xs : List ℕ) → AreBytes xs → AreBytes (drop n xs)
drop-AreBytes zero xs h = h
drop-AreBytes (suc n) [] h = tt
drop-AreBytes (suc n) (x ∷ xs) h = drop-AreBytes n xs h.1

-- A checksum that is found, and fits into `bits` bits.
pub record Summed (bits : ℕ) (result : Option ℕ) : Type 0 where
  pub value : ℕ
  pub returns : result ≡ some value
  pub small : value < 2 ^ bits

crc_table-length : length crc_table ≡ 256
crc_table-length = refl

crc_step-Summed : (crc byte : ℕ) → crc < 2 ^ 16 → byte < 256 → Summed 16 (crc_step crc byte)
unfolding crc_step
crc_step-Summed crc byte h k =
    let index = bit_xor (crc / 2 ^ 8) byte in
    let inside = bit_xor_bound 8 (crc / 2 ^ 8) byte (omega arith) (omega arith) in
    let entry = get_or crc_table index 0 in
    rw (get_elem?-eq-get_or crc_table index 0 (omega (arith, inside, crc_table-length)), crc_step)
      (record { value = u16 (bit_xor (crc * 2 ^ 8) entry); returns = refl; small = omega arith })

crc_from-Summed :
    (crc : ℕ) (bytes : List ℕ) → crc < 2 ^ 16 → AreBytes bytes → Summed 16 (crc_from crc bytes)
unfolding crc_from
crc_from-Summed crc [] h k = record { value = crc; returns = refl; small = h }
crc_from-Summed crc (b ∷ bs) h k =
    let first = crc_step-Summed crc b h k.0 in
    let rest = crc_from-Summed first.value bs first.small k.1 in
    rw (first.returns, crc_from)
      (record { value = rest.value; returns = rest.returns; small = rest.small })

all_bytes : List ℕ → Bool
all_bytes [] = true
all_bytes (b ∷ bs) = ltb b 256 && all_bytes bs

all_bytes_at : (bs : List ℕ) (i : ℕ) → all_bytes bs ≡ true → get_or bs i 0 < 256
unfolding all_bytes
all_bytes_at [] i h = omega arith
all_bytes_at (b ∷ bs) zero h = ground arith
all_bytes_at (b ∷ bs) (suc i) h = all_bytes_at bs i (ground arith)

chk_table_bytes : all_bytes chk_table ≡ true
unfolding all_bytes
chk_table_bytes = refl

chk_table-length : length chk_table ≡ 1024
chk_table-length = refl

chk_at : (i : ℕ) → i < 1024 → get_elem? chk_table i ≡ some (get_or chk_table i 0)
chk_at i h = get_elem?-eq-get_or chk_table i 0 (omega (arith, chk_table-length))

chk_byte : (i : ℕ) → get_or chk_table i 0 < 256
chk_byte i = all_bytes_at chk_table i chk_table_bytes

low_byte : (s : ℕ) → bit_and s 0xff < 256
low_byte s = bit_and_bound 8 s 0xff (omega arith)

-- COM_BlockSequenceCRCByte finds a checksum below 256 for any bytes and any sequence number, without
-- an index outside its tables.
pub sequence_crc_byte-Summed :
    (base : List ℕ) (sequence : ℕ) → AreBytes base → Summed 8 (sequence_crc_byte base sequence)
unfolding sequence_crc_byte crc_block
sequence_crc_byte-Summed base sequence h =
    let p = u32 sequence % 1020 in
    let tail =
      bit_xor (bit_and sequence 0xff) (get_or chk_table p 0)
      ∷ get_or chk_table (p + 1) 0
      ∷ bit_xor (bit_and (sequence / 2 ^ 8) 0xff) (get_or chk_table (p + 2) 0)
      ∷ get_or chk_table (p + 3) 0
      ∷ [] in
    let tail_bytes : AreBytes tail = (
      bit_xor_bound 8 _ _ (low_byte sequence) (chk_byte p),
      (
        chk_byte (p + 1),
        (
          bit_xor_bound 8 _ _ (low_byte (sequence / 2 ^ 8)) (chk_byte (p + 2)),
          (chk_byte (p + 3), tt),
        ),
      ),
    ) in
    let sum =
      crc_from-Summed 0xffff (take 60 base ++ tail) (omega arith)
        (append-AreBytes (take 60 base) tail (take-AreBytes 60 base h) tail_bytes) in
    rw
      (
        chk_at p (omega arith),
        chk_at (p + 1) (omega arith),
        chk_at (p + 2) (omega arith),
        chk_at (p + 3) (omega arith),
        sum.returns,
        sequence_crc_byte,
      )
      (record { value = bit_and sum.value 0xff; returns = refl; small = low_byte sum.value })

-- FloatSwap of a pattern of 32 bits has its bytes in the other order, and is undone by another one.
pub float_swap-reversed :
    (f : ℕ)
    → f < 2 ^ 32
    → (float_byte (float_swap f) 0 ≡ float_byte f 3)
      × (float_byte (float_swap f) 1 ≡ float_byte f 2)
      × (float_byte (float_swap f) 2 ≡ float_byte f 1)
      × (float_byte (float_swap f) 3 ≡ float_byte f 0)
      × (float_swap (float_swap f) ≡ f)
unfolding float_swap
float_swap-reversed f h = (omega arith, omega arith, omega arith, omega arith, omega arith)
