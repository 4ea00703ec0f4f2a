-- ===== src/Msg.antt =====
-- src/message_reading.c. The state is the part of `struct qw_connection` that these functions use.
-- An `int` result is its 32-bit pattern, so that -1 is `minus_one`. Coordinates and angles are
-- returned as the integer that the source scales (by 1/8, 360/256 or 360/65536) to a float.
pub mod Steps
pub mod Safety
pub mod Values
pub mod Text
pub mod Moves
use qwnet_library.Prelude.{
  ℕ, zero, suc, ◌+◌, ◌*◌, ◌%◌, ◌^◌, Bool, true, false, ◌||◌, Option, none, some, List, [], ◌∷◌,
  length, get_elem?, set, ltb, ◌==◌, if◌then◌else◌, u32, minus_one, of_short, of_char, has_flag,
}
use qwnet_library.Prelude.Action.{done, fault, Action, pure, ◌>>=◌, ◌>>◌, gets, modify}

-- `bytes` and `cursize` are `net_message.data` (the whole buffer behind it) and
-- `net_message.cursize`. `attached` says whether `msg_message` points to `net_message` or is still
-- null. `readcount` and `badread` are `msg_readcount` and `msg_badread`.
pub record Reader : Type 0 where
  pub bytes : List ℕ
  pub cursize : ℕ
  pub attached : Bool
  pub readcount : ℕ
  pub badread : Bool
  pub readstring_buffer : List ℕ

abbrev pub Read : Type 0 → Type 0
Read A = Action Reader A

unfoldable pub begin_reading : Read (Unit {0})
begin_reading = modify (λ (r : Reader). record r { readcount = 0; badread = false })

pub get_read_count : Read ℕ
get_read_count = gets (λ (r : Reader). r.readcount)

-- `qwc->msg_readcount + n > qwc->msg_message->cursize`; the sum is unsigned and wraps.
unfoldable pub is_short : ℕ → Read Bool
is_short n r = if r.attached then done (ltb r.cursize (u32 (r.readcount + n)), r) else fault

-- `qwc->msg_message->data[qwc->msg_readcount + i]`
unfoldable pub byte_ahead : ℕ → Read ℕ
byte_ahead i r = elim (get_elem? r.bytes (u32 (r.readcount + i))) [
  | none ↦ fault
  | some b ↦ if r.attached then done (b, r) else fault
]

unfoldable pub advance : ℕ → Read (Unit {0})
advance n = modify (λ (r : Reader). record r { readcount = u32 (r.readcount + n) })

unfoldable pub bad_read : Read ℕ
bad_read r = done (minus_one, record r { badread = true })

-- The `size` bytes that MSG_ReadData copies out; `none` is its result `false`.
copy_ahead : ℕ → ℕ → Read (List ℕ)
copy_ahead i zero = pure []
copy_ahead i (suc n) = do b ← byte_ahead i; bs ← copy_ahead (i + 1) n; pure (b ∷ bs)

unfoldable pub read_data : ℕ → Read (Option (List ℕ))
unfolding copy_ahead
read_data size = do
  short ← is_short size
  if short then pure none else do bs ← copy_ahead 0 size; advance size; pure (some bs)

pub read_long : Read ℕ
read_long = do
  short ← is_short 4
  if short then bad_read else do
    b0 ← byte_ahead 0
    b1 ← byte_ahead 1
    b2 ← byte_ahead 2
    b3 ← byte_ahead 3
    advance 4
    pure (u32 (b0 + b1 * 2 ^ 8 + b2 * 2 ^ 16 + b3 * 2 ^ 24))

pub read_short : Read ℕ
read_short = do
  short ← is_short 2
  if short then bad_read else do
    b0 ← byte_ahead 0
    b1 ← byte_ahead 1
    advance 2
    pure (of_short ((b0 + b1 * 2 ^ 8) % 2 ^ 16))

pub read_coord : Read ℕ
unfolding read_short
read_coord = read_short

pub read_byte : Read ℕ
read_byte = do
  short ← is_short 1
  if short then bad_read else do b ← byte_ahead 0; advance 1; pure (b % 2 ^ 8)

pub read_char : Read ℕ
read_char = do
  short ← is_short 1
  if short then bad_read else do b ← byte_ahead 0; advance 1; pure (of_char (b % 2 ^ 8))

pub read_angle : Read ℕ
unfolding read_char
read_angle = read_char

-- A write outside `readstring_buffer` faults.
pub store_char : ℕ → ℕ → Read (Unit {0})
store_char l c r =
    if ltb l (length r.readstring_buffer)
    then done (tt, record r { readstring_buffer = set r.readstring_buffer l c })
    else fault

-- The do-while loop with `room` rounds left: `l` runs up to `sizeof(readstring_buffer) - 1`.
pub read_chars : ℕ → ℕ → Read ℕ
read_chars zero l = pure l
read_chars (suc room) l = do
  c ← read_byte
  if c == minus_one || c == 0 then pure l else do store_char l c; read_chars room (l + 1)

-- A C string: the bytes up to the first 0.
pub c_string : List ℕ → List ℕ
c_string [] = []
c_string (b ∷ bs) = if b == 0 then [] else b ∷ c_string bs

abbrev pub max_string : ℕ
max_string = 2047

-- The source returns a pointer to `readstring_buffer`; here, the string that it holds then.
unfoldable pub read_string : Read (List ℕ)
read_string = do
  l ← read_chars max_string 0
  store_char l 0
  gets (λ (r : Reader). c_string r.readstring_buffer)

-- No bounds test stands before these reads. The float is its bit pattern.
unfoldable pub read_float : Read ℕ
read_float = do
  b0 ← byte_ahead 0
  b1 ← byte_ahead 1
  b2 ← byte_ahead 2
  b3 ← byte_ahead 3
  advance 4
  pure (b0 + b1 * 2 ^ 8 + b2 * 2 ^ 16 + b3 * 2 ^ 24)

pub read_angle16 : Read ℕ
unfolding read_short
read_angle16 = read_short

-- `if (bits & mask) m;` where the value read is dropped
pub when_flag : ℕ → ℕ → Read ℕ → Read (Unit {0})
when_flag bits mask m = if has_flag bits mask then m >> pure tt else pure tt

-- The angles and moves that MSG_ReadDeltaUsercmd skips, by protocol version. CM_MSEC is the bit of
-- CM_ANGLE2.
pub read_moves_26 : ℕ → Read (Unit {0})
read_moves_26 bits = do
  when_flag bits 0x01 read_angle16
  read_angle16
  when_flag bits 0x02 read_angle16
  when_flag bits 0x04 read_char
  when_flag bits 0x08 read_char
  when_flag bits 0x10 read_char

pub read_moves : ℕ → Read (Unit {0})
read_moves bits = do
  when_flag bits 0x01 read_angle16
  when_flag bits 0x80 read_angle16
  when_flag bits 0x02 read_angle16
  when_flag bits 0x04 read_short
  when_flag bits 0x08 read_short
  when_flag bits 0x10 read_short

pub read_delta_usercmd : ℕ → Read (Unit {0})
read_delta_usercmd protoversion = do
  bits ← read_byte
  (if protoversion == 26 then read_moves_26 bits else read_moves bits)
  when_flag bits 0x20 read_byte
  when_flag bits 0x40 read_byte
  (if protoversion == 26 then when_flag bits 0x80 read_byte else (read_byte >> pure tt))
