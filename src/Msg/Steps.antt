-- ===== src/Msg/Steps.antt =====
-- What each fixed-size reader does from a state whose position lies in the buffer.
use qwnet_library.Msg.{
  Reader, is_short, byte_ahead, advance, bad_read, read_long, read_short, read_byte, read_char,
}
use qwnet_library.Prelude.{
  ℕ, ◌+◌, ◌*◌, ◌%◌, ◌^◌, ◌≤◌, ◌<◌, ◌≡◌, true, arith, length, get_or, get_elem?-eq-get_or, ltb, u32,
  minus_one, of_short, of_char,
}
use qwnet_library.Prelude.Action.{done}

pub record IsSafe (r : Reader) : Type 0 where
  pub attached : r.attached ≡ true
  pub fits : r.cursize ≤ length r.bytes
  pub inside : r.readcount ≤ length r.bytes
  pub small : length r.bytes < 2 ^ 31
  pub room : length r.readstring_buffer ≡ 2048

abbrev pub byte_of : Reader → ℕ → ℕ
byte_of r i = get_or r.bytes i 0

module _ {r : Reader} (h : IsSafe r) where
  byte_ahead_lem :
      (i : ℕ)
      → r.readcount + i < length r.bytes
      → byte_ahead i r ≡ done (byte_of r (r.readcount + i), r)
  unfolding byte_ahead
  byte_ahead_lem i p = ground (arith, get_elem?-eq-get_or r.bytes (u32 (r.readcount + i)) 0)

  is_short_lem : (n : ℕ) → n < 2 ^ 31 → is_short n r ≡ done (ltb r.cursize (r.readcount + n), r)
  unfolding is_short
  is_short_lem n small = ground arith

  advance_lem :
      (n : ℕ)
      → r.readcount + n < 2 ^ 32
      → advance n r ≡ done (tt, record r { readcount = r.readcount + n })
  unfolding advance
  advance_lem n p = ground arith

  pub read_byte_bad :
      r.cursize < r.readcount + 1 → read_byte r ≡ done (minus_one, record r { badread = true })
  unfolding read_byte bad_read
  read_byte_bad p = ground (arith, is_short_lem 1 (omega arith))

  pub read_char_bad :
      r.cursize < r.readcount + 1 → read_char r ≡ done (minus_one, record r { badread = true })
  unfolding read_char bad_read
  read_char_bad p = ground (arith, is_short_lem 1 (omega arith))

  pub read_short_bad :
      r.cursize < r.readcount + 2 → read_short r ≡ done (minus_one, record r { badread = true })
  unfolding read_short bad_read
  read_short_bad p = ground (arith, is_short_lem 2 (omega arith))

  pub read_long_bad :
      r.cursize < r.readcount + 4 → read_long r ≡ done (minus_one, record r { badread = true })
  unfolding read_long bad_read
  read_long_bad p = ground (arith, is_short_lem 4 (omega arith))

  pub read_byte_enough :
      r.readcount + 1 ≤ r.cursize
      → read_byte r
        ≡ done (byte_of r (r.readcount + 0) % 2 ^ 8, record r { readcount = r.readcount + 1 })
  unfolding read_byte
  read_byte_enough p = ground (
    arith,
    is_short_lem 1 (omega arith),
    byte_ahead_lem 0 (omega arith),
    advance_lem 1 (omega arith),
  )

  pub read_char_enough :
      r.readcount + 1 ≤ r.cursize
      → read_char r
        ≡ done (
          of_char (byte_of r (r.readcount + 0) % 2 ^ 8),
          record r { readcount = r.readcount + 1 },
        )
  unfolding read_char
  read_char_enough p = ground (
    arith,
    is_short_lem 1 (omega arith),
    byte_ahead_lem 0 (omega arith),
    advance_lem 1 (omega arith),
  )

  pub read_short_enough :
      r.readcount + 2 ≤ r.cursize
      → read_short r
        ≡ done (
          of_short ((byte_of r (r.readcount + 0) + byte_of r (r.readcount + 1) * 2 ^ 8) % 2 ^ 16),
          record r { readcount = r.readcount + 2 },
        )
  unfolding read_short
  read_short_enough p = ground (
    arith,
    is_short_lem 2 (omega arith),
    byte_ahead_lem 0 (omega arith),
    byte_ahead_lem 1 (omega arith),
    advance_lem 2 (omega arith),
  )

  abbrev pub long_at : ℕ
  long_at = u32 (
      byte_of r (r.readcount + 0)
      + byte_of r (r.readcount + 1) * 2 ^ 8
      + byte_of r (r.readcount + 2) * 2 ^ 16
      + byte_of r (r.readcount + 3) * 2 ^ 24)

  pub read_long_enough :
      r.readcount + 4 ≤ r.cursize
      → read_long r ≡ done (long_at, record r { readcount = r.readcount + 4 })
  unfolding read_long
  read_long_enough p = ground (
    arith,
    is_short_lem 4 (omega arith),
    byte_ahead_lem 0 (omega arith),
    byte_ahead_lem 1 (omega arith),
    byte_ahead_lem 2 (omega arith),
    byte_ahead_lem 3 (omega arith),
    advance_lem 4 (omega arith),
  )
