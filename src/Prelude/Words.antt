-- ===== src/Prelude/Words.antt =====
-- Machine integers as numbers. A 32-bit `int` is kept as its two's complement pattern.
use Prim.Native.Nat.{ℕ, ◌+◌, ◌-◌, ◌%◌, ◌^◌, bit_and}
use mathlib.Core.Bool.{Bool, not}
use qwnet_library.Prelude.Tests.{ltb, leb, ◌==◌, if◌then◌else◌}

abbrev pub u8 : ℕ → ℕ
u8 n = n % 2 ^ 8

abbrev pub u16 : ℕ → ℕ
u16 n = n % 2 ^ 16

abbrev pub u32 : ℕ → ℕ
u32 n = n % 2 ^ 32

abbrev pub u64 : ℕ → ℕ
u64 n = n % 2 ^ 64

-- a - b on `unsigned int`; `-` on ℕ stops at 0, so the modulus is added first.
abbrev pub sub32 : ℕ → ℕ → ℕ
sub32 a b = (a + 2 ^ 32 - b) % 2 ^ 32

-- The pattern of the `int` -1.
abbrev pub minus_one : ℕ
minus_one = 0xffff_ffff

-- `(int)(short)v` for `v` below 2^16, and `(int)(signed char)v` for `v` below 2^8.
abbrev pub of_short : ℕ → ℕ
of_short v = if ltb v 0x8000 then v else v + 0xffff_0000

abbrev pub of_char : ℕ → ℕ
of_char v = if ltb v 0x80 then v else v + 0xffff_ff00

-- The sign of an `int`.
abbrev pub is_negative : ℕ → Bool
is_negative v = leb 0x8000_0000 v

-- `bits & mask` as a condition.
abbrev pub has_flag : ℕ → ℕ → Bool
has_flag bits mask = not (bit_and bits mask == 0)
