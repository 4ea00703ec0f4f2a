-- ===== src/Linux/Clock.antt =====
-- src/sys_linux.c: Sys_IntTime counts microseconds from its first call on.
use native.Mathlib.Nat.{mod-eq_of_lt}
use qwnet_library.Linux.{Timeval, sys_int_time}
use qwnet_library.Prelude.{ℕ, ◌+◌, ◌-◌, ◌*◌, ◌^◌, ◌≤◌, ◌<◌, ◌≡◌, refl, arith, pos_ne_zero, u32, u64}

-- The clock in microseconds.
abbrev pub micros : Timeval → ℕ
micros t = t.tv_sec * 1000000 + t.tv_usec

-- A clock of the years that 32 bits of seconds reach.
pub record IsReading (t : Timeval) : Type 0 where
  pub after_epoch : 0 < t.tv_sec
  pub small : t.tv_sec < 2 ^ 32
  pub whole : t.tv_usec < 1000000

elapsed :
    (t : Timeval) (base : ℕ)
    → base ≤ t.tv_sec
    → t.tv_sec < 2 ^ 32
    → t.tv_usec < 1000000
    → u64 (u64 (t.tv_sec + (2 ^ 64 - base)) * 1000000 + t.tv_usec)
      ≡ (t.tv_sec - base) * 1000000 + t.tv_usec
elapsed t base h k w = omega arith

-- After a first reading of the clock, a second one that is not earlier is as much later than the
-- first as the clock is; the count begins within the first second, and the base stays.
pub sys_int_time-counts :
    (first second : Timeval)
    → IsReading first
    → IsReading second
    → micros first ≤ micros second
    → let begun = sys_int_time first 0 in
      let went_on = sys_int_time second (begun.1) in
      (begun.0 < 1000000)
      × (begun.0 + (micros second - micros first) ≡ went_on.0)
      × (went_on.1 ≡ begun.1)
unfolding sys_int_time
sys_int_time-counts first second h k later =
    let base : u32 (first.tv_sec) ≡ first.tv_sec = mod-eq_of_lt h.small in
    let start = elapsed first (first.tv_sec) (omega arith) h.small h.whole in
    let after = elapsed second (first.tv_sec) (omega (arith, h.whole, k.whole)) k.small k.whole in
    rw (base) (
      rw (pos_ne_zero (first.tv_sec) h.after_epoch)
        (rw (start, after) (omega (arith, h.whole), omega (arith, h.whole, k.whole), refl)))
