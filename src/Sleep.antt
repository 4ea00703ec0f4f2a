-- ===== src/Sleep.antt =====
-- src/sleep.c. The clock is the list of what Sys_IntTime returns, call by call.
pub mod Waiting
use qwnet_library.Prelude.{
  ℕ, zero, suc, ◌+◌, ◌-◌, ◌*◌, ◌/◌, Option, none, some, ltb, leb, if◌then◌else◌, u64,
}

-- Sleep_Init, from the granularity that get_sleep_granularity measured: on Linux it is doubled, and
-- two percent are added. All values are far below 2^31.
unfoldable pub sleep_init : ℕ → ℕ
sleep_init measured = let doubled = measured + measured in doubled + doubled * 2 / 100

-- How long `usleep` is asked to wait, if it is called; the comparison is unsigned.
unfoldable pub usleep_time : ℕ → ℕ → Option ℕ
usleep_time granularity sleeptime =
    if leb granularity sleeptime then some (sleeptime - granularity) else none

-- `do curtime = Sys_IntTime(); while(curtime < endtime);`: the last reading, and the calls made.
unfoldable pub wait_until : ℕ → (ℕ → ℕ) → ℕ → Option (ℕ × ℕ)
wait_until zero clock endtime = none
wait_until (suc rounds) clock endtime =
    let rest = wait_until rounds (λ k. clock (k + 1)) endtime in
    if ltb (clock 0) endtime
    then elim rest [ none ↦ none | some (curtime, calls) ↦ some (curtime, suc calls) ]
    else some (clock 0, 1)

-- Sleep_Sleep: what it asks `usleep` for, the last reading of the clock, and the readings of its loop.
unfoldable pub sleep_sleep : ℕ → (ℕ → ℕ) → ℕ → ℕ → Option (Option ℕ × ℕ × ℕ)
sleep_sleep rounds clock granularity sleeptime =
    let endtime = u64 (clock 0 + sleeptime) in
    elim (wait_until rounds (λ k. clock (k + 1)) endtime) [
      | none ↦ none
      | some r ↦ some (usleep_time granularity sleeptime, r.0, r.1)
    ]
