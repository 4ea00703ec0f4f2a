-- ===== src/Sleep/Waiting.antt =====
-- Sleep_Sleep of src/sleep.c ends as soon as the clock has come to the end of the time.
use qwnet_library.Prelude.{
  ℕ, zero, suc, ◌+◌, ◌^◌, ◌≤◌, ◌<◌, ◌≡◌, refl, ap, inl, inr, Option, some, arith, ltb, ltb→lt,
  ltb→le, lt→ltb, le→ltb, Bool-cases, u64,
}
use qwnet_library.Sleep.{usleep_time, wait_until, sleep_sleep}

-- A wait that ended: at the first reading that is not before `endtime`.
pub record Waited (clock : ℕ → ℕ) (endtime within : ℕ) (result : Option (ℕ × ℕ)) : Type 0 where
  pub last : ℕ
  pub returns : result ≡ some (clock last, suc last)
  pub soon : last ≤ within
  pub over : endtime ≤ clock last
  pub not_before : (k : ℕ) → k < last → clock k < endtime

-- The first reading ends the wait.
wait_first :
    (rounds : ℕ) (clock : ℕ → ℕ) (endtime k : ℕ)
    → endtime ≤ clock 0
    → Waited clock endtime k (wait_until (suc rounds) clock endtime)
unfolding wait_until
wait_first rounds clock endtime k over = rw (le→ltb (clock 0) endtime over) (record {
  last = 0;
  returns = refl;
  soon = omega arith;
  over = over;
  not_before = λ j h. absurd (omega arith);
})

earlier :
    (clock : ℕ → ℕ) (endtime last : ℕ)
    → clock 0 < endtime
    → ((j : ℕ) → j < last → clock (j + 1) < endtime)
    → (j : ℕ) → j < suc last
    → clock j < endtime
earlier clock endtime last early h zero lt = early
earlier clock endtime last early h (suc j) lt =
    let same : clock (suc j) ≡ clock (j + 1) = ap clock (omega arith) in
    omega (arith, h j (omega arith), same)

-- The first reading is early, and the wait goes on with the next.
wait_later :
    (rounds : ℕ) (clock : ℕ → ℕ) (endtime k : ℕ)
    → clock 0 < endtime
    → Waited (λ j. clock (j + 1)) endtime k (wait_until rounds (λ j. clock (j + 1)) endtime)
    → Waited clock endtime (suc k) (wait_until (suc rounds) clock endtime)
unfolding wait_until
wait_later rounds clock endtime k early rest =
    let same : clock (suc rest.last) ≡ clock (rest.last + 1) = ap clock (omega arith) in
    record {
      last = suc rest.last;
      returns = rw (lt→ltb (clock 0) endtime early) (rw rest.returns (rw (same) refl));
      soon = omega (arith, rest.soon);
      over = omega (arith, same, rest.over);
      not_before = earlier clock endtime rest.last early rest.not_before;
    }

wait_until-Waited :
    (rounds : ℕ) (clock : ℕ → ℕ) (endtime k : ℕ)
    → endtime ≤ clock k
    → k < rounds
    → Waited clock endtime k (wait_until rounds clock endtime)
wait_until-Waited zero clock endtime k over small = absurd (omega arith)
wait_until-Waited (suc rounds) clock endtime zero over small =
    wait_first rounds clock endtime 0 over
wait_until-Waited (suc rounds) clock endtime (suc k) over small =
    elim (Bool-cases (ltb (clock 0) endtime)) [
      | inr first ↦ wait_first rounds clock endtime (suc k) (ltb→le (clock 0) endtime first)
      | inl early ↦
          let same : clock (suc k) ≡ clock (k + 1) = ap clock (omega arith) in
          wait_later rounds clock endtime k (ltb→lt (clock 0) endtime early) (
            wait_until-Waited rounds (λ j. clock (j + 1)) endtime k (omega (arith, same))
              (omega arith))
    ]

-- A call of Sleep_Sleep that returned: after the reading `last` behind the first.
pub record Slept (clock : ℕ → ℕ) (granularity sleeptime within : ℕ)
    (result : Option (Option ℕ × ℕ × ℕ)) : Type 0 where
  pub last : ℕ
  pub asked : Option ℕ
  pub returns : result ≡ some (asked, clock (last + 1), suc last)
  pub soon : last ≤ within
  pub slept : clock 0 + sleeptime ≤ clock (last + 1)
  pub not_before : (k : ℕ) → k < last → clock (k + 1) < clock 0 + sleeptime
  pub not_more : (us : ℕ) → asked ≡ some us → us + granularity ≡ sleeptime

-- On a clock that reaches the end of the time within `k` readings after the first one of its loop, and
-- does not wrap, Sleep_Sleep returns, at the first reading that is not before the end; if it calls
-- usleep, it asks for the time less the granularity.
pub sleep_sleep-Slept :
    (rounds : ℕ) (clock : ℕ → ℕ) (granularity sleeptime k : ℕ)
    → clock 0 + sleeptime < 2 ^ 64
    → clock 0 + sleeptime ≤ clock (k + 1)
    → k < rounds
    → Slept clock granularity sleeptime k (sleep_sleep rounds clock granularity sleeptime)
unfolding sleep_sleep usleep_time
sleep_sleep-Slept rounds clock granularity sleeptime k fits over small =
    let whole : u64 (clock 0 + sleeptime) ≡ clock 0 + sleeptime = omega arith in
    let waited = wait_until-Waited rounds (λ j. clock (j + 1)) (clock 0 + sleeptime) k over small in
    record {
      last = waited.last;
      asked = usleep_time granularity sleeptime;
      returns = rw (sleep_sleep, whole, waited.returns) refl;
      soon = waited.soon;
      slept = waited.over;
      not_before = waited.not_before;
      not_more = λ us e. ground arith;
    }
