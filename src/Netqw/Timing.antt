-- ===== src/Netqw/Timing.antt =====
-- The frame clock of src/netqw.c.
use qwnet_library.Netqw.{NetQw}
use qwnet_library.Netqw.Api.{set_fps}
use qwnet_library.Netqw.Frames.{generate_frame, frame_is_due, frame_loop}
use qwnet_library.Prelude.{
  ℕ, zero, suc, ◌+◌, ◌*◌, ◌/◌, ◌%◌, ◌^◌, ◌≤◌, ◌<◌, max, ◌≡◌, refl, inl, inr, Option, some, arith,
  Bool-cases, u32,
}

-- NetQW_SetFPS makes of any rate but 0 a frame time in whole milliseconds: at least one, not shorter
-- than the rate asks for, and less than a millisecond longer than that or than one millisecond.
pub set_fps_bounds :
    (fps : ℕ) (n : NetQw)
    → 0 < fps
    → let us = (set_fps fps n).microsecondsperframe in
      (us % 1000 ≡ 0) × (1000 ≤ us) × (1000000 / fps ≤ us) × (us ≤ max (1000000 / fps) 1000 + 999)
unfolding set_fps
set_fps_bounds fps n h = ground arith

-- What a whole run of NetQW_GenerateFrames does to the clock.
pub record Generated (curtime : ℕ) (n : NetQw) (result : Option NetQw) : Type 0 where
  pub after : NetQw
  pub frames_made : ℕ
  pub returns : result ≡ some after
  pub clock : after.lastmovesendtime ≡ n.lastmovesendtime + frames_made * n.microsecondsperframe
  pub caught_up : curtime < after.lastmovesendtime + n.microsecondsperframe
  pub to_send : after.framestosend ≡ u32 (n.framestosend + frames_made)
  pub to_copy : after.framestocopy ≡ u32 (n.framestocopy + frames_made)

-- With more rounds than frame times have passed since the last frame, and counters in range, the loop
-- of NetQW_GenerateFrames ends: the clock moves by one frame time for each frame made, to less than
-- one before the current time, and the frames to send and to copy go up by as many.
pub frame_loop-Generated :
    (rounds : ℕ) (stamps : ℕ → ℕ) (curtime : ℕ) (n : NetQw)
    → 0 < n.microsecondsperframe
    → curtime + n.microsecondsperframe < 2 ^ 64
    → n.lastmovesendtime ≤ curtime
    → n.framestosend < 2 ^ 32
    → n.framestocopy < 2 ^ 32
    → curtime < n.lastmovesendtime + rounds * n.microsecondsperframe
    → Generated curtime n (frame_loop rounds stamps curtime n)
unfolding frame_loop frame_is_due
frame_loop-Generated zero stamps curtime n us fits past a b enough = absurd (omega arith)
frame_loop-Generated (suc rounds) stamps curtime n us fits past a b enough =
    elim (Bool-cases (frame_is_due curtime n)) [
      | inl due ↦
          let le : n.lastmovesendtime + n.microsecondsperframe ≤ curtime = ground arith in
          let m = generate_frame (stamps 0) n in
          let last : m.lastmovesendtime ≡ n.lastmovesendtime + n.microsecondsperframe =
            omega arith in
          let rest =
            frame_loop-Generated rounds (λ k. stamps (k + 1)) curtime m us fits (omega arith)
              (omega arith) (omega arith) (omega arith) in
          rw due (record {
            after = rest.after;
            frames_made = suc rest.frames_made;
            returns = rest.returns;
            clock = omega (arith, rest.clock);
            caught_up = rest.caught_up;
            to_send = omega (arith, rest.to_send);
            to_copy = omega (arith, rest.to_copy);
          })
      | inr wait ↦ rw wait (record {
        after = n;
        frames_made = 0;
        returns = refl;
        clock = omega arith;
        caught_up = ground arith;
        to_send = omega arith;
        to_copy = omega arith;
      })
    ]
