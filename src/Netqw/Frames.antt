-- ===== src/Netqw/Frames.antt =====
-- NetQW_GenerateFrames of src/netqw.c: one movement frame for each frame time that has passed.
use qwnet_library.Netqw.{connected, Usercmd, zero_cmd, SentFrame, NetQw, update_backup, empty_frame}
use qwnet_library.Prelude.{
  ℕ, zero, suc, ◌+◌, ◌/◌, ◌%◌, Bool, not, ◌&&◌, Option, none, some, get_or, set, ltb, leb, ◌==◌,
  if◌then◌else◌, u8, u32, u64, sub32, minus_one,
}

-- What one round makes of the time counters and the frames. `stamp` is what Sys_DoubleTime returns.
unfoldable pub generate_frame : ℕ → NetQw → NetQw
generate_frame stamp n =
    let counter = u64 (n.movetimecounter + n.microsecondsperframe) in
    let hej : Usercmd = record zero_cmd { msec = u8 (counter / 1000) } in
    let framenum = u32 (n.lastsentframe + n.framestosend + 1) % update_backup in
    let frame : SentFrame = record { cmd = hej; senttime = stamp; delta_sequence = minus_one } in
    let last = n.last_received_entity_update_frame in
    let current = n.current_outgoing_sequence_number in
    let slot = current % update_backup in
    let frames = set n.frames framenum frame in
    record n {
      lastmovesendtime = u64 (n.lastmovesendtime + n.microsecondsperframe);
      movetimecounter = counter % 1000;
      frames =
          if not (last == minus_one) && ltb (sub32 current last) update_backup
          then set frames slot (record (get_or frames slot empty_frame) { delta_sequence = last })
          else frames;
      framestosend = u32 (n.framestosend + 1);
      framestocopy = u32 (n.framestocopy + 1);
    }

-- `while(netqw->lastmovesendtime + netqw->microsecondsperframe <= curtime)`
unfoldable pub frame_is_due : ℕ → NetQw → Bool
frame_is_due curtime n = leb (u64 (n.lastmovesendtime + n.microsecondsperframe)) curtime

unfoldable pub frame_loop : ℕ → (ℕ → ℕ) → ℕ → NetQw → Option NetQw
unfolding generate_frame frame_is_due
frame_loop zero stamps curtime n = none
frame_loop (suc rounds) stamps curtime n =
    let rest = frame_loop rounds (λ k. stamps (k + 1)) curtime (generate_frame (stamps 0) n) in
    if frame_is_due curtime n then rest else some n

-- `none` is a loop that has used up its rounds. The fields that movement locking clears are zero
-- already.
unfoldable pub generate_frames : ℕ → (ℕ → ℕ) → ℕ → NetQw → Option NetQw
unfolding frame_loop
generate_frames rounds stamps curtime n = elim n.state [
  | connected ↦ frame_loop rounds stamps curtime n
  | _ ↦ some n
]
