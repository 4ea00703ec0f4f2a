-- ===== src/Netqw/Api.antt =====
-- What the client thread calls: the functions of src/netqw.c from NetQW_SetFPS to NetQW_GetState.
-- `allocated` is whether malloc succeeds, `now` what Sys_IntTime returns. The mutex is held over
-- each body, so a call is one step.
use qwnet_library.Netqw.{
  State, uninitialised, SentFrame, NetPacket, NetQw, update_backup, empty_frame, put_packet,
}
use qwnet_library.Prelude.{
  ℕ, zero, suc, ◌+◌, ◌-◌, ◌/◌, ◌%◌, ◌^◌, Bool, true, false, Option, none, some, List, [], ◌∷◌, ◌++◌,
  length, get_or, ltb, leb, ◌==◌, if◌then◌else◌, u8, u32, sub32,
}
use qwnet_library.Prelude.Action.{Outcome, done, fault, hang}

-- `if (fps != 0)`, the frame time in microseconds: at least 1000, rounded up to milliseconds.
unfoldable pub set_fps : ℕ → NetQw → NetQw
set_fps fps n =
    if fps == 0
    then n
    else let raw = 1000000 / fps in
      let us = (if ltb raw 1000 then 1000 else raw) + 999 in
      record n { microsecondsperframe = us - us % 1000 }

-- NetQW_AppendReliableBuffer: 1 and the buffer at the tail, or 0 where malloc failed.
unfoldable pub append_reliable_buffer : Bool → List ℕ → NetQw → ℕ × NetQw
append_reliable_buffer allocated buffer n =
    if allocated
    then (1, record n { reliable_buffers = n.reliable_buffers ++ (buffer ∷ []) })
    else (0, n)

-- The packet at the head of the client's list, if its delay is over; a key that is not in the
-- store is a dangling pointer, hence the fault.
unfoldable pub client_head : ℕ → NetQw → Outcome (Option NetPacket)
client_head now n = elim n.client_packets [
  | [] ↦ done none
  | p ∷ rest ↦ elim (n.packets p) [
    | none ↦ fault
    | some packet ↦ done (if leb packet.delayuntil now then some packet else none)
  ]
]

unfoldable pub get_packet_length : ℕ → NetQw → Outcome ℕ
unfolding client_head
get_packet_length now n = elim (client_head now n) [
  | done found ↦ elim found [ none ↦ done 0 | some packet ↦ done (length packet.payload) ]
  | fault ↦ fault
  | hang ↦ hang
]

unfoldable pub get_packet_data : ℕ → NetQw → Outcome (Option (List ℕ))
unfolding client_head
get_packet_data now n = elim (client_head now n) [
  | done found ↦ elim found [ none ↦ done none | some packet ↦ done (some packet.payload) ]
  | fault ↦ fault
  | hang ↦ hang
]

-- `netpacket->usecount--; if (netpacket->usecount == 0) free(netpacket);`
unfoldable pub release : ℕ → NetQw → Outcome NetQw
release p n = elim (n.packets p) [
  | none ↦ fault
  | some packet ↦
      let left = sub32 packet.usecount 1 in
      done (record n {
        packets =
            put_packet n.packets p
              (if left == 0 then none else some (record packet { usecount = left }));
      })
]

-- NetQW_FreePacket: the client is done with the packet at the head of its list.
unfoldable pub free_packet : NetQw → Outcome NetQw
unfolding release
free_packet n = elim n.client_packets [
  | [] ↦ fault
  | p ∷ rest ↦ release p (record n { client_packets = rest })
]

-- One round of the loop of NetQW_CopyFrames: the frame's index, and the frame.
unfoldable pub copied_frame : NetQw → ℕ × SentFrame
copied_frame n =
    let i = (n.lastcopiedframe + 1) % update_backup in (i, get_or n.frames i empty_frame)

-- `rounds` is `framestocopy`, which the loop counts down to 0; the frames come out in order.
unfoldable pub copy_loop : ℕ → NetQw → List (ℕ × SentFrame) × NetQw
unfolding copied_frame
copy_loop zero n = ([], record n { framestocopy = 0 })
copy_loop (suc rounds) n =
    let (i, frame) = copied_frame n in
    let (copied, n') = copy_loop rounds (record n { lastcopiedframe = i; framestocopy = rounds }) in
    ((i, frame) ∷ copied, n')

pub record Copied : Type 0 where
  pub copied : List (ℕ × SentFrame)
  pub newseqnr : ℕ
  pub startframe : ℕ
  pub numframes : ℕ
  pub after : NetQw

unfoldable pub copy_frames : NetQw → Copied
unfolding copy_loop
copy_frames n =
    let (copied, n') = copy_loop n.framestocopy n in
    record {
      copied = copied;
      newseqnr = u32 (n'.current_outgoing_sequence_number + n'.framestosend);
      startframe = (n.lastcopiedframe + 1) % update_backup;
      numframes = u32 (length copied);
      after = n';
    }

unfoldable pub set_delta_point : ℕ → NetQw → NetQw
set_delta_point seq n = record n { last_received_entity_update_frame = seq }

-- The position in eighths, as `(int)(position[i] * 8)` makes it: three patterns of an `int`.
unfoldable pub set_teleport : ℕ → ℕ → ℕ → NetQw → NetQw
set_teleport x y z n = record n {
  send_tmove = true;
  tmove_buffer = u8 x ∷ u8 (x / 2 ^ 8) ∷ u8 y ∷ u8 (y / 2 ^ 8) ∷ u8 z ∷ u8 (z / 2 ^ 8) ∷ [];
}

unfoldable pub lock_movement : NetQw → NetQw
lock_movement n = record n { movement_locked = true }

unfoldable pub unlock_movement : NetQw → NetQw
unlock_movement n = record n { movement_locked = false }

unfoldable pub set_lag : ℕ → NetQw → NetQw
set_lag microseconds n = record n { lag = if ltb 500000 microseconds then 500000 else microseconds }

unfoldable pub set_lag_ezcheat : Bool → NetQw → NetQw
set_lag_ezcheat enabled n = record n { lag_ezcheat = enabled }

unfoldable pub get_state : Option NetQw → State
get_state none = uninitialised
get_state (some n) = n.state
