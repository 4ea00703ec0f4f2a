-- ===== src/Netqw.antt =====
-- The state of one connection to a server: `struct NetQW` of src/netqw.c and the types it holds.
-- Lists stand for the linked lists with their head and tail pointers. A packet that the server sent
-- hangs in two lists at once, so packets live in a store and the lists hold their keys. What goes
-- out through Sys_Net_Send is logged in `wire`. A `double` is only copied: it is its bit pattern.
pub mod Api
pub mod Frames
pub mod Send
pub mod Receive
pub mod Handshake
pub mod Thread
pub mod Dispatch
pub mod Reliable
pub mod Fitting
pub mod Timing
pub mod Upkeep
pub mod Ownership
pub mod Delayed
pub mod Arrivals
pub mod Loss
pub mod Copies
pub mod Sending
pub mod Outgoing
pub mod Compressed
pub mod Farewell
pub mod Replay
pub mod Rounds
pub mod Packed
pub mod Lifecycle
pub mod Lifetime
pub mod Closing
use qwnet_library.Prelude.{ℕ, Bool, Option, List, ◌==◌, if◌then◌else◌}

-- `enum state`
pub data State : Type 0 where
  uninitialised sendchallenge sendconnection connected : State

-- `usercmd_t`. NetQW_GenerateFrames leaves all but `msec` at zero. An angle is the 16-bit number
-- that WriteAngle16 makes of the float.
pub record Usercmd : Type 0 where
  pub msec : ℕ
  pub angle0 : ℕ
  pub angle1 : ℕ
  pub angle2 : ℕ
  pub forwardmove : ℕ
  pub sidemove : ℕ
  pub upmove : ℕ
  pub buttons : ℕ
  pub impulse : ℕ

abbrev pub zero_cmd : Usercmd
zero_cmd = record {
  msec = 0;
  angle0 = 0;
  angle1 = 0;
  angle2 = 0;
  forwardmove = 0;
  sidemove = 0;
  upmove = 0;
  buttons = 0;
  impulse = 0;
}

-- An element of `frames`.
pub record SentFrame : Type 0 where
  pub cmd : Usercmd
  pub senttime : ℕ
  pub delta_sequence : ℕ

-- `struct NetPacket`; the lists that the two `next` pointers make are in `NetQw`.
pub record NetPacket : Type 0 where
  pub delayuntil : ℕ
  pub usecount : ℕ
  pub payload : List ℕ

-- `struct SendPacket`
pub record SendPacket : Type 0 where
  pub delayuntil : ℕ
  pub payload : List ℕ

pub record NetQw : Type 0 where
  pub qport : ℕ
  pub challenge : ℕ
  pub resendtime : ℕ
  pub packetloss : ℕ
  pub userinfo : List ℕ
  pub current_outgoing_sequence_number : ℕ
  pub last_incoming_sequence_number : ℕ
  pub reliable_buffers_sent : ℕ
  pub reliable_sequence_number : ℕ
  pub outgoing_reliable_xor : ℕ
  pub incoming_reliable_xor : ℕ
  pub replyreceived : List ℕ
  pub huffman : Bool
  pub huffcrc : ℕ
  pub packets : ℕ → Option NetPacket
  pub next_packet : ℕ
  pub internal_packets : List ℕ
  pub client_packets : List ℕ
  pub send_packets : List SendPacket
  pub quit : Bool
  pub state : State
  pub microsecondsperframe : ℕ
  pub lastmovesendtime : ℕ
  pub movetimecounter : ℕ
  pub send_tmove : Bool
  pub movement_locked : Bool
  pub tmove_buffer : List ℕ
  pub lag : ℕ
  pub lag_ezcheat : Bool
  pub reliable_buffers : List (List ℕ)
  pub frames : List SentFrame
  pub lastsentframe : ℕ
  pub framestosend : ℕ
  pub lastcopiedframe : ℕ
  pub framestocopy : ℕ
  pub last_received_entity_update_frame : ℕ
  pub wire : List (List ℕ)

abbrev pub update_backup : ℕ
update_backup = 64

abbrev pub update_mask : ℕ
update_mask = 63

-- `PLPACKETHISTORYCOUNT`
abbrev pub history_count : ℕ
history_count = 200

abbrev pub empty_frame : SentFrame
empty_frame = record { cmd = zero_cmd; senttime = 0; delta_sequence = 0 }

abbrev pub clc_move : ℕ
clc_move = 3

abbrev pub clc_stringcmd : ℕ
clc_stringcmd = 4

abbrev pub clc_delta : ℕ
clc_delta = 5

abbrev pub clc_tmove : ℕ
clc_tmove = 6

-- Which packets the store holds after `p` became `v`.
abbrev pub put_packet : (ℕ → Option NetPacket) → ℕ → Option NetPacket → ℕ → Option NetPacket
put_packet store p v q = if p == q then v else store q
