-- ===== src/Tests/Links.antt =====
-- The connection to the server on small packets.
use qwnet_library.Crc.{sequence_crc_byte}
use qwnet_library.Crc.Laws.{Summed, sequence_crc_byte-Summed}
use qwnet_library.Netqw.{SentFrame, NetPacket, NetQw, put_packet}
use qwnet_library.Netqw.Api.{free_packet, copy_frames}
use qwnet_library.Netqw.Copies.{AllDistinct, CopiedAll, copy_frames-CopiedAll}
use qwnet_library.Netqw.Delayed.{Ordered, handle_due-Ordered, store-add}
use qwnet_library.Netqw.Dispatch.{disconnect}
use qwnet_library.Netqw.Farewell.{Dropped, disconnect-Dropped}
use qwnet_library.Netqw.Frames.{frame_loop}
use qwnet_library.Netqw.Outgoing.{IsPlain, SentAll, send_frames-SentAll}
use qwnet_library.Netqw.Ownership.{Owned, Ends, free_packet-Owned}
use qwnet_library.Netqw.Packed.{Packed}
use qwnet_library.Netqw.Receive.{sequence_at, handle_received}
use qwnet_library.Netqw.Reliable.{IsQueued, Acknowledged, handle_received-Acknowledged}
use qwnet_library.Netqw.Replay.{TakenIn, accept_packet-TakenIn}
use qwnet_library.Netqw.Send.{send_frames}
use qwnet_library.Netqw.Thread.{
  Datagram, is_acceptable, delay_of, accept_packet, handle_due, Sending,
}
use qwnet_library.Netqw.Timing.{Generated, frame_loop-Generated}
use qwnet_library.Prelude.{ℕ, ◌≡◌, refl, true, some, List, [], ◌∷◌, map, arith, ◌==◌}
use qwnet_library.Samples.{idle_netqw}

idle_netqw-IsPlain : IsPlain idle_netqw
idle_netqw-IsPlain = record {
  can_build = record { loss = omega arith; teleport = refl };
  huffman = refl;
  lag = refl;
}

-- A packet numbered 9 that answers number 3, with no reliable flag.
abbrev packet_nine : List ℕ
packet_nine = 9 ∷ 0 ∷ 0 ∷ 0 ∷ 3 ∷ 0 ∷ 0 ∷ 0 ∷ []

-- One reliable buffer is under way since packet 7.
abbrev waiting_netqw : NetQw
waiting_netqw = record idle_netqw {
  reliable_buffers = (4 ∷ 0 ∷ []) ∷ [];
  reliable_buffers_sent = 1;
  reliable_sequence_number = 7;
  incoming_reliable_xor = 1;
}

waiting-IsQueued : IsQueued waiting_netqw
waiting-IsQueued = omega arith

handle_received-Acknowledged_example :
    Acknowledged packet_nine waiting_netqw (handle_received packet_nine waiting_netqw)
handle_received-Acknowledged_example =
    handle_received-Acknowledged packet_nine waiting_netqw (omega arith) waiting-IsQueued

frame_loop-Generated_example :
    Generated 1030000 idle_netqw (frame_loop 3 (λ k. k) 1030000 idle_netqw)
frame_loop-Generated_example =
    frame_loop-Generated 3 (λ k. k) 1030000 idle_netqw (omega arith) (omega arith) (omega arith)
      (omega arith) (omega arith) (omega arith)

abbrev copying_netqw : NetQw
copying_netqw = record idle_netqw { framestocopy = 3; lastcopiedframe = 62 }

copy_frames-CopiedAll_example :
    CopiedAll 3 copying_netqw
      ((copy_frames copying_netqw).copied, (copy_frames copying_netqw).after)
    × AllDistinct (map (λ (p : ℕ × SentFrame). p.0) (copy_frames copying_netqw).copied)
copy_frames-CopiedAll_example = copy_frames-CopiedAll copying_netqw (omega arith)

send_frames-SentAll_example : SentAll 2 idle_netqw (send_frames 2 (λ k. true) (λ k. k) idle_netqw)
send_frames-SentAll_example =
    send_frames-SentAll 2 (λ k. true) (λ k. k) idle_netqw idle_netqw-IsPlain (omega arith)

sequence_crc_byte-Summed_example : Summed 8 (sequence_crc_byte (0 ∷ 8 ∷ 14 ∷ []) 8)
sequence_crc_byte-Summed_example =
    sequence_crc_byte-Summed (0 ∷ 8 ∷ 14 ∷ []) 8 (omega arith, (omega arith, (omega arith, tt)))

empty-Owned : Owned idle_netqw
empty-Owned = record {
  counted = λ p. refl;
  live = λ p packet e. absurd (ground arith);
  fresh = λ p le. refl;
}

-- A packet that both lists hold, due at time 5.
abbrev held_packet : NetPacket
held_packet = record { delayuntil = 5; usecount = 2; payload = packet_nine }

abbrev holding_netqw : NetQw
holding_netqw = record waiting_netqw {
  packets = put_packet idle_netqw.packets 0 (some held_packet);
  next_packet = 1;
  client_packets = 0 ∷ [];
  internal_packets = 0 ∷ [];
}

holding-Owned : Owned holding_netqw
holding-Owned =
    store-add idle_netqw.packets 0 [] [] (0 ∷ []) (0 ∷ []) held_packet empty-Owned
      (omega arith, omega arith, omega arith) (λ q. ground arith)

free_packet-Owned_example : Ends Owned (free_packet holding_netqw)
free_packet-Owned_example = free_packet-Owned 0 [] holding_netqw refl holding-Owned

handle_due-Ordered_example :
    Ends Ordered (handle_due 6 holding_netqw.internal_packets holding_netqw)
handle_due-Ordered_example = handle_due-Ordered 6 holding_netqw (holding-Owned, waiting-IsQueued)

abbrev datagram_nine : Datagram
datagram_nine = record {
  from_server = true;
  bytes = packet_nine;
  stale = [];
  allocated = true;
  now = 7;
}

abbrev some_sending : Sending
some_sending = record {
  rounds = 3;
  stamps = λ k. k;
  granted = λ k. true;
  times = λ k. k;
  current = 1010000;
}

acceptable_nine : is_acceptable packet_nine waiting_netqw ≡ true
unfolding is_acceptable sequence_at
acceptable_nine = refl

accept_packet-TakenIn_example :
    TakenIn packet_nine (delay_of 7 waiting_netqw == 0) (accept_packet 7 packet_nine waiting_netqw)
accept_packet-TakenIn_example =
    accept_packet-TakenIn 7 packet_nine waiting_netqw waiting-IsQueued acceptable_nine

disconnect-Dropped_example : Dropped 3 idle_netqw (disconnect (λ k. true) (λ k. k) idle_netqw)
disconnect-Dropped_example = disconnect-Dropped (λ k. true) (λ k. k) idle_netqw refl refl

abbrev filled_netqw : NetQw
filled_netqw = record idle_netqw { reliable_buffers = (4 ∷ b'a' ∷ 0 ∷ []) ∷ (4 ∷ 0 ∷ []) ∷ [] }
