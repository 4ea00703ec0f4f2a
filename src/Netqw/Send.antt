-- ===== src/Netqw/Send.antt =====
-- The sending side of src/netqw.c. A send goes to the log `wire`. `allocated` is whether malloc
-- succeeds, `now` what Sys_IntTime returns.
use qwnet_library.Crc.{sequence_crc_byte}
use qwnet_library.Huffman.{compress_packet}
use qwnet_library.Netqw.{
  Usercmd, zero_cmd, SentFrame, SendPacket, NetQw, update_backup, history_count, empty_frame,
  clc_move, clc_delta, clc_tmove,
}
use qwnet_library.Prelude.{
  ℕ, zero, suc, ◌+◌, ◌-◌, ◌*◌, ◌/◌, ◌%◌, ◌^◌, bit_or, bit_xor, Bool, false, not, ◌&&◌, ◌||◌, Option,
  none, some, List, [], ◌∷◌, ◌++◌, length, get_or, set, take, drop, ltb, leb, ◌==◌, if◌then◌else◌,
  u8, u32, u64, sub32, minus_one, has_flag,
}

-- WriteAngle16 stores the low and the high byte; so do the three moves of a command.
abbrev pub short_bytes : ℕ → List ℕ
short_bytes v = u8 v ∷ u8 (v / 2 ^ 8) ∷ []

abbrev pub long_bytes : ℕ → List ℕ
long_bytes v = u8 v ∷ u8 (v / 2 ^ 8) ∷ u8 (v / 2 ^ 16) ∷ u8 (v / 2 ^ 24) ∷ []

-- `if (cmd->x != from->x) bits |= mask;`
abbrev pub changed : ℕ → ℕ → ℕ → ℕ
changed mask a b = if a == b then 0 else mask

unfoldable pub usercmd_bits : Usercmd → Usercmd → ℕ
usercmd_bits from cmd = bit_or (changed 0x01 cmd.angle0 from.angle0) (
    bit_or (changed 0x80 cmd.angle1 from.angle1) (
      bit_or (changed 0x02 cmd.angle2 from.angle2) (
        bit_or (changed 0x04 cmd.forwardmove from.forwardmove) (
          bit_or (changed 0x08 cmd.sidemove from.sidemove) (
            bit_or (changed 0x10 cmd.upmove from.upmove) (
              bit_or (changed 0x20 cmd.buttons from.buttons)
                (changed 0x40 cmd.impulse from.impulse)))))))

-- `if (bits & mask) …`
abbrev pub field_if : ℕ → ℕ → List ℕ → List ℕ
field_if bits mask bytes = if has_flag bits mask then bytes else []

unfoldable pub write_delta_usercmd : Usercmd → Usercmd → List ℕ
unfolding usercmd_bits
write_delta_usercmd from cmd =
    let bits = usercmd_bits from cmd in
    u8 bits
    ∷ (field_if bits 0x01 (short_bytes cmd.angle0)
        ++ (field_if bits 0x80 (short_bytes cmd.angle1)
            ++ (field_if bits 0x02 (short_bytes cmd.angle2)
                ++ (field_if bits 0x04 (short_bytes cmd.forwardmove)
                    ++ (field_if bits 0x08 (short_bytes cmd.sidemove)
                        ++ (field_if bits 0x10 (short_bytes cmd.upmove)
                            ++ (field_if bits 0x20 (u8 cmd.buttons ∷ [])
                                ++ (field_if bits 0x40 (u8 cmd.impulse ∷ [])
                                    ++ (u8 cmd.msec ∷ [])))))))))

unfoldable pub queue_packet : Bool → ℕ → List ℕ → NetQw → NetQw
queue_packet allocated now buf n =
    let delay = if n.lag_ezcheat then n.lag else n.lag / 2 in
    let packet : SendPacket = record { delayuntil = u64 (now + delay); payload = buf } in
    if allocated then record n { send_packets = n.send_packets ++ (packet ∷ []) } else n

-- Sys_Net_Send
abbrev pub transmit : List ℕ → NetQw → NetQw
transmit buf n = record n { wire = n.wire ++ (buf ∷ []) }

unfoldable pub deliver : Bool → ℕ → Bool → List ℕ → NetQw → NetQw
unfolding queue_packet
deliver allocated now force buf n =
    if not (n.lag == 0) && not force then queue_packet allocated now buf n else transmit buf n

-- NetQW_Thread_SendPacket. The first 10 bytes are never compressed; `none` is a fault in the coder,
-- or a packet that is too short to have them.
unfoldable pub send_packet : Bool → ℕ → Bool → List ℕ → NetQw → Option NetQw
unfolding deliver
send_packet allocated now force buf n =
    if leb 1500 (length buf)
    then some n
    else if not n.huffman
    then some (deliver allocated now force buf n)
    else if ltb (length buf) 10
    then none
    else elim (compress_packet (drop 10 buf) 1490) [
      | none ↦ none
      | some [] ↦ some n
      | some (b ∷ bs) ↦ some (deliver allocated now force (take 10 buf ++ (b ∷ bs)) n)
    ]

-- The first ten bytes of a packet: the two sequence numbers, the flag of the second, the port.
unfoldable pub packet_header : NetQw → List ℕ
packet_header n =
    long_bytes n.current_outgoing_sequence_number
    ++ (u8 n.last_incoming_sequence_number
        ∷ u8 (n.last_incoming_sequence_number / 2 ^ 8)
        ∷ u8 (n.last_incoming_sequence_number / 2 ^ 16)
        ∷ u8 (
            bit_or (u8 (n.last_incoming_sequence_number / 2 ^ 24))
              (u32 (n.outgoing_reliable_xor * 2 ^ 7)))
        ∷ short_bytes n.qport)

abbrev pub frame_of : NetQw → ℕ → SentFrame
frame_of n seq = get_or n.frames (seq % update_backup) empty_frame

-- The three commands of a move: this frame's and the two before it.
unfoldable pub move_commands : NetQw → List ℕ
unfolding write_delta_usercmd
move_commands n =
    let seq = n.current_outgoing_sequence_number in
    let oldest = (frame_of n (sub32 seq 2)).cmd in
    let old = (frame_of n (sub32 seq 1)).cmd in
    write_delta_usercmd zero_cmd oldest
    ++ (write_delta_usercmd oldest old ++ write_delta_usercmd old (frame_of n seq).cmd)

-- From clc_move to the last command; the byte behind clc_move is the checksum of what follows it.
unfoldable pub move_bytes : NetQw → Option (List ℕ)
unfolding move_commands
move_bytes n =
    let body = n.packetloss ∷ move_commands n in
    elim (sequence_crc_byte body n.current_outgoing_sequence_number) [
      | none ↦ none
      | some crc ↦ some (clc_move ∷ crc ∷ body)
    ]

unfoldable pub delta_bytes : NetQw → List ℕ
delta_bytes n =
    let seq = (frame_of n n.current_outgoing_sequence_number).delta_sequence in
    if seq == minus_one then [] else clc_delta ∷ u8 seq ∷ []

unfoldable pub tmove_bytes : NetQw → List ℕ
tmove_bytes n = if n.send_tmove then clc_tmove ∷ n.tmove_buffer else []

-- `while(reliablebuffer && i + reliablebuffer->length < 1450)`: the bytes that fit, and how many
-- buffers they are.
unfoldable pub fit_buffers : ℕ → List (List ℕ) → List ℕ × ℕ
fit_buffers i [] = ([], 0)
fit_buffers i (b ∷ bs) =
    let rest = fit_buffers (i + length b) bs in
    if ltb (i + length b) 1450 then (b ++ rest.0, suc rest.1) else ([], 0)

-- `buf[3] |= 0x80`
unfoldable pub mark_reliable : List ℕ → List ℕ
mark_reliable buf = set buf 3 (u8 (bit_or (get_or buf 3 0) 0x80))

-- The part of a packet in front of the reliable buffers, and `send_tmove` taken back.
unfoldable pub unreliable_part : NetQw → Option (List ℕ)
unfolding packet_header move_bytes delta_bytes tmove_bytes
unreliable_part n = elim (move_bytes n) [
  | none ↦ none
  | some move ↦ some (packet_header n ++ (move ++ (delta_bytes n ++ tmove_bytes n)))
]

-- The whole packet and the state that remembers what it holds: new reliable buffers are taken only
-- when none is waiting for its acknowledgement.
unfoldable pub add_reliable : List ℕ → NetQw → List ℕ × NetQw
unfolding fit_buffers mark_reliable
add_reliable buf n =
    let fit = fit_buffers (length buf) n.reliable_buffers in
    if not (n.reliable_buffers_sent == 0) || fit.1 == 0 then (buf, n) else (
      mark_reliable (buf ++ fit.0),
      record n {
        reliable_buffers_sent = fit.1;
        reliable_sequence_number = n.current_outgoing_sequence_number;
        incoming_reliable_xor = bit_xor n.incoming_reliable_xor 1;
      },
    )

-- The counters after a packet went out.
unfoldable pub count_sent : NetQw → NetQw
count_sent n = record n {
  replyreceived = set n.replyreceived (n.current_outgoing_sequence_number % history_count) 0;
  lastsentframe = u32 (n.lastsentframe + 1);
  framestosend = n.framestosend - 1;
  current_outgoing_sequence_number = u32 (n.current_outgoing_sequence_number + 1);
}

-- One round of the loop of NetQW_Thread_DoSend.
unfoldable pub send_frame : Bool → ℕ → NetQw → Option NetQw
unfolding unreliable_part add_reliable send_packet count_sent
send_frame allocated now n = elim (unreliable_part n) [
  | none ↦ none
  | some buf ↦
      let (packet, n') = add_reliable buf (record n { send_tmove = false }) in
      elim (send_packet allocated now false packet n') [
        | none ↦ none
        | some n'' ↦ some (count_sent n'')
      ]
]

-- `if (!netqw->framestosend) break;`
unfoldable pub send_frames : ℕ → (ℕ → Bool) → (ℕ → ℕ) → NetQw → Option NetQw
unfolding send_frame
send_frames zero allocated now n = some n
send_frames (suc k) allocated now n = elim (send_frame (allocated 0) (now 0) n) [
  | none ↦ none
  | some n' ↦ send_frames k (λ i. allocated (i + 1)) (λ i. now (i + 1)) n'
]
