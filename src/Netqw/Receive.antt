-- ===== src/Netqw/Receive.antt =====
-- The receiving side of src/netqw.c.
use qwnet_library.Netqw.{NetQw, history_count}
use qwnet_library.Prelude.{
  ℕ, zero, suc, ◌+◌, ◌-◌, ◌*◌, ◌/◌, ◌%◌, ◌^◌, bit_xor, Bool, not, ◌||◌, Option, none, some, List,
  [], ◌∷◌, length, get_or, set, ltb, leb, ◌==◌, if◌then◌else◌, u8, u32, sub32,
}

-- `sequence_number`: three bytes and the low seven bits of a fourth.
unfoldable pub sequence_at : List ℕ → ℕ → ℕ
sequence_at buf i =
    get_or buf i 0
    + get_or buf (i + 1) 0 * 2 ^ 8
    + get_or buf (i + 2) 0 * 2 ^ 16
    + get_or buf (i + 3) 0 % 2 ^ 7 * 2 ^ 24

-- `buf[i] & 0x80`
unfoldable pub flag_at : List ℕ → ℕ → Bool
flag_at buf i = leb 0x80 (get_or buf i 0 % 2 ^ 8)

-- `for(i=0;i<j;i++)`: how many of the `rounds` packets up to `seq - i` have had no reply.
unfoldable pub count_lost : ℕ → ℕ → ℕ → List ℕ → ℕ
count_lost zero i seq replies = 0
count_lost (suc rounds) i seq replies =
    (if get_or replies (sub32 seq i % history_count) 0 == 0 then 1 else 0)
    + count_lost rounds (i + 1) seq replies

-- `j`: how many packets of the history are looked at. All of it is `unsigned int`.
unfoldable pub history_length : ℕ → ℕ → ℕ
history_length current seq =
    sub32 (if ltb history_count current then history_count else current)
      (u32 (sub32 current seq + 1))

unfoldable pub loss_percent : ℕ → ℕ
loss_percent lost = u8 (u32 (u32 (lost * 100) + (history_count - 1)) / history_count)

-- `if (sequence_number + PLPACKETHISTORYCOUNT > netqw->current_outgoing_sequence_number)`
unfoldable pub note_reply : ℕ → NetQw → NetQw
unfolding count_lost history_length loss_percent
note_reply seq n =
    let current = n.current_outgoing_sequence_number in
    let replies = set n.replyreceived (seq % history_count) 1 in
    if ltb current (u32 (seq + history_count))
    then record n {
      replyreceived = replies;
      packetloss = loss_percent (count_lost (history_length current seq) 0 seq replies);
    }
    else n

-- `for(i=0;i<netqw->reliable_buffers_sent;i++)`: a buffer is taken off the list and freed; past the
-- end that reads through a null pointer.
unfoldable pub free_buffers : ℕ → List (List ℕ) → Option (List (List ℕ))
free_buffers zero buffers = some buffers
free_buffers (suc k) [] = none
free_buffers (suc k) (b ∷ bs) = free_buffers k bs

-- The acknowledgement of the reliable buffers that are under way. `acked` is `buf[7] & 0x80`;
-- `(!xor) ^ (!acked)` holds where the two differ.
unfoldable pub acknowledge : ℕ → Bool → NetQw → Option NetQw
unfolding free_buffers
acknowledge seq acked n =
    if n.reliable_buffers_sent == 0 || ltb seq n.reliable_sequence_number
    then some n
    else if (if acked then n.incoming_reliable_xor == 0 else not (n.incoming_reliable_xor == 0))
    then some (record n {
      reliable_buffers_sent = 0;
      incoming_reliable_xor = bit_xor n.incoming_reliable_xor 1;
    })
    else elim (free_buffers n.reliable_buffers_sent n.reliable_buffers) [
      | none ↦ none
      | some rest ↦ some (record n { reliable_buffers = rest; reliable_buffers_sent = 0 })
    ]

-- The first statements of NetQW_Thread_HandleReceivedPacket.
unfoldable pub note_incoming : ℕ → Bool → NetQw → NetQw
note_incoming seq reliable n = record n {
  last_incoming_sequence_number = seq;
  outgoing_reliable_xor =
      if reliable then bit_xor n.outgoing_reliable_xor 1 else n.outgoing_reliable_xor;
}

-- NetQW_Thread_HandleReceivedPacket. It takes the first four bytes, the sequence number of the
-- server's packet, where it needs the number of the packet that the server acknowledges. A packet of
-- fewer than eight bytes is read past its end, which faults.
unfoldable pub handle_received : List ℕ → NetQw → Option NetQw
unfolding sequence_at flag_at note_incoming note_reply acknowledge
handle_received buf n =
    if ltb (length buf) 8
    then none
    else let seq = sequence_at buf 0 in
      acknowledge seq (flag_at buf 7) (note_reply seq (note_incoming seq (flag_at buf 3) n))
