-- ===== src/Netqw/Loss.antt =====
-- The packet loss that src/netqw.c works out of the replies.
use qwnet_library.Netqw.{NetQw}
use qwnet_library.Netqw.Receive.{count_lost, history_length, loss_percent, note_reply}
use qwnet_library.Prelude.{
  ℕ, zero, suc, ◌+◌, ◌-◌, ◌%◌, ◌^◌, ◌≤◌, ◌<◌, ◌≡◌, inl, inr, true, List, arith, set, ltb,
  Bool-cases, u32,
}

count_lost_bound : (rounds i seq : ℕ) (replies : List ℕ) → count_lost rounds i seq replies ≤ rounds
unfolding count_lost
count_lost_bound zero i seq replies = omega arith
count_lost_bound (suc rounds) i seq replies =
    ground (arith, count_lost_bound rounds (i + 1) seq replies)

history_length_bound :
    (current seq : ℕ)
    → 0 < seq
    → seq ≤ current
    → current < 2 ^ 32
    → ltb current (u32 (seq + 200)) ≡ true
    → history_length current seq < 200
unfolding history_length
history_length_bound current seq pos le small reached = ground arith

loss_percent_bound : (lost : ℕ) → lost < 200 → loss_percent lost ≤ 100
unfolding loss_percent
loss_percent_bound lost h = omega arith

-- For a sequence number from 1 to the client's own 32-bit one, the packet loss stays at most 100.
pub note_reply-packetloss :
    (seq : ℕ) (n : NetQw)
    → 0 < seq
    → seq ≤ n.current_outgoing_sequence_number
    → n.current_outgoing_sequence_number < 2 ^ 32
    → n.packetloss ≤ 100
    → (note_reply seq n).packetloss ≤ 100
unfolding note_reply
note_reply-packetloss seq n pos le small before =
    let current = n.current_outgoing_sequence_number in
    let replies = set n.replyreceived (seq % 200) 1 in
    elim (Bool-cases (ltb current (u32 (seq + 200)))) [
      | inl near ↦
          rw (near, note_reply)
            (loss_percent_bound _ (
              omega (
                arith,
                count_lost_bound (history_length current seq) 0 seq replies,
                history_length_bound current seq pos le small near,
              )))
      | inr far ↦ rw (far, note_reply) before
    ]

-- For a sequence number that is ahead of the client's own, which is at least 200, the replies looked
-- at are as many more than the 200 of the history as it is ahead, less one.
pub history_length-ahead :
    (current ahead : ℕ)
    → 200 ≤ current
    → 0 < ahead
    → current + ahead < 2 ^ 32
    → history_length current (current + ahead) ≡ 200 + ahead - 1
unfolding history_length
history_length-ahead current ahead full pos small = ground arith
