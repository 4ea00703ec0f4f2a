-- ===== src/Netqw/Reliable.antt =====
-- The reliable commands of src/netqw.c: queued, packed into a packet, acknowledged or sent again.
use qwnet_library.Netqw.{NetQw}
use qwnet_library.Netqw.Receive.{
  sequence_at, flag_at, note_reply, free_buffers, acknowledge, note_incoming, handle_received,
}
use qwnet_library.Prelude.{
  ℕ, zero, suc, ◌+◌, ◌*◌, ◌%◌, ◌^◌, ◌≤◌, ◌<◌, bit_xor, ◌≡◌, refl, sym, ◌∙◌, ◌⊎◌, inl, inr, Bool,
  true, false, not, ◌||◌, Option, some, List, [], ◌∷◌, arith, length, get_or, drop, ltb, leb, ◌==◌,
  if◌then◌else◌, le→ltb, Bool-cases,
}

-- Only buffers that stand in the queue are under way.
abbrev pub IsQueued : NetQw → Type 0
IsQueued n = n.reliable_buffers_sent ≤ length n.reliable_buffers

free_buffers-eq-drop :
    (k : ℕ) (buffers : List (List ℕ))
    → k ≤ length buffers
    → free_buffers k buffers ≡ some (drop k buffers)
unfolding free_buffers
free_buffers-eq-drop zero buffers h = refl
free_buffers-eq-drop (suc k) [] h = absurd (omega arith)
free_buffers-eq-drop (suc k) (b ∷ bs) h = free_buffers-eq-drop k bs (omega arith)

-- The low 31 bits of the first four bytes, the lowest byte first.
abbrev pub first_number : List ℕ → ℕ
first_number buf =
    get_or buf 0 0 + get_or buf 1 0 * 256 + get_or buf 2 0 * 65536 + get_or buf 3 0 % 128 * 16777216

-- Nothing is under way, or the number has not reached that of the packet with the buffers.
abbrev pub NotReached : ℕ → NetQw → Type 0
NotReached seq n = (n.reliable_buffers_sent ≡ 0) ⊎ (seq < n.reliable_sequence_number)

abbrev pub IsReached : ℕ → NetQw → Type 0
IsReached seq n = (0 < n.reliable_buffers_sent) × (n.reliable_sequence_number ≤ seq)

-- Whether the highest bit of a byte is the bit `x`.
abbrev pub IsBit : ℕ → ℕ → Type 0
IsBit byte x = ((128 ≤ byte % 256) × (0 < x)) ⊎ ((byte % 256 < 128) × (x ≡ 0))

abbrev pub IsOtherBit : ℕ → ℕ → Type 0
IsOtherBit byte x = ((128 ≤ byte % 256) × (x ≡ 0)) ⊎ ((byte % 256 < 128) × (0 < x))

-- The three cases, each with its condition: nothing happens, or the queue is kept and sent again, or
-- what was under way is taken off it.
abbrev pub Answered : ℕ → ℕ → NetQw → NetQw → Type 0
Answered seq byte n after =
    (NotReached seq n
      × (after.reliable_buffers ≡ n.reliable_buffers)
      × (after.reliable_buffers_sent ≡ n.reliable_buffers_sent)
      × (after.incoming_reliable_xor ≡ n.incoming_reliable_xor))
    ⊎ (IsReached seq n
        × IsOtherBit byte n.incoming_reliable_xor
        × (after.reliable_buffers ≡ n.reliable_buffers)
        × (after.reliable_buffers_sent ≡ 0)
        × (after.incoming_reliable_xor ≡ bit_xor n.incoming_reliable_xor 1))
    ⊎ (IsReached seq n
        × IsBit byte n.incoming_reliable_xor
        × (after.reliable_buffers ≡ drop n.reliable_buffers_sent n.reliable_buffers)
        × (after.reliable_buffers_sent ≡ 0)
        × (after.incoming_reliable_xor ≡ n.incoming_reliable_xor))

-- What a packet of the server does to the queue.
pub record Acknowledged (buf : List ℕ) (n : NetQw) (result : Option NetQw) : Type 0 where
  pub after : NetQw
  pub returns : result ≡ some after
  pub queued : IsQueued after
  pub outcome : Answered (first_number buf) (get_or buf 7 0) n after

-- The state in each of the three cases, by the two tests.
unfoldable pub acknowledged : Bool → Bool → NetQw → NetQw
acknowledged quiet lost n =
    if quiet
    then n
    else if lost
    then record n {
      reliable_buffers_sent = 0;
      incoming_reliable_xor = bit_xor n.incoming_reliable_xor 1;
    }
    else record n {
      reliable_buffers = drop n.reliable_buffers_sent n.reliable_buffers;
      reliable_buffers_sent = 0;
    }

unfoldable pub is_idle : ℕ → NetQw → Bool
is_idle seq n = n.reliable_buffers_sent == 0 || ltb seq n.reliable_sequence_number

unfoldable pub is_lost : Bool → NetQw → Bool
is_lost acked n = if acked then n.incoming_reliable_xor == 0 else not (n.incoming_reliable_xor == 0)

pub acknowledge-eq :
    (seq : ℕ) (acked : Bool) (n : NetQw)
    → IsQueued n
    → acknowledge seq acked n ≡ some (acknowledged (is_idle seq n) (is_lost acked n) n)
unfolding acknowledge acknowledged is_idle is_lost
acknowledge-eq seq acked n h =
    rw (free_buffers-eq-drop n.reliable_buffers_sent n.reliable_buffers h) (ground arith)

idle_cases :
    (amount seq reached : ℕ)
    → (amount == 0 || ltb seq reached) ≡ true
    → (amount ≡ 0) ⊎ (seq < reached)
idle_cases amount seq reached h = elim (Bool-cases (amount == 0)) [
  | inl none_sent ↦ inl (ground arith)
  | inr some_sent ↦ inr (ground arith)
]

busy_cases :
    (amount seq reached : ℕ)
    → (amount == 0 || ltb seq reached) ≡ false
    → (0 < amount) × (reached ≤ seq)
busy_cases amount seq reached h = ground arith

lost_cases :
    (byte x : ℕ)
    → (if leb 0x80 (byte % 2 ^ 8) then x == 0 else not (x == 0)) ≡ true
    → IsOtherBit byte x
lost_cases byte x h = elim (Bool-cases (leb 0x80 (byte % 2 ^ 8))) [
  | inl bit_set ↦ inl (ground arith)
  | inr clear ↦ inr (ground arith)
]

kept_cases :
    (byte x : ℕ) → (if leb 0x80 (byte % 2 ^ 8) then x == 0 else not (x == 0)) ≡ false → IsBit byte x
kept_cases byte x h = elim (Bool-cases (leb 0x80 (byte % 2 ^ 8))) [
  | inl bit_set ↦ inl (ground arith)
  | inr clear ↦ inr (ground arith)
]

acknowledged-Answered :
    (seq : ℕ) (buf : List ℕ) (n : NetQw)
    → IsQueued n
    → IsQueued (acknowledged (is_idle seq n) (is_lost (flag_at buf 7) n) n)
      × Answered seq (get_or buf 7 0) n (acknowledged (is_idle seq n) (is_lost (flag_at buf 7) n) n)
unfolding acknowledged is_idle is_lost flag_at
acknowledged-Answered seq buf n h = elim (Bool-cases (is_idle seq n)) [
  | inl quiet ↦ rw quiet (h, inl (idle_cases n.reliable_buffers_sent seq _ quiet, refl, refl, refl))
  | inr busy ↦
      let reached = busy_cases n.reliable_buffers_sent seq _ busy in
      elim (Bool-cases (is_lost (flag_at buf 7) n)) [
        | inl lost ↦
            rw (busy, lost)
              (
                omega arith,
                inr (inl (reached, lost_cases (get_or buf 7 0) _ lost, refl, refl, refl)),
              )
        | inr kept ↦
            rw (busy, kept)
              (
                omega arith,
                inr (inr (reached, kept_cases (get_or buf 7 0) _ kept, refl, refl, refl)),
              )
      ]
]

pub note_reply_queue :
    (seq : ℕ) (n : NetQw)
    → ((note_reply seq n).reliable_buffers ≡ n.reliable_buffers)
      × ((note_reply seq n).reliable_buffers_sent ≡ n.reliable_buffers_sent)
unfolding note_reply
note_reply_queue seq n = ground arith

note_reply_numbers :
    (seq : ℕ) (n : NetQw)
    → ((note_reply seq n).reliable_sequence_number ≡ n.reliable_sequence_number)
      × ((note_reply seq n).incoming_reliable_xor ≡ n.incoming_reliable_xor)
unfolding note_reply
note_reply_numbers seq n = ground arith

-- The queue and its numbers are the same in `n` and `m`.
Answered-from :
    (seq byte : ℕ) (n m after : NetQw)
    → (m.reliable_buffers ≡ n.reliable_buffers)
      × (m.reliable_buffers_sent ≡ n.reliable_buffers_sent)
    → (m.reliable_sequence_number ≡ n.reliable_sequence_number)
      × (m.incoming_reliable_xor ≡ n.incoming_reliable_xor)
    → Answered seq byte m after
    → Answered seq byte n after
Answered-from seq byte n m after same numbers h =
    rw (sym same.0, sym same.1, sym numbers.0, sym numbers.1) h

pub handle_received-eq :
    (buf : List ℕ) (n : NetQw)
    → 8 ≤ length buf
    → handle_received buf n
      ≡ acknowledge
          (sequence_at buf 0)
          (flag_at buf 7)
          (note_reply (sequence_at buf 0) (note_incoming (sequence_at buf 0) (flag_at buf 3) n))
unfolding handle_received
handle_received-eq buf n long = rw (le→ltb (length buf) 8 long) refl

-- Where the buffers under way stand in the queue, NetQW_Thread_HandleReceivedPacket ends without a
-- fault for any packet of at least eight bytes. If nothing is under way, or the number in the first
-- four bytes is below that of the packet with the buffers, it leaves the queue, what is under way and
-- incoming_reliable_xor alone. If not, the highest bit of the eighth byte decides: where it is not
-- incoming_reliable_xor the queue is kept and sent again, and incoming_reliable_xor is flipped; where
-- it is, exactly the buffers that were under way are taken off. What is then under way still stands
-- in the queue.
pub handle_received-Acknowledged :
    (buf : List ℕ) (n : NetQw)
    → 8 ≤ length buf
    → IsQueued n
    → Acknowledged buf n (handle_received buf n)
unfolding sequence_at note_incoming
handle_received-Acknowledged buf n long h =
    let seq = sequence_at buf 0 in
    let m = note_incoming seq (flag_at buf 3) n in
    let noted = note_reply seq m in
    let same = note_reply_queue seq m in
    let numbers = note_reply_numbers seq m in
    let queued : IsQueued noted = rw (same.0, same.1) h in
    let result = acknowledged-Answered seq buf noted queued in
    let last = acknowledged (is_idle seq noted) (is_lost (flag_at buf 7) noted) noted in
    record {
      after = last;
      returns = handle_received-eq buf n long ∙ acknowledge-eq seq (flag_at buf 7) noted queued;
      queued = result.0;
      outcome = Answered-from seq (get_or buf 7 0) n noted last same numbers result.1;
    }

-- The packet number that the server acknowledges has no effect: two packets with the same sequence
-- number and the same two flags lead to the same state.
pub handle_received-ack_ignored :
    (buf buf' : List ℕ) (n : NetQw)
    → 8 ≤ length buf
    → 8 ≤ length buf'
    → sequence_at buf 0 ≡ sequence_at buf' 0
    → flag_at buf 3 ≡ flag_at buf' 3
    → flag_at buf 7 ≡ flag_at buf' 7
    → handle_received buf n ≡ handle_received buf' n
handle_received-ack_ignored buf buf' n long long' p q r =
    rw (handle_received-eq buf n long, handle_received-eq buf' n long', p, q, r)

-- Where reliable buffers are under way, a packet of the server with the old acknowledgement bit whose
-- own number has reached that of the packet with the buffers has them sent again, although the packet
-- that it acknowledges came before them.
pub handle_received-premature :
    (buf : List ℕ) (n : NetQw)
    → 8 ≤ length buf
    → IsQueued n
    → 0 < n.reliable_buffers_sent
    → n.reliable_sequence_number ≤ sequence_at buf 0
    → sequence_at buf 4 < n.reliable_sequence_number
    → is_lost (flag_at buf 7) n ≡ true
    → (after : NetQw) × (handle_received buf n ≡ some after)
      × (after.reliable_buffers_sent ≡ 0)
      × (after.reliable_buffers ≡ n.reliable_buffers)
unfolding note_incoming
handle_received-premature buf n long h under_way reached early lost =
    let seq = sequence_at buf 0 in
    let m = note_incoming seq (flag_at buf 3) n in
    let noted = note_reply seq m in
    let same = note_reply_queue seq m in
    let numbers = note_reply_numbers seq m in
    let queued : IsQueued noted = rw (same.0, same.1) h in
    let busy : is_idle seq noted ≡ false = unfold is_idle in ground (arith, same.1, numbers.0) in
    let lost_too : is_lost (flag_at buf 7) noted ≡ true =
      unfold is_lost in rw (numbers.1) (unfold is_lost in lost) in
    (
      acknowledged false true noted,
      handle_received-eq buf n long
          ∙ acknowledge-eq seq (flag_at buf 7) noted queued
          ∙ rw (busy, lost_too),
      unfold acknowledged in refl,
      unfold acknowledged in same.0,
    )
