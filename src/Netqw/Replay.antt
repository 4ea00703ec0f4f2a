-- ===== src/Netqw/Replay.antt =====
-- Packets that arrive twice in src/netqw.c.
use qwnet_library.Netqw.{NetPacket, NetQw, put_packet}
use qwnet_library.Netqw.Receive.{sequence_at, flag_at, note_reply, note_incoming, handle_received}
use qwnet_library.Netqw.Reliable.{
  IsQueued, acknowledged, is_idle, is_lost, acknowledge-eq, note_reply_queue, handle_received-eq,
}
use qwnet_library.Netqw.Thread.{is_acceptable, delay_of, accept_packet}
use qwnet_library.Prelude.{
  ℕ, ◌+◌, ◌≤◌, ◌≡◌, refl, ◌∙◌, inl, inr, Bool, true, false, not, Option, some, List, [], ◌∷◌, ◌++◌,
  arith, length, ◌==◌, Bool-cases,
}

acknowledged-incoming :
    (quiet lost : Bool) (n : NetQw)
    → (acknowledged quiet lost n).last_incoming_sequence_number ≡ n.last_incoming_sequence_number
unfolding acknowledged
acknowledged-incoming true lost n = refl
acknowledged-incoming false true n = refl
acknowledged-incoming false false n = refl

note_reply-incoming :
    (seq : ℕ) (n : NetQw)
    → (note_reply seq n).last_incoming_sequence_number ≡ n.last_incoming_sequence_number
unfolding note_reply
note_reply-incoming seq n = ground arith

-- A packet that is handled leaves its number.
record Noted (buf : List ℕ) (result : Option NetQw) : Type 0 where
  after : NetQw
  returns : result ≡ some after
  number : after.last_incoming_sequence_number ≡ sequence_at buf 0

handle_received-Noted :
    (buf : List ℕ) (n : NetQw) → 8 ≤ length buf → IsQueued n → Noted buf (handle_received buf n)
unfolding note_incoming
handle_received-Noted buf n long h =
    let seq = sequence_at buf 0 in
    let m = note_incoming seq (flag_at buf 3) n in
    let noted = note_reply seq m in
    let same = note_reply_queue seq m in
    let queued : IsQueued noted = rw (same.0, same.1) h in
    record {
      after = acknowledged (is_idle seq noted) (is_lost (flag_at buf 7) noted) noted;
      returns = handle_received-eq buf n long ∙ acknowledge-eq seq (flag_at buf 7) noted queued;
      number = acknowledged-incoming _ _ noted ∙ note_reply-incoming seq m;
    }

-- The packet `buf` was taken in, and a copy of it is turned away if `turned_away`.
pub record TakenIn (buf : List ℕ) (turned_away : Bool) (result : Option NetQw) : Type 0 where
  pub after : NetQw
  pub returns : result ≡ some after
  pub copy : is_acceptable buf after ≡ not turned_away

acceptable_number :
    (buf : List ℕ) (n : NetQw)
    → n.last_incoming_sequence_number ≡ sequence_at buf 0
    → is_acceptable buf n ≡ false
unfolding is_acceptable
acceptable_number buf n e = ground arith

-- Where the reliable buffers under way stand in the queue: right after an acceptable packet was taken
-- in, a copy of it is not acceptable if the packet was handled at once, and is if the lag delays it.
pub accept_packet-TakenIn :
    (now : ℕ) (buf : List ℕ) (n : NetQw)
    → IsQueued n
    → is_acceptable buf n ≡ true
    → TakenIn buf (delay_of now n == 0) (accept_packet now buf n)
unfolding accept_packet is_acceptable
accept_packet-TakenIn now buf n h ok = elim (Bool-cases (delay_of now n == 0)) [
  | inl soon ↦
      let p = n.next_packet in
      let packet : NetPacket = record {
        delayuntil = delay_of now n;
        usecount = 1;
        payload = buf;
      } in
      let stored : NetQw = record n {
        packets = put_packet n.packets p (some packet);
        next_packet = p + 1;
        client_packets = n.client_packets ++ (p ∷ []);
      } in
      let noted = handle_received-Noted buf stored (ground arith) h in
      rw (soon, accept_packet)
        (record {
          after = noted.after;
          returns = noted.returns;
          copy = acceptable_number buf noted.after noted.number;
        })
  | inr later ↦
      let p = n.next_packet in
      let packet : NetPacket = record {
        delayuntil = delay_of now n;
        usecount = 2;
        payload = buf;
      } in
      let stored : NetQw = record n {
        packets = put_packet n.packets p (some packet);
        next_packet = p + 1;
        client_packets = n.client_packets ++ (p ∷ []);
        internal_packets = n.internal_packets ++ (p ∷ []);
      } in
      rw (later, accept_packet) (record { after = stored; returns = refl; copy = ok })
]
