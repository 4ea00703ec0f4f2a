-- ===== src/Client/Packets.antt =====
-- Get_Message of src/main.c takes the packets of the network thread in order.
-- The packet at the head of the client's list, whose delay is over at each of the clock's next two
-- readings; the third is in range for the frames.
use qwnet_library.Client.{
  tick, note_frames, do_netqw_stuff, net_message_max, store_message, get_message,
}
use qwnet_library.Client.Calls.{
  freed, free_packet-freed, freed-Owned, copy_loop-SameLists, InStep, generate_frames-MadeFrames,
}
use qwnet_library.Connection.{Connection}
use qwnet_library.Msg.{Reader}
use qwnet_library.Netqw.{NetPacket, NetQw}
use qwnet_library.Netqw.Api.{
  client_head, get_packet_length, get_packet_data, release, free_packet, copy_frames,
}
use qwnet_library.Netqw.Ownership.{Owned, SameLists, SameLists-Owned}
use qwnet_library.Prelude.{
  ℕ, zero, suc, ◌+◌, ◌≤◌, ◌<◌, min, ◌≡◌, refl, sym, ap, ◌∙◌, inl, inr, Bool, true, false, some,
  List, [], ◌∷◌, ◌++◌, arith, length, take, drop, ltb, leb, ◌==◌, if◌then◌else◌, ltb→lt, ltb→le,
  Bool-cases,
}
use qwnet_library.Prelude.Action.{Outcome, done, pure, ◌>>=◌, ◌>>◌}

pub record IsWaiting (rounds : ℕ) (packet : NetPacket) (rest : List ℕ) (n : NetQw) (c : Connection)
    : Type 0 where
  pub key : ℕ
  pub netqw_is : c.netqw ≡ some n
  pub queue : n.client_packets ≡ key ∷ rest
  pub here : n.packets key ≡ some packet
  pub owned : Owned n
  pub not_empty : 0 < length packet.payload
  pub due : packet.delayuntil ≤ c.oracle.clock c.calls
  pub still_due : packet.delayuntil ≤ c.oracle.clock (c.calls + 1)
  pub in_step : InStep rounds (c.oracle.clock (c.calls + 1 + 1)) n

client_head-here :
    (now key : ℕ) (packet : NetPacket) (rest : List ℕ) (n : NetQw)
    → n.client_packets ≡ key ∷ rest
    → n.packets key ≡ some packet
    → packet.delayuntil ≤ now
    → client_head now n ≡ done (some packet)
unfolding client_head
client_head-here now key packet rest n queue here due =
    let over : leb packet.delayuntil now ≡ true = ground arith in
    rw (queue, here, over, client_head) refl

-- What Get_Message leaves.
pub record Delivered (payload : List ℕ) (rest : List ℕ) (result : Outcome (Bool × Connection))
    : Type 0 where
  pub after : Connection
  pub netqw_after : NetQw
  pub returns : result ≡ done (true, after)
  pub has : after.netqw ≡ some netqw_after
  pub queue_left : netqw_after.client_packets ≡ rest
  pub owned_after : Owned netqw_after
  pub message_size : after.net_message_size ≡ min net_message_max (length payload)
  pub message : take after.net_message_size after.msg.bytes ≡ take net_message_max payload

-- What DoNetQWStuff leaves alone.
record Stuffed (n : NetQw) (c : Connection) (result : Outcome (Unit {0} × Connection))
    : Type 0 where
  stuffed : Connection
  netqw_stuffed : NetQw
  stuffs : result ≡ done (tt, stuffed)
  holds : stuffed.netqw ≡ some netqw_stuffed
  same : SameLists n netqw_stuffed
  same_size : stuffed.net_message_size ≡ c.net_message_size
  same_msg : stuffed.msg ≡ c.msg

do_netqw_stuff-Stuffed :
    (rounds : ℕ) (n : NetQw) (c : Connection)
    → c.netqw ≡ some n
    → InStep rounds (c.oracle.clock c.calls) n
    → Stuffed n c (do_netqw_stuff rounds c)
unfolding do_netqw_stuff tick copy_frames
do_netqw_stuff-Stuffed rounds n c e in_step =
    let stamps : ℕ → ℕ = λ k. c.oracle.clock (c.calls + 1 + k) in
    let ran = generate_frames-MadeFrames rounds stamps (c.oracle.clock c.calls) n in_step in
    record {
      stuffed = note_frames ran.made (record c { calls = c.calls + 1 });
      netqw_stuffed = (copy_frames ran.made).after;
      stuffs = rw (e, ◌>>=◌) (rw (ran.returns, ◌>>=◌) refl);
      holds = refl;
      same = copy_loop-SameLists ran.made.framestocopy n ran.made ran.same;
      same_size = refl;
      same_msg = refl;
    }

-- The connection with the packet's bytes as its message, before DoNetQWStuff.
abbrev stored : List ℕ → NetQw → Connection → Connection
stored payload n c =
    let size = if ltb net_message_max (length payload) then net_message_max else length payload in
    record c {
      calls = c.calls + 1 + 1;
      net_message_size = size;
      netqw = some n;
      msg = record c.msg {
        bytes = take size payload ++ drop size c.msg.bytes;
        cursize = size;
        attached = true;
      };
    }

get_message-stored :
    (rounds : ℕ) (packet : NetPacket) (n out : NetQw) (c : Connection)
    → c.netqw ≡ some n
    → client_head (c.oracle.clock c.calls) n ≡ done (some packet)
    → client_head (c.oracle.clock (c.calls + 1)) n ≡ done (some packet)
    → 0 < length packet.payload
    → free_packet n ≡ done out
    → get_message rounds c ≡ (do_netqw_stuff rounds >> pure true) (stored packet.payload out c)
unfolding get_message tick store_message get_packet_length get_packet_data
get_message-stored rounds packet n out c e first second some_bytes release =
    let some_length : (length packet.payload == 0) ≡ false = ground arith in
    rw (e, ◌>>=◌)
      (rw (first, ◌>>=◌) (rw (some_length, ◌>>=◌) (rw (second, ◌>>=◌) (rw (release, ◌>>=◌) refl))))

take-append : (k : ℕ) (xs ys : List ℕ) → k ≤ length xs → take k (take k xs ++ ys) ≡ take k xs
take-append zero xs ys h = refl
take-append (suc k) [] ys h = absurd (omega arith)
take-append (suc k) (x ∷ xs) ys h = ap (λ zs. x ∷ zs) (take-append k xs ys (omega arith))

take-length : (k : ℕ) (xs : List ℕ) → length xs ≤ k → take k xs ≡ xs
take-length zero [] h = refl
take-length zero (x ∷ xs) h = absurd (omega arith)
take-length (suc k) [] h = refl
take-length (suc k) (x ∷ xs) h = ap (λ zs. x ∷ zs) (take-length k xs (omega arith))

SameLists-keep : (n m : NetQw) → SameLists n m → Owned n → Owned m
SameLists-keep n m same h =
    rw (same.client_packets, same.internal_packets)
      (SameLists-Owned n m n.client_packets n.internal_packets same h)

stored-message :
    (payload : List ℕ) (n : NetQw) (c : Connection)
    → let s = stored payload n c in
      take s.net_message_size s.msg.bytes ≡ take net_message_max payload
stored-message payload n c = elim (Bool-cases (ltb net_message_max (length payload))) [
  | inl long ↦ rw long (
      take-append net_message_max payload (drop net_message_max c.msg.bytes)
        (omega (arith, ltb→lt net_message_max (length payload) long)))
  | inr short ↦ rw short (
      take-append (length payload) payload (drop (length payload) c.msg.bytes) (omega arith)
      ∙ take-length (length payload) payload (omega arith)
      ∙ sym (take-length net_message_max payload (ltb→le net_message_max (length payload) short)))
]

-- Where a packet with data waits at the head of the client's list, its delay is over at the clock's
-- next two readings, the use counts are right, no packet has fewer than eight bytes, and the clock is in range for the frames, Get_Message
-- returns true: the packet's first bytes, at most 2900, are the message, the packet has left the list
-- and the others are still there, and the use counts are right again.
pub get_message-Delivered :
    (rounds : ℕ) (packet : NetPacket) (rest : List ℕ) (n : NetQw) (c : Connection)
    → IsWaiting rounds packet rest n c
    → Delivered packet.payload rest (get_message rounds c)
get_message-Delivered rounds packet rest n c w =
    let out = freed w.key rest packet n in
    let before = stored packet.payload out c in
    let run = do_netqw_stuff-Stuffed rounds out before refl (record {
      some_time = w.in_step.some_time;
      fits = w.in_step.fits;
      past = w.in_step.past;
      to_send = w.in_step.to_send;
      to_copy = w.in_step.to_copy;
      enough = w.in_step.enough;
    }) in
    let called =
      get_message-stored rounds packet n out c w.netqw_is
        (client_head-here (c.oracle.clock c.calls) w.key packet rest n w.queue w.here w.due)
        (client_head-here (c.oracle.clock (c.calls + 1)) w.key packet rest n w.queue w.here
          w.still_due)
        w.not_empty (free_packet-freed w.key rest packet n w.queue w.here) in
    record {
      after = run.stuffed;
      netqw_after = run.netqw_stuffed;
      returns = called ∙ rw (run.stuffs, ◌>>=◌) refl;
      has = run.holds;
      queue_left = run.same.client_packets;
      owned_after =
          SameLists-keep out run.netqw_stuffed run.same
            (freed-Owned w.key rest packet n w.queue w.here w.owned);
      message_size = run.same_size ∙ ground arith;
      message =
          ap (λ (k : ℕ). take k run.stuffed.msg.bytes) run.same_size
          ∙ ap (λ (r : Reader). take before.net_message_size r.bytes) run.same_msg
          ∙ stored-message packet.payload out c;
    }
