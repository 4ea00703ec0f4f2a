-- ===== src/Netqw/Outgoing.antt =====
-- What NetQW_Thread_DoSend of src/netqw.c puts on the wire for each frame.
use qwnet_library.Netqw.{NetQw}
use qwnet_library.Netqw.Fitting.{fit_buffers_below}
use qwnet_library.Netqw.Send.{
  transmit, deliver, send_packet, fit_buffers, mark_reliable, add_reliable, count_sent, send_frame,
  send_frames,
}
use qwnet_library.Netqw.Sending.{CanBuild, unreliable_part-Built}
use qwnet_library.Prelude.{
  ℕ, zero, suc, ◌+◌, ◌-◌, ◌^◌, ◌<◌, bit_or, ◌≡◌, refl, sym, ap, ◌∙◌, inl, inr, Bool, false, not,
  ◌||◌, Option, some, List, [], ◌∷◌, ◌++◌, append-nil, append_assoc, arith, length, get_or,
  length-append, length-set, ◌==◌, Bool-cases, u8, u32,
}

-- The packet with the reliable buffers that fit.
add_reliable_bound :
    (buf : List ℕ) (n : NetQw) → length buf < 1450 → length (add_reliable buf n).0 < 1450
unfolding add_reliable mark_reliable
add_reliable_bound buf n h =
    let fit = fit_buffers (length buf) n.reliable_buffers in
    ground (
      arith,
      fit_buffers_below (length buf) n.reliable_buffers h,
      length-append buf fit.0,
      length-set (buf ++ fit.0) 3 (u8 (bit_or (get_or (buf ++ fit.0) 3 0) 0x80)),
    )

-- What `add_reliable` leaves alone.
record SameSending (n m : NetQw) : Type 0 where
  wire : m.wire ≡ n.wire
  huffman : m.huffman ≡ n.huffman
  lag : m.lag ≡ n.lag
  packetloss : m.packetloss ≡ n.packetloss
  tmove_buffer : m.tmove_buffer ≡ n.tmove_buffer
  sequence : m.current_outgoing_sequence_number ≡ n.current_outgoing_sequence_number
  framestosend : m.framestosend ≡ n.framestosend

add_reliable-SameSending : (buf : List ℕ) (n : NetQw) → SameSending n (add_reliable buf n).1
unfolding add_reliable
add_reliable-SameSending buf n =
    let fit = fit_buffers (length buf) n.reliable_buffers in
    elim (Bool-cases (not (n.reliable_buffers_sent == 0) || fit.1 == 0)) [
      | inl full ↦ rw full (record {
        wire = refl;
        huffman = refl;
        lag = refl;
        packetloss = refl;
        tmove_buffer = refl;
        sequence = refl;
        framestosend = refl;
      })
      | inr free ↦ rw free (record {
        wire = refl;
        huffman = refl;
        lag = refl;
        packetloss = refl;
        tmove_buffer = refl;
        sequence = refl;
        framestosend = refl;
      })
    ]

-- An uncompressed connection without lag.
pub record IsPlain (n : NetQw) : Type 0 where
  pub can_build : CanBuild n
  pub huffman : n.huffman ≡ false
  pub lag : n.lag ≡ 0

-- What one frame does: exactly one packet goes out, and the counters move by one.
pub record Sent (n : NetQw) (result : Option NetQw) : Type 0 where
  pub after : NetQw
  pub packet : List ℕ
  pub returns : result ≡ some after
  pub wire : after.wire ≡ n.wire ++ (packet ∷ [])
  pub small : length packet < 1450
  pub sequence :
      after.current_outgoing_sequence_number ≡ u32 (n.current_outgoing_sequence_number + 1)
  pub framestosend : after.framestosend ≡ n.framestosend - 1
  pub plain : IsPlain after

send_plain :
    (allocated : Bool) (now : ℕ) (buf : List ℕ) (n : NetQw)
    → n.huffman ≡ false
    → n.lag ≡ 0
    → length buf < 1450
    → send_packet allocated now false buf n ≡ some (transmit buf n)
unfolding send_packet deliver
send_plain allocated now buf n plain lag small = ground arith

pub send_frame-Sent :
    (allocated : Bool) (now : ℕ) (n : NetQw) → IsPlain n → Sent n (send_frame allocated now n)
unfolding send_frame count_sent
send_frame-Sent allocated now n h =
    let built = unreliable_part-Built n h.can_build in
    let n0 = record n { send_tmove = false } in
    let packet = (add_reliable built.bytes n0).0 in
    let m = (add_reliable built.bytes n0).1 in
    let same = add_reliable-SameSending built.bytes n0 in
    let small = add_reliable_bound built.bytes n0 (omega (arith, built.bound)) in
    let out =
      send_plain allocated now packet m (same.huffman ∙ h.huffman) (same.lag ∙ h.lag) small in
    rw (built.returns, out, send_frame)
      (record {
        after = count_sent (transmit packet m);
        packet = packet;
        returns = refl;
        wire = rw (same.wire) refl;
        small = small;
        sequence = rw (same.sequence) refl;
        framestosend = rw (same.framestosend) refl;
        plain = record {
          can_build = record {
            loss = rw (same.packetloss) h.can_build.loss;
            teleport = rw (same.tmove_buffer) h.can_build.teleport;
          };
          huffman = same.huffman ∙ h.huffman;
          lag = same.lag ∙ h.lag;
        };
      })

-- What a run over `k` frames does.
pub record SentAll (k : ℕ) (n : NetQw) (result : Option NetQw) : Type 0 where
  pub after : NetQw
  pub packets : List (List ℕ)
  pub returns : result ≡ some after
  pub wire : after.wire ≡ n.wire ++ packets
  pub number : length packets ≡ k
  pub small : (i : ℕ) → i < k → length (get_or packets i []) < 1450
  pub sequence :
      after.current_outgoing_sequence_number ≡ u32 (n.current_outgoing_sequence_number + k)
  pub framestosend : after.framestosend ≡ n.framestosend - k
  pub plain : IsPlain after

small_at :
    (packet : List ℕ) (packets : List (List ℕ)) (k : ℕ)
    → length packet < 1450
    → ((i : ℕ) → i < k → length (get_or packets i []) < 1450)
    → (i : ℕ) → i < suc k
    → length (get_or (packet ∷ packets) i []) < 1450
small_at packet packets k h rest zero le = h
small_at packet packets k h rest (suc i) le = rest i (omega arith)

-- On an uncompressed connection without lag, with a 32-bit sequence number, `k` rounds of the sending
-- loop end without a fault and put `k` packets of less than 1450 bytes on the wire and nothing else;
-- the sequence number goes up by `k` and `framestosend` down by `k`.
pub send_frames-SentAll :
    (k : ℕ) (allocated : ℕ → Bool) (now : ℕ → ℕ) (n : NetQw)
    → IsPlain n
    → n.current_outgoing_sequence_number < 2 ^ 32
    → SentAll k n (send_frames k allocated now n)
unfolding send_frames
send_frames-SentAll zero allocated now n h s = record {
  after = n;
  packets = [];
  returns = refl;
  wire = sym (append-nil n.wire);
  number = refl;
  small = λ i le. absurd (omega arith);
  sequence = omega arith;
  framestosend = omega arith;
  plain = h;
}
send_frames-SentAll (suc k) allocated now n h s =
    let first = send_frame-Sent (allocated 0) (now 0) n h in
    let m = first.after in
    let rest =
      send_frames-SentAll k (λ i. allocated (i + 1)) (λ i. now (i + 1)) m first.plain
        (omega (arith, first.sequence)) in
    rw (first.returns, send_frames)
      (record {
        after = rest.after;
        packets = first.packet ∷ rest.packets;
        returns = rest.returns;
        wire =
            rest.wire
            ∙ ap (λ (w : List (List ℕ)). w ++ rest.packets) first.wire
            ∙ append_assoc n.wire (first.packet ∷ []) rest.packets;
        number = omega (arith, rest.number);
        small = small_at first.packet rest.packets k first.small rest.small;
        sequence = omega (arith, rest.sequence, first.sequence);
        framestosend = omega (arith, rest.framestosend, first.framestosend);
        plain = rest.plain;
      })
