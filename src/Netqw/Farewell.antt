-- ===== src/Netqw/Farewell.antt =====
-- How src/netqw.c takes leave of the server.
use qwnet_library.Netqw.{connected, NetQw}
use qwnet_library.Netqw.Dispatch.{disconnect_message, send_disconnects, disconnect}
use qwnet_library.Netqw.Send.{transmit, deliver, send_packet}
use qwnet_library.Prelude.{
  ℕ, zero, suc, ◌+◌, ◌/◌, ◌%◌, ◌≡◌, refl, sym, ◌∙◌, Bool, true, false, Option, some, List, [], ◌∷◌,
  ◌++◌, append-nil, append_assoc, arith, u32,
}

-- Two and four bytes of a number, the lowest first.
abbrev low_two : ℕ → List ℕ
low_two v = v % 256 ∷ v / 256 % 256 ∷ []

abbrev low_four : ℕ → List ℕ
low_four v = v % 256 ∷ v / 256 % 256 ∷ v / 65536 % 256 ∷ v / 16777216 % 256 ∷ []

-- The command "drop" (clc_stringcmd is 4) in a packet with the given numbers.
abbrev drop_packet : ℕ → ℕ → ℕ → List ℕ
drop_packet outgoing incoming port =
    low_four outgoing
    ++ (low_four incoming ++ (low_two port ++ (4 ∷ b'd' ∷ b'r' ∷ b'o' ∷ b'p' ∷ 0 ∷ [])))

-- `k` such packets with consecutive numbers.
abbrev pub drop_packets : ℕ → ℕ → ℕ → ℕ → List (List ℕ)
drop_packets zero outgoing incoming port = []
drop_packets (suc k) outgoing incoming port =
    drop_packet outgoing incoming port ∷ drop_packets k (u32 (outgoing + 1)) incoming port

-- What `k` packets leave.
pub record Dropped (k : ℕ) (n : NetQw) (result : Option NetQw) : Type 0 where
  pub after : NetQw
  pub returns : result ≡ some after
  pub wire :
      after.wire
      ≡ n.wire
        ++ drop_packets k n.current_outgoing_sequence_number n.last_incoming_sequence_number n.qport
  pub queued : after.send_packets ≡ n.send_packets

disconnect_message-eq :
    (n : NetQw)
    → disconnect_message n
      ≡ drop_packet n.current_outgoing_sequence_number n.last_incoming_sequence_number n.qport
unfolding disconnect_message
disconnect_message-eq n = refl

send_forced :
    (allocated : Bool) (now : ℕ) (n : NetQw)
    → n.huffman ≡ false
    → send_packet allocated now true (disconnect_message n) n
      ≡ some (transmit (disconnect_message n) n)
unfolding send_packet deliver disconnect_message
send_forced allocated now n plain = ground arith

send_disconnects-Dropped :
    (k : ℕ) (allocated : ℕ → Bool) (now : ℕ → ℕ) (n : NetQw)
    → n.huffman ≡ false
    → Dropped k n (send_disconnects k allocated now n)
unfolding send_disconnects
send_disconnects-Dropped zero allocated now n plain = record {
  after = n;
  returns = refl;
  wire = sym (append-nil n.wire);
  queued = refl;
}
send_disconnects-Dropped (suc k) allocated now n plain =
    let message = disconnect_message n in
    let m = record (transmit message n) {
      current_outgoing_sequence_number = u32 (n.current_outgoing_sequence_number + 1);
    } in
    let rest = send_disconnects-Dropped k allocated now m plain in
    rw (send_forced (allocated k) (now k) n plain, send_disconnects)
      (record {
        after = rest.after;
        returns = rest.returns;
        wire = rest.wire ∙ append_assoc n.wire (message ∷ []) _ ∙ rw (disconnect_message-eq n) refl;
        queued = rest.queued;
      })

-- From a connection that is not compressed, NetQW_Thread_Disconnect sends the server "drop" in three
-- packets with consecutive numbers, whatever the lag is, and delays none of them.
pub disconnect-Dropped :
    (allocated : ℕ → Bool) (now : ℕ → ℕ) (n : NetQw)
    → n.state ≡ connected
    → n.huffman ≡ false
    → Dropped 3 n (disconnect allocated now n)
unfolding disconnect
disconnect-Dropped allocated now n state plain =
    simp (state, disconnect) (send_disconnects-Dropped 3 allocated now n plain)
