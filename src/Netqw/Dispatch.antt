-- ===== src/Netqw/Dispatch.antt =====
-- NetQW_Thread_DoSend and NetQW_Thread_Disconnect of src/netqw.c.
use mathlib.Core.Option
use Prim.Native.Nat.{digits}
use qwnet_library.Netqw.{sendchallenge, connected, NetQw, clc_stringcmd}
use qwnet_library.Netqw.Frames.{generate_frames}
use qwnet_library.Netqw.Send.{short_bytes, long_bytes, transmit, send_packet, send_frames}
use qwnet_library.Prelude.{
  ℕ, zero, suc, ◌+◌, ◌/◌, ◌%◌, Bool, true, ◌&&◌, Option, none, some, List, [], ◌∷◌, ◌++◌, length,
  ltb, if◌then◌else◌, u32, u64,
}
use qwnet_library.Prelude.Text.{codes, print_int}

abbrev hex_digit : ℕ → ℕ
hex_digit d = if ltb d 10 then d + 48 else d + 87

-- `%08x`
unfoldable pub print_hex : ℕ → ℕ → List ℕ
print_hex zero v = []
print_hex (suc digits) v = print_hex digits (v / 16) ++ (hex_digit (v % 16) ∷ [])

abbrev connectionless : List ℕ
connectionless = 255 ∷ 255 ∷ 255 ∷ 255 ∷ []

unfoldable pub challenge_request : List ℕ
challenge_request = connectionless ++ (codes "getchallenge" ++ (10 ∷ []))

-- PROTOCOL_VERSION is 28.
unfoldable pub connect_request : NetQw → List ℕ
connect_request n =
    connectionless
    ++ (codes "connect 28 "
        ++ (print_int n.qport
            ++ (b' '
                ∷ (print_int n.challenge ++ (b' ' ∷ (b'"' ∷ (n.userinfo ++ (b'"' ∷ 10 ∷ []))))))))

-- The checksum of the table that the client took from the server's offer.
unfoldable pub huffman_request : NetQw → List ℕ
huffman_request n =
    codes "0x" ++ (print_hex 8 0x4646_5548 ++ (codes " 0x" ++ (print_hex 8 n.huffcrc ++ (10 ∷ []))))

-- The second snprintf starts at `buf + i`; where `i` is past the end its size wraps round.
unfoldable pub send_connect : NetQw → Option NetQw
unfolding connect_request huffman_request
send_connect n =
    let text = connect_request n in
    if n.huffman && ltb 1500 (length text)
    then none
    else (let whole = text ++ (if n.huffman then huffman_request n else []) in
        some (if ltb (length whole) 1500 then transmit whole n else n))

-- `if (netqw->resendtime <= curtime)`
unfoldable pub resend : ℕ → NetQw → Option NetQw
unfolding challenge_request send_connect
resend now n =
    let sent : Option NetQw = elim n.state [
      | sendchallenge ↦ some (transmit challenge_request n)
      | _ ↦ send_connect n
    ] in
    if ltb now n.resendtime
    then some n
    else Option.map (λ (m : NetQw). record m { resendtime = u64 (now + 3000000) }) sent

-- `if (netqw->lastmovesendtime + 1000000 < curtime)`
unfoldable pub catch_up : ℕ → NetQw → NetQw
catch_up now n =
    if ltb (u64 (n.lastmovesendtime + 1000000)) now then record n { lastmovesendtime = now } else n

unfoldable pub do_send : ℕ → (ℕ → ℕ) → (ℕ → Bool) → (ℕ → ℕ) → ℕ → NetQw → Option NetQw
unfolding catch_up generate_frames send_frames resend
do_send rounds stamps allocated times now n =
    let m = catch_up now n in
    elim m.state [
      | connected ↦ elim (generate_frames rounds stamps now m) [
        | none ↦ none
        | some g ↦ send_frames g.framestosend allocated times g
      ]
      | _ ↦ resend now m
    ]

unfoldable pub disconnect_message : NetQw → List ℕ
disconnect_message n =
    long_bytes n.current_outgoing_sequence_number
    ++ (long_bytes n.last_incoming_sequence_number
        ++ (short_bytes n.qport ++ (clc_stringcmd ∷ (codes "drop" ++ (0 ∷ [])))))

-- Three times, since any of them may be lost; `force` passes the lag by.
unfoldable pub send_disconnects : ℕ → (ℕ → Bool) → (ℕ → ℕ) → NetQw → Option NetQw
unfolding disconnect_message send_packet
send_disconnects zero allocated now n = some n
send_disconnects (suc k) allocated now n =
    elim (send_packet (allocated k) (now k) true (disconnect_message n) n) [
      | none ↦ none
      | some m ↦ send_disconnects k allocated now (record m {
        current_outgoing_sequence_number = u32 (m.current_outgoing_sequence_number + 1);
      })
    ]

unfoldable pub disconnect : (ℕ → Bool) → (ℕ → ℕ) → NetQw → Option NetQw
unfolding send_disconnects
disconnect allocated now n = elim n.state [
  | connected ↦ send_disconnects 3 allocated now n
  | _ ↦ some n
]
