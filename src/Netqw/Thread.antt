-- ===== src/Netqw/Thread.antt =====
-- NetQW_Thread of src/netqw.c: what arrives, what is delayed, and one round of the thread's loop.
use mathlib.Core.Option
use qwnet_library.Huffman.{decompress_packet}
use qwnet_library.Netqw.{
  State, uninitialised, sendchallenge, sendconnection, connected, NetPacket, SendPacket, NetQw,
  put_packet,
}
use qwnet_library.Netqw.Api.{release}
use qwnet_library.Netqw.Dispatch.{do_send}
use qwnet_library.Netqw.Handshake.{receive_challenge, receive_connection}
use qwnet_library.Netqw.Receive.{sequence_at, handle_received}
use qwnet_library.Netqw.Send.{transmit}
use qwnet_library.Prelude.{
  ℕ, ◌+◌, ◌-◌, ◌/◌, Bool, false, not, ◌&&◌, ◌||◌, Option, none, some, List, [], ◌∷◌, ◌++◌, map,
  length, take, drop, ltb, leb, ◌==◌, if◌then◌else◌, u32, u64,
}
use qwnet_library.Prelude.Action.{Outcome, done, fault, hang}

-- What one call of Sys_Net_Receive brings: whether NET_CompareAdr takes the sender for the server,
-- the bytes, and what stood in the receive buffer behind them. `allocated` and `now` are the
-- answers of malloc and Sys_IntTime while it is handled.
pub record Datagram : Type 0 where
  pub from_server : Bool
  pub bytes : List ℕ
  pub stale : List ℕ
  pub allocated : Bool
  pub now : ℕ

-- The packet as the rest of the function sees it: decoded, if the connection is compressed.
unfoldable pub decoded : Datagram → NetQw → Option (List ℕ)
decoded d n =
    let raw = d.bytes in
    let coded : Bool = elim n.state [ connected ↦ n.huffman | _ ↦ false ] in
    if not coded || not (ltb 8 (length raw))
    then some raw
    else elim (decompress_packet (drop 8 (raw ++ d.stale)) (length raw - 8) 1491) [
      | none ↦ none
      | some bs ↦ some (take 8 raw ++ bs)
    ]

-- Neither older than what came before, nor an answer to what was not sent yet.
unfoldable pub is_acceptable : List ℕ → NetQw → Bool
unfolding sequence_at
is_acceptable buf n =
    leb 8 (length buf)
    && ltb n.last_incoming_sequence_number (sequence_at buf 0)
    && ltb (sequence_at buf 4) n.current_outgoing_sequence_number

unfoldable pub delay_of : ℕ → NetQw → ℕ
delay_of now n = if not (n.lag == 0) && not n.lag_ezcheat then u64 (now + n.lag / 2) else 0

-- The packet goes to the client's list, and is handled at once or goes to the internal list too.
unfoldable pub accept_packet : ℕ → List ℕ → NetQw → Option NetQw
unfolding delay_of
accept_packet now buf n =
    let p = n.next_packet in
    let delay = delay_of now n in
    let uses : ℕ = if delay == 0 then 1 else 2 in
    let packet : NetPacket = record { delayuntil = delay; usecount = uses; payload = buf } in
    let stored : NetQw = record n {
      packets = put_packet n.packets p (some packet);
      next_packet = p + 1;
      client_packets = n.client_packets ++ (p ∷ []);
      internal_packets = if delay == 0 then n.internal_packets else n.internal_packets ++ (p ∷ []);
    } in
    if delay == 0 then handle_received buf stored else some stored

unfoldable pub receive_packet : Datagram → List ℕ → NetQw → Option NetQw
unfolding is_acceptable accept_packet
receive_packet d buf n =
    if is_acceptable buf n && d.allocated then accept_packet d.now buf n else some n

unfoldable pub receive_by_state : State → Datagram → List ℕ → NetQw → Option NetQw
unfolding receive_challenge receive_connection receive_packet
receive_by_state sendchallenge d buf n = some (receive_challenge buf n)
receive_by_state sendconnection d buf n = some (receive_connection d.allocated d.now buf n)
receive_by_state uninitialised d buf n = receive_packet d buf n
receive_by_state connected d buf n = receive_packet d buf n

unfoldable pub receive_one : Datagram → NetQw → Option NetQw
unfolding receive_by_state decoded
receive_one d n = elim (decoded d n) [
  | none ↦ none
  | some buf ↦ if d.from_server then receive_by_state n.state d buf n else some n
]

-- NetQW_Thread_DoReceive: the datagrams that are there, in order.
unfoldable pub do_receive : List Datagram → NetQw → Option NetQw
unfolding receive_one
do_receive [] n = some n
do_receive (d ∷ ds) n = elim (receive_one d n) [ none ↦ none | some n' ↦ do_receive ds n' ]

-- `while(netpacket) { netpacket->delayuntil = curtime; … }`
unfoldable pub hurry : ℕ → List ℕ → (ℕ → Option NetPacket) → Option (ℕ → Option NetPacket)
hurry now [] store = some store
hurry now (p ∷ ps) store = elim (store p) [
  | none ↦ none
  | some packet ↦ hurry now ps (put_packet store p (some (record packet { delayuntil = now })))
]

-- A head that is more than a second ahead makes the whole list due.
unfoldable pub hurry_if_late : ℕ → NetQw → Option NetQw
unfolding hurry
hurry_if_late now n = elim n.internal_packets [
  | [] ↦ some n
  | p ∷ ps ↦ elim (n.packets p) [
    | none ↦ none
    | some packet ↦
        if ltb (u64 (now + 1000000)) packet.delayuntil
        then Option.map (λ store. record n { packets = store })
            (hurry now n.internal_packets n.packets)
        else some n
  ]
]

-- `while((netpacket = internalnetpackethead) && netpacket->delayuntil <= curtime)`: each packet that
-- is due is handled, taken off the internal list and released. The list is walked as it stands.
unfoldable pub handle_due : ℕ → List ℕ → NetQw → Outcome NetQw
unfolding release
handle_due now [] n = done n
handle_due now (p ∷ ps) n = elim (n.packets p) [
  | none ↦ fault
  | some packet ↦
      if not (leb packet.delayuntil now) then done n else elim (handle_received packet.payload n) [
        | none ↦ fault
        | some n' ↦ elim (release p (record n' { internal_packets = ps })) [
          | done n'' ↦ handle_due now ps n''
          | fault ↦ fault
          | hang ↦ hang
        ]
      ]
]

-- The same for the packets that wait to be sent.
unfoldable pub hurry_sends : ℕ → List SendPacket → List SendPacket
hurry_sends now [] = []
hurry_sends now (p ∷ ps) =
    if ltb (u64 (now + 1000000)) p.delayuntil
    then map (λ (q : SendPacket). record q { delayuntil = now }) (p ∷ ps)
    else p ∷ ps

unfoldable pub send_due : ℕ → List SendPacket → NetQw → NetQw
send_due now [] n = record n { send_packets = [] }
send_due now (p ∷ ps) n =
    if leb p.delayuntil now
    then send_due now ps (transmit p.payload n)
    else record n { send_packets = p ∷ ps }

-- What the clocks and malloc answer in NetQW_Thread_DoSend, and the rounds for its frames.
pub record Sending : Type 0 where
  pub rounds : ℕ
  pub stamps : ℕ → ℕ
  pub granted : ℕ → Bool
  pub times : ℕ → ℕ
  pub current : ℕ

-- One round of the thread's loop, which no call of the client interrupts. `now` is `curtime`.
-- Sys_Net_Wait changes no state. DoSend faults, or uses up its rounds, as `fault`.
unfoldable pub thread_round : ℕ → List Datagram → Sending → NetQw → Outcome NetQw
unfolding hurry_if_late handle_due send_due hurry_sends do_receive do_send
thread_round now datagrams sending n = elim (hurry_if_late now n) [
  | none ↦ fault
  | some n1 ↦ elim (handle_due now n1.internal_packets n1) [
    | fault ↦ fault
    | hang ↦ hang
    | done n2 ↦ elim (do_receive datagrams (send_due now (hurry_sends now n2.send_packets) n2)) [
      | none ↦ fault
      | some n3 ↦
          elim (do_send sending.rounds sending.stamps sending.granted sending.times sending.current
            n3) [ none ↦ fault | some n4 ↦ done n4 ]
    ]
  ]
]

-- `waittime`: until the next frame or the next resend, but not past the first delayed packet, and
-- at most 50 milliseconds. Differences are stored into `unsigned int`.
unfoldable pub until_due : ℕ → NetQw → ℕ
until_due now n =
    let due : ℕ = elim n.state [
      | connected ↦ u64 (n.lastmovesendtime + n.microsecondsperframe)
      | _ ↦ n.resendtime
    ] in
    if ltb now due then u32 (due - now) else 0
