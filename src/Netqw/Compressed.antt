-- ===== src/Netqw/Compressed.antt =====
-- src/netqw.c over src/huffman.c: the packets of a compressed connection, in both directions.
use mathlib.Core.Path.{subst}
use qwnet_library.Crc.Laws.{AreBytes, append-AreBytes, drop-AreBytes}
use qwnet_library.Huffman.{compress_packet, decompress_packet}
use qwnet_library.Huffman.Bounds.{BytesUpTo, decompress_packet-BytesUpTo}
use qwnet_library.Huffman.RoundTrip.{decompress_packet-compress_packet}
use qwnet_library.Netqw.{connected, NetQw}
use qwnet_library.Netqw.Rounds.{Decodes}
use qwnet_library.Netqw.Send.{queue_packet, transmit, deliver, send_packet}
use qwnet_library.Netqw.Thread.{Datagram, decoded}
use qwnet_library.Prelude.{
  ℕ, ◌+◌, ◌-◌, ◌/◌, ◌%◌, ◌^◌, ◌≤◌, ◌<◌, max, ◌≡◌, refl, sym, ap, ◌∙◌, ◌⊎◌, inl, inr, Bool, true,
  false, not, ◌||◌, none, some, List, [], ◌∷◌, ◌++◌, arith, length, take, drop, length-append,
  length-drop, ltb, leb, ◌==◌, if◌then◌else◌, le→ltb, lt→leb, Bool-cases,
}

-- A packet goes out at once; or, where there is a lag that `force` does not pass by, it is queued
-- for that lag, or half of it; or, without memory for it, it is dropped.
abbrev pub Outgone : Bool → ℕ → Bool → List ℕ → NetQw → NetQw → Type 0
Outgone allocated now force packet n after =
    (((n.lag ≡ 0) ⊎ (force ≡ true))
      × (after.wire ≡ n.wire ++ (packet ∷ []))
      × (after.send_packets ≡ n.send_packets))
    ⊎ ((0 < n.lag)
        × (force ≡ false)
        × (allocated ≡ true)
        × (after.wire ≡ n.wire)
        × (after.send_packets
            ≡ n.send_packets
              ++ (record {
                delayuntil = (now + (if n.lag_ezcheat then n.lag else n.lag / 2)) % 2 ^ 64;
                payload = packet;
              }
                  ∷ [])))
    ⊎ ((0 < n.lag) × (force ≡ false) × (allocated ≡ false) × (after ≡ n))

-- A packet that went out behind its ten bytes of header, and what unpacking makes of the rest.
pub record SentPacked (allocated : Bool) (now : ℕ) (force : Bool) (buf tail : List ℕ) (room : ℕ)
    (n : NetQw) : Type 0 where
  pub packed : List ℕ
  pub after : NetQw
  pub returns : send_packet allocated now force buf n ≡ some after
  pub outgone : Outgone allocated now force (take 10 buf ++ packed) n after
  pub one_more : length packed ≤ length buf - 10 + 1
  pub unpacked : decompress_packet (packed ++ tail) (length packed) room ≡ some (drop 10 buf)

-- The rest of `deliver`, with a lag.
deliver_lagged :
    (allocated : Bool) (now : ℕ) (force : Bool) (packet : List ℕ) (n : NetQw)
    → 0 < n.lag
    → Outgone allocated now force packet n
        (if not force then queue_packet allocated now packet n else transmit packet n)
unfolding queue_packet
deliver_lagged allocated now true packet n lag = inl (inr refl, refl, refl)
deliver_lagged true now false packet n lag = inr (inl (lag, refl, refl, refl, refl))
deliver_lagged false now false packet n lag = inr (inr (lag, refl, refl, refl))

deliver-Outgone :
    (allocated : Bool) (now : ℕ) (force : Bool) (packet : List ℕ) (n : NetQw)
    → Outgone allocated now force packet n (deliver allocated now force packet n)
unfolding deliver queue_packet
deliver-Outgone allocated now force packet n = elim (Bool-cases (n.lag == 0)) [
  | inl no_lag ↦ rw no_lag (inl (inl (ground arith), refl, refl))
  | inr some_lag ↦ rw some_lag (deliver_lagged allocated now force packet n (ground arith))
]

send_packet-sent :
    (allocated : Bool) (now : ℕ) (force : Bool) (buf packed : List ℕ) (n : NetQw)
    → n.huffman ≡ true
    → 10 ≤ length buf
    → length buf < 1500
    → compress_packet (drop 10 buf) 1490 ≡ some packed
    → 1 ≤ length packed
    → send_packet allocated now force buf n
      ≡ some (deliver allocated now force (take 10 buf ++ packed) n)
unfolding send_packet
send_packet-sent allocated now force buf [] n on long short e some_byte = absurd (omega arith)
send_packet-sent allocated now force buf (b ∷ bs) n on long short e some_byte =
    let small : leb 1500 (length buf) ≡ false = lt→leb 1500 (length buf) short in
    let whole : ltb (length buf) 10 ≡ false = le→ltb (length buf) 10 long in
    subst
      (λ v.
        (if leb 1500 (length buf)
          then some n
          else if not v
          then some (deliver allocated now force buf n)
          else if ltb (length buf) 10
          then none
          else elim (compress_packet (drop 10 buf) 1490) [
            | none ↦ none
            | some [] ↦ some n
            | some (c ∷ cs) ↦ some (deliver allocated now force (take 10 buf ++ (c ∷ cs)) n)
          ])
        ≡ some (deliver allocated now force (take 10 buf ++ (b ∷ bs)) n))
      (sym on) (rw (small, whole, e) refl)

-- On a compressed connection NetQW_Thread_SendPacket does not fault on a packet of 10 to 1460 bytes.
-- The first ten bytes as they are and the others packed, with at most one byte more, go on the wire
-- behind what is there if there is no lag or `force` passes it by; if not, they go behind the packets
-- that wait, until the lag (lag_ezcheat) or half of it is over, or without memory nothing changes.
-- Unpacking the packed bytes brings back what they were.
pub send_packet-SentPacked :
    (allocated : Bool) (now : ℕ) (force : Bool) (buf tail : List ℕ) (room : ℕ) (n : NetQw)
    → n.huffman ≡ true
    → AreBytes buf
    → AreBytes tail
    → 10 ≤ length buf
    → length buf ≤ 1460
    → length buf < room + 10
    → 2 ≤ length tail
    → SentPacked allocated now force buf tail room n
send_packet-SentPacked allocated now force buf tail room n on h k long short fits two =
    let size : length (drop 10 buf) ≡ length buf - 10 = length-drop 10 buf in
    let back =
      decompress_packet-compress_packet (drop 10 buf) tail 1490 room (drop-AreBytes 10 buf h) k
        (omega arith) (omega arith) (omega arith) two in
    record {
      packed = back.packed;
      after = deliver allocated now force (take 10 buf ++ back.packed) n;
      outgone = deliver-Outgone allocated now force (take 10 buf ++ back.packed) n;
      returns =
          send_packet-sent allocated now force buf back.packed n on long (omega arith) back.returns
            back.some_byte;
      one_more = omega (arith, back.one_more);
      unpacked = back.unpacked;
    }

-- A server packs a message of at most 1450 bytes behind eight bytes of header.
pub record Understood (header xs : List ℕ) (outbuflen : ℕ) (stale : List ℕ) (n : NetQw)
    : Type 0 where
  pub packed : List ℕ
  pub returns : compress_packet xs outbuflen ≡ some packed
  pub understood :
      decoded
        (record {
          from_server = true;
          bytes = header ++ packed;
          stale = stale;
          allocated = true;
          now = 0;
        })
        n
      ≡ some (header ++ xs)

packed_long : (coded : Bool) (size : ℕ) → (not coded || not (ltb 8 size)) ≡ false → 8 < size
packed_long coded size h = ground arith

-- Any datagram of at most 1500 bytes can be decoded, if bytes follow it in memory up to 2005 in all.
pub decoded-Decodes :
    (d : Datagram)
    → AreBytes d.bytes
    → AreBytes d.stale
    → length d.bytes ≤ 1500
    → 2005 ≤ length d.bytes + length d.stale
    → Decodes d
unfolding decoded
decoded-Decodes d h k short long n =
    let memory : List ℕ = d.bytes ++ d.stale in
    let size : length (drop 8 memory) ≡ length d.bytes + length d.stale - 8 =
      length-drop 8 memory ∙ ap (λ v. v - 8) (length-append d.bytes d.stale) in
    let coded : Bool = elim n.state [ connected ↦ n.huffman | _ ↦ false ] in
    elim (Bool-cases (not coded || not (ltb 8 (length d.bytes)))) [
      | inl e ↦ (d.bytes, rw e refl)
      | inr e ↦
          let more : 8 < length d.bytes = packed_long coded (length d.bytes) e in
          let count : length d.bytes - 8 ≡ length d.bytes - 9 + 1 = omega arith in
          let run : BytesUpTo (max 1450 (length d.bytes - 9))
              (decompress_packet (drop 8 memory) (length d.bytes - 8) 1491) =
            rw count (
              decompress_packet-BytesUpTo (drop 8 memory) (length d.bytes - 9) 1491
                (drop-AreBytes 8 memory (append-AreBytes d.bytes d.stale h k)) (omega (arith, size))
                (omega (arith, size)) (omega arith) (omega arith)) in
          (take 8 (d.bytes) ++ run.message, rw (e, run.returns) refl)
    ]
