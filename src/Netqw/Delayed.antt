-- ===== src/Netqw/Delayed.antt =====
-- The packets that src/netqw.c holds back: what the thread does with them once their time has come.
use mathlib.Core.Option
use qwnet_library.Netqw.{NetPacket, NetQw, put_packet}
use qwnet_library.Netqw.Ownership.{
  count, count-append, uses, IsOwned, Owned, uses-Found, dropped, ==_refl, store-release,
  SameLists-Owned, handle_received-Handled, Ends, release_lem,
}
use qwnet_library.Netqw.Reliable.{IsQueued}
use qwnet_library.Netqw.Thread.{
  Datagram, is_acceptable, delay_of, accept_packet, receive_packet, handle_due,
}
use qwnet_library.Prelude.{
  ℕ, ◌+◌, ◌≤◌, ◌<◌, ◌≡◌, refl, sym, ap, inl, inr, Bool, true, ◌&&◌, Option, some, List, [], ◌∷◌,
  ◌++◌, arith, length, leb, ◌==◌, if◌then◌else◌, Bool-cases,
}

-- The lists are in order, and so is the queue.
abbrev pub Ordered : NetQw → Type 0
Ordered n = Owned n × IsQueued n

handle_due_from :
    (now : ℕ) (ps : List ℕ) (n : NetQw)
    → n.internal_packets ≡ ps
    → Ordered n
    → Ends Ordered (handle_due now ps n)
unfolding handle_due
handle_due_from now [] n e h = record { after = n; returns = refl; holds = h }
handle_due_from now (p ∷ ps) n e h =
    let owned : IsOwned n.packets n.next_packet n.client_packets (p ∷ ps) = rw e at h.0 in
    let found = uses-Found n.packets p (ground (arith, ==_refl p, owned.counted p)) in
    rw (found.here, handle_due)
      (elim (Bool-cases (leb found.packet.delayuntil now)) [
        | inr wait ↦ rw wait (record { after = n; returns = refl; holds = h })
        | inl due ↦
            let handled =
              handle_received-Handled found.packet.payload n
                (owned.live p found.packet found.here).2 h.1 in
            let m = handled.after in
            let same = handled.same in
            let owned' : IsOwned m.packets m.next_packet m.client_packets (p ∷ ps) =
              rw (same.client_packets) (SameLists-Owned n m n.client_packets (p ∷ ps) same owned) in
            let here' : m.packets p ≡ some found.packet = rw (same.packets) found.here in
            let m' = record m {
              internal_packets = ps;
              packets = put_packet m.packets p (dropped found.packet);
            } in
            let rest = handle_due_from now ps m' refl (
              store-release m.packets m.next_packet p m.client_packets (p ∷ ps) m.client_packets ps
                  found.packet owned' here' (λ q. omega arith),
              handled.queued,
            ) in
            rw
              (
                due,
                handled.returns,
                release_lem p (record m { internal_packets = ps }) found.packet here',
              )
              (record { after = rest.after; returns = rest.returns; holds = rest.holds })
      ])

-- Where the use count of each packet is the number of lists that hold it, none has fewer than eight
-- bytes, and what is under way of the reliable buffers stands in their queue, the thread's loop over
-- its delayed packets ends without a fault, in a state where all this still holds.
pub handle_due-Ordered :
    (now : ℕ) (n : NetQw) → Ordered n → Ends Ordered (handle_due now n.internal_packets n)
handle_due-Ordered now n h = handle_due_from now n.internal_packets n refl h

-- A new packet that `k` lists hold.
pub store-add :
    (store : ℕ → Option NetPacket) (next : ℕ) (client internal client' internal' : List ℕ)
    (packet : NetPacket)
    → IsOwned store next client internal
    → (0 < packet.usecount) × (packet.usecount ≤ 2) × (8 ≤ length packet.payload)
    → ((q : ℕ)
        → count q client' + count q internal'
          ≡ (if next == q then packet.usecount else 0) + count q client + count q internal)
    → IsOwned (put_packet store next (some packet)) (next + 1) client' internal'
store-add store next client internal client' internal' packet h bounds split = record {
  counted = λ q. elim (Bool-cases (next == q)) [
    | inl e ↦
        let same : q ≡ next = ground arith in
        rw (same, ==_refl next)
          (ground (arith, ap uses (h.fresh next (omega arith)), h.counted next, split next))
    | inr e ↦ rw e (ground (arith, h.counted q, split q))
  ];
  live = λ q k e. elim (Bool-cases (next == q)) [
    | inl eq ↦
        let same : packet ≡ k = Option.some-injective packet k (rw eq at e) in rw (sym same) bounds
    | inr ne ↦ h.live q k (rw ne at e)
  ];
  fresh = λ q le. elim (Bool-cases (next == q)) [
    | inl eq ↦ absurd (ground arith)
    | inr ne ↦ rw ne (h.fresh q (omega arith))
  ];
}

-- What a packet that is taken in leaves.
pub record Received (n : NetQw) (result : Option NetQw) : Type 0 where
  pub after : NetQw
  pub returns : result ≡ some after
  pub ordered : Ordered after

accept_packet-Received :
    (now : ℕ) (buf : List ℕ) (n : NetQw)
    → 8 ≤ length buf
    → Ordered n
    → Received n (accept_packet now buf n)
unfolding accept_packet
accept_packet-Received now buf n long h = elim (Bool-cases (delay_of now n == 0)) [
  | inl soon ↦
      let p = n.next_packet in
      let packet : NetPacket = record {
        delayuntil = delay_of now n;
        usecount = 1;
        payload = buf;
      } in
      let owned =
        store-add n.packets p n.client_packets n.internal_packets (n.client_packets ++ (p ∷ []))
          n.internal_packets packet h.0 (omega arith, omega arith, long)
          (λ q. ground (arith, count-append q n.client_packets (p ∷ []))) in
      let stored : NetQw = record n {
        packets = put_packet n.packets p (some packet);
        next_packet = p + 1;
        client_packets = n.client_packets ++ (p ∷ []);
      } in
      let handled = handle_received-Handled buf stored long h.1 in
      let same = handled.same in
      rw (soon, accept_packet)
        (record {
          after = handled.after;
          returns = handled.returns;
          ordered = (
            rw (same.client_packets, same.internal_packets)
                (SameLists-Owned stored handled.after _ _ same owned),
            handled.queued,
          );
        })
  | inr later ↦
      let p = n.next_packet in
      let packet : NetPacket = record {
        delayuntil = delay_of now n;
        usecount = 2;
        payload = buf;
      } in
      let owned =
        store-add n.packets p n.client_packets n.internal_packets (n.client_packets ++ (p ∷ []))
          (n.internal_packets ++ (p ∷ [])) packet h.0 (omega arith, omega arith, long)
          (λ q. ground (
            arith,
            count-append q n.client_packets (p ∷ []),
            count-append q n.internal_packets (p ∷ []),
          )) in
      let stored : NetQw = record n {
        packets = put_packet n.packets p (some packet);
        next_packet = p + 1;
        client_packets = n.client_packets ++ (p ∷ []);
        internal_packets = n.internal_packets ++ (p ∷ []);
      } in
      rw (later, accept_packet) (record { after = stored; returns = refl; ordered = (owned, h.1) })
]

is_acceptable-long :
    (buf : List ℕ) (n : NetQw) (b : Bool) → (is_acceptable buf n && b) ≡ true → 8 ≤ length buf
unfolding is_acceptable
is_acceptable-long buf n b h = ground arith

pub receive_packet-Received :
    (d : Datagram) (buf : List ℕ) (n : NetQw) → Ordered n → Received n (receive_packet d buf n)
unfolding receive_packet
receive_packet-Received d buf n h = elim (Bool-cases (is_acceptable buf n && d.allocated)) [
  | inl taken ↦
      rw (taken, receive_packet)
        (let r =
            accept_packet-Received d.now buf n (is_acceptable-long buf n d.allocated taken) h in
          record { after = r.after; returns = r.returns; ordered = r.ordered })
  | inr left ↦ rw (left, receive_packet) (record { after = n; returns = refl; ordered = h })
]
