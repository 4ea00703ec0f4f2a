-- ===== src/Netqw/Ownership.antt =====
-- The packets of src/netqw.c that hang in two lists: when one is freed, and that none is used after.
use mathlib.Core.Option
use qwnet_library.Netqw.{NetPacket, NetQw, put_packet}
use qwnet_library.Netqw.Api.{release, free_packet}
use qwnet_library.Netqw.Receive.{sequence_at, flag_at, note_reply, note_incoming, handle_received}
use qwnet_library.Netqw.Reliable.{
  IsQueued, acknowledged, is_idle, is_lost, acknowledge-eq, note_reply_queue, handle_received-eq,
}
use qwnet_library.Prelude.{
  ℕ, ◌+◌, ◌-◌, ◌≤◌, ◌<◌, ◌≡◌, refl, sym, ap, ◌∙◌, inl, inr, Bool, true, false, Option, none, some,
  List, [], ◌∷◌, ◌++◌, arith, length, ◌==◌, if◌then◌else◌, Bool-cases, Option-cases, sub32,
}
use qwnet_library.Prelude.Action.{Outcome, done}

abbrev pub count : ℕ → List ℕ → ℕ
count p [] = 0
count p (q ∷ qs) = (if p == q then 1 else 0) + count p qs

pub count-append : (p : ℕ) (ps qs : List ℕ) → count p (ps ++ qs) ≡ count p ps + count p qs
count-append p [] qs = omega arith
count-append p (q ∷ ps) qs = omega (arith, count-append p ps qs)

-- The use count of a packet, 0 where there is none.
abbrev pub uses : Option NetPacket → ℕ
uses none = 0
uses (some packet) = packet.usecount

-- A packet is in the store as long as a list holds it, and its use count says how many do. It has at
-- least eight bytes.
pub record IsOwned (store : ℕ → Option NetPacket) (next : ℕ) (client internal : List ℕ)
    : Type 0 where
  pub counted : (p : ℕ) → uses (store p) ≡ count p client + count p internal
  pub live :
      (p : ℕ) (packet : NetPacket)
      → store p ≡ some packet
      → (0 < packet.usecount) × (packet.usecount ≤ 2) × (8 ≤ length packet.payload)
  pub fresh : (p : ℕ) → next ≤ p → store p ≡ none

abbrev pub Owned : NetQw → Type 0
Owned n = IsOwned n.packets n.next_packet n.client_packets n.internal_packets

-- A key that a list holds is a packet of the store.
pub record Found (store : ℕ → Option NetPacket) (p : ℕ) : Type 0 where
  pub packet : NetPacket
  pub here : store p ≡ some packet

pub uses-Found : (store : ℕ → Option NetPacket) (p : ℕ) → 0 < uses (store p) → Found store p
uses-Found store p h = elim (Option-cases (store p)) [
  | inl e ↦ absurd (omega (arith, ap uses e))
  | inr (packet, e) ↦ record { packet = packet; here = e }
]

-- The store after `release`.
abbrev pub dropped : NetPacket → Option NetPacket
dropped packet =
    let left = sub32 packet.usecount 1 in
    if left == 0 then none else some (record packet { usecount = left })

uses-dropped :
    (packet : NetPacket)
    → 0 < packet.usecount
    → packet.usecount ≤ 2
    → uses (dropped packet) ≡ packet.usecount - 1
uses-dropped packet pos le = ground arith

dropped_live :
    (packet left : NetPacket)
    → 0 < packet.usecount
    → packet.usecount ≤ 2
    → 8 ≤ length packet.payload
    → dropped packet ≡ some left
    → (0 < left.usecount) × (left.usecount ≤ 2) × (8 ≤ length left.payload)
dropped_live packet left pos le long e = elim (Bool-cases (sub32 packet.usecount 1 == 0)) [
  | inl gone ↦ absurd (ground arith)
  | inr stays ↦
      let same : record packet { usecount = sub32 packet.usecount 1 } ≡ left =
        Option.some-injective _ left (rw stays at e) in
      rw (sym same) (ground arith)
]

pub ==_refl : (p : ℕ) → (p == p) ≡ true
==_refl p = ground arith

pub store-release :
    (store : ℕ → Option NetPacket) (next p : ℕ) (client internal client' internal' : List ℕ)
    (packet : NetPacket)
    → IsOwned store next client internal
    → store p ≡ some packet
    → ((q : ℕ)
        → count q client + count q internal
          ≡ (if q == p then 1 else 0) + count q client' + count q internal')
    → IsOwned (put_packet store p (dropped packet)) next client' internal'
store-release store next p client internal client' internal' packet h here split = record {
  counted = λ q. elim (Bool-cases (p == q)) [
    | inl e ↦
        let same : q ≡ p = ground arith in
        let before : packet.usecount ≡ count p client + count p internal =
          ap uses (sym here) ∙ h.counted p in
        rw (same, ==_refl p)
          (ground (
            arith,
            uses-dropped packet (h.live p packet here).0 (h.live p packet here).1,
            before,
            split p,
          ))
    | inr e ↦ rw e (ground (arith, h.counted q, split q))
  ];
  live = λ q k e. elim (Bool-cases (p == q)) [
    | inl eq ↦
        dropped_live packet k (h.live p packet here).0 (h.live p packet here).1
          (h.live p packet here).2 (rw eq at e)
    | inr ne ↦ h.live q k (rw ne at e)
  ];
  fresh = λ q le. elim (Bool-cases (p == q)) [
    | inl eq ↦
        let same : q ≡ p = ground arith in
        absurd
          (omega (arith, ap uses (h.fresh p (omega arith)), ap uses here, h.live p packet here))
    | inr ne ↦ rw ne (h.fresh q le)
  ];
}

-- The packet lists of two states are the same.
pub record SameLists (n m : NetQw) : Type 0 where
  pub packets : m.packets ≡ n.packets
  pub next_packet : m.next_packet ≡ n.next_packet
  pub client_packets : m.client_packets ≡ n.client_packets
  pub internal_packets : m.internal_packets ≡ n.internal_packets

pub SameLists-Owned :
    (n m : NetQw) (client internal : List ℕ)
    → SameLists n m
    → IsOwned n.packets n.next_packet client internal
    → IsOwned m.packets m.next_packet client internal
SameLists-Owned n m client internal s h = rw (s.packets, s.next_packet) h

note_reply-SameLists : (seq : ℕ) (n : NetQw) → SameLists n (note_reply seq n)
unfolding note_reply
note_reply-SameLists seq n = record {
  packets = ground arith;
  next_packet = ground arith;
  client_packets = ground arith;
  internal_packets = ground arith;
}

acknowledged-SameLists :
    (quiet lost : Bool) (n m : NetQw) → SameLists n m → SameLists n (acknowledged quiet lost m)
unfolding acknowledged
acknowledged-SameLists true lost n m s = s
acknowledged-SameLists false true n m s = record {
  packets = s.packets;
  next_packet = s.next_packet;
  client_packets = s.client_packets;
  internal_packets = s.internal_packets;
}
acknowledged-SameLists false false n m s = record {
  packets = s.packets;
  next_packet = s.next_packet;
  client_packets = s.client_packets;
  internal_packets = s.internal_packets;
}

acknowledged-IsQueued :
    (quiet lost : Bool) (m : NetQw) → IsQueued m → IsQueued (acknowledged quiet lost m)
unfolding acknowledged
acknowledged-IsQueued true lost m h = h
acknowledged-IsQueued false true m h = omega arith
acknowledged-IsQueued false false m h = omega arith

-- A packet that is handled leaves the lists alone and what is under way in the queue.
pub record Handled (n : NetQw) (result : Option NetQw) : Type 0 where
  pub after : NetQw
  pub returns : result ≡ some after
  pub queued : IsQueued after
  pub same : SameLists n after

pub handle_received-Handled :
    (buf : List ℕ) (n : NetQw) → 8 ≤ length buf → IsQueued n → Handled n (handle_received buf n)
unfolding note_incoming
handle_received-Handled buf n long h =
    let seq = sequence_at buf 0 in
    let m = note_incoming seq (flag_at buf 3) n in
    let noted = note_reply seq m in
    let same = note_reply_queue seq m in
    let queued : IsQueued noted = rw (same.0, same.1) h in
    let eq = handle_received-eq buf n long ∙ acknowledge-eq seq (flag_at buf 7) noted queued in
    let lists = note_reply-SameLists seq m in
    record {
      after = acknowledged (is_idle seq noted) (is_lost (flag_at buf 7) noted) noted;
      returns = eq;
      queued =
          acknowledged-IsQueued (is_idle seq noted) (is_lost (flag_at buf 7) noted) noted queued;
      same = acknowledged-SameLists _ _ n noted (record {
        packets = lists.packets;
        next_packet = lists.next_packet;
        client_packets = lists.client_packets;
        internal_packets = lists.internal_packets;
      });
    }

-- What NetQW_FreePacket and the thread's loop end with.
pub record Ends (P : NetQw → Type 0) (result : Outcome NetQw) : Type 0 where
  pub after : NetQw
  pub returns : result ≡ done after
  pub holds : P after

pub release_lem :
    (p : ℕ) (n : NetQw) (packet : NetPacket)
    → n.packets p ≡ some packet
    → release p n ≡ done (record n { packets = put_packet n.packets p (dropped packet) })
unfolding release
release_lem p n packet e = rw (e, release) refl

-- Where the use count of each packet is the number of lists that hold it, none has fewer than eight
-- bytes, and the client's list has a packet, NetQW_FreePacket ends without a fault, and all this but
-- the last is true again.
pub free_packet-Owned :
    (p : ℕ) (rest : List ℕ) (n : NetQw)
    → n.client_packets ≡ p ∷ rest
    → Owned n
    → Ends Owned (free_packet n)
unfolding free_packet
free_packet-Owned p rest n e h =
    let owned : IsOwned n.packets n.next_packet (p ∷ rest) n.internal_packets = rw e at h in
    let found = uses-Found n.packets p (ground (arith, ==_refl p, owned.counted p)) in
    rw (e, release_lem p (record n { client_packets = rest }) found.packet found.here)
      (record {
        after = record n {
          client_packets = rest;
          packets = put_packet n.packets p (dropped found.packet);
        };
        returns = refl;
        holds =
            store-release n.packets n.next_packet p (p ∷ rest) n.internal_packets rest
              n.internal_packets found.packet owned found.here (λ q. omega arith);
      })
