-- ===== src/Client/Calls.antt =====
-- The calls that Get_Message and DoNetQWStuff of src/main.c make leave the lists of packets in order.
use mathlib.Core.Path.{subst}
use qwnet_library.Netqw.{connected, NetPacket, NetQw, put_packet}
use qwnet_library.Netqw.Api.{free_packet, copied_frame, copy_loop}
use qwnet_library.Netqw.Frames.{generate_frame, frame_is_due, frame_loop, generate_frames}
use qwnet_library.Netqw.Ownership.{IsOwned, Owned, dropped, store-release, SameLists, release_lem}
use qwnet_library.Netqw.Timing.{frame_loop-Generated}
use qwnet_library.Prelude.{
  ℕ, zero, suc, ◌+◌, ◌*◌, ◌^◌, ◌≤◌, ◌<◌, ◌≡◌, refl, inl, inr, Option, none, some, List, ◌∷◌, arith,
  Bool-cases,
}
use qwnet_library.Prelude.Action.{done}

-- The state after NetQW_FreePacket.
abbrev pub freed : ℕ → List ℕ → NetPacket → NetQw → NetQw
freed p rest packet n = record n {
  client_packets = rest;
  packets = put_packet n.packets p (dropped packet);
}

pub free_packet-freed :
    (p : ℕ) (rest : List ℕ) (packet : NetPacket) (n : NetQw)
    → n.client_packets ≡ p ∷ rest
    → n.packets p ≡ some packet
    → free_packet n ≡ done (freed p rest packet n)
unfolding free_packet
free_packet-freed p rest packet n e here =
    rw (e, release_lem p (record n { client_packets = rest }) packet here) refl

pub freed-Owned :
    (p : ℕ) (rest : List ℕ) (packet : NetPacket) (n : NetQw)
    → n.client_packets ≡ p ∷ rest
    → n.packets p ≡ some packet
    → Owned n
    → Owned (freed p rest packet n)
freed-Owned p rest packet n e here h =
    let owned : IsOwned n.packets n.next_packet (p ∷ rest) n.internal_packets = rw e at h in
    store-release n.packets n.next_packet p (p ∷ rest) n.internal_packets rest n.internal_packets
      packet owned here (λ q. omega arith)

-- Where the loop of NetQW_GenerateFrames ends, the packets are as they were.
abbrev Same : NetQw → Option NetQw → Type 0
Same n none = Unit {0}
Same n (some m) = SameLists n m

frame_loop-Same :
    (rounds : ℕ) (stamps : ℕ → ℕ) (curtime : ℕ) (n m : NetQw)
    → SameLists n m
    → Same n (frame_loop rounds stamps curtime m)
unfolding frame_loop generate_frame
frame_loop-Same zero stamps curtime n m same = tt
frame_loop-Same (suc rounds) stamps curtime n m same = elim (Bool-cases (frame_is_due curtime m)) [
  | inl due ↦ rw due (
      frame_loop-Same rounds (λ k. stamps (k + 1)) curtime n (generate_frame (stamps 0) m)
        (record {
          packets = same.packets;
          next_packet = same.next_packet;
          client_packets = same.client_packets;
          internal_packets = same.internal_packets;
        }))
  | inr not_due ↦ rw not_due same
]

pub copy_loop-SameLists :
    (rounds : ℕ) (n m : NetQw) → SameLists n m → SameLists n (copy_loop rounds m).1
unfolding copy_loop copied_frame
copy_loop-SameLists zero n m same = record {
  packets = same.packets;
  next_packet = same.next_packet;
  client_packets = same.client_packets;
  internal_packets = same.internal_packets;
}
copy_loop-SameLists (suc rounds) n m same = copy_loop-SameLists rounds n _ (record {
  packets = same.packets;
  next_packet = same.next_packet;
  client_packets = same.client_packets;
  internal_packets = same.internal_packets;
})

-- The clock's reading is in range for the frames: enough rounds, and counters that do not wrap.
pub record InStep (rounds curtime : ℕ) (n : NetQw) : Type 0 where
  pub some_time : 0 < n.microsecondsperframe
  pub fits : curtime + n.microsecondsperframe < 2 ^ 64
  pub past : n.lastmovesendtime ≤ curtime
  pub to_send : n.framestosend < 2 ^ 32
  pub to_copy : n.framestocopy < 2 ^ 32
  pub enough : curtime < n.lastmovesendtime + rounds * n.microsecondsperframe

pub record MadeFrames (n : NetQw) (result : Option NetQw) : Type 0 where
  pub made : NetQw
  pub returns : result ≡ some made
  pub same : SameLists n made

SameLists-refl : (n : NetQw) → SameLists n n
SameLists-refl n = record {
  packets = refl;
  next_packet = refl;
  client_packets = refl;
  internal_packets = refl;
}

pub generate_frames-MadeFrames :
    (rounds : ℕ) (stamps : ℕ → ℕ) (curtime : ℕ) (n : NetQw)
    → InStep rounds curtime n
    → MadeFrames n (generate_frames rounds stamps curtime n)
unfolding generate_frames
generate_frames-MadeFrames rounds stamps curtime n h =
    elim n.state
      as (λ s.
        MadeFrames n (elim s [ connected ↦ frame_loop rounds stamps curtime n | _ ↦ some n ])) [
          | connected ↦
              let ran =
                frame_loop-Generated rounds stamps curtime n h.some_time h.fits h.past h.to_send
                  h.to_copy h.enough in
              record {
                made = ran.after;
                returns = ran.returns;
                same =
                    subst (Same n) ran.returns
                      (frame_loop-Same rounds stamps curtime n n (SameLists-refl n));
              }
          | _ ↦ record { made = n; returns = refl; same = SameLists-refl n }
        ]
