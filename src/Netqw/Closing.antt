-- ===== src/Netqw/Closing.antt =====
-- NetQW_Delete of src/netqw.c frees every packet and every resource, each of them once.
use qwnet_library.Client.Calls.{freed}
use qwnet_library.Huffman.{compress_packet}
use qwnet_library.Net.Newest.{sent}
use qwnet_library.Netqw.{
  State, uninitialised, sendchallenge, sendconnection, connected, NetPacket, SendPacket, NetQw,
}
use qwnet_library.Netqw.Dispatch.{disconnect_message, send_disconnects, disconnect}
use qwnet_library.Netqw.Lifecycle.{Held, nothing_held, free_lists, shut_down, delete}
use qwnet_library.Netqw.Lifetime.{session, free_client-Owned, free_internal-Owned}
use qwnet_library.Netqw.Ownership.{uses, IsOwned, Owned, SameLists, SameLists-Owned, Ends}
use qwnet_library.Netqw.Send.{queue_packet, deliver, send_packet}
use qwnet_library.Prelude.{
  ℕ, zero, suc, ◌+◌, ◌≡◌, refl, ap, ◌∙◌, inl, inr, Bool, true, false, not, Option, none, some, List,
  [], ◌∷◌, ◌++◌, arith, length, take, drop, ltb, leb, if◌then◌else◌, Option-cases, u32,
}
use qwnet_library.Prelude.Action.{Outcome, done, ◌>>=◌, require}

-- If a packet is sent, the lists of received packets are as before.
abbrev KeepsLists : NetQw → Option NetQw → Type 0
KeepsLists n none = Unit {0}
KeepsLists n (some m) = SameLists n m

if-KeepsLists :
    (n : NetQw) (b : Bool) (x y : Option NetQw)
    → KeepsLists n x
    → KeepsLists n y
    → KeepsLists n (if b then x else y)
if-KeepsLists n true x y h k = h
if-KeepsLists n false x y h k = k

SameLists-refl : (n : NetQw) → SameLists n n
SameLists-refl n = record {
  packets = refl;
  next_packet = refl;
  client_packets = refl;
  internal_packets = refl;
}

SameLists-trans : (n m k : NetQw) → SameLists n m → SameLists m k → SameLists n k
SameLists-trans n m k s t = record {
  packets = t.packets ∙ s.packets;
  next_packet = t.next_packet ∙ s.next_packet;
  client_packets = t.client_packets ∙ s.client_packets;
  internal_packets = t.internal_packets ∙ s.internal_packets;
}

deliver-SameLists :
    (allocated : Bool) (now : ℕ) (force : Bool) (buf : List ℕ) (n : NetQw)
    → SameLists n (deliver allocated now force buf n)
unfolding deliver queue_packet
deliver-SameLists allocated now force buf n = record {
  packets = ground arith;
  next_packet = ground arith;
  client_packets = ground arith;
  internal_packets = ground arith;
}

coded-KeepsLists :
    (allocated : Bool) (now : ℕ) (force : Bool) (head : List ℕ) (n : NetQw)
    (coded : Option (List ℕ))
    → KeepsLists n (elim coded [
      | none ↦ none
      | some [] ↦ some n
      | some (b ∷ bs) ↦ some (deliver allocated now force (head ++ (b ∷ bs)) n)
    ])
coded-KeepsLists allocated now force head n none = tt
coded-KeepsLists allocated now force head n (some []) = SameLists-refl n
coded-KeepsLists allocated now force head n (some (b ∷ bs)) =
    deliver-SameLists allocated now force (head ++ (b ∷ bs)) n

send_packet-KeepsLists :
    (allocated : Bool) (now : ℕ) (force : Bool) (buf : List ℕ) (n : NetQw)
    → KeepsLists n (send_packet allocated now force buf n)
unfolding send_packet
send_packet-KeepsLists allocated now force buf n =
    if-KeepsLists n (leb 1500 (length buf)) (some n) _ (SameLists-refl n) (
      if-KeepsLists n (not n.huffman) (some (deliver allocated now force buf n)) _
        (deliver-SameLists allocated now force buf n)
        (if-KeepsLists n (ltb (length buf) 10) none _ tt (
          coded-KeepsLists allocated now force (take 10 buf) n
            (compress_packet (drop 10 buf) 1490))))

then-KeepsLists :
    (n : NetQw) (o : Option NetQw) (f : NetQw → Option NetQw)
    → KeepsLists n o
    → ((m : NetQw) → SameLists n m → KeepsLists n (f m))
    → KeepsLists n (elim o [ none ↦ none | some m ↦ f m ])
then-KeepsLists n none f h g = tt
then-KeepsLists n (some m) f h g = g m h

after-KeepsLists :
    (n m : NetQw) (o : Option NetQw) → SameLists n m → KeepsLists m o → KeepsLists n o
after-KeepsLists n m none s h = tt
after-KeepsLists n m (some k) s h = SameLists-trans n m k s h

send_disconnects-KeepsLists :
    (k : ℕ) (allocated : ℕ → Bool) (now : ℕ → ℕ) (n : NetQw)
    → KeepsLists n (send_disconnects k allocated now n)
unfolding send_disconnects
send_disconnects-KeepsLists zero allocated now n = SameLists-refl n
send_disconnects-KeepsLists (suc k) allocated now n =
    then-KeepsLists n _ _
      (send_packet-KeepsLists (allocated k) (now k) true (disconnect_message n) n)
      (λ m s.
        let next = record m {
          current_outgoing_sequence_number = u32 (m.current_outgoing_sequence_number + 1);
        } in
        after-KeepsLists n next _
          (record {
            packets = s.packets;
            next_packet = s.next_packet;
            client_packets = s.client_packets;
            internal_packets = s.internal_packets;
          })
          (send_disconnects-KeepsLists k allocated now next))

by_state-KeepsLists :
    (s : State) (n : NetQw) (o : Option NetQw)
    → KeepsLists n o
    → KeepsLists n (elim s [ connected ↦ o | _ ↦ some n ])
by_state-KeepsLists uninitialised n o h = SameLists-refl n
by_state-KeepsLists sendchallenge n o h = SameLists-refl n
by_state-KeepsLists sendconnection n o h = SameLists-refl n
by_state-KeepsLists connected n o h = h

disconnect-KeepsLists :
    (allocated : ℕ → Bool) (now : ℕ → ℕ) (n : NetQw) → KeepsLists n (disconnect allocated now n)
unfolding disconnect
disconnect-KeepsLists allocated now n =
    by_state-KeepsLists n.state n (send_disconnects 3 allocated now n)
      (send_disconnects-KeepsLists 3 allocated now n)

-- A store that no list holds a packet of is empty.
empty_store :
    (store : ℕ → Option NetPacket) (next p : ℕ) → IsOwned store next [] [] → store p ≡ none
empty_store store next p h = elim (Option-cases (store p)) [
  | inl e ↦ e
  | inr (packet, e) ↦ absurd (omega (arith, ap uses e, h.counted p, h.live p packet e))
]

abbrev pub Emptied : List SendPacket → NetQw → Type 0
Emptied delayed m =
    ((p : ℕ) → m.packets p ≡ none) × (m.reliable_buffers ≡ []) × (m.send_packets ≡ delayed)

pub free_lists-Emptied : (n : NetQw) → Owned n → Ends (Emptied n.send_packets) (free_lists n)
unfolding free_lists
free_lists-Emptied n h =
    let first = free_client-Owned n.client_packets (record n { reliable_buffers = [] }) refl h in
    let m = first.after in
    let second = free_internal-Owned m.internal_packets m refl (first.holds.0) in
    let k = second.after in
    let owned : IsOwned k.packets k.next_packet [] [] =
      rw (second.holds.2 ∙ first.holds.1, second.holds.1) at (second.holds.0) in
    rw (first.returns, second.returns, free_lists)
      (record {
        after = k;
        returns = refl;
        holds = (
          λ p. empty_store k.packets k.next_packet p owned,
          second.holds.3 ∙ first.holds.2,
          second.holds.4 ∙ first.holds.3,
        );
      })

-- What NetQW_Delete ends with.
pub record Deleted (sent : NetQw) (result : Outcome (NetQw × Held)) : Type 0 where
  pub last : NetQw
  pub returns : result ≡ done (last, nothing_held)
  pub no_packet : (p : ℕ) → last.packets p ≡ none
  pub no_buffer : last.reliable_buffers ≡ []
  pub delayed : last.send_packets ≡ sent.send_packets

-- The connection in front of `free_lists`, if it was shut down.
abbrev pub shut : Bool → NetQw → NetQw → NetQw
shut true n sent = sent
shut false n sent = n

shut-Owned :
    (initialised : Bool) (n sent : NetQw)
    → Owned n
    → SameLists n sent
    → Owned (shut initialised n sent)
shut-Owned true n sent h s =
    rw (s.client_packets, s.internal_packets)
      (SameLists-Owned n sent n.client_packets n.internal_packets s h)
shut-Owned false n sent h s = h

shut_down_lem :
    (threaded initialised : Bool) (allocated : ℕ → Bool) (now : ℕ → ℕ) (n sent : NetQw)
    → disconnect allocated now n ≡ some sent
    → shut_down initialised allocated now n (session threaded initialised)
      ≡ done (shut initialised n sent, session threaded false)
unfolding shut_down
shut_down_lem threaded true allocated now n sent e = rw (e, require) refl
shut_down_lem threaded false allocated now n sent e = refl

delete_lem :
    (threaded initialised : Bool) (allocated : ℕ → Bool) (now : ℕ → ℕ) (n m k : NetQw)
    → shut_down initialised allocated now (record n { quit = true }) (session threaded initialised)
      ≡ done (m, session threaded false)
    → free_lists m ≡ done k
    → delete initialised allocated now n (session threaded initialised) ≡ done (k, nothing_held)
unfolding delete
delete_lem true initialised allocated now n m k down freed =
    rw (down, ◌>>=◌) (rw (freed, ◌>>=◌) refl)
delete_lem false initialised allocated now n m k down freed =
    rw (down, ◌>>=◌) (rw (freed, ◌>>=◌) refl)

-- Where the use count of each packet is the number of lists that hold it, none has fewer than eight
-- bytes, and the farewell can be coded, NetQW_Delete ends without a fault, with or without a thread, before or after
-- NetQW_Thread_Init: all that the connection held is given back once, each packet is freed once, and
-- no reliable buffer is left. Packets that wait to be sent are not freed.
pub delete-Deleted :
    (threaded initialised : Bool) (allocated : ℕ → Bool) (now : ℕ → ℕ) (n sent : NetQw)
    → Owned n
    → disconnect allocated now (record n { quit = true }) ≡ some sent
    → Deleted
        (shut initialised (record n { quit = true }) sent)
        (delete initialised allocated now n (session threaded initialised))
delete-Deleted threaded initialised allocated now n sent h e =
    let quitting = record n { quit = true } in
    let down = shut_down_lem threaded initialised allocated now quitting sent e in
    let kept : KeepsLists quitting (some sent) =
      rw e at (disconnect-KeepsLists allocated now quitting) in
    let last =
      free_lists-Emptied (shut initialised quitting sent)
        (shut-Owned initialised quitting sent h kept) in
    record {
      last = last.after;
      returns =
          delete_lem threaded initialised allocated now n (shut initialised quitting sent)
            last.after down last.returns;
      no_packet = last.holds.0;
      no_buffer = last.holds.1;
      delayed = last.holds.2;
    }
