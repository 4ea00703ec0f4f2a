-- ===== src/Netqw/Rounds.antt =====
-- One round of the loop of NetQW_Thread in src/netqw.c.
use mathlib.Core.Option
use qwnet_library.Netqw.{NetPacket, NetQw}
use qwnet_library.Netqw.Delayed.{Ordered}
use qwnet_library.Netqw.Dispatch.{do_send}
use qwnet_library.Netqw.Ownership.{IsOwned, Ends}
use qwnet_library.Netqw.Thread.{Datagram, decoded, Sending}
use qwnet_library.Prelude.{ℕ, ◌≡◌, ◌⊎◌, Option, none, some, List, [], ◌∷◌}
use qwnet_library.Prelude.Action.{Outcome, fault}

-- The store after the delays of the packets `ps` were cut short.
record Hurried (next : ℕ) (client internal : List ℕ) (result : Option (ℕ → Option NetPacket))
    : Type 0 where
  after : ℕ → Option NetPacket
  returns : result ≡ some after
  owned : IsOwned after next client internal

record HurriedAll (n : NetQw) (result : Option NetQw) : Type 0 where
  after : NetQw
  returns : result ≡ some after
  ordered : Ordered after

-- The coder can decode the datagram in every state.
abbrev pub Decodes : Datagram → Type 0
Decodes d = (n : NetQw) → (buf : List ℕ) × (decoded d n ≡ some buf)

abbrev pub AllDecode : List Datagram → Type 0
AllDecode [] = Unit {0}
AllDecode (d ∷ ds) = Decodes d × AllDecode ds

-- How a round ends: in order, or with NetQW_Thread_DoSend failing in a state that is in order.
abbrev pub RoundEnds : Sending → Outcome NetQw → Type 0
RoundEnds sending result =
    Ends Ordered result
    ⊎ ((m : NetQw) × Ordered m
        × (do_send sending.rounds sending.stamps sending.granted sending.times sending.current m
            ≡ none)
        × (result ≡ fault))
