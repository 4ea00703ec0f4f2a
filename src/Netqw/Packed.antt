-- ===== src/Netqw/Packed.antt =====
-- When src/netqw.c puts reliable buffers into a packet, and what it remembers of them.
use qwnet_library.Netqw.{NetQw}
use qwnet_library.Netqw.Fitting.{concat}
use qwnet_library.Netqw.Reliable.{IsQueued}
use qwnet_library.Prelude.{ℕ, ◌%◌, ◌<◌, bit_or, bit_xor, ◌≡◌, ◌⊎◌, List, ◌∷◌, ◌++◌, take}

-- The packet with the highest bit of its fourth byte set, and the state.
abbrev pub with_high_bit : List ℕ → List ℕ
with_high_bit (a ∷ b ∷ c ∷ d ∷ rest) = a ∷ b ∷ c ∷ bit_or d 128 % 256 ∷ rest
with_high_bit buf = buf

-- The packet and the state that `add_reliable` makes of `buf` and `n`.
pub record Packed (buf : List ℕ) (n : NetQw) (result : List ℕ × NetQw) : Type 0 where
  pub queue : result.1.reliable_buffers ≡ n.reliable_buffers
  pub queued : IsQueued result.1
  pub outcome :
      ((result.0 ≡ buf) × (result.1.reliable_buffers_sent ≡ n.reliable_buffers_sent))
      ⊎ ((n.reliable_buffers_sent ≡ 0)
          × (0 < result.1.reliable_buffers_sent)
          × (result.0
              ≡ with_high_bit
                  (buf ++ concat (take result.1.reliable_buffers_sent n.reliable_buffers)))
          × (result.1.reliable_sequence_number ≡ n.current_outgoing_sequence_number)
          × (result.1.incoming_reliable_xor ≡ bit_xor n.incoming_reliable_xor 1))
