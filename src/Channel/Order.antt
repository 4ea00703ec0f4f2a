-- ===== src/Channel/Order.antt =====
-- Netchan_Process of src/net_chan.c accepts packets in order only, and each once.
use qwnet_library.Channel.{Channel, received, process_words}
use qwnet_library.Prelude.{
  ℕ, ◌+◌, ◌%◌, ◌^◌, ◌<◌, ◌≡◌, refl, inl, inr, true, false, List, [], ◌∷◌, arith, length, leb,
  if◌then◌else◌, Bool-cases,
}

-- The sequence numbers of the packets that are accepted.
unfoldable pub accepted : List (ℕ × ℕ) → Channel → List ℕ × Channel
accepted [] c = ([], c)
accepted ((word, word_ack) ∷ words) c =
    let (good, c') = process_words word word_ack c in
    let (rest, last) = accepted words c' in (if good then word % 2 ^ 31 ∷ rest else rest, last)

-- Each number is above the one before.
abbrev pub Rising : ℕ → List ℕ → Type 0
Rising low [] = Unit {0}
Rising low (s ∷ ss) = (low < s) × Rising s ss

abbrev pub last_of : ℕ → List ℕ → ℕ
last_of low [] = low
last_of low (s ∷ ss) = last_of s ss

process_words-stale :
    (word word_ack : ℕ) (c : Channel)
    → leb (word % 2 ^ 31) c.incoming_sequence ≡ true
    → process_words word word_ack c ≡ (false, c)
unfolding process_words
process_words-stale word word_ack c stale = rw stale refl

process_words-fresh :
    (word word_ack : ℕ) (c : Channel)
    → leb (word % 2 ^ 31) c.incoming_sequence ≡ false
    → process_words word word_ack c ≡ (true, received word word_ack c)
unfolding process_words
process_words-fresh word word_ack c fresh = rw fresh refl

-- Whatever packets arrive, the sequence numbers of those that Netchan_Process accepts rise from the
-- channel's own on, so that none is accepted twice; the channel then has the last of them, and
-- good_count has gone up by how many they are, modulo 2^32.
pub accepted-Rising :
    (words : List (ℕ × ℕ)) (c : Channel)
    → let (numbers, after) = accepted words c in
      Rising c.incoming_sequence numbers
      × (after.incoming_sequence ≡ last_of c.incoming_sequence numbers)
      × (after.good_count % 2 ^ 32 ≡ (c.good_count + length numbers) % 2 ^ 32)
unfolding accepted
accepted-Rising [] c = (tt, refl, omega arith)
accepted-Rising ((word, word_ack) ∷ words) c =
    elim (Bool-cases (leb (word % 2 ^ 31) c.incoming_sequence)) [
      | inl stale ↦ rw (process_words-stale word word_ack c stale) (accepted-Rising words c)
      | inr fresh ↦
          let rest = accepted-Rising words (received word word_ack c) in
          let above : c.incoming_sequence < word % 2 ^ 31 = ground arith in
          rw (process_words-fresh word word_ack c fresh)
            ((above, rest.0), rest.1, omega (arith, rest.2))
    ]
