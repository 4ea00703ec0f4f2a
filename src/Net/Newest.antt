-- ===== src/Net/Newest.antt =====
-- The slots of a loopback buffer of src/net.c that hold the newest messages.
-- The specification: a queue that forgets its oldest message when it holds four.
use qwnet_library.Net.Loopback.{
  Loopback, max_loopback, loopback_size, skip_overwritten, not_positive, take_next, get_loop_packet,
  send_loop_packet,
}
use qwnet_library.Netqw.Ownership.{count}
use qwnet_library.Prelude.{
  ℕ, zero, suc, ◌+◌, ◌%◌, ◌^◌, ◌≤◌, ◌<◌, min, ◌≡◌, refl, ap, ◌∙◌, inl, inr, true, false, Option,
  none, some, List, [], ◌∷◌, ◌++◌, arith, length, get_or, set, drop, length-set, get_or-set_self,
  get_or-set_ne, ltb, if◌then◌else◌, ltb→lt, ltb→le, le→ltb, Bool-cases, u32, sub32,
}

abbrev pub enqueue : List ℕ → List (List ℕ) → List (List ℕ)
enqueue m q = (if ltb (length q) max_loopback then q else drop 1 q) ++ (m ∷ [])

-- The `n` newest messages, the oldest of them first.
unfoldable pub newest : ℕ → List (List ℕ) → ℕ → List (List ℕ)
newest zero slots next = []
newest (suc n) slots next =
    get_or slots (sub32 next (suc n) % max_loopback) [] ∷ newest n slots next

pub length-newest : (n : ℕ) (slots : List (List ℕ)) (next : ℕ) → length (newest n slots next) ≡ n
unfolding newest
length-newest zero slots next = refl
length-newest (suc n) slots next = ap suc (length-newest n slots next)

pub newest-set :
    (n : ℕ) (slots : List (List ℕ)) (next : ℕ) (m : List ℕ)
    → length slots ≡ max_loopback
    → n < max_loopback
    → next < 2 ^ 32
    → newest (suc n) (set slots (next % max_loopback) m) (u32 (next + 1))
      ≡ newest n slots next ++ (m ∷ [])
unfolding newest
newest-set zero slots next m size small word =
    let i : sub32 (u32 (next + 1)) 1 % max_loopback ≡ next % max_loopback = omega arith in
    let self = get_or-set_self slots (next % max_loopback) m [] (omega arith) in rw (i, self) refl
newest-set (suc n) slots next m size small word =
    let i : sub32 (u32 (next + 1)) (suc (suc n)) % max_loopback
        ≡ sub32 next (suc n) % max_loopback =
      omega arith in
    let other =
      get_or-set_ne slots (next % max_loopback) (sub32 next (suc n) % max_loopback) m []
        (λ e. omega arith) in
    rw (i, other, newest-set n slots next m size (omega arith) word) refl

pub record IsReady (loop : Loopback) : Type 0 where
  pub slots : length loop.msgs ≡ max_loopback
  pub get_word : loop.get < 2 ^ 32
  pub send_word : loop.send < 2 ^ 32

-- How many messages were sent and not taken.
abbrev pub pending : Loopback → ℕ
pending loop = sub32 loop.send loop.get

-- What the buffer holds, the oldest message first.
abbrev pub contents : Loopback → List (List ℕ)
contents loop = newest (min max_loopback (pending loop)) loop.msgs loop.send

abbrev pub sent : List ℕ → Loopback → Loopback
sent m loop =
    let slots = set loop.msgs (loop.send % max_loopback) m in
    record loop { msgs = slots; send = u32 (loop.send + 1) }

pub send_loop_packet-sent :
    (m : List ℕ) (loop : Loopback)
    → length m ≤ loopback_size
    → send_loop_packet m loop ≡ some (sent m loop)
unfolding send_loop_packet
send_loop_packet-sent m loop h = rw (le→ltb loopback_size (length m) h) refl

pub sent-IsReady : (m : List ℕ) (loop : Loopback) → IsReady loop → IsReady (sent m loop)
sent-IsReady m loop ready = record {
  slots = length-set loop.msgs (loop.send % max_loopback) m ∙ ready.slots;
  get_word = ready.get_word;
  send_word = omega arith;
}

pub pending-sent :
    (m : List ℕ) (loop : Loopback)
    → IsReady loop
    → pending loop + 1 < 2 ^ 32
    → pending (sent m loop) ≡ pending loop + 1
pending-sent m loop ready room = omega (arith, ready.get_word, ready.send_word)

-- Sending puts the message behind the others.
pub contents-sent :
    (m : List ℕ) (loop : Loopback)
    → IsReady loop
    → pending loop + 1 < 2 ^ 32
    → contents (sent m loop) ≡ enqueue m (contents loop)
unfolding newest
contents-sent m loop ready room =
    let n = pending loop in
    elim (Bool-cases (ltb n max_loopback)) [
      | inl some_free ↦
          let before : min max_loopback n ≡ n = omega (arith, ltb→lt n max_loopback some_free) in
          let after : min max_loopback (pending (sent m loop)) ≡ suc n =
            omega (arith, ltb→lt n max_loopback some_free, pending-sent m loop ready room) in
          rw (after, before, length-newest n loop.msgs loop.send, some_free)
            (newest-set n loop.msgs loop.send m ready.slots (ltb→lt n max_loopback some_free)
              ready.send_word)
      | inr full ↦
          let before : min max_loopback n ≡ max_loopback =
            omega (arith, ltb→le n max_loopback full) in
          let after : min max_loopback (pending (sent m loop)) ≡ max_loopback =
            omega (arith, ltb→le n max_loopback full, pending-sent m loop ready room) in
          rw (after, before)
            (newest-set 3 loop.msgs loop.send m ready.slots (omega arith) ready.send_word)
    ]

-- Taking the oldest message.
unfoldable pub took : List (List ℕ) → Option (List ℕ) × List (List ℕ)
took [] = (none, [])
took (m ∷ q) = (some m, q)

-- A reader that is too far behind is moved to the oldest message that is left.
skip_overwritten-lem :
    (loop : Loopback)
    → IsReady loop
    → let after = skip_overwritten loop in
      IsReady after
      × (pending after ≡ min max_loopback (pending loop))
      × (after.msgs ≡ loop.msgs)
      × (after.send ≡ loop.send)
unfolding skip_overwritten
skip_overwritten-lem loop ready = elim (Bool-cases (ltb max_loopback (pending loop))) [
  | inl behind ↦ rw (behind) (
    record { slots = ready.slots; get_word = omega arith; send_word = ready.send_word },
    omega (arith, ready.send_word, ltb→lt max_loopback (pending loop) behind),
    refl,
    refl,
  )
  | inr kept ↦ rw (kept) (ready, omega (arith, ltb→le max_loopback (pending loop) kept), refl, refl)
]

-- A buffer that is at most four behind: nothing is left, or the oldest message is taken.
take_oldest :
    (n : ℕ) (loop : Loopback)
    → IsReady loop
    → pending loop ≡ n
    → n ≤ max_loopback
    → let (reply, after) = take_next loop in
      ((reply, contents after) ≡ took (contents loop))
      × IsReady after
      × (pending after ≤ pending loop)
unfolding take_next took newest
take_oldest zero loop ready e close =
    let nothing : not_positive (pending loop) ≡ true = ground arith in
    let count : min max_loopback (pending loop) ≡ 0 = omega arith in
    rw (nothing) (rw (count) (refl, ready, omega arith))
take_oldest (suc n) loop ready e close =
    let something : not_positive (pending loop) ≡ false = ground arith in
    let next = record loop { get = u32 (loop.get + 1) } in
    let left : pending next ≡ n = omega (arith, ready.get_word, ready.send_word) in
    let before : min max_loopback (pending loop) ≡ suc n = omega arith in
    let after : min max_loopback (pending next) ≡ n = omega arith in
    let oldest : loop.get % max_loopback ≡ sub32 loop.send (suc n) % max_loopback =
      omega (arith, ready.get_word, ready.send_word) in
    rw (something) (
      rw (before, after, oldest) refl,
      record { slots = ready.slots; get_word = omega arith; send_word = ready.send_word },
      omega arith,
    )

pub get_loop_packet-took :
    (loop : Loopback)
    → IsReady loop
    → let (reply, after) = get_loop_packet loop in
      ((reply, contents after) ≡ took (contents loop))
      × IsReady after
      × (pending after ≤ pending loop)
unfolding get_loop_packet
get_loop_packet-took loop ready =
    let (ready', count, slots, end) = skip_overwritten-lem loop ready in
    let (step, next, fewer) = take_oldest _ (skip_overwritten loop) ready' count (omega arith) in
    let same : contents (skip_overwritten loop) ≡ contents loop =
      rw (count, slots, end) (ap (λ n. newest n loop.msgs loop.send) (omega arith)) in
    (step ∙ ap took same, next, omega arith)
