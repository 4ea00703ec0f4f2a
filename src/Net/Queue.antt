-- ===== src/Net/Queue.antt =====
-- The loopback buffer of src/net.c as a queue of the last four messages.
use qwnet_library.Net.Loopback.{
  Loopback, max_loopback, loopback_size, clear_loopback, get_loop_packet, send_loop_packet,
}
use qwnet_library.Net.Newest.{
  enqueue, newest, IsReady, pending, contents, sent, send_loop_packet-sent, sent-IsReady,
  pending-sent, contents-sent, took, get_loop_packet-took,
}
use qwnet_library.Prelude.{
  ℕ, ◌+◌, ◌^◌, ◌≤◌, ◌<◌, ◌≡◌, refl, sym, ap, ◌∙◌, Option, none, some, List, [], ◌∷◌, arith, length,
}

-- What a client of the buffer does with it.
pub data Use : Type 0 where
  sends : List ℕ → Use
  receives : Use

unfoldable pub queue_replies : List Use → List (List ℕ) → List (Option (List ℕ))
queue_replies [] q = []
queue_replies (sends m ∷ calls) q = queue_replies calls (enqueue m q)
queue_replies (receives ∷ calls) [] = none ∷ queue_replies calls []
queue_replies (receives ∷ calls) (m ∷ q) = some m ∷ queue_replies calls q

-- What the code answers; `none` when it writes past a slot.
unfoldable pub loopback_replies : List Use → Loopback → Option (List (Option (List ℕ)))
loopback_replies [] loop = some []
loopback_replies (sends m ∷ calls) loop = elim (send_loop_packet m loop) [
  | none ↦ none
  | some l ↦ loopback_replies calls l
]
loopback_replies (receives ∷ calls) loop =
    let (reply, l) = get_loop_packet loop in
    elim (loopback_replies calls l) [ none ↦ none | some rs ↦ some (reply ∷ rs) ]

-- Every message fits its slot.
unfoldable pub Fits : List Use → Type 0
Fits [] = Unit {0}
Fits (sends m ∷ calls) = (length m ≤ loopback_size) × Fits calls
Fits (receives ∷ calls) = Fits calls

queue_replies-receives :
    (calls : List Use) (q : List (List ℕ))
    → queue_replies (receives ∷ calls) q ≡ (took q).0 ∷ queue_replies calls (took q).1
unfolding queue_replies took
queue_replies-receives calls [] = refl
queue_replies-receives calls (m ∷ q) = refl

loopback_replies-sends :
    (m : List ℕ) (calls : List Use) (loop after : Loopback)
    → send_loop_packet m loop ≡ some after
    → loopback_replies (sends m ∷ calls) loop ≡ loopback_replies calls after
unfolding loopback_replies
loopback_replies-sends m calls loop after e = rw (loopback_replies, e) refl

loopback_replies-receives :
    (calls : List Use) (loop : Loopback) (replies : List (Option (List ℕ)))
    → loopback_replies calls (get_loop_packet loop).1 ≡ some replies
    → loopback_replies (receives ∷ calls) loop ≡ some ((get_loop_packet loop).0 ∷ replies)
unfolding loopback_replies
loopback_replies-receives calls loop replies e = rw (loopback_replies, e) refl

-- The buffer answers as the queue does.
loopback_replies-queue_replies :
    (calls : List Use) (loop : Loopback)
    → IsReady loop
    → Fits calls
    → pending loop + length calls < 2 ^ 32
    → loopback_replies calls loop ≡ some (queue_replies calls (contents loop))
unfolding loopback_replies queue_replies Fits
loopback_replies-queue_replies [] loop ready fits room = refl
loopback_replies-queue_replies (sends m ∷ calls) loop ready (short, fits) room =
    let count = pending-sent m loop ready (omega arith) in
    loopback_replies-sends m calls loop (sent m loop) (send_loop_packet-sent m loop short)
    ∙ loopback_replies-queue_replies calls (sent m loop) (sent-IsReady m loop ready) fits
        (omega arith)
    ∙ ap (λ q. some (queue_replies calls q)) (contents-sent m loop ready (omega arith))
loopback_replies-queue_replies (receives ∷ calls) loop ready fits room =
    let (step, next, fewer) = get_loop_packet-took loop ready in
    let rest =
      loopback_replies-queue_replies calls (get_loop_packet loop).1 next fits (omega arith) in
    loopback_replies-receives calls loop (queue_replies calls (contents (get_loop_packet loop).1))
      rest
    ∙ ap (λ p. some (p.0 ∷ queue_replies calls p.1)) step
    ∙ ap some (sym (queue_replies-receives calls (contents loop)))

-- From NET_ClearLoopback on, a loopback buffer of four slots answers any sequence of
-- NET_SendLoopPacket and NET_GetLoopPacket as a queue of the newest four messages does, and writes
-- past no slot, while each message has at most 2900 bytes and there are fewer than 2^32 calls.
pub clear_loopback-IsQueue :
    (calls : List Use) (loop : Loopback)
    → length loop.msgs ≡ max_loopback
    → Fits calls
    → length calls < 2 ^ 32
    → loopback_replies calls (clear_loopback loop) ≡ some (queue_replies calls [])
unfolding clear_loopback newest
clear_loopback-IsQueue calls loop slots fits few =
    loopback_replies-queue_replies calls (clear_loopback loop)
      (record { slots = slots; get_word = omega arith; send_word = omega arith }) fits (omega arith)
