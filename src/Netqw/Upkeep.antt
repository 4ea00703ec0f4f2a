-- ===== src/Netqw/Upkeep.antt =====
-- NetQW_Thread_DoSend of src/netqw.c keeps the packet lists and the reliable queue in order.
-- In order, if it returns.
use mathlib.Core.Option
use qwnet_library.Huffman.{compress_packet}
use qwnet_library.Netqw.{State, uninitialised, sendchallenge, sendconnection, connected, NetQw}
use qwnet_library.Netqw.Arrivals.{if-Ordered}
use qwnet_library.Netqw.Delayed.{Ordered}
use qwnet_library.Netqw.Dispatch.{
  challenge_request, connect_request, huffman_request, send_connect, resend, catch_up, do_send,
}
use qwnet_library.Netqw.Fitting.{fit_buffers-FitsWell}
use qwnet_library.Netqw.Frames.{generate_frame, frame_is_due, frame_loop, generate_frames}
use qwnet_library.Netqw.Send.{
  queue_packet, transmit, deliver, send_packet, fit_buffers, unreliable_part, add_reliable,
  count_sent, send_frame, send_frames,
}
use qwnet_library.Prelude.{
  ℕ, zero, suc, ◌+◌, inl, inr, Bool, true, false, not, ◌&&◌, ◌||◌, Option, none, some, List, [],
  ◌∷◌, ◌++◌, length, take, drop, ltb, leb, ◌==◌, if◌then◌else◌, Bool-cases, u64,
}

abbrev pub IfSome : Option NetQw → Type 0
IfSome none = Unit {0}
IfSome (some n) = Ordered n

if-IfSome : (b : Bool) (x y : Option NetQw) → IfSome x → IfSome y → IfSome (if b then x else y)
if-IfSome true x y h k = h
if-IfSome false x y h k = k

frame_loop-IfSome :
    (rounds : ℕ) (stamps : ℕ → ℕ) (now : ℕ) (n : NetQw)
    → Ordered n
    → IfSome (frame_loop rounds stamps now n)
unfolding frame_loop generate_frame
frame_loop-IfSome zero stamps now n h = tt
frame_loop-IfSome (suc rounds) stamps now n h =
    if-IfSome (frame_is_due now n) _ _
      (frame_loop-IfSome rounds (λ k. stamps (k + 1)) now (generate_frame (stamps 0) n) h) h

deliver-Ordered :
    (allocated : Bool) (now : ℕ) (force : Bool) (buf : List ℕ) (n : NetQw)
    → Ordered n
    → Ordered (deliver allocated now force buf n)
unfolding deliver queue_packet
deliver-Ordered allocated now force buf n h =
    if-Ordered (not (n.lag == 0) && not force) _ _ (if-Ordered allocated _ _ h h) h

coded-IfSome :
    (allocated : Bool) (now : ℕ) (force : Bool) (buf : List ℕ) (n : NetQw) (coded : Option (List ℕ))
    → Ordered n
    → IfSome (elim coded [
      | none ↦ none
      | some [] ↦ some n
      | some (b ∷ bs) ↦ some (deliver allocated now force (take 10 buf ++ (b ∷ bs)) n)
    ])
coded-IfSome allocated now force buf n none h = tt
coded-IfSome allocated now force buf n (some []) h = h
coded-IfSome allocated now force buf n (some (b ∷ bs)) h =
    deliver-Ordered allocated now force (take 10 buf ++ (b ∷ bs)) n h

send_packet-IfSome :
    (allocated : Bool) (now : ℕ) (force : Bool) (buf : List ℕ) (n : NetQw)
    → Ordered n
    → IfSome (send_packet allocated now force buf n)
unfolding send_packet
send_packet-IfSome allocated now force buf n h = if-IfSome (leb 1500 (length buf)) _ _ h (
    if-IfSome (not n.huffman) _ _ (deliver-Ordered allocated now force buf n h) (
      if-IfSome (ltb (length buf) 10) _ _ tt
        (coded-IfSome allocated now force buf n (compress_packet (drop 10 buf) 1490) h)))

add_reliable-Ordered : (buf : List ℕ) (n : NetQw) → Ordered n → Ordered (add_reliable buf n).1
unfolding add_reliable
add_reliable-Ordered buf n h =
    let fit = fit_buffers (length buf) n.reliable_buffers in
    let fits = fit_buffers-FitsWell (length buf) n.reliable_buffers in
    elim (Bool-cases (not (n.reliable_buffers_sent == 0) || fit.1 == 0)) [
      | inl full ↦ rw full h
      | inr free ↦ rw free (h.0, fits.counted)
    ]

counted-IfSome :
    (sent : Option NetQw)
    → IfSome sent
    → IfSome (elim sent [ none ↦ none | some n ↦ some (count_sent n) ])
unfolding count_sent
counted-IfSome none h = tt
counted-IfSome (some n) h = h

built-IfSome :
    (allocated : Bool) (now : ℕ) (n : NetQw) (built : Option (List ℕ))
    → Ordered n
    → IfSome (elim built [
      | none ↦ none
      | some buf ↦
          let (packet, n') = add_reliable buf (record n { send_tmove = false }) in
          elim (send_packet allocated now false packet n') [
            | none ↦ none
            | some n'' ↦ some (count_sent n'')
          ]
    ])
built-IfSome allocated now n none h = tt
built-IfSome allocated now n (some buf) h =
    let (packet, m) = add_reliable buf (record n { send_tmove = false }) in
    counted-IfSome (send_packet allocated now false packet m) (
      send_packet-IfSome allocated now false packet m
        (add_reliable-Ordered buf (record n { send_tmove = false }) h))

send_frame-IfSome :
    (allocated : Bool) (now : ℕ) (n : NetQw) → Ordered n → IfSome (send_frame allocated now n)
unfolding send_frame
send_frame-IfSome allocated now n h = built-IfSome allocated now n (unreliable_part n) h

then-IfSome :
    (first : Option NetQw) (next : NetQw → Option NetQw)
    → IfSome first
    → ((m : NetQw) → Ordered m → IfSome (next m))
    → IfSome (elim first [ none ↦ none | some m ↦ next m ])
then-IfSome none next h k = tt
then-IfSome (some m) next h k = k m h

send_frames-IfSome :
    (k : ℕ) (allocated : ℕ → Bool) (times : ℕ → ℕ) (n : NetQw)
    → Ordered n
    → IfSome (send_frames k allocated times n)
unfolding send_frames
send_frames-IfSome zero allocated times n h = h
send_frames-IfSome (suc k) allocated times n h =
    then-IfSome (send_frame (allocated 0) (times 0) n)
      (λ m. send_frames k (λ i. allocated (i + 1)) (λ i. times (i + 1)) m)
      (send_frame-IfSome (allocated 0) (times 0) n h)
      (λ m h'. send_frames-IfSome k (λ i. allocated (i + 1)) (λ i. times (i + 1)) m h')

send_connect-IfSome : (n : NetQw) → Ordered n → IfSome (send_connect n)
unfolding send_connect
send_connect-IfSome n h =
    let text = connect_request n in
    let whole = text ++ (if n.huffman then huffman_request n else []) in
    if-IfSome (n.huffman && ltb 1500 (length text)) _ _ tt
      (if-Ordered (ltb (length whole) 1500) (transmit whole n) n h h)

resent-IfSome :
    (time : ℕ) (sent : Option NetQw)
    → IfSome sent
    → IfSome (Option.map (λ (m : NetQw). record m { resendtime = time }) sent)
resent-IfSome time none h = tt
resent-IfSome time (some n) h = h

first_request-IfSome :
    (state : State) (n : NetQw)
    → Ordered n
    → IfSome
        (elim state [ sendchallenge ↦ some (transmit challenge_request n) | _ ↦ send_connect n ])
first_request-IfSome uninitialised n h = send_connect-IfSome n h
first_request-IfSome sendchallenge n h = h
first_request-IfSome sendconnection n h = send_connect-IfSome n h
first_request-IfSome connected n h = send_connect-IfSome n h

resend-IfSome : (now : ℕ) (n : NetQw) → Ordered n → IfSome (resend now n)
unfolding resend
resend-IfSome now n h =
    if-IfSome (ltb now n.resendtime) _ _ h
      (resent-IfSome (u64 (now + 3000000)) _ (first_request-IfSome n.state n h))

generate_frames-IfSome :
    (rounds : ℕ) (stamps : ℕ → ℕ) (now : ℕ) (n : NetQw)
    → Ordered n
    → IfSome (generate_frames rounds stamps now n)
unfolding generate_frames
generate_frames-IfSome rounds stamps now n h =
    elim n.state
      as (λ state.
        IfSome (elim state [ connected ↦ frame_loop rounds stamps now n | _ ↦ some n ])) [
          | uninitialised ↦ h
          | sendchallenge ↦ h
          | sendconnection ↦ h
          | connected ↦ frame_loop-IfSome rounds stamps now n h
        ]

by_state-IfSome :
    (state : State) (rounds : ℕ) (stamps : ℕ → ℕ) (allocated : ℕ → Bool) (times : ℕ → ℕ) (now : ℕ)
    (m : NetQw)
    → Ordered m
    → IfSome (elim state [
      | connected ↦ elim (generate_frames rounds stamps now m) [
        | none ↦ none
        | some g ↦ send_frames g.framestosend allocated times g
      ]
      | _ ↦ resend now m
    ])
by_state-IfSome uninitialised rounds stamps allocated times now m h = resend-IfSome now m h
by_state-IfSome sendchallenge rounds stamps allocated times now m h = resend-IfSome now m h
by_state-IfSome sendconnection rounds stamps allocated times now m h = resend-IfSome now m h
by_state-IfSome connected rounds stamps allocated times now m h =
    then-IfSome (generate_frames rounds stamps now m)
      (λ g. send_frames g.framestosend allocated times g)
      (generate_frames-IfSome rounds stamps now m h)
      (λ g h'. send_frames-IfSome g.framestosend allocated times g h')

pub do_send-IfSome :
    (rounds : ℕ) (stamps : ℕ → ℕ) (allocated : ℕ → Bool) (times : ℕ → ℕ) (now : ℕ) (n : NetQw)
    → Ordered n
    → IfSome (do_send rounds stamps allocated times now n)
unfolding do_send catch_up
do_send-IfSome rounds stamps allocated times now n h =
    let m = catch_up now n in
    let order : Ordered m = if-Ordered (ltb (u64 (n.lastmovesendtime + 1000000)) now) _ _ h h in
    by_state-IfSome m.state rounds stamps allocated times now m order
