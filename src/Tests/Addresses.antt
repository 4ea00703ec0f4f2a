-- ===== src/Tests/Addresses.antt =====
-- Addresses, loopback buffers and sockets of src/net.c, the sleep of src/sleep.c, FloatSwap,
-- and the channel of src/net_chan.c.
use qwnet_library.Channel.{Channel, process_words}
use qwnet_library.Channel.Order.{accepted, Rising, last_of, accepted-Rising}
use qwnet_library.Net.{ipv4, compare_base_adr, compare_adr, adr_to_string}
use qwnet_library.Net.Comparison.{without_port, compare_adr_iff}
use qwnet_library.Net.Loopback.{clear_loopback}
use qwnet_library.Net.Queue.{
  Use, sends, receives, queue_replies, loopback_replies, Fits, clear_loopback-IsQueue,
}
use qwnet_library.Net.Reading.{string_to_adr}
use qwnet_library.Net.RoundTrip.{string_to_adr-adr_to_string}
use qwnet_library.Net.Shutdown.{Config, configure, half_made, IsClean, net_shutdown-IsClean}
use qwnet_library.Net.Sockets.{
  socket_half_made, socket_made, empty_loopback, net_init, net_shutdown,
}
use qwnet_library.Prelude.{
  ℕ, ◌+◌, ◌*◌, ◌%◌, ◌^◌, ◌≡◌, refl, ◌↔◌, true, false, none, some, List, [], ◌∷◌, arith, length,
}
use qwnet_library.Prelude.Action.{◌>>◌}
use qwnet_library.Sleep.{usleep_time, wait_until, sleep_sleep}
use qwnet_library.Sleep.Waiting.{Slept, sleep_sleep-Slept}

compare_adr_iff_example :
    ((compare_adr (ipv4 10 0 0 1 27500) (ipv4 10 0 0 1 27501) ≡ true)
      ↔ (ipv4 10 0 0 1 27500 ≡ ipv4 10 0 0 1 27501))
    × ((compare_base_adr (ipv4 10 0 0 1 27500) (ipv4 10 0 0 1 27501) ≡ true)
        ↔ (without_port (ipv4 10 0 0 1 27500) ≡ without_port (ipv4 10 0 0 1 27501)))
compare_adr_iff_example = compare_adr_iff (ipv4 10 0 0 1 27500) (ipv4 10 0 0 1 27501)

string_to_adr-adr_to_string_example :
    string_to_adr (λ s. none) false (adr_to_string (ipv4 192 168 0 255 65535))
    ≡ some (ipv4 192 168 0 255 65535)
string_to_adr-adr_to_string_example =
    string_to_adr-adr_to_string (λ s. none) false 192 168 0 255 65535 (omega arith) (omega arith)
      (omega arith) (omega arith) (omega arith)

abbrev five_sends : List Use
five_sends =
    sends (1 ∷ [])
    ∷ sends (2 ∷ [])
    ∷ sends (3 ∷ [])
    ∷ sends (4 ∷ [])
    ∷ sends (5 ∷ [])
    ∷ receives
    ∷ []

five_sends-Fits : Fits five_sends
unfolding Fits
five_sends-Fits = (omega arith, (omega arith, (omega arith, (omega arith, (omega arith, tt)))))

five_replies : queue_replies five_sends [] ≡ some (2 ∷ []) ∷ []
unfolding queue_replies
five_replies = refl

clear_loopback-IsQueue_example :
    loopback_replies five_sends (clear_loopback empty_loopback) ≡ some (queue_replies five_sends [])
clear_loopback-IsQueue_example =
    clear_loopback-IsQueue five_sends empty_loopback refl five_sends-Fits (omega arith)

-- The server's socket cannot be bound, loses its descriptor, and is made.
abbrev three_configs : List Config
three_configs =
    record { enable = true; answer = socket_made 3; bound = false }
    ∷ record { enable = true; answer = socket_half_made 4; bound = true }
    ∷ record { enable = true; answer = socket_made 5; bound = true }
    ∷ []

net_shutdown-IsClean_example : IsClean (half_made three_configs) (
    (net_init true true >> configure three_configs >> net_shutdown)
      (record { netdata = none; handles = []; lost = [] }))
net_shutdown-IsClean_example = net_shutdown-IsClean true three_configs

sleep_sleep-Slept_example :
    Slept (λ k. 100 + k * 7) 20 50 8 (sleep_sleep 9 (λ k. 100 + k * 7) 20 50)
sleep_sleep-Slept_example =
    sleep_sleep-Slept 9 (λ k. 100 + k * 7) 20 50 8 (omega arith) (omega arith) (omega arith)

slept_run : sleep_sleep 9 (λ k. 100 + k * 7) 20 50 ≡ some (some 30, 156, 8)
unfolding sleep_sleep wait_until usleep_time
slept_run = refl

abbrev new_channel : Channel
new_channel = record {
  incoming_sequence = 0;
  incoming_acknowledged = 0;
  incoming_reliable_acknowledged = 0;
  incoming_reliable_sequence = 0;
  outgoing_sequence = 1;
  reliable_sequence = 0;
  last_reliable_sequence = 0;
  message = 4 ∷ 0 ∷ [];
  overflowed = false;
  reliable_buf = [];
  dropped = 0;
  drop_count = 0;
  good_count = 0;
}

-- Packet 2 comes twice, and packet 1 late.
abbrev some_words : List (ℕ × ℕ)
some_words = (2, 0) ∷ (2, 0) ∷ (1, 0) ∷ (5, 1) ∷ []

accepted-Rising_example :
    let (numbers, after) = accepted some_words new_channel in
    Rising 0 numbers
    × (after.incoming_sequence ≡ last_of 0 numbers)
    × (after.good_count % 2 ^ 32 ≡ (0 + length numbers) % 2 ^ 32)
accepted-Rising_example = accepted-Rising some_words new_channel

some_words_run : (accepted some_words new_channel).0 ≡ 2 ∷ 5 ∷ []
unfolding accepted process_words
some_words_run = refl
