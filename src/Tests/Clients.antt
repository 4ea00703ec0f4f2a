-- ===== src/Tests/Clients.antt =====
-- The client's loop on a small packet.
use qwnet_library.Client.{get_message}
use qwnet_library.Client.Console.{freed_lines}
use qwnet_library.Client.Lines.{
  Event, prints, asks, handed, printed, IsSaving, HandedOut, handed-HandedOut,
}
use qwnet_library.Client.Packets.{IsWaiting, Delivered, get_message-Delivered}
use qwnet_library.Connection.{Connection}
use qwnet_library.Netqw.{NetQw, put_packet}
use qwnet_library.Netqw.Ownership.{Owned}
use qwnet_library.Prelude.{
  ℕ, ◌+◌, ◌*◌, refl, true, none, some, List, [], ◌∷◌, ◌++◌, arith, replicate,
}
use qwnet_library.Samples.{idle_netqw, reader_of, connection_of}

-- One packet waits, in the client's list only.
abbrev nine_bytes : List ℕ
nine_bytes = 1 ∷ 2 ∷ 3 ∷ 4 ∷ 5 ∷ 6 ∷ 7 ∷ 8 ∷ 9 ∷ []

abbrev loaded : NetQw
loaded = record idle_netqw {
  packets =
      put_packet (λ p. none) 0
        (some (record { payload = nine_bytes; usecount = 1; delayuntil = 0 }));
  next_packet = 1;
  client_packets = 0 ∷ [];
}

loaded-Owned : Owned loaded
loaded-Owned = record {
  counted = λ p. ground arith;
  live = λ p packet e. ground arith;
  fresh = λ p le. ground arith;
}

abbrev receiving : Connection
receiving = record (connection_of (reader_of (replicate 2900 0) 0 0)) {
  netqw = some loaded;
  oracle = record { grants = λ k. true; clock = λ k. 1000000 + 5000 * k };
}

loaded-IsWaiting :
    IsWaiting 2 (record { payload = nine_bytes; usecount = 1; delayuntil = 0 }) [] loaded receiving
loaded-IsWaiting = record {
  key = 0;
  netqw_is = refl;
  queue = refl;
  here = refl;
  owned = loaded-Owned;
  not_empty = omega arith;
  due = omega arith;
  still_due = omega arith;
  in_step = record {
    some_time = omega arith;
    fits = omega arith;
    past = omega arith;
    to_send = omega arith;
    to_copy = omega arith;
    enough = omega arith;
  };
}

get_message-Delivered_example : Delivered nine_bytes [] (get_message 2 receiving)
get_message-Delivered_example =
    get_message-Delivered 2 (record { payload = nine_bytes; usecount = 1; delayuntil = 0 }) []
      loaded receiving loaded-IsWaiting

abbrev some_events : List Event
some_events = prints (b'a' ∷ []) ∷ prints (b'b' ∷ []) ∷ asks ∷ prints [] ∷ asks ∷ []

receiving-IsSaving : IsSaving receiving
receiving-IsSaving = record { asked = refl; memory = λ k. refl }

handed-HandedOut_example :
    HandedOut
      (freed_lines receiving.console_output ++ printed some_events)
      (handed some_events receiving)
handed-HandedOut_example = handed-HandedOut some_events receiving receiving-IsSaving
