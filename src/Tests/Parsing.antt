-- ===== src/Tests/Parsing.antt =====
-- The reader and the parser on small messages.
use qwnet_library.Connection.{opened, Connection}
use qwnet_library.Msg.{Reader, read_string, read_delta_usercmd}
use qwnet_library.Msg.Moves.{read_delta_usercmd-write_delta_usercmd}
use qwnet_library.Msg.Steps.{IsSafe}
use qwnet_library.Msg.Text.{read_string-HasAhead}
use qwnet_library.Msg.Values.{HasAhead}
use qwnet_library.Netqw.{Usercmd, zero_cmd}
use qwnet_library.Netqw.Send.{usercmd_bits, write_delta_usercmd}
use qwnet_library.Parse.Closed.{Finished, finish_download-Finished}
use qwnet_library.Parse.Fields.{flush_entity_packet}
use qwnet_library.Parse.Loops.{IsSpinning, command_loop-IsSpinning}
use qwnet_library.Parse.Message.{skip_fields, command_loop}
use qwnet_library.Parse.Safety.{flush_entity_packet-at_end}
use qwnet_library.Parse.Skip.{SafeOption, skip_fields-Safe}
use qwnet_library.Prelude.{◌+◌, ◌≡◌, refl, false, [], ◌∷◌, arith, length}
use qwnet_library.Prelude.Action.{done, hang}
use qwnet_library.Samples.{idle_netqw, reader_of, connection_of}

-- The four bytes of a download block that the parser never gets past.
abbrev block_reader : Reader
block_reader = reader_of (41 ∷ 0xfc ∷ 0xff ∷ 50 ∷ 0 ∷ 0 ∷ []) 4 0

block_reader-IsSafe : IsSafe block_reader
block_reader-IsSafe = record {
  attached = refl;
  fits = omega arith;
  inside = omega arith;
  small = omega arith;
  room = refl;
}

block-IsSpinning : IsSpinning 50 (connection_of block_reader)
block-IsSpinning = record {
  safe = block_reader-IsSafe;
  good = refl;
  ahead = record {
    before = [];
    after = 0 ∷ 0 ∷ [];
    layout = refl;
    position = refl;
    enough = omega arith;
  };
  no_file = refl;
  is_open = (idle_netqw, refl);
}

command_loop-IsSpinning_example : command_loop 1000 (connection_of block_reader) ≡ hang
command_loop-IsSpinning_example =
    command_loop-IsSpinning 50 1000 (connection_of block_reader) (omega arith) (omega arith)
      block-IsSpinning

flush_entity_packet-at_end_example :
    flush_entity_packet 1000 (record block_reader { readcount = 3 }) ≡ hang
flush_entity_packet-at_end_example =
    flush_entity_packet-at_end 1000 (record block_reader { readcount = 3 })
      (record {
        attached = refl;
        fits = omega arith;
        inside = omega arith;
        small = omega arith;
        room = refl;
      })
      (omega arith)

skip_fields-Safe_example : SafeOption (skip_fields 28 42)
skip_fields-Safe_example = skip_fields-Safe 28 42

-- The text "ok" and the number 0x01020304 ahead.
abbrev text_reader : Reader
text_reader = reader_of (0 ∷ b'o' ∷ b'k' ∷ 0 ∷ 4 ∷ 3 ∷ 2 ∷ 1 ∷ []) 8 1

text_reader-IsSafe : IsSafe text_reader
text_reader-IsSafe = record {
  attached = refl;
  fits = omega arith;
  inside = omega arith;
  small = omega arith;
  room = refl;
}

read_string-HasAhead_example :
    (r' : Reader) × (read_string text_reader ≡ done (b'o' ∷ b'k' ∷ [], r'))
    × (r'.readcount ≡ 4)
    × (r'.badread ≡ false)
read_string-HasAhead_example =
    read_string-HasAhead (b'o' ∷ b'k' ∷ []) text_reader-IsSafe
      (omega arith, omega arith, (omega arith, omega arith, tt)) (omega arith)
      (record {
        before = 0 ∷ [];
        after = 4 ∷ 3 ∷ 2 ∷ 1 ∷ [];
        layout = refl;
        position = refl;
        enough = omega arith;
      })

abbrev number_reader : Reader
number_reader = record text_reader { readcount = 4 }

abbrev downloading : Connection
downloading = record (connection_of text_reader) { download_file = opened (b'm' ∷ []) (1 ∷ 2 ∷ []) }

finish_download-Finished_example : Finished downloading
finish_download-Finished_example =
    finish_download-Finished downloading (b'm' ∷ []) (1 ∷ 2 ∷ []) (idle_netqw, refl) refl

-- A full update with the word 0x4005 and the end of the list.
abbrev updated : Connection
updated = connection_of (reader_of (0 ∷ 5 ∷ 0x40 ∷ 0 ∷ 0 ∷ 0 ∷ []) 5 1)

-- A command that differs from the empty one in an angle, with one byte in front of it.
abbrev turning : Usercmd
turning = record zero_cmd { angle0 = 5; msec = 14 }

turning_bytes : write_delta_usercmd zero_cmd turning ≡ 1 ∷ 5 ∷ 0 ∷ 14 ∷ []
unfolding write_delta_usercmd usercmd_bits
turning_bytes = refl

abbrev turning_reader : Reader
turning_reader = reader_of (0 ∷ 1 ∷ 5 ∷ 0 ∷ 14 ∷ 7 ∷ []) 5 1

turning_reader-IsSafe : IsSafe turning_reader
turning_reader-IsSafe = record {
  attached = refl;
  fits = omega arith;
  inside = omega arith;
  small = omega arith;
  room = refl;
}

turning_reader-HasAhead : HasAhead turning_reader (write_delta_usercmd zero_cmd turning)
turning_reader-HasAhead = rw turning_bytes (record {
  before = 0 ∷ [];
  after = 7 ∷ [];
  layout = refl;
  position = refl;
  enough = omega arith;
})

read_delta_usercmd-write_delta_usercmd_example :
    read_delta_usercmd 28 turning_reader
    ≡ done (
      tt,
      record turning_reader { readcount = 1 + length (write_delta_usercmd zero_cmd turning) },
    )
read_delta_usercmd-write_delta_usercmd_example =
    read_delta_usercmd-write_delta_usercmd 28 zero_cmd turning refl turning_reader-IsSafe
      turning_reader-HasAhead
