-- ===== src/Parse/Message.antt =====
-- ParseServerMessage of src/main.c: the commands of one message, in order.
use qwnet_library.Connection.{Connection, Step, reading, set_abort}
use qwnet_library.Msg.{Read, advance, read_long, read_short, read_byte, read_string, read_float}
use qwnet_library.Parse.Commands.{
  parse_sound_list, parse_model_list, parse_client_data, parse_temp_entity, parse_serverdata,
  parse_print,
}
use qwnet_library.Parse.Download.{parse_download, parse_stufftext}
use qwnet_library.Parse.Entities.{parse_packet_entities}
use qwnet_library.Parse.Fields.{
  parse_playerinfo, parse_lightstyles, parse_baseline, parse_spawn_static_sound, parse_sound_packet,
  parse_damage, parse_setangle,
}
use qwnet_library.Prelude.{
  ℕ, zero, suc, ◌+◌, false, ◌||◌, Option, none, some, ◌==◌, if◌then◌else◌, u32, minus_one,
}
use qwnet_library.Prelude.Action.{pure, out_of_rounds, ◌>>=◌, ◌>>◌, gets, modify}

-- The commands that only skip a fixed row of fields. `none`: `cmd` is not one of these.
unfoldable pub skip_fields : ℕ → ℕ → Option (Read (Unit {0}))
skip_fields protoversion cmd =
    if cmd == 1
      || cmd == 2
      || cmd == 7
      || cmd == 16
      || cmd == 20
      || cmd == 27
      || cmd == 28
      || cmd == 30
      || cmd == 31
      || cmd == 33
      || cmd == 34
      || cmd == 35
      || cmd == 43
      || cmd == 48
      || cmd == 49
      || cmd == 50
      || cmd == 52
      || cmd == 54
      || cmd == 83
    then some (pure tt)
    else if cmd == 26
    then some (read_string >> pure tt)
    else if cmd == 19
    then some parse_damage
    else if cmd == 10
    then some parse_setangle
    else if cmd == 12
    then some parse_lightstyles
    else if cmd == 6
    then some parse_sound_packet
    else if cmd == 14 || cmd == 36
    then some (read_byte >> (read_short >> pure tt))
    else if cmd == 53 || cmd == 3
    then some (read_byte >> (read_byte >> pure tt))
    else if cmd == 40
    then some (read_byte >> (read_long >> (read_string >> pure tt)))
    else if cmd == 22
    then some parse_baseline
    else if cmd == 38
    then some (read_byte >> (read_long >> pure tt))
    else if cmd == 29
    then some parse_spawn_static_sound
    else if cmd == 32 || cmd == 44
    then some (read_byte >> pure tt)
    else if cmd == 39
    then some (read_short >> pure tt)
    else if cmd == 51
    then some (read_byte >> (read_string >> (read_string >> pure tt)))
    else if cmd == 42
    then some (parse_playerinfo protoversion)
    else none

-- svc_updateentertime
unfoldable pub parse_entertime : Read (Unit {0})
parse_entertime = do read_byte; read_float; pure tt

-- svc_print. The level goes to QWC_DPPrintf.
unfoldable pub print_command : Step (Unit {0})
print_command = do reading read_byte; s ← reading read_string; parse_print s

-- What a round of the loop leads to: the next command, the end of the message, or an abort.
pub data Round : Type 0 where
  more ended aborted : Round

-- The other cases of the switch; its default is an abort.
unfoldable pub run_command : ℕ → ℕ → Step Round
unfolding print_command parse_entertime
run_command rounds cmd =
    if cmd == 8
    then print_command >> pure more
    else if cmd == 9
    then parse_stufftext >> pure more
    else if cmd == 11
    then parse_serverdata rounds >> pure more
    else if cmd == 23
    then parse_temp_entity >> pure more
    else if cmd == 37
    then reading parse_entertime >> pure more
    else if cmd == 41
    then parse_download >> pure more
    else if cmd == 45
    then parse_model_list rounds >> pure more
    else if cmd == 46
    then parse_sound_list rounds >> pure more
    else if cmd == 47
    then parse_packet_entities rounds false >> pure more
    else set_abort >> pure aborted

unfoldable pub dispatch : ℕ → ℕ → Step Round
unfolding skip_fields run_command
dispatch rounds cmd = do
  protoversion ← gets (λ (c : Connection). c.protoversion)
  elim (skip_fields protoversion cmd) [
    | some skip ↦ reading skip >> pure more
    | none ↦ run_command rounds cmd
  ]

unfoldable pub next_command : ℕ → Step Round
unfolding dispatch
next_command rounds = do
  badread ← gets (λ (c : Connection). c.msg.badread)
  if badread then set_abort >> pure aborted else do
    cmd ← reading read_byte
    if cmd == minus_one then reading (advance 1) >> pure ended else dispatch rounds cmd

-- `while (1)`
unfoldable pub command_loop : ℕ → Step (Unit {0})
unfolding next_command
command_loop zero = out_of_rounds
command_loop (suc rounds) = do
  round ← next_command rounds
  elim round [ more ↦ command_loop rounds | ended ↦ pure tt | aborted ↦ pure tt ]

unfoldable pub parse_server_message : ℕ → Step (Unit {0})
unfolding command_loop parse_client_data
parse_server_message rounds = do
  modify
      (λ (c : Connection). parse_client_data (record c { packet_count = u32 (c.packet_count + 1) }))
  command_loop rounds
