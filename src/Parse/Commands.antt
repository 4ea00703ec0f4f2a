-- ===== src/Parse/Commands.antt =====
-- The Parse functions of src/main.c that answer the server or print, and those of the connection.
use qwnet_library.Connection.{
  FrameInfo, Connection, Step, reading, granted, set_abort, send_command,
}
use qwnet_library.Msg.{Read, byte_ahead, read_long, read_byte, read_string, read_float}
use qwnet_library.Netqw.{zero_cmd, update_backup}
use qwnet_library.Parse.Fields.{read_coords, parse_beam}
use qwnet_library.Prelude.{
  ℕ, zero, suc, ◌+◌, ◌-◌, ◌%◌, Bool, false, not, ◌||◌, Option, none, some, List, [], ◌∷◌, ◌++◌,
  length, get_or, set, take, ltb, ◌==◌, if◌then◌else◌, sub32,
}
use qwnet_library.Prelude.Action.{
  done, fault, pure, out_of_rounds, ◌>>=◌, ◌>>◌, gets, modify, require,
}
use qwnet_library.Prelude.Text.{codes, print_int}

-- `while (1) { str = MSG_ReadString(qwc); if (!str[0]) break; … }`, `rounds` rounds granted.
unfoldable pub skip_strings : ℕ → Read (Unit {0})
skip_strings zero = out_of_rounds
skip_strings (suc rounds) = do
  str ← read_string
  elim str [ [] ↦ pure tt | c ∷ cs ↦ skip_strings rounds ]

-- The first byte counts the names (the count is dropped), the last says where the list goes on.
unfoldable pub read_names : ℕ → Read ℕ
unfolding skip_strings
read_names rounds = do read_byte; skip_strings rounds; read_byte

-- `clc_stringcmd` is put in front by `send_command`.
unfoldable pub list_command : List ℕ → ℕ → ℕ → List ℕ
list_command name servercount n = name ++ (b' ' ∷ (print_int servercount ++ (b' ' ∷ print_int n)))

unfoldable pub parse_sound_list : ℕ → Step (Unit {0})
unfolding read_names list_command
parse_sound_list rounds = do
  n ← reading (read_names rounds)
  servercount ← gets (λ (c : Connection). c.servercount)
  if not (n == 0)
      then send_command 128 (list_command (codes "soundlist") servercount n)
      else send_command 128 (list_command (codes "modellist") servercount 0)

unfoldable pub parse_model_list : ℕ → Step (Unit {0})
unfolding read_names list_command
parse_model_list rounds = do
  n ← reading (read_names rounds)
  servercount ← gets (λ (c : Connection). c.servercount)
  if not (n == 0)
      then send_command 128 (list_command (codes "modellist") servercount n)
      else send_command 128
          (list_command (codes "prespawn") servercount 0 ++ (b' ' ∷ print_int 367136248))

abbrev pub empty_info : FrameInfo
empty_info = record {
  cmd = zero_cmd;
  senttime = 0;
  delta_sequence = 0;
  receivedtime = 0;
  num_entities = 0;
  entities = [];
  invalid = false;
}

-- The frame that the server acknowledged is marked with the time of its answer.
unfoldable pub parse_client_data : Connection → Connection
parse_client_data c =
    let newparsecount = c.incoming_acknowledged in
    let i = newparsecount % update_backup in
    let frame = get_or c.frames i empty_info in
    record c {
      oldparsecountmod = c.parsecountmod;
      cl_oldparsecount = sub32 newparsecount 1;
      cl_parsecount = newparsecount;
      parsecountmod = i;
      parsecounttime = frame.senttime;
      frames = set c.frames i (record frame { receivedtime = c.realtime });
    }

-- `type` selects how many fields to skip; any other type aborts.
unfoldable pub is_point_effect : ℕ → Bool
is_point_effect type =
    type == 7
    || type == 8
    || type == 0
    || type == 1
    || type == 3
    || type == 4
    || type == 10
    || type == 11
    || type == 13

unfoldable pub is_beam_effect : ℕ → Bool
is_beam_effect type = type == 5 || type == 6 || type == 9

-- TE_GUNSHOT and TE_BLOOD have a count first.
unfoldable pub is_counted_effect : ℕ → Bool
is_counted_effect type = type == 2 || type == 12

unfoldable pub parse_temp_entity : Step (Unit {0})
unfolding is_point_effect is_beam_effect is_counted_effect
parse_temp_entity = do
  type ← reading read_byte
  if is_point_effect type
      then reading read_coords
      else (if is_beam_effect type
          then reading parse_beam
          else (if is_counted_effect type then reading (read_byte >> read_coords) else set_abort))

-- `while (1)` over the protocol version: each QW_PROTOEXT_FTEX is followed by a long to skip.
unfoldable pub read_protoversion : ℕ → Read ℕ
read_protoversion zero = out_of_rounds
read_protoversion (suc rounds) = do
  version ← read_long
  if version == 0x58455446 then read_long >> read_protoversion rounds else pure version

unfoldable pub read_floats : ℕ → Read (Unit {0})
read_floats zero = pure tt
read_floats (suc n) = do read_float; read_floats n

-- The printf of `msg_message->data[msg_readcount]` reads a byte, which may lie out of range.
unfoldable pub parse_serverdata : ℕ → Step (Unit {0})
unfolding read_protoversion read_floats list_command
parse_serverdata rounds = do
  version ← reading (read_protoversion rounds)
  modify (λ (c : Connection). record c { protoversion = version })
  servercount ← reading read_long
  modify (λ (c : Connection). record c { servercount = servercount })
  reading read_string
  reading read_byte
  reading read_string
  reading (byte_ahead 0)
  reading (read_floats 10)
  send_command 128 (list_command (codes "soundlist") servercount 0)

-- QWC_StringAdd: a line is kept if asked for, and if both allocations succeed.
unfoldable pub string_add : List ℕ → Step (Unit {0})
string_add text = do
  save ← gets (λ (c : Connection). c.save_console_output)
  if not save then pure tt else do
    cell ← granted
    if not cell then pure tt else do
      copy ← granted
      if not copy
          then pure tt
          else modify (λ (c : Connection). record c {
            console_output = c.console_output ++ (record { text = text; taken = false } ∷ []);
          })

abbrev pub line_size : ℕ
line_size = 2048

-- `buffer_position += snprintf(buffer + buffer_position, sizeof(buffer) - buffer_position, "%s", s)`
-- adds the whole length of `s`, also if less was stored. Past the end the size wraps round and the
-- write leaves the buffer.
unfoldable pub append_line : List ℕ → Step (Unit {0})
append_line s c =
    if ltb line_size c.buffer_position
    then fault
    else done (
      tt,
      record c {
        line = c.line ++ take (line_size - 1 - c.buffer_position) s;
        buffer_position = c.buffer_position + length s;
      },
    )

-- `s[i-1]`; at an empty string that is the byte in front of the array.
unfoldable pub last_char : List ℕ → Option ℕ
last_char [] = none
last_char (c ∷ []) = some c
last_char (c ∷ (d ∷ s)) = last_char (d ∷ s)

unfoldable pub parse_print : List ℕ → Step (Unit {0})
unfolding append_line last_char string_add
parse_print s = do
  append_line s
  last ← require (last_char s)
  if not (last == 10) then pure tt else do
    line ← gets (λ (c : Connection). c.line)
    string_add line
    modify (λ (c : Connection). record c { line = []; buffer_position = 0 })
