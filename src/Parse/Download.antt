-- ===== src/Parse/Download.antt =====
-- ParseDownload of src/main.c, and the part of svc_stufftext that starts a download.
use qwnet_library.Connection.{
  null, opened, closed, Connection, Step, reading, granted, send_command,
}
use qwnet_library.Msg.{Reader, advance, read_short, read_byte, c_string, read_string}
use qwnet_library.Prelude.{
  ℕ, ◌+◌, ◌%◌, not, ◌&&◌, ◌||◌, Option, none, some, List, [], ◌++◌, length, take, drop, ltb, ◌==◌,
  if◌then◌else◌, minus_one, is_negative,
}
use qwnet_library.Prelude.Action.{done, fault, pure, ◌>>=◌, ◌>>◌, gets, modify}
use qwnet_library.Prelude.Text.{codes, print_int, starts_with}

-- `fclose(qwc->download_file)`: the pointer stays, so a second fclose is on a closed file.
unfoldable pub close_file : Step (Unit {0})
close_file c = elim c.download_file [
  | null ↦ fault
  | opened name contents ↦ done (tt, record c { download_file = closed })
  | closed ↦ fault
]

-- `if (qwc->download_file) fclose(qwc->download_file);`
unfoldable pub close_if_set : Step (Unit {0})
unfolding close_file
close_if_set c = elim c.download_file [
  | null ↦ done (tt, c)
  | opened name contents ↦ close_file c
  | closed ↦ fault
]

unfoldable pub clear_file : Step (Unit {0})
clear_file = modify (λ (c : Connection). record c { download_file = null })

-- The bytes that fwrite takes from the position on; a read past the buffer is a fault. A negative
-- `size` is a huge `size_t`.
unfoldable pub bytes_to_write : ℕ → Reader → Option (List ℕ)
bytes_to_write size r =
    if is_negative size || ltb (length r.bytes) (r.readcount + size)
    then none
    else some (take size (drop r.readcount r.bytes))

unfoldable pub write_file : ℕ → Step (Unit {0})
unfolding bytes_to_write
write_file size c = elim c.download_file [
  | null ↦ done (tt, c)
  | opened name contents ↦ elim (bytes_to_write size c.msg) [
    | none ↦ fault
    | some bs ↦ done (tt, record c { download_file = opened name (contents ++ bs) })
  ]
  | closed ↦ fault
]

-- The answer to a block that is not the last; each tenth percent is also told to the players.
unfoldable pub ask_next : ℕ → Step (Unit {0})
ask_next percent = do
  lp ← gets (λ (c : Connection). c.last_percent)
  (if (percent % 10 == 0) && not (lp == percent)
      then (modify (λ (c : Connection). record c { last_percent = percent })
          >> send_command 128 (codes "say " ++ (print_int percent ++ codes "%")))
      else pure tt)
  send_command 128 (codes "nextdl")

-- `qwc->download_file == NULL;` compares and drops the result: the file stays set, and closed.
unfoldable pub finish_download : Step (Unit {0})
unfolding close_file
finish_download = do
  send_command 128 (codes "say download finished")
  close_file
  modify (λ (c : Connection). record c { download_file_percentage = minus_one })

unfoldable pub parse_download : Step (Unit {0})
unfolding close_if_set clear_file write_file ask_next finish_download
parse_download = do
  size ← reading read_short
  percent ← reading read_byte
  modify (λ (c : Connection). record c { download_file_percentage = percent })
  (if size == minus_one then close_if_set >> clear_file else pure tt)
  write_file size
  reading (advance size)
  if not (percent == 100) then ask_next percent else finish_download

-- `fopen(s+9, "w")`
unfoldable pub open_file : List ℕ → Step (Unit {0})
open_file name = do
  ok ← granted
  modify (λ (c : Connection). record c { download_file = if ok then opened name [] else null })

-- `s + 9`, where `s` is readstring_buffer: what stands there behind "download" and one character,
-- also if the string is shorter.
unfoldable pub start_download : Step (Unit {0})
unfolding close_if_set open_file
start_download = do
  close_if_set
  name ← gets (λ (c : Connection). c_string (drop 9 c.msg.readstring_buffer))
  open_file name
  send_command 128 (codes "download " ++ name)

-- The three commands that the client carries out for svc_stufftext.
unfoldable pub parse_stufftext : Step (Unit {0})
unfolding start_download starts_with
parse_stufftext = do
  s ← reading read_string
  servercount ← gets (λ (c : Connection). c.servercount)
  (if starts_with (codes "cmd") s then send_command 128 (drop 3 s) else pure tt)
  (if starts_with (codes "skins") s
      then send_command 128 (codes "begin " ++ print_int servercount)
      else pure tt)
  (if starts_with (codes "download") s then start_download else pure tt)
