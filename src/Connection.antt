-- ===== src/Connection.antt =====
-- `struct qw_connection` (src/qw_connection.h), as far as the parser of src/main.c uses it, and the
-- steps in which the parser works on it.
use qwnet_library.Msg.{Reader, Read}
use qwnet_library.Netqw.{Usercmd, NetQw, clc_stringcmd}
use qwnet_library.Netqw.Api.{append_reliable_buffer}
use qwnet_library.Prelude.{
  ℕ, suc, ◌+◌, Bool, true, Option, some, List, [], ◌∷◌, ◌++◌, length, ltb, if◌then◌else◌,
}
use qwnet_library.Prelude.Action.{done, fault, hang, Action, pure, ◌>>=◌, gets, modify, require}

-- `download_file`. After fclose the pointer still points to the closed file.
pub data File : Type 0 where
  null : File
  opened : List ℕ → List ℕ → File
  closed : File

-- A line of `console_output`: its text and its flag `done`.
pub record ConsoleLine : Type 0 where
  pub text : List ℕ
  pub taken : Bool

-- `struct frame_s`, as far as it is used. Times are bit patterns of a `double`; `entities` holds the
-- numbers of the MAX_MVD_PACKET_ENTITIES entities.
pub record FrameInfo : Type 0 where
  pub cmd : Usercmd
  pub senttime : ℕ
  pub delta_sequence : ℕ
  pub receivedtime : ℕ
  pub num_entities : ℕ
  pub entities : List ℕ
  pub invalid : Bool

-- What the operating system answers: whether the k-th call of malloc or fopen succeeds, and what
-- the k-th call of a clock returns.
pub record Oracle : Type 0 where
  pub grants : ℕ → Bool
  pub clock : ℕ → ℕ

-- `msg` holds net_message and the msg_ fields. `last_percent` is the static variable `lp` of
-- ParseDownload. `line` is the text in `buffer`; `frames` has UPDATE_BACKUP elements.
pub record Connection : Type 0 where
  pub msg : Reader
  pub line : List ℕ
  pub buffer_position : ℕ
  pub netqw : Option NetQw
  pub frames : List FrameInfo
  pub incoming_sequence : ℕ
  pub incoming_acknowledged : ℕ
  pub outgoing_sequence : ℕ
  pub startframe : ℕ
  pub numframes : ℕ
  pub net_message_size : ℕ
  pub cl_parsecount : ℕ
  pub cl_oldparsecount : ℕ
  pub oldparsecountmod : ℕ
  pub parsecountmod : ℕ
  pub parsecounttime : ℕ
  pub realtime : ℕ
  pub abort : Bool
  pub save_console_output : Bool
  pub console_output : List ConsoleLine
  pub packet_count : ℕ
  pub download_file : File
  pub download_file_percentage : ℕ
  pub last_percent : ℕ
  pub servercount : ℕ
  pub protoversion : ℕ
  pub validsequence : ℕ
  pub oldvalidsequence : ℕ
  pub oracle : Oracle
  pub calls : ℕ

abbrev pub Step : Type 0 → Type 0
Step A = Action Connection A

-- A reader's step on the whole connection.
abbrev pub reading : {A : Type 0} → Read A → Step A
reading m c = elim (m c.msg) [
  | done (a, r) ↦ done (a, record c { msg = r })
  | fault ↦ fault
  | hang ↦ hang
]

-- Whether the next call of malloc or fopen succeeds.
unfoldable pub granted : Step Bool
granted c = done (c.oracle.grants c.calls, record c { calls = c.calls + 1 })

abbrev pub set_abort : Step (Unit {0})
set_abort = modify (λ (c : Connection). record c { abort = true })

-- NetQW_AppendReliableBuffer(qwc->netqw, …); its result is dropped by every caller.
unfoldable pub append : List ℕ → Step (Unit {0})
unfolding granted append_reliable_buffer
append buffer = do
  allocated ← granted
  n ← gets (λ (c : Connection). c.netqw)
  n ← require n
  modify
      (λ (c : Connection). record c { netqw = some (append_reliable_buffer allocated buffer n).1 })

-- `i = snprintf(buf, sizeof(buf), "%c…", clc_stringcmd, …); if (i < sizeof(buf)) Append(buf, i + 1)`:
-- the text goes out with its final 0, unless it does not fit.
unfoldable pub send_command : ℕ → List ℕ → Step (Unit {0})
unfolding append
send_command size text =
    if ltb (suc (length text)) size then append ((clc_stringcmd ∷ text) ++ (0 ∷ [])) else pure tt
