-- ===== src/Client/Access.antt =====
-- The small calls of src/main.c. `none` is a client that is a null pointer.
use qwnet_library.Client.{net_message_max}
use qwnet_library.Client.Session.{qwc_state_idle, qwc_state_connecting, qwc_state_connected, Client}
use qwnet_library.Connection.{null, Oracle, Connection, Step, send_command}
use qwnet_library.Net.Sockets.{net_init}
use qwnet_library.Netqw.{update_backup}
use qwnet_library.Netqw.Lifecycle.{nothing_held}
use qwnet_library.Parse.Commands.{empty_info}
use qwnet_library.Prelude.{
  ℕ, Bool, true, false, not, Option, none, some, List, [], ◌++◌, replicate, if◌then◌else◌,
  minus_one,
}
use qwnet_library.Prelude.Action.{done, fault, hang}
use qwnet_library.Prelude.Text.{codes}
use qwnet_library.Sleep.{sleep_init}

-- QWC_Say: a text that does not fit the buffer of 512 bytes is dropped.
unfoldable pub qwc_say : List ℕ → Step (Unit {0})
qwc_say text = send_command 512 (codes "say " ++ text)

-- QWC_GetSleepGranularity
unfoldable pub qwc_get_sleep_granularity : Option Client → ℕ
qwc_get_sleep_granularity none = minus_one
qwc_get_sleep_granularity (some q) = q.sleep_granularity

-- QWC_SetSetSleepGranularity
unfoldable pub qwc_set_sleep_granularity : ℕ → Option Client → Option Client
qwc_set_sleep_granularity us none = none
qwc_set_sleep_granularity us (some q) = some (record q { sleep_granularity = us })

-- QWC_SetSaveConsoleOutput
unfoldable pub qwc_set_save_console_output : Bool → Option Client → Option Client
qwc_set_save_console_output save none = none
qwc_set_save_console_output save (some q) =
    some (record q { connection = record q.connection { save_console_output = save } })

-- QWC_GetQuit
unfoldable pub qwc_get_quit : Option Client → Bool
qwc_get_quit none = true
qwc_get_quit (some q) = q.quit

-- QWC_GetState, as a number.
unfoldable pub qwc_get_state : Option Client → ℕ
qwc_get_state none = minus_one
qwc_get_state (some q) = elim q.state [
  | qwc_state_idle ↦ 0
  | qwc_state_connecting ↦ 1
  | qwc_state_connected ↦ 2
]

-- The connection that calloc makes. `last_percent` is a static variable of ParseDownload, -1 at first.
abbrev pub cleared : Oracle → Connection
cleared system = record {
  msg = record {
    bytes = replicate net_message_max 0;
    cursize = 0;
    attached = false;
    readcount = 0;
    badread = false;
    readstring_buffer = replicate 2048 0;
  };
  line = [];
  buffer_position = 0;
  netqw = none;
  frames = replicate update_backup empty_info;
  incoming_sequence = 0;
  incoming_acknowledged = 0;
  outgoing_sequence = 0;
  startframe = 0;
  numframes = 0;
  net_message_size = 0;
  cl_parsecount = 0;
  cl_oldparsecount = 0;
  oldparsecountmod = 0;
  parsecountmod = 0;
  parsecounttime = 0;
  realtime = 0;
  abort = false;
  save_console_output = false;
  console_output = [];
  packet_count = 0;
  download_file = null;
  download_file_percentage = 0;
  last_percent = minus_one;
  servercount = 0;
  protoversion = 0;
  validsequence = 0;
  oldvalidsequence = 0;
  oracle = system;
  calls = 0;
}

-- QWC_Create, without its packet dump: `measured` is what get_sleep_granularity finds, `handles` the
-- sockets that are open already.
unfoldable pub qwc_create : Bool → Bool → Bool → ℕ → Oracle → List ℕ → Option Client
unfolding net_init sleep_init
qwc_create allocated net_allocated net_ok measured system handles =
    if not allocated
    then none
    else elim (net_init net_allocated net_ok
        (record { netdata = none; handles = handles; lost = [] })) [
          | done r ↦ some (record {
            connection = cleared system;
            network = r.1;
            held = nothing_held;
            initialised = false;
            state = qwc_state_idle;
            quit = false;
            run_thread = false;
            thread_set = false;
            fps = 72;
            sleep_granularity = sleep_init measured;
          })
          | fault ↦ none
          | hang ↦ none
        ]
