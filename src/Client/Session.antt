-- ===== src/Client/Session.antt =====
-- The calls of src/main.c that run a client: QWC_Connect, the thread, QWC_Disconnect and the rest.
-- The answers of the system are arguments.
use qwnet_library.Client.{starts_connectionless, connectionless_packet, read_packets}
use qwnet_library.Client.Console.{freed_lines}
use qwnet_library.Connection.{Connection, Step}
use qwnet_library.Net.{Address}
use qwnet_library.Net.Sockets.{ns_client, Network, Networking, net_get_packet, net_shutdown}
use qwnet_library.Netqw.{State, uninitialised, sendchallenge, sendconnection, NetQw}
use qwnet_library.Netqw.Api.{set_fps, get_state}
use qwnet_library.Netqw.Lifecycle.{Held, Answers, create, delete}
use qwnet_library.Prelude.{
  ℕ, zero, suc, Bool, true, false, not, ◌&&◌, Option, none, some, List, [], ◌∷◌, ◌++◌, length, drop,
  ◌==◌, if◌then◌else◌,
}
use qwnet_library.Prelude.Action.{
  done, fault, hang, Action, pure, stop, out_of_rounds, ◌>>=◌, ◌>>◌, gets, modify, require,
}

pub data QwcState : Type 0 where
  qwc_state_idle qwc_state_connecting qwc_state_connected : QwcState

-- The rest of `struct qw_connection`. `held` is what the NetQW holds, and `initialised` whether it
-- has its socket; a NetQW that holds nothing has been deleted. `thread` says whether the pointer is
-- set.
pub record Client : Type 0 where
  pub connection : Connection
  pub network : Network
  pub held : Held
  pub initialised : Bool
  pub state : QwcState
  pub quit : Bool
  pub run_thread : Bool
  pub thread_set : Bool
  pub fps : ℕ
  pub sleep_granularity : ℕ

abbrev pub Running : Type 0 → Type 0
Running A = Action Client A

abbrev pub on_connection : {A : Type 0} → Step A → Running A
on_connection m q = elim (m q.connection) [
  | done (a, c) ↦ done (a, record q { connection = c })
  | fault ↦ fault
  | hang ↦ hang
]

abbrev pub on_network : {A : Type 0} → Networking A → Running A
on_network m q = elim (m q.network) [
  | done (a, n) ↦ done (a, record q { network = n })
  | fault ↦ fault
  | hang ↦ hang
]

abbrev pub on_held : {A : Type 0} → Action Held A → Running A
on_held m q = elim (m q.held) [
  | done (a, h) ↦ done (a, record q { held = h })
  | fault ↦ fault
  | hang ↦ hang
]

abbrev pub set_netqw : Option NetQw → Running (Unit {0})
set_netqw n = modify (λ (q : Client). record q { connection = record q.connection { netqw = n } })

abbrev is_uninitialised : State → Bool
is_uninitialised uninitialised = true
is_uninitialised _ = false

-- `>= state_sendchallenge && <= state_sendconnection`
abbrev is_starting : State → Bool
is_starting sendchallenge = true
is_starting sendconnection = true
is_starting _ = false

-- NetQW_Delete(qwc->netqw): a null pointer faults.
unfoldable pub delete_netqw : (ℕ → Bool) → (ℕ → ℕ) → Running (Unit {0})
delete_netqw allocated now = do
  n ← gets (λ (q : Client). q.connection.netqw)
  n ← require n
  initialised ← gets (λ (q : Client). q.initialised)
  on_held (delete initialised allocated now n)
  pure tt

-- Sys_Thread_DeleteThread(qwc->thread) waits for the thread, which sees `run_thread`; then the
-- pointer is cleared.
abbrev pub join_thread : Running (Unit {0})
join_thread q = if q.thread_set then done (tt, record q { thread_set = false }) else fault

-- QWC_Disconnect
unfoldable pub qwc_disconnect : (ℕ → Bool) → (ℕ → ℕ) → Running (Unit {0})
unfolding delete_netqw
qwc_disconnect allocated now = do
  delete_netqw allocated now
  set_netqw none
  modify (λ (q : Client). record q { state = qwc_state_idle; run_thread = false })
  join_thread

-- QWC_Destroy: the strings that it frees.
unfoldable pub qwc_destroy : Running (List (List ℕ))
qwc_destroy = do
  on_network net_shutdown
  lines ← gets (λ (q : Client). q.connection.console_output)
  pure (freed_lines lines)

-- QWC_Quit
unfoldable pub qwc_quit : (ℕ → Bool) → (ℕ → ℕ) → Running (List (List ℕ))
unfolding qwc_disconnect qwc_destroy
qwc_quit allocated now = do
  n ← gets (λ (q : Client). q.connection.netqw)
  elim n [ none ↦ pure tt | some m ↦ qwc_disconnect allocated now ]
  modify (λ (q : Client). record q { quit = true; run_thread = false })
  qwc_destroy

-- QWC_Set_FPS. NetQW_SetFPS looks at its NetQW only where `fps` is not 0.
unfoldable pub qwc_set_fps : ℕ → Running (Unit {0})
qwc_set_fps fps = do
  n ← gets (λ (q : Client). q.connection.netqw)
  if fps == 0 then pure tt else do n ← require n; set_netqw (some (set_fps fps n))
  modify (λ (q : Client). record q { fps = fps })

-- QWC_Connect. `thread_ok` is whether the client's own thread can be created. The states that it
-- sets are the constants QWC_CONNECTING and QWC_IDLE, 2 and 1, of another numbering. Where the
-- thread cannot be created, the pointer to the deleted NetQW stays. A NetQW without a thread of its
-- own has been initialised.
unfoldable pub qwc_connect :
    Answers → Bool → (ℕ → Bool) → (ℕ → ℕ) → NetQw → List ℕ → ℕ → Running (Unit {0})
unfolding delete_netqw
qwc_connect a thread_ok allocated now garbage info port = do
  made ← on_held (create a garbage info port)
  set_netqw made
  elim made [
    | none ↦ pure tt
    | some n ↦ do
      modify (λ (q : Client). record q {
        state = qwc_state_connected;
        run_thread = true;
        thread_set = thread_ok;
        initialised = not q.held.thread_held;
      })
      if thread_ok then pure tt else do
        delete_netqw allocated now
        modify (λ (q : Client). record q { state = qwc_state_connecting })
  ]

-- A message of the first loop of ReadPackets; net_message.data is null until Get_Message sets it.
unfoldable pub take_local : List ℕ → Step (Unit {0})
take_local message = do
  attached ← gets (λ (c : Connection). c.msg.attached)
  if not attached then stop else do
    modify (λ (c : Connection). record c {
      msg = record c.msg {
        bytes = message ++ drop (length message) c.msg.bytes;
        cursize = length message;
      };
    })
    bytes ← gets (λ (c : Connection). c.msg.bytes)
    if starts_connectionless bytes then connectionless_packet else pure tt

-- NET_GetPacket for the client. A socket of its own would be asked for `maxsize` bytes, which is 0, so
-- that only a loopback message is ever taken.
unfoldable pub get_local : Networking (Option (List ℕ × Address))
get_local n = elim n.netdata [
  | none ↦ fault
  | some d ↦
      let (got, d') = net_get_packet ns_client none d in done (got, record n { netdata = some d' })
]

-- The first loop of ReadPackets.
unfoldable pub read_local : ℕ → Running (Unit {0})
unfolding get_local take_local
read_local zero = out_of_rounds
read_local (suc rounds) = do
  got ← on_network get_local
  elim got [ none ↦ pure tt | some m ↦ do on_connection (take_local m.0); read_local rounds ]

-- ReadPackets
unfoldable pub read_both : ℕ → Running (Unit {0})
read_both rounds = read_local rounds >> on_connection (read_packets rounds)

abbrev pub enter : QwcState → Running (Unit {0})
enter s = modify (λ (q : Client). record q { state = s })

-- The branches on NetQW_GetState.
unfoldable pub serve_state : ℕ → State → Running (Unit {0})
serve_state rounds s =
    if is_uninitialised s
    then (if is_starting s then enter qwc_state_connecting else pure tt)
    else (read_both rounds >> enter qwc_state_connected)

-- The branch on `qwc->netqw != NULL && qwc->quit == 0`.
unfoldable pub serve : ℕ → Option NetQw → Bool → Running (Unit {0})
unfolding serve_state
serve rounds none quit = enter qwc_state_idle
serve rounds (some m) true = enter qwc_state_idle
serve rounds (some m) false = serve_state rounds (get_state (some m))

-- One round of the loop of QWC_Thread_Handler; `due` is whether a frame time has passed, without which
-- it only sleeps.
unfoldable pub handler_round : ℕ → Bool → Running (Unit {0})
unfolding serve
handler_round rounds due = do
  n ← gets (λ (q : Client). q.connection.netqw)
  quit ← gets (λ (q : Client). q.quit)
  if due then serve rounds n quit else pure tt

-- The loop of QWC_Thread_Handler: what the clock says in each round; `none` in `dues` ends it.
unfoldable pub handler : ℕ → List Bool → (ℕ → Bool) → (ℕ → ℕ) → Running (Unit {0})
unfolding handler_round qwc_quit
handler rounds [] allocated now = out_of_rounds
handler rounds (due ∷ dues) allocated now = do
  run_thread ← gets (λ (q : Client). q.run_thread)
  abort ← gets (λ (q : Client). q.connection.abort)
  if run_thread && not abort
      then (handler_round rounds due >> handler rounds dues allocated now)
      else if abort
      then (qwc_quit allocated now >> pure tt)
      else pure tt
