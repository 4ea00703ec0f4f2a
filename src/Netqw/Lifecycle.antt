-- ===== src/Netqw/Lifecycle.antt =====
-- NetQW_Create, NetQW_Thread_Init, NetQW_Thread_Deinit and NetQW_Delete of src/netqw.c. The state is
-- which of its resources a connection holds; the answers of the system are arguments.
use qwnet_library.Netqw.{uninitialised, sendchallenge, NetQw, update_backup, empty_frame}
use qwnet_library.Netqw.Api.{set_fps, release}
use qwnet_library.Netqw.Dispatch.{disconnect}
use qwnet_library.Prelude.{
  ℕ, Bool, true, false, not, Option, none, some, List, [], ◌∷◌, replicate, if◌then◌else◌, minus_one,
}
use qwnet_library.Prelude.Action.{
  Outcome, done, fault, hang, Action, pure, ◌>>=◌, ◌>>◌, gets, require,
}

-- What NetQW_Create and NetQW_Thread_Init acquire.
pub data Resource : Type 0 where
  block hoststring userinfo mutex thread netdata socket : Resource

pub record Held : Type 0 where
  pub block_held : Bool
  pub hoststring_held : Bool
  pub userinfo_held : Bool
  pub mutex_held : Bool
  pub thread_held : Bool
  pub netdata_held : Bool
  pub socket_held : Bool

abbrev pub nothing_held : Held
nothing_held = record {
  block_held = false;
  hoststring_held = false;
  userinfo_held = false;
  mutex_held = false;
  thread_held = false;
  netdata_held = false;
  socket_held = false;
}

abbrev pub holds : Resource → Held → Bool
holds block h = h.block_held
holds hoststring h = h.hoststring_held
holds userinfo h = h.userinfo_held
holds mutex h = h.mutex_held
holds thread h = h.thread_held
holds netdata h = h.netdata_held
holds socket h = h.socket_held

abbrev pub mark : Resource → Bool → Held → Held
mark block v h = record h { block_held = v }
mark hoststring v h = record h { hoststring_held = v }
mark userinfo v h = record h { userinfo_held = v }
mark mutex v h = record h { mutex_held = v }
mark thread v h = record h { thread_held = v }
mark netdata v h = record h { netdata_held = v }
mark socket v h = record h { socket_held = v }

-- malloc, Sys_Thread_CreateMutex, Sys_Thread_CreateThread, Sys_Net_Init or Sys_Net_CreateSocket:
-- whether it succeeds.
abbrev pub acquire : Resource → Bool → Action Held Bool
acquire r ok h = done (ok, if ok then mark r true h else h)

-- free and its likes; of what is not held, a fault.
abbrev pub give_back : Resource → Action Held (Unit {0})
give_back r h = if holds r h then done (tt, mark r false h) else fault

-- What the system answers: malloc for the three blocks, the mutex, the thread, the network, whether
-- NET_StringToAdr takes the host's name, and the socket.
pub record Answers : Type 0 where
  pub block_ok : Bool
  pub hoststring_ok : Bool
  pub userinfo_ok : Bool
  pub mutex_ok : Bool
  pub thread_ok : Bool
  pub netdata_ok : Bool
  pub address_ok : Bool
  pub socket_ok : Bool

-- The counters that a connection starts with.
unfoldable pub started : NetQw → NetQw
started n = record n {
  resendtime = 0;
  state = sendchallenge;
  current_outgoing_sequence_number = 1;
  last_incoming_sequence_number = 0;
  incoming_reliable_xor = 0;
  outgoing_reliable_xor = 0;
}

-- NetQW_Thread_Init: `none` is its result 0.
unfoldable pub thread_init : Answers → NetQw → Action Held (Option NetQw)
unfolding started
thread_init a n = do
  net ← acquire netdata a.netdata_ok
  if not net then pure none else if not a.address_ok then (give_back netdata >> pure none) else do
    s ← acquire socket a.socket_ok
    if s then pure (some (started n)) else (give_back netdata >> pure none)

unfoldable pub thread_deinit : Action Held (Unit {0})
thread_deinit = do give_back socket; give_back netdata

-- The fields that NetQW_Create sets; malloc leaves the others as they are in `garbage`.
unfoldable pub created : NetQw → List ℕ → ℕ → NetQw
unfolding set_fps
created garbage info port = set_fps 72 (record garbage {
  quit = false;
  qport = port;
  reliable_buffers_sent = 0;
  reliable_buffers = [];
  client_packets = [];
  internal_packets = [];
  packets = λ p. none;
  send_packets = [];
  packetloss = 0;
  state = uninitialised;
  lastsentframe = 0;
  framestosend = 0;
  lastcopiedframe = 0;
  framestocopy = 0;
  last_received_entity_update_frame = minus_one;
  frames = replicate update_backup empty_frame;
  huffman = false;
  send_tmove = false;
  movement_locked = false;
  lag = 0;
  lag_ezcheat = false;
  lastmovesendtime = 0;
  userinfo = info;
})

-- Without a thread, NetQW_Create starts the connection itself.
unfoldable pub create_threadless : Answers → NetQw → Action Held (Option NetQw)
create_threadless a n = do
  r ← thread_init a n
  elim r [
    | some m ↦ pure (some m)
    | none ↦ do give_back userinfo; give_back hoststring; give_back block; pure none
  ]

-- From Sys_Thread_CreateMutex on.
unfoldable pub create_thread : Answers → NetQw → Action Held (Option NetQw)
unfolding create_threadless
create_thread a n = do
  lock ← acquire mutex a.mutex_ok
  if not lock then create_threadless a n else do
    t ← acquire thread a.thread_ok
    if t then pure (some n) else (give_back mutex >> create_threadless a n)

unfoldable pub create : Answers → NetQw → List ℕ → ℕ → Action Held (Option NetQw)
unfolding created create_thread
create a garbage info port = do
  b ← acquire block a.block_ok
  if not b then pure none else do
    host ← acquire hoststring a.hoststring_ok
    if not host then (give_back block >> pure none) else do
      user ← acquire userinfo a.userinfo_ok
      if user
          then create_thread a (created garbage info port)
          else (give_back hoststring >> (give_back block >> pure none))

-- `while((netpacket = netqw->clientnetpackethead))`, and the same for the internal list.
unfoldable pub free_client : List ℕ → NetQw → Outcome NetQw
unfolding release
free_client [] n = done n
free_client (p ∷ ps) n = elim (release p (record n { client_packets = ps })) [
  | done m ↦ free_client ps m
  | fault ↦ fault
  | hang ↦ hang
]

unfoldable pub free_internal : List ℕ → NetQw → Outcome NetQw
unfolding release
free_internal [] n = done n
free_internal (p ∷ ps) n = elim (release p (record n { internal_packets = ps })) [
  | done m ↦ free_internal ps m
  | fault ↦ fault
  | hang ↦ hang
]

-- What NetQW_Delete frees of the connection's own lists.
unfoldable pub free_lists : NetQw → Outcome NetQw
unfolding free_client free_internal
free_lists n = elim (free_client n.client_packets (record n { reliable_buffers = [] })) [
  | done m ↦ free_internal m.internal_packets m
  | fault ↦ fault
  | hang ↦ hang
]

-- How NetQW_Thread ends, or NetQW_Delete where there is no thread: `initialised` is whether
-- NetQW_Thread_Init succeeded before.
unfoldable pub shut_down : Bool → (ℕ → Bool) → (ℕ → ℕ) → NetQw → Action Held NetQw
unfolding thread_deinit disconnect
shut_down initialised allocated now n =
    if not initialised
    then pure n
    else do m ← require (disconnect allocated now n); thread_deinit; pure m

-- NetQW_Delete. Sys_Thread_DeleteThread waits for the thread, which sees `quit` and ends.
unfoldable pub delete : Bool → (ℕ → Bool) → (ℕ → ℕ) → NetQw → Action Held NetQw
delete initialised allocated now n = do
  threaded ← gets (λ (h : Held). h.thread_held)
  locked ← gets (λ (h : Held). h.mutex_held)
  m ← shut_down initialised allocated now (record n { quit = true })
  (if threaded then give_back thread else pure tt)
  (if locked then give_back mutex else pure tt)
  freed ← (λ (h : Held). elim (free_lists m) [ done k ↦ done (k, h) | fault ↦ fault | hang ↦ hang ])
  give_back userinfo
  give_back hoststring
  give_back block
  pure freed
