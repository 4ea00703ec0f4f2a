-- ===== src/Client.antt =====
-- The client's loop of src/main.c: what it does with the packets of its network thread.
pub mod Calls
pub mod Packets
pub mod Session
pub mod Console
pub mod Lines
pub mod Runs
pub mod Access
pub mod States
use qwnet_library.Connection.{FrameInfo, Connection, Step, reading}
use qwnet_library.Msg.{begin_reading, read_long, read_byte}
use qwnet_library.Netqw.{SentFrame, NetQw, update_backup}
use qwnet_library.Netqw.Api.{get_packet_length, get_packet_data, free_packet, copy_frames}
use qwnet_library.Netqw.Frames.{generate_frames}
use qwnet_library.Netqw.Reliable.{acknowledged}
use qwnet_library.Parse.Commands.{empty_info}
use qwnet_library.Parse.Message.{parse_server_message}
use qwnet_library.Prelude.{
  ℕ, zero, suc, ◌+◌, ◌%◌, ◌^◌, Bool, true, false, ◌&&◌, Option, none, some, List, [], ◌∷◌, ◌++◌,
  get_or, set, take, drop, ltb, ◌==◌, if◌then◌else◌,
}
use qwnet_library.Prelude.Action.{
  Outcome, done, fault, hang, pure, out_of_rounds, ◌>>=◌, ◌>>◌, gets, modify, require,
}

-- The clock's next answer, of Sys_IntTime or Sys_DoubleTime.
unfoldable pub tick : Step ℕ
tick c = done (c.oracle.clock c.calls, record c { calls = c.calls + 1 })

-- A call of src/netqw.c with `qwc->netqw`; a null pointer faults there.
abbrev pub calling : {A : Type 0} → (NetQw → Outcome A) → Step A
calling f c = elim c.netqw [
  | none ↦ fault
  | some n ↦ elim (f n) [ done a ↦ done (a, c) | fault ↦ fault | hang ↦ hang ]
]

abbrev pub put_netqw : NetQw → Step (Unit {0})
put_netqw n = modify (λ (c : Connection). record c { netqw = some n })

-- The frames that NetQW_CopyFrames writes to `qwc->frames`.
unfoldable pub store_frames : List (ℕ × SentFrame) → List FrameInfo → List FrameInfo
store_frames [] fs = fs
store_frames ((i, f) ∷ rest) fs =
    let stored = record (get_or fs i empty_info) {
      cmd = f.cmd;
      senttime = f.senttime;
      delta_sequence = f.delta_sequence;
    } in
    store_frames rest (set fs i stored)

-- The loop over `numframes` of DoNetQWStuff.
unfoldable pub skip_frames : ℕ → ℕ → ℕ
skip_frames zero start = start
skip_frames (suc num) start = skip_frames num ((start + 1) % update_backup)

abbrev pub or_hang : {A : Type 0} → Option A → Outcome A
or_hang none = hang
or_hang (some a) = done a

-- What NetQW_CopyFrames gives, and the loop behind it.
abbrev pub note_frames : NetQw → Connection → Connection
note_frames n c =
    let copy = copy_frames n in
    record c {
      netqw = some copy.after;
      frames = store_frames copy.copied c.frames;
      outgoing_sequence = copy.newseqnr;
      startframe = skip_frames copy.numframes copy.startframe;
      numframes = 0;
    }

-- DoNetQWStuff. The stamps of the frames are the clock's next answers.
unfoldable pub do_netqw_stuff : ℕ → Step (Unit {0})
unfolding tick store_frames skip_frames
do_netqw_stuff rounds = do
  curtime ← tick
  stamps ← gets (λ (c : Connection) k. c.oracle.clock (c.calls + k))
  made ← calling (λ n. or_hang (generate_frames rounds stamps curtime n))
  modify (note_frames made)

-- `sizeof(qwc->net_message_buffer)`
abbrev pub net_message_max : ℕ
net_message_max = 2900

-- `memcpy(qwc->net_message_buffer, p, size)`, and the message that it makes.
unfoldable pub store_message : List ℕ → ℕ → Step (Unit {0})
store_message payload size = modify (λ (c : Connection). record c {
  net_message_size = size;
  msg = record c.msg {
    bytes = take size payload ++ drop size c.msg.bytes;
    cursize = size;
    attached = true;
  };
})

-- Get_Message
unfoldable pub get_message : ℕ → Step Bool
unfolding store_message tick
get_message rounds = do
  n ← gets (λ (c : Connection). c.netqw)
  elim n [
    | none ↦ pure false
    | some m ↦ do
      now ← tick
      len ← calling (get_packet_length now)
      if len == 0 then pure false else do
        now ← tick
        p ← calling (get_packet_data now)
        payload ← require p
        store_message payload (if ltb net_message_max len then net_message_max else len)
        freed ← calling free_packet
        put_netqw freed
        do_netqw_stuff rounds
        pure true
  ]

-- `*(int *)qwc->net_message_buffer == -1`
unfoldable pub starts_connectionless : List ℕ → Bool
starts_connectionless bytes =
    get_or bytes 0 0 == 255
    && get_or bytes 1 0 == 255
    && get_or bytes 2 0 == 255
    && get_or bytes 3 0 == 255

-- ConnectionlessPacket; what it prints is left out.
unfoldable pub connectionless_packet : Step (Unit {0})
connectionless_packet = do reading begin_reading; reading read_long; reading read_byte; pure tt

-- One message of the second loop of ReadPackets. The `& 0x7fffffff` is a remainder.
unfoldable pub take_message : ℕ → Step (Unit {0})
unfolding starts_connectionless connectionless_packet
take_message rounds = do
  bytes ← gets (λ (c : Connection). c.msg.bytes)
  size ← gets (λ (c : Connection). c.net_message_size)
  if starts_connectionless bytes then connectionless_packet else if ltb size 8 then pure tt else do
    reading begin_reading
    incoming ← reading read_long
    acknowledged ← reading read_long
    modify (λ (c : Connection). record c {
      incoming_sequence = incoming % 2 ^ 31;
      incoming_acknowledged = acknowledged % 2 ^ 31;
    })
    parse_server_message rounds

-- The second loop of ReadPackets, `while (Get_Message(qwc))`.
unfoldable pub read_packets : ℕ → Step (Unit {0})
read_packets zero = out_of_rounds
read_packets (suc rounds) = do
  got ← get_message rounds
  if got then (take_message rounds >> read_packets rounds) else pure tt
