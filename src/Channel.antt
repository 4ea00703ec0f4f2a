-- ===== src/Channel.antt =====
-- src/net_chan.c: the sequence numbers and reliable bits of a channel. Rates and latencies, which are
-- floats, are left out; so is the size of the writing buffer, which SZ_Write keeps.
pub mod Order
pub mod Coded
use qwnet_library.Msg.{Read, begin_reading, read_long}
use qwnet_library.Prelude.{
  ℕ, ◌+◌, ◌-◌, ◌*◌, ◌/◌, ◌%◌, ◌^◌, Bool, true, false, not, ◌&&◌, ◌||◌, Option, none, some, List, [],
  length, ltb, leb, ◌==◌, if◌then◌else◌, u32, sub32,
}
use qwnet_library.Prelude.Action.{pure, ◌>>=◌, ◌>>◌}

-- `struct netchan_s`. The single bits are 0 or 1; `message` and `reliable_buf` are the bytes that
-- `cursize` and `reliable_length` count.
pub record Channel : Type 0 where
  pub incoming_sequence : ℕ
  pub incoming_acknowledged : ℕ
  pub incoming_reliable_acknowledged : ℕ
  pub incoming_reliable_sequence : ℕ
  pub outgoing_sequence : ℕ
  pub reliable_sequence : ℕ
  pub last_reliable_sequence : ℕ
  pub message : List ℕ
  pub overflowed : Bool
  pub reliable_buf : List ℕ
  pub dropped : ℕ
  pub drop_count : ℕ
  pub good_count : ℕ

-- `^= 1` of a single bit
abbrev flip : ℕ → ℕ
flip b = if b == 0 then 1 else 0

-- The channel after a packet that is to be read. The two counts are `int`, here modulo 2^32.
abbrev pub received : ℕ → ℕ → Channel → Channel
received word word_ack c =
    let sequence = word % 2 ^ 31 in
    let dropped = sub32 sequence (c.incoming_sequence + 1) in
    record c {
      dropped = dropped;
      drop_count = if dropped == 0 then c.drop_count else u32 (c.drop_count + 1);
      reliable_buf = if word_ack / 2 ^ 31 == c.reliable_sequence then [] else c.reliable_buf;
      incoming_sequence = sequence;
      incoming_acknowledged = word_ack % 2 ^ 31;
      incoming_reliable_acknowledged = word_ack / 2 ^ 31;
      incoming_reliable_sequence =
          if word / 2 ^ 31 == 0
          then c.incoming_reliable_sequence
          else flip c.incoming_reliable_sequence;
      good_count = u32 (c.good_count + 1);
    }

-- Netchan_Process behind its reads: the words are `sequence` and `sequence_ack`. Whether the message
-- is to be read.
unfoldable pub process_words : ℕ → ℕ → Channel → Bool × Channel
process_words word word_ack c =
    if leb (word % 2 ^ 31) c.incoming_sequence then (false, c) else (true, received word word_ack c)

-- Netchan_Process of a client: the two words stand at the start of the message. Huff_DecompressPacket,
-- which it calls last, is left out.
unfoldable pub netchan_process : Channel → Read (Bool × Channel)
unfolding process_words
netchan_process c = do
  begin_reading
  word ← read_long
  word_ack ← read_long
  pure (process_words word word_ack c)

-- What Netchan_Transmit writes to a packet: the two words, the reliable bytes and the others.
pub record Written : Type 0 where
  pub first : ℕ
  pub second : ℕ
  pub reliable : List ℕ
  pub unreliable : List ℕ

-- `send_reliable`, before a new block is taken: the other side has dropped the last one.
unfoldable pub is_dropped : Channel → Bool
is_dropped c =
    ltb c.last_reliable_sequence c.incoming_acknowledged
    && not (c.incoming_reliable_acknowledged == c.reliable_sequence)

-- Whether a new reliable block is taken from `message`.
unfoldable pub takes_message : Channel → Bool
takes_message c = length c.reliable_buf == 0 && not (length c.message == 0)

unfoldable pub take_message_out : Channel → Channel
take_message_out c = record c {
  reliable_buf = c.message;
  message = [];
  reliable_sequence = flip c.reliable_sequence;
}

-- `sizeof(send_buf)`, MAX_MSGLEN + PACKET_HEADER, less the ten bytes that a client writes first. A
-- reliable block is taken to fit.
abbrev pub send_room : ℕ
send_room = 1448

-- Netchan_Transmit of a client; `none` is an overflow of the message.
unfoldable pub netchan_transmit : List ℕ → Channel → Option Written × Channel
unfolding is_dropped takes_message take_message_out
netchan_transmit bytes c =
    let taken = if takes_message c then take_message_out c else c in
    let send_reliable = is_dropped c || takes_message c in
    let reliable = if send_reliable then taken.reliable_buf else [] in
    let sequence = c.outgoing_sequence + 1 in
    if c.overflowed then (none, c) else (
      some (record {
        first = c.outgoing_sequence + (if send_reliable then 2 ^ 31 else 0);
        second = c.incoming_sequence + c.incoming_reliable_sequence * 2 ^ 31;
        reliable = reliable;
        unreliable = if leb (length bytes) (send_room - length reliable) then bytes else [];
      }),
      record taken {
        outgoing_sequence = sequence;
        last_reliable_sequence = if send_reliable then sequence else taken.last_reliable_sequence;
      },
    )
