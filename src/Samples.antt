-- ===== src/Samples.antt =====
-- Concrete states for the tests.
use qwnet_library.Connection.{null, Connection}
use qwnet_library.Msg.{Reader}
use qwnet_library.Netqw.{connected, NetQw, empty_frame}
use qwnet_library.Parse.Commands.{empty_info}
use qwnet_library.Prelude.{ℕ, true, false, none, some, List, [], replicate, minus_one}
use qwnet_library.Prelude.Text.{codes}

abbrev pub idle_netqw : NetQw
idle_netqw = record {
  qport = 22000;
  challenge = 0;
  resendtime = 0;
  packetloss = 0;
  userinfo = codes "\\name\\test";
  current_outgoing_sequence_number = 8;
  last_incoming_sequence_number = 3;
  reliable_buffers_sent = 0;
  reliable_sequence_number = 0;
  outgoing_reliable_xor = 0;
  incoming_reliable_xor = 0;
  replyreceived = replicate 200 1;
  huffman = false;
  huffcrc = 0;
  packets = λ p. none;
  next_packet = 0;
  internal_packets = [];
  client_packets = [];
  send_packets = [];
  quit = false;
  state = connected;
  microsecondsperframe = 14000;
  lastmovesendtime = 1000000;
  movetimecounter = 0;
  send_tmove = false;
  movement_locked = false;
  tmove_buffer = replicate 6 0;
  lag = 0;
  lag_ezcheat = false;
  reliable_buffers = [];
  frames = replicate 64 empty_frame;
  lastsentframe = 7;
  framestosend = 0;
  lastcopiedframe = 7;
  framestocopy = 0;
  last_received_entity_update_frame = minus_one;
  wire = [];
}

-- A reader at byte 1 of a buffer of eight bytes, `size` of them the message.
abbrev pub reader_of : List ℕ → ℕ → ℕ → Reader
reader_of bytes size position = record {
  bytes = bytes;
  cursize = size;
  attached = true;
  readcount = position;
  badread = false;
  readstring_buffer = replicate 2048 0;
}

abbrev pub connection_of : Reader → Connection
connection_of r = record {
  msg = r;
  line = [];
  buffer_position = 0;
  netqw = some idle_netqw;
  frames = replicate 64 empty_info;
  incoming_sequence = 4;
  incoming_acknowledged = 7;
  outgoing_sequence = 8;
  startframe = 0;
  numframes = 0;
  net_message_size = 0;
  cl_parsecount = 0;
  cl_oldparsecount = 0;
  oldparsecountmod = 0;
  parsecountmod = 0;
  parsecounttime = 0;
  realtime = 0;
  abort = false;
  save_console_output = true;
  console_output = [];
  packet_count = 0;
  download_file = null;
  download_file_percentage = 0;
  last_percent = minus_one;
  servercount = 1;
  protoversion = 28;
  validsequence = 3;
  oldvalidsequence = 2;
  oracle = record { grants = λ k. true; clock = λ k. k };
  calls = 0;
}
