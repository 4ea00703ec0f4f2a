-- ===== src/Lib.antt =====
-- The QuakeWorld client library: the reading of a server's messages, and the connection to it.
--
-- The program is C. A client thread (src/main.c) takes packets from the network thread
-- (src/netqw.c), reads them field by field (src/message_reading.c) and answers with commands that
-- the network thread sends reliably. Packets may be packed (src/huffman.c) and movement commands
-- carry a checksum (src/common.c).
--
-- Files and what they model:
--   Msg              src/message_reading.c: MSG_BeginReading to MSG_ReadDeltaUsercmd
--     Msg/Steps, Safety, Values, Text, Moves    what these readers do
--   Connection       src/qw_connection.h, `struct qw_connection`, and how the parser acts on it
--   Parse            src/main.c from ParseDownload to ParseServerMessage
--     Parse/Fields      the parsers that skip fields; FlushEntityPacket
--     Parse/Commands    lists, prints, effects, the server's data
--     Parse/Download    ParseDownload, and the download of svc_stufftext
--     Parse/Entities    ParsePacketEntities
--     Parse/Message     ParseServerMessage
--     Parse/Safety, Skip, Loops, Closed, Updates  what these parsers do
--   Netqw            src/netqw.c: `struct NetQW`, its packets and frames
--     Netqw/Api         the calls of the client, NetQW_SetFPS to NetQW_GetState
--     Netqw/Frames      NetQW_GenerateFrames
--     Netqw/Send        the parts of a packet, NetQW_Thread_SendPacket
--     Netqw/Dispatch    NetQW_Thread_DoSend, NetQW_Thread_Disconnect
--     Netqw/Receive     NetQW_Thread_HandleReceivedPacket
--     Netqw/Handshake   the challenge and the connection request
--     Netqw/Thread      NetQW_Thread_DoReceive, a round of NetQW_Thread without a call of the client
--     Netqw/Lifecycle   NetQW_Create, NetQW_Delete, and how the thread starts and ends
--     Netqw/Lifetime, Closing, Reliable, Timing, Ownership, Delayed, Arrivals, Rounds, Replay, Loss,
--     Copies, Sending, Fitting, Outgoing, Packed, Farewell, Compressed, Upkeep
--                       what these functions do
--   Client           src/main.c: DoNetQWStuff, Get_Message and the loops of ReadPackets
--     Client/Session    QWC_Connect, QWC_Disconnect, QWC_Quit, QWC_Destroy, the client's thread
--     Client/Access     QWC_Create, QWC_Say and the small calls
--     Client/Console    QWC_GetConsoleOutput, and what QWC_Destroy frees
--     Client/Calls, Packets, Lines, Runs, States  what these functions do
--   Net              src/net.c: the comparison and printing of addresses
--     Net/Reading       NET_StringToAdr
--     Net/Loopback      the loopback buffers
--     Net/Sockets       NET_GetPacket, NET_SendPacket, the sockets, NET_Init and NET_Shutdown
--     Net/Comparison, RoundTrip, Newest, Queue, Tidy, Config, Shutdown  what these functions do
--     Net/Posix, Descriptors  src/net_posix.c: addresses on the wire, the sockets of the system
--     Net/Wire, Opening       what these functions do
--   Linux            src/sys_linux.c: Sys_Printf, Sys_IntTime, Sys_ConsoleInput, Sys_MakeCodeWriteable
--     Linux/Clock, Printing, Pages  what these functions do
--   Channel          src/net_chan.c: Netchan_Process, Netchan_Transmit; Channel/Order: their order;
--                    Channel/Coded: the packing of a sizebuf
--   Threads          src/thread_posix.c: threads and mutexes
--   Sleep            Sleep_Sleep and Sleep_Init of src/sleep.c; Sleep/Waiting: what they do
--   Huffman          src/huffman.c with the tables of src/huffmantable_q3.h and src/bitswap.h
--     Huffman/Tables, Swap                       the codes of the bytes, and how the tables fit
--     Huffman/Bits, Parts                        bytes and codes as lists of bits
--     Huffman/Writing, Rounds, Codes, Encoder    what packing leaves in a buffer
--     Huffman/Window, Reading, Decoder           what unpacking finds in one
--     Huffman/RoundTrip                          both
--     Huffman/Bounds                             unpacking of any bytes
--   Crc              src/common.c: ShortSwap, LongSwap, FloatSwap, CRC_Block and
--                    COM_BlockSequenceCRCByte
--   Prelude          numbers, lists, machine words, and actions on a state
--   Samples, Tests   concrete states, runs and instances
--
-- How C is rendered. A number is its bit pattern, a natural number below 2 ^ 8, 2 ^ 16, 2 ^ 32 or
-- 2 ^ 64, and wraps where the C type does; -1 is 2 ^ 32 - 1. A floating point number is only copied,
-- as its bit pattern. An action on a state returns `done`, `fault` (an access outside an object, a
-- null pointer, a closed file) or `hang` (the rounds that a loop was granted are used up). In the
-- network thread a fault is `none`. Linked lists are lists; a packet that hangs in two of them lives
-- in a store under a key, with its use count. What the system answers (malloc, fopen, the clock, the
-- datagrams) is an argument. A call of the client is one step. So is a round of the thread:
-- src/netqw.c holds the mutex over parts of a round only, and a call of the client that falls between
-- these parts is not modelled.
--
-- Rounds. MSG_ReadString has 2047, its own bound. Loops over a message take their rounds as an
-- argument, since some do not end; NetQW_GenerateFrames takes more rounds than frame times have
-- passed. Loops over a queue or a count recur on it.
--
-- The client's thread and the network thread share a connection; what a connection holds of the
-- system is a record of flags, and to give back what is not held is a fault. A connection that was
-- deleted holds nothing, so a pointer to it that is still used shows as such a fault. QWC_Disconnect
-- waits for the client's thread; a call of it from that thread itself is taken to return as well.
--
-- Not modelled: get_sleep_granularity of src/sleep.c and the rates and latencies of src/net_chan.c,
-- which are floating point, as are the doubles of src/sys_linux.c; the packet dump of src/tools.c and
-- the map checksums of src/map_table.c; the sockets and threads of other systems than POSIX; headers
-- of the client that the library was cut out of; the bindings under src/swig.
-- When a frame time has passed, which QWC_Thread_Handler works out in doubles, is an argument.
pub mod Prelude
pub mod Msg
pub mod Net
pub mod Client
pub mod Sleep
pub mod Channel
pub mod Netqw
pub mod Connection
pub mod Parse
pub mod Huffman
pub mod Linux
pub mod Threads
pub mod Crc
pub mod Samples
pub mod Tests
