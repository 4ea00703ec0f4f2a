-- ===== src/Tests/Packing.antt =====
-- The Huffman coder on small messages.
use qwnet_library.Crc.Laws.{AreBytes, append-AreBytes}
use qwnet_library.Huffman.{put, copy_bits, enc_byte, compress_loop, compress_packet}
use qwnet_library.Huffman.RoundTrip.{TakenBack, decompress_packet-compress_packet}
use qwnet_library.Netqw.{connected, NetQw}
use qwnet_library.Netqw.Compressed.{SentPacked, send_packet-SentPacked}
use qwnet_library.Prelude.{
  ℕ, zero, suc, ◌≡◌, refl, true, false, none, List, [], ◌∷◌, ◌++◌, arith, replicate,
}
use qwnet_library.Samples.{idle_netqw}

abbrev small_message : List ℕ
small_message = 7 ∷ 0 ∷ 255 ∷ 65 ∷ []

small_message-AreBytes : AreBytes small_message
small_message-AreBytes = (omega arith, (omega arith, (omega arith, (omega arith, tt))))

decompress_packet-compress_packet_example : TakenBack small_message (1 ∷ 2 ∷ []) 8 5
decompress_packet-compress_packet_example =
    decompress_packet-compress_packet small_message (1 ∷ 2 ∷ []) 8 5 small_message-AreBytes
      (omega arith, (omega arith, tt)) (omega arith) (omega arith) (omega arith) (omega arith)

-- With one byte more than the message, which Huff_CompressPacket takes for enough, the code of a
-- single byte is written past the end of the buffer.
compress_packet-overrun : compress_packet (7 ∷ []) 2 ≡ none
unfolding compress_packet compress_loop enc_byte copy_bits put
compress_packet-overrun = refl

-- A connection of the protocol extension, with its ten bytes of header and four bytes of commands.
abbrev packing_netqw : NetQw
packing_netqw = record idle_netqw { state = connected; huffman = true }

abbrev small_packet : List ℕ
small_packet = replicate 10 1 ++ small_message

small_packet-AreBytes : AreBytes small_packet
small_packet-AreBytes = append-AreBytes (replicate 10 1) small_message header small_message-AreBytes
  where
    ones : (n : ℕ) → AreBytes (replicate n 1)
    ones zero = tt
    ones (suc n) = (omega arith, ones n)

    header : AreBytes (replicate 10 1)
    header = ones 10

send_packet-SentPacked_example : SentPacked true 0 false small_packet (1 ∷ 2 ∷ []) 8 packing_netqw
send_packet-SentPacked_example =
    send_packet-SentPacked true 0 false small_packet (1 ∷ 2 ∷ []) 8 packing_netqw refl
      small_packet-AreBytes (omega arith, (omega arith, tt)) (omega arith) (omega arith)
      (omega arith) (omega arith)

-- A packet whose first byte claims more unused bits than there are, in front of zeros.
abbrev bad_packet : List ℕ
bad_packet = 255 ∷ replicate 1999 0
