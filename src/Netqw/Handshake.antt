-- ===== src/Netqw/Handshake.antt =====
-- NetQW_Thread_DoReceive of src/netqw.c while the connection is set up.
use qwnet_library.Huffman
use qwnet_library.Msg.{c_string}
use qwnet_library.Netqw.{sendconnection, connected, NetQw, clc_stringcmd}
use qwnet_library.Netqw.Api.{append_reliable_buffer}
use qwnet_library.Prelude.{
  ℕ, zero, suc, ◌+◌, ◌-◌, ◌*◌, ◌%◌, ◌^◌, Bool, true, false, ◌&&◌, ◌||◌, List, [], ◌∷◌, length,
  get_or, drop, ltb, leb, ◌==◌, if◌then◌else◌, u32, sub32,
}

-- The four bytes 255 that mark a packet outside a connection, and the byte behind them.
unfoldable pub is_connectionless : List ℕ → Bool
is_connectionless buf =
    leb 5 (length buf)
    && get_or buf 0 0 == 255
    && get_or buf 1 0 == 255
    && get_or buf 2 0 == 255
    && get_or buf 3 0 == 255

-- The leading digits of a text, as a number; `atoi` skips blanks and takes a sign.
unfoldable pub digits_value : ℕ → List ℕ → ℕ
digits_value acc [] = acc
digits_value acc (c ∷ cs) =
    let rest = digits_value (acc * 10 + (c - 48)) cs in if leb 48 c && leb c 57 then rest else acc

unfoldable pub skip_blanks : List ℕ → List ℕ
skip_blanks [] = []
skip_blanks (c ∷ cs) =
    let rest = skip_blanks cs in if c == 32 || (leb 9 c && leb c 13) then rest else c ∷ cs

unfoldable pub signed_value : List ℕ → ℕ
unfolding digits_value
signed_value [] = 0
signed_value (c ∷ cs) =
    if c == b'-'
    then sub32 0 (u32 (digits_value 0 cs))
    else if c == b'+'
    then u32 (digits_value 0 cs)
    else u32 (digits_value 0 (c ∷ cs))

unfoldable pub atoi : List ℕ → ℕ
unfolding skip_blanks signed_value
atoi text = signed_value (skip_blanks text)

unfoldable pub word_at : List ℕ → ℕ → ℕ
word_at buf i =
    get_or buf i 0
    + get_or buf (i + 1) 0 * 2 ^ 8
    + get_or buf (i + 2) 0 * 2 ^ 16
    + get_or buf (i + 3) 0 * 2 ^ 24

-- One extension that the server offers: QW_PROTOEXT_HUFF with the checksum of its table.
unfoldable pub take_extension : ℕ → ℕ → NetQw → NetQw
take_extension extension value n =
    if extension == 0x4646_5548
    then (if Huffman.init value
        then record n { huffman = true; huffcrc = value }
        else record n { huffman = false })
    else n

-- `while(len >= 8)`: the extensions, eight bytes each; `rounds` is at least their number.
unfoldable pub take_extensions : ℕ → List ℕ → NetQw → NetQw
unfolding take_extension word_at
take_extensions zero p n = n
take_extensions (suc rounds) p n =
    let next = take_extensions rounds (drop 8 p) (take_extension (word_at p 0) (word_at p 4) n) in
    if leb 8 (length p) then next else n

-- The answer to getchallenge, `text` being what follows the first five bytes.
unfoldable pub take_challenge : List ℕ → NetQw → NetQw
unfolding atoi take_extensions
take_challenge text n =
    let number = c_string text in
    if ltb (length number) 16
    then record (take_extensions (length text) (drop (length number + 1) text)
        (record n { challenge = atoi number })) { state = sendconnection; resendtime = 0 }
    else n

-- `S2C_CHALLENGE` is 'c'.
unfoldable pub receive_challenge : List ℕ → NetQw → NetQw
unfolding is_connectionless take_challenge
receive_challenge buf n =
    if is_connectionless buf && get_or buf 4 0 == b'c' then take_challenge (drop 5 buf) n else n

-- The command "new", which asks the server for its data.
abbrev pub new_command : List ℕ
new_command = clc_stringcmd ∷ b'n' ∷ b'e' ∷ b'w' ∷ 0 ∷ []

-- `S2C_CONNECTION` is 'j'; every other answer is only printed.
unfoldable pub receive_connection : Bool → ℕ → List ℕ → NetQw → NetQw
unfolding is_connectionless append_reliable_buffer
receive_connection allocated now buf n =
    if is_connectionless buf && get_or buf 4 0 == b'j'
    then record (append_reliable_buffer allocated new_command n).1 {
      lastmovesendtime = (now + 2 ^ 64 - n.microsecondsperframe) % 2 ^ 64;
      movetimecounter = 0;
      state = connected;
    }
    else n
