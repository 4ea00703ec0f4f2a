-- ===== src/Netqw/Sending.antt =====
-- The unreliable part of a packet of src/netqw.c: how long it can get.
use qwnet_library.Crc.Laws.{AreBytes, append-AreBytes, sequence_crc_byte-Summed}
use qwnet_library.Netqw.{Usercmd, zero_cmd, NetQw, clc_move}
use qwnet_library.Netqw.Send.{
  short_bytes, usercmd_bits, field_if, write_delta_usercmd, packet_header, frame_of, move_commands,
  move_bytes, delta_bytes, tmove_bytes, unreliable_part,
}
use qwnet_library.Prelude.{
  ℕ, ◌+◌, ◌≤◌, ◌<◌, ◌≡◌, refl, inl, inr, Option, some, List, [], ◌∷◌, ◌++◌, arith, length,
  length-append, Bool-cases, u8, sub32, has_flag,
}

-- At most `k` bytes.
record Short (k : ℕ) (bs : List ℕ) : Type 0 where
  bytes : AreBytes bs
  bound : length bs ≤ k

append-Short : (j k : ℕ) (xs ys : List ℕ) → Short j xs → Short k ys → Short (j + k) (xs ++ ys)
append-Short j k xs ys h i = record {
  bytes = append-AreBytes xs ys h.bytes i.bytes;
  bound = omega (arith, h.bound, i.bound, length-append xs ys);
}

field_if-Short : (k bits mask : ℕ) (bs : List ℕ) → Short k bs → Short k (field_if bits mask bs)
field_if-Short k bits mask bs h = elim (Bool-cases (has_flag bits mask)) [
  | inl on ↦ rw on h
  | inr off ↦ rw off (record { bytes = tt; bound = omega arith })
]

short_bytes-Short : (v : ℕ) → Short 2 (short_bytes v)
short_bytes-Short v = record { bytes = (omega arith, (omega arith, tt)); bound = omega arith }

byte-Short : (v : ℕ) → Short 1 (u8 v ∷ [])
byte-Short v = record { bytes = (omega arith, tt); bound = omega arith }

write_delta_usercmd-Short : (from cmd : Usercmd) → Short 16 (write_delta_usercmd from cmd)
unfolding write_delta_usercmd
write_delta_usercmd-Short from cmd =
    let bits = usercmd_bits from cmd in
    append-Short 1 15 (u8 bits ∷ []) _ (byte-Short bits) (
      append-Short 2 13 _ _ (field_if-Short 2 bits _ _ (short_bytes-Short cmd.angle0)) (
        append-Short 2 11 _ _ (field_if-Short 2 bits _ _ (short_bytes-Short cmd.angle1)) (
          append-Short 2 9 _ _ (field_if-Short 2 bits _ _ (short_bytes-Short cmd.angle2)) (
            append-Short 2 7 _ _ (field_if-Short 2 bits _ _ (short_bytes-Short cmd.forwardmove)) (
              append-Short 2 5 _ _ (field_if-Short 2 bits _ _ (short_bytes-Short cmd.sidemove)) (
                append-Short 2 3 _ _ (field_if-Short 2 bits _ _ (short_bytes-Short cmd.upmove)) (
                  append-Short 1 2 _ _ (field_if-Short 1 bits _ _ (byte-Short cmd.buttons)) (
                    append-Short 1 1 _ _ (field_if-Short 1 bits _ _ (byte-Short cmd.impulse))
                      (byte-Short cmd.msec)))))))))

move_commands-Short : (n : NetQw) → Short 48 (move_commands n)
unfolding move_commands
move_commands-Short n =
    let seq = n.current_outgoing_sequence_number in
    let oldest = (frame_of n (sub32 seq 2)).cmd in
    let old = (frame_of n (sub32 seq 1)).cmd in
    append-Short 16 32 _ _ (write_delta_usercmd-Short zero_cmd oldest) (
      append-Short 16 16 _ _ (write_delta_usercmd-Short oldest old)
        (write_delta_usercmd-Short old (frame_of n seq).cmd))

-- A part of a packet that is there, in at most `k` bytes.
pub record Built (k : ℕ) (result : Option (List ℕ)) : Type 0 where
  pub bytes : List ℕ
  pub returns : result ≡ some bytes
  pub bound : length bytes ≤ k

move_bytes-Built : (n : NetQw) → n.packetloss < 256 → Built 51 (move_bytes n)
unfolding move_bytes
move_bytes-Built n loss =
    let moves = move_commands-Short n in
    let body = n.packetloss ∷ move_commands n in
    let sum =
      sequence_crc_byte-Summed body n.current_outgoing_sequence_number (loss, moves.bytes) in
    rw (sum.returns, move_bytes)
      (record {
        bytes = clc_move ∷ sum.value ∷ body;
        returns = refl;
        bound = omega (arith, moves.bound);
      })

delta_bytes_bound : (n : NetQw) → length (delta_bytes n) ≤ 2
unfolding delta_bytes
delta_bytes_bound n = ground arith

tmove_bytes_bound : (n : NetQw) → length n.tmove_buffer ≡ 6 → length (tmove_bytes n) ≤ 7
unfolding tmove_bytes
tmove_bytes_bound n h = ground arith

packet_header-length : (n : NetQw) → length (packet_header n) ≡ 10
unfolding packet_header
packet_header-length n = refl

-- What the builder needs of the state: one byte of loss, six bytes of a teleport.
pub record CanBuild (n : NetQw) : Type 0 where
  pub loss : n.packetloss < 256
  pub teleport : length n.tmove_buffer ≡ 6

pub unreliable_part-Built : (n : NetQw) → CanBuild n → Built 70 (unreliable_part n)
unfolding unreliable_part
unreliable_part-Built n h =
    let move = move_bytes-Built n h.loss in
    let rest = delta_bytes n ++ tmove_bytes n in
    rw (move.returns, unreliable_part)
      (record {
        bytes = packet_header n ++ (move.bytes ++ rest);
        returns = refl;
        bound = omega (
          arith,
          length-append (packet_header n) (move.bytes ++ rest),
          length-append move.bytes rest,
          length-append (delta_bytes n) (tmove_bytes n),
          packet_header-length n,
          move.bound,
          delta_bytes_bound n,
          tmove_bytes_bound n h.teleport,
        );
      })
