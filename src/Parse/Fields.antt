-- ===== src/Parse/Fields.antt =====
-- The Parse functions of src/main.c that only read: they skip the fields of one command.
use qwnet_library.Msg.{
  Read, read_short, read_coord, read_byte, read_angle, read_string, when_flag, read_delta_usercmd,
}
use qwnet_library.Prelude.{ℕ, zero, suc, bit_and, bit_or, ◌==◌, if◌then◌else◌, u16, has_flag}
use qwnet_library.Prelude.Action.{pure, out_of_rounds, ◌>>=◌, ◌>>◌}

-- `PF_MSEC` to `PF_WEAPONFRAME` of src/protocol.h select the fields.
unfoldable pub parse_playerinfo : ℕ → Read (Unit {0})
parse_playerinfo protoversion = do
  read_byte
  flags ← read_short
  read_coord
  read_coord
  read_coord
  read_byte
  when_flag flags 0x001 read_byte
  (if has_flag flags 0x002 then read_delta_usercmd protoversion else pure tt)
  when_flag flags 0x004 read_short
  when_flag flags 0x008 read_short
  when_flag flags 0x010 read_short
  when_flag flags 0x020 read_byte
  when_flag flags 0x040 read_byte
  when_flag flags 0x080 read_byte
  when_flag flags 0x100 read_byte

unfoldable pub parse_lightstyles : Read (Unit {0})
parse_lightstyles = do read_byte; read_string; pure tt

unfoldable pub parse_baseline : Read (Unit {0})
parse_baseline = do
  read_short
  read_byte
  read_byte
  read_byte
  read_byte
  read_coord
  read_angle
  read_coord
  read_angle
  read_coord
  read_angle
  pure tt

unfoldable pub parse_spawn_static_sound : Read (Unit {0})
parse_spawn_static_sound = do
  read_coord
  read_coord
  read_coord
  read_byte
  read_byte
  read_byte
  pure tt

-- The bits that select the fields: the low nine are replaced by a byte if U_MODEL is left set.
-- (`bits &= ~511` clears U_MODEL, which is bit 2, so that byte is never read.)
unfoldable pub delta_bits : ℕ → Read ℕ
delta_bits word =
    let bits = bit_and word 0xffff_fe00 in
    if has_flag bits 0x4 then (read_byte >>= λ i. pure (bit_or bits i)) else pure bits

unfoldable pub parse_delta : ℕ → Read (Unit {0})
unfolding delta_bits
parse_delta word = do
  bits ← delta_bits word
  when_flag bits 0x0004 read_byte
  when_flag bits 0x2000 read_byte
  when_flag bits 0x0008 read_byte
  when_flag bits 0x0010 read_byte
  when_flag bits 0x0020 read_byte
  when_flag bits 0x0200 read_coord
  when_flag bits 0x0001 read_angle
  when_flag bits 0x0400 read_coord
  when_flag bits 0x1000 read_angle
  when_flag bits 0x0800 read_coord
  when_flag bits 0x0002 read_angle

-- `while (1)`, with `rounds` rounds granted: only a zero word ends the loop.
unfoldable pub flush_entity_packet : ℕ → Read (Unit {0})
flush_entity_packet zero = out_of_rounds
flush_entity_packet (suc rounds) = do
  short ← read_short
  if u16 short == 0 then pure tt else do parse_delta (u16 short); flush_entity_packet rounds

unfoldable pub read_coords : Read (Unit {0})
read_coords = do read_coord; read_coord; read_coord; pure tt

unfoldable pub parse_beam : Read (Unit {0})
unfolding read_coords
parse_beam = do read_short; read_coords; read_coords

-- `(channel & SND_VOLUME)` and `(channel & SND_ATTENUATION)` select a byte each.
unfoldable pub parse_sound_packet : Read (Unit {0})
unfolding read_coords
parse_sound_packet = do
  channel ← read_short
  when_flag channel 0x8000 read_byte
  when_flag channel 0x4000 read_byte
  read_byte
  read_coords

-- svc_damage
unfoldable pub parse_damage : Read (Unit {0})
unfolding read_coords
parse_damage = do read_byte; read_byte; read_coords

-- svc_setangle
unfoldable pub parse_setangle : Read (Unit {0})
parse_setangle = do read_angle; read_angle; read_angle; pure tt
