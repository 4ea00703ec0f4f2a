-- ===== src/Parse/Safety.antt =====
-- The field parsers of src/main.c stay inside the message, and move forward only.
use qwnet_library.Msg.{Reader}
use qwnet_library.Msg.Safety.{
  Safe, read_rules, read_string-Safe, when_flag-Safe, read_delta_usercmd-Safe,
}
use qwnet_library.Msg.Steps.{IsSafe, read_short_bad}
use qwnet_library.Parse.Fields.{
  parse_playerinfo, parse_lightstyles, parse_baseline, parse_spawn_static_sound, delta_bits,
  parse_delta, flush_entity_packet, read_coords, parse_beam, parse_sound_packet, parse_damage,
  parse_setangle,
}
use qwnet_library.Prelude.{ℕ, zero, suc, ◌+◌, ◌<◌, ◌≡◌, refl, ap, true, arith}
use qwnet_library.Prelude.Action.{hang}
use qwnet_library.Prelude.Keeps.{returns}

pub ruleset field_rules = (read_rules, read_string-Safe, read_delta_usercmd-Safe, when_flag-Safe)

pub parse_playerinfo-Safe : (version : ℕ) → Safe (parse_playerinfo version)
unfolding parse_playerinfo
parse_playerinfo-Safe version = search field_rules depth 20

pub parse_lightstyles-Safe : Safe parse_lightstyles
unfolding parse_lightstyles
parse_lightstyles-Safe = search field_rules

pub parse_baseline-Safe : Safe parse_baseline
unfolding parse_baseline
parse_baseline-Safe = search field_rules depth 16

pub parse_spawn_static_sound-Safe : Safe parse_spawn_static_sound
unfolding parse_spawn_static_sound
parse_spawn_static_sound-Safe = search field_rules depth 12

pub delta_bits-Safe : (word : ℕ) → Safe (delta_bits word)
unfolding delta_bits
delta_bits-Safe word = search field_rules

pub parse_delta-Safe : (word : ℕ) → Safe (parse_delta word)
unfolding parse_delta
parse_delta-Safe word = search (field_rules, delta_bits-Safe) depth 16

pub read_coords-Safe : Safe read_coords
unfolding read_coords
read_coords-Safe = search field_rules

pub parse_beam-Safe : Safe parse_beam
unfolding parse_beam
parse_beam-Safe = search (field_rules, read_coords-Safe)

pub parse_sound_packet-Safe : Safe parse_sound_packet
unfolding parse_sound_packet
parse_sound_packet-Safe = search (field_rules, read_coords-Safe) depth 8

pub parse_damage-Safe : Safe parse_damage
unfolding parse_damage
parse_damage-Safe = search (field_rules, read_coords-Safe)

pub parse_setangle-Safe : Safe parse_setangle
unfolding parse_setangle
parse_setangle-Safe = search field_rules depth 8

pub ruleset part_rules = (
  field_rules, parse_playerinfo-Safe, parse_lightstyles-Safe, parse_baseline-Safe,
  parse_spawn_static_sound-Safe, parse_sound_packet-Safe, parse_damage-Safe, parse_setangle-Safe,
)

-- Where fewer than two bytes of the message are left, FlushEntityPacket uses up any number of rounds.
pub flush_entity_packet-at_end :
    (rounds : ℕ) (r : Reader)
    → IsSafe r
    → r.cursize < r.readcount + 2
    → flush_entity_packet rounds r ≡ hang
unfolding flush_entity_packet
flush_entity_packet-at_end zero r h e = refl
flush_entity_packet-at_end (suc rounds) r h e =
    let bad = record r { badread = true } in
    let safe : IsSafe bad = ground (arith, h.attached) in
    let d = returns (parse_delta 65535) (parse_delta-Safe 65535) bad safe in
    ground (
      arith,
      read_short_bad h e,
      d.equation,
      flush_entity_packet-at_end rounds d.after d.keeps
          (omega (arith, d.related.forward, ap (λ (k : ℕ). k) d.related.same_size)),
    )
