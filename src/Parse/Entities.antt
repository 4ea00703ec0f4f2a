-- ===== src/Parse/Entities.antt =====
-- ParsePacketEntities of src/main.c.
use qwnet_library.Connection.{FrameInfo, Connection, Step, reading, set_abort}
use qwnet_library.Msg.{read_short, read_byte}
use qwnet_library.Netqw.{update_backup}
use qwnet_library.Netqw.Api.{set_delta_point}
use qwnet_library.Parse.Commands.{empty_info}
use qwnet_library.Parse.Fields.{parse_delta, flush_entity_packet}
use qwnet_library.Prelude.{
  ℕ, zero, suc, ◌+◌, ◌%◌, Bool, true, false, not, ◌&&◌, ◌||◌, Option, none, some, get_elem?, get_or,
  set, ltb, leb, ◌==◌, if◌then◌else◌, u8, u16, sub32, minus_one, is_negative, has_flag,
}
use qwnet_library.Prelude.Action.{
  done, pure, stop, out_of_rounds, ◌>>=◌, ◌>>◌, gets, modify, require,
}

abbrev pub max_entities : ℕ
max_entities = 300

-- `a - b >= k` on `int`
unfoldable pub is_ahead : ℕ → ℕ → ℕ → Bool
is_ahead k a b = not (is_negative (sub32 a b)) && leb k (sub32 a b)

unfoldable pub frame_at : ℕ → Connection → FrameInfo
frame_at i c = get_or c.frames i empty_info

unfoldable pub put_frame : ℕ → (FrameInfo → FrameInfo) → Step (Unit {0})
unfolding frame_at
put_frame i f = modify (λ (c : Connection). record c { frames = set c.frames i (f (frame_at i c)) })

-- `oldp`: the frame at an index, or the empty `dummy` of a full update.
unfoldable pub entity_count : Option ℕ → Connection → ℕ
unfolding frame_at
entity_count none c = 0
entity_count (some i) c = (frame_at i c).num_entities

-- `oldindex >= oldp->num_entities ? 9999 : oldp->entities[oldindex].number`
unfoldable pub old_number : Option ℕ → ℕ → Step ℕ
unfolding entity_count
old_number none oldindex c = done (9999, c)
old_number (some i) oldindex c =
    if leb (entity_count (some i) c) oldindex
    then done (9999, c)
    else require (get_elem? (frame_at i c).entities oldindex) c

-- `newp->entities[newindex] = oldp->entities[oldindex];`
unfoldable pub copy_entity : ℕ → ℕ → Option ℕ → ℕ → Step (Unit {0})
unfolding put_frame
copy_entity newpacket newindex none oldindex = stop
copy_entity newpacket newindex (some i) oldindex = do
  number ← gets (λ (c : Connection). get_elem? (frame_at i c).entities oldindex)
  number ← require number
  if ltb newindex max_entities
      then put_frame newpacket
          (λ (f : FrameInfo). record f { entities = set f.entities newindex number })
      else stop

abbrev pub set_validsequence : ℕ → Step (Unit {0})
set_validsequence v = modify (λ (c : Connection). record c { validsequence = v })

-- `FlushEntityPacket(qwc); qwc->validsequence = 0; return;`
unfoldable pub give_up : ℕ → Step (Unit {0})
give_up rounds = do reading (flush_entity_packet rounds); set_validsequence 0

-- `while (newnum < oldnum)`: the result is `oldindex`, `newindex` and `oldnum` after the loop, or
-- `none` where the function returned.
abbrev pub Place : Type 0
Place = ℕ × ℕ × ℕ

unfoldable pub copy_older : ℕ → Option ℕ → Bool → ℕ → ℕ → Place → Step (Option Place)
unfolding copy_entity old_number give_up
copy_older zero old full newpacket newnum place = out_of_rounds
copy_older (suc rounds) old full newpacket newnum (oldindex, newindex, oldnum) =
    if not (ltb newnum oldnum)
    then pure (some (oldindex, newindex, oldnum))
    else (if full then (give_up rounds >> pure none) else do
      copy_entity newpacket newindex old oldindex
      next ← old_number old (oldindex + 1)
      copy_older rounds old full newpacket newnum (oldindex + 1, newindex + 1, next))

-- What one entity of the message leads to.
pub data Turn : Type 0 where
  leave : Turn
  go_on : ℕ → ℕ → ℕ → Turn

-- `if (newnum < oldnum)`: cannot come up, since the loop before it ends at `oldnum <= newnum`.
unfoldable pub take_new : ℕ → Bool → ℕ → ℕ → ℕ → ℕ → Step Turn
unfolding give_up
take_new rounds full word deltasequence oldindex newindex =
    if has_flag word 0x4000
    then (if full
        then (give_up rounds >> pure leave)
        else pure (go_on oldindex newindex deltasequence))
    else (if leb max_entities newindex
        then (set_abort >> pure leave)
        else (reading (parse_delta word) >> pure (go_on oldindex (newindex + 1) deltasequence)))

-- `if (newnum == oldnum)`
unfoldable pub take_known : Bool → ℕ → ℕ → ℕ → ℕ → Step Turn
take_known full word deltasequence oldindex newindex = do
  (if full then set_validsequence 0 else pure tt)
  let d = if full then 0 else deltasequence
  if has_flag word 0x4000
      then pure (go_on (oldindex + 1) newindex d)
      else (reading (parse_delta word) >> pure (go_on (oldindex + 1) (newindex + 1) d))

-- The rest of the round; a number that is not there yet is passed over.
unfoldable pub take_entity : ℕ → Bool → ℕ → ℕ → ℕ → Place → Step Turn
unfolding take_new take_known
take_entity rounds full word newnum deltasequence (oldindex, newindex, oldnum) =
    if ltb newnum oldnum
    then take_new rounds full word deltasequence oldindex newindex
    else if newnum == oldnum
    then take_known full word deltasequence oldindex newindex
    else pure (go_on oldindex newindex deltasequence)

-- `while (1)`: the result is `deltasequence` where the loop was left by `break`, `none` where the
-- function returned.
unfoldable pub parse_entities : ℕ → Option ℕ → Bool → ℕ → ℕ → ℕ → ℕ → Step (Option ℕ)
unfolding copy_older take_entity old_number
parse_entities zero old full newpacket oldindex newindex deltasequence = out_of_rounds
parse_entities (suc rounds) old full newpacket oldindex newindex deltasequence = do
  short ← reading read_short
  let word = u16 short
  badread ← gets (λ (c : Connection). c.msg.badread)
  if badread then set_abort >> pure none else if word == 0 then pure (some deltasequence) else do
    let newnum = word % 512
    oldnum ← old_number old oldindex
    found ← copy_older rounds old full newpacket newnum (oldindex, newindex, oldnum)
    elim found [
      | none ↦ pure none
      | some place ↦ do
        turn ← take_entity rounds full word newnum deltasequence place
        elim turn [
          | leave ↦ pure none
          | go_on i j d ↦ parse_entities rounds old full newpacket i j d
        ]
    ]

-- `NetQW_SetDeltaPoint(qwc->netqw, deltasequence?deltasequence:-1)`
unfoldable pub set_delta : ℕ → Step (Unit {0})
set_delta deltasequence = do
  n ← gets (λ (c : Connection). c.netqw)
  n ← require n
  modify (λ (c : Connection). record c {
    netqw = some (set_delta_point (if deltasequence == 0 then minus_one else deltasequence) n);
  })

-- From `qwc->oldvalidsequence = …` to the end.
unfoldable pub parse_body : ℕ → Option ℕ → Bool → ℕ → Step (Unit {0})
unfolding parse_entities set_delta
parse_body rounds old full newpacket = do
  modify (λ (c : Connection). record c {
    oldvalidsequence = c.validsequence;
    validsequence = c.incoming_sequence;
  })
  deltasequence ← gets (λ (c : Connection). c.incoming_sequence)
  put_frame newpacket (λ (f : FrameInfo). record f { num_entities = 0 })
  result ← parse_entities rounds old full newpacket 0 0 deltasequence
  elim result [ none ↦ pure tt | some d ↦ set_delta d ]

-- `from & UPDATE_MASK != oldpacket &UPDATE_MASK`: `!=` binds tighter than `&`.
unfoldable pub is_other_base : ℕ → ℕ → Bool
is_other_base from oldpacket = not (from % 2 == 0) && not (oldpacket == 63)

unfoldable pub parse_packet_entities : ℕ → Bool → Step (Unit {0})
unfolding parse_body give_up put_frame is_ahead is_other_base
parse_packet_entities rounds delta = do
  newpacket ← gets (λ (c : Connection). c.incoming_sequence % update_backup)
  put_frame newpacket (λ (f : FrameInfo). record f { invalid = false })
  if not delta then parse_body rounds none true newpacket else do
    from ← reading read_byte
    c ← gets (λ (c : Connection). c)
    let oldpacket = (frame_at newpacket c).delta_sequence
    if is_ahead 63 c.outgoing_sequence c.incoming_sequence || is_other_base (u8 from) oldpacket
        then give_up rounds
        else if is_ahead 63 c.outgoing_sequence oldpacket
        then reading (flush_entity_packet rounds)
        else parse_body rounds (some (oldpacket % update_backup)) false newpacket
