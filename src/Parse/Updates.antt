-- ===== src/Parse/Updates.antt =====
-- Full updates of the entities in src/main.c.
use qwnet_library.Connection.{Connection}
use qwnet_library.Netqw.{update_backup}
use qwnet_library.Parse.Entities.{frame_at, give_up}
use qwnet_library.Prelude.{ℕ, ◌+◌, ◌%◌, ◌≡◌, false, set}
use qwnet_library.Prelude.Action.{Outcome}

-- The update comes down to `FlushEntityPacket(qwc); qwc->validsequence = 0;` from the state `start`.
pub record Flushed (rounds word : ℕ) (c : Connection) (result : Outcome (Unit {0} × Connection))
    : Type 0 where
  pub start : Connection
  pub equation : result ≡ give_up rounds start
  pub behind : start.msg ≡ record c.msg { readcount = c.msg.readcount + 2 }

-- The connection in front of the loop over the entities.
abbrev validated : Connection → Connection
validated c =
    let i = c.incoming_sequence % update_backup in
    record c { frames = set c.frames i (record (frame_at i c) { invalid = false }) }

abbrev updating : Connection → Connection
updating c =
    let i = c.incoming_sequence % update_backup in
    let d : Connection = record (validated c) {
      oldvalidsequence = c.validsequence;
      validsequence = c.incoming_sequence;
    } in
    record d { frames = set d.frames i (record (frame_at i d) { num_entities = 0 }) }
