-- ===== src/Parse/Loops.antt =====
-- A block of a download with the size -4 sends the parser back to the command that it just read.
use qwnet_library.Connection.{null, Connection, append, send_command}
use qwnet_library.Msg.{Reader, advance, read_short, read_byte}
use qwnet_library.Msg.Steps.{IsSafe}
use qwnet_library.Msg.Values.{
  HasAhead, HasAhead-part, HasAhead-prefix, read_short-le_bytes, read_byte-HasAhead,
}
use qwnet_library.Netqw.{NetQw}
use qwnet_library.Netqw.Api.{append_reliable_buffer}
use qwnet_library.Parse.Download.{write_file, ask_next, parse_download}
use qwnet_library.Parse.Message.{
  skip_fields, more, run_command, dispatch, next_command, command_loop,
}
use qwnet_library.Prelude.{
  ℕ, zero, suc, ◌+◌, ◌≤◌, ◌<◌, ◌≡◌, refl, ap, ◌∙◌, ◌≢◌, false, some, List, [], ◌∷◌, arith,
}
use qwnet_library.Prelude.Action.{done, hang, pure, ◌>>=◌, ◌>>◌, modify, require}
use qwnet_library.Prelude.Keeps.{Keeps, IsPreorder, returns, keeps_rules}

abbrev pub SameMsg : Connection → Connection → Type 0
SameMsg c c' = (c'.msg ≡ c.msg) × (c'.download_file ≡ c.download_file)

pub SameMsg-IsPreorder : IsPreorder SameMsg
SameMsg-IsPreorder = record { rfl = λ c. (refl, refl); trans = λ c d e p q. (q.0 ∙ p.0, q.1 ∙ p.1) }

-- The connection has its NetQW.
abbrev pub IsOpen : Connection → Type 0
IsOpen c = (n : NetQw) × (c.netqw ≡ some n)

append_lem :
    (buffer : List ℕ) (c : Connection) (n : NetQw)
    → c.netqw ≡ some n
    → append buffer c
      ≡ done (
        tt,
        record c {
          calls = c.calls + 1;
          netqw = some (append_reliable_buffer (c.oracle.grants c.calls) buffer n).1;
        },
      )
unfolding append
append_lem buffer c n e = rw (e, require)

append-Keeps : (buffer : List ℕ) → Keeps ⊥ IsOpen SameMsg (append buffer)
append-Keeps buffer = record {
  at = λ c h.
      let sent = (append_reliable_buffer (c.oracle.grants c.calls) buffer h.0).1 in
      rw (append_lem buffer c h.0 h.1) ((sent, refl), (refl, refl));
}

pub send_command-Keeps :
    (size : ℕ) (text : List ℕ) → Keeps ⊥ IsOpen SameMsg (send_command size text)
unfolding send_command
send_command-Keeps size text = search (keeps_rules, SameMsg-IsPreorder, append-Keeps)

set_percent-Keeps :
    (percent : ℕ)
    → Keeps ⊥ IsOpen SameMsg (modify (λ (c : Connection). record c { last_percent = percent }))
set_percent-Keeps percent = record { at = λ c h. (h, (refl, refl)) }

pub ask_next-Keeps : (percent : ℕ) → Keeps ⊥ IsOpen SameMsg (ask_next percent)
unfolding ask_next
ask_next-Keeps percent =
    search (keeps_rules, SameMsg-IsPreorder, send_command-Keeps, set_percent-Keeps) depth 8

-- A block of a download whose size is -4, `percent` done, stands at the position.
pub record IsSpinning (percent : ℕ) (c : Connection) : Type 0 where
  pub safe : IsSafe c.msg
  pub good : c.msg.badread ≡ false
  pub ahead : HasAhead c.msg (41 ∷ 0xfc ∷ 0xff ∷ percent ∷ [])
  pub no_file : c.download_file ≡ null
  pub is_open : IsOpen c

-- The reader after `n` of the bytes of the block.
abbrev moved : Reader → ℕ → Reader
moved r n = record r { readcount = r.readcount + n }

module _ {percent : ℕ} {c : Connection} (small : percent < 256) (s : IsSpinning percent c) where
  abbrev m1 : Reader
  m1 = moved c.msg 1

  abbrev m3 : Reader
  m3 = moved m1 2

  abbrev m4 : Reader
  m4 = moved m3 1

  moved-IsSafe : (n : ℕ) → n ≤ 4 → IsSafe (moved c.msg n)
  moved-IsSafe n p =
      ground (arith, s.safe.attached, s.safe.fits, s.safe.small, s.safe.room, s.ahead.enough)

  m1-HasAhead : HasAhead m1 (0xfc ∷ 0xff ∷ percent ∷ [])
  m1-HasAhead = HasAhead-part (41 ∷ []) (0xfc ∷ 0xff ∷ percent ∷ []) [] s.ahead

  m3-IsSafe : IsSafe m3
  m3-IsSafe =
      ground (arith, s.safe.attached, s.safe.fits, s.safe.small, s.safe.room, s.ahead.enough)

  reads_command : read_byte c.msg ≡ done (41, m1)
  reads_command =
      read_byte-HasAhead 41 s.safe (omega arith)
        (HasAhead-prefix (41 ∷ []) (0xfc ∷ 0xff ∷ percent ∷ []) s.ahead)

  reads_size : read_short m1 ≡ done (0xffff_fffc, m3)
  reads_size =
      read_short-le_bytes 0xfffc (moved-IsSafe 1 (omega arith)) (omega arith)
        (HasAhead-prefix (0xfc ∷ 0xff ∷ []) (percent ∷ []) m1-HasAhead)

  reads_percent : read_byte m3 ≡ done (percent, m4)
  reads_percent =
      read_byte-HasAhead percent m3-IsSafe small
        (HasAhead-part (0xfc ∷ 0xff ∷ []) (percent ∷ []) [] m1-HasAhead)

  goes_back : advance 0xffff_fffc m4 ≡ done (tt, c.msg)
  unfolding advance
  goes_back =
      ap (λ (k : ℕ). done (tt, record m4 { readcount = k }))
        (omega (arith, s.safe.inside, s.safe.small))

  -- The connection when the answer is sent: the position is that of the command again.
  abbrev answering : Connection
  answering = record c { msg = c.msg; download_file_percentage = percent }

  runs :
      (rounds : ℕ)
      → percent ≢ 100
      → next_command rounds c ≡ (ask_next percent >> pure more) answering
  unfolding next_command dispatch skip_fields run_command parse_download write_file
  runs rounds ne =
      ground (arith, s.good, s.no_file, reads_command, reads_size, reads_percent, goes_back)

-- A round on such a block answers it and comes back to it.
record Spins (percent rounds : ℕ) (c : Connection) : Type 0 where
  after : Connection
  equation : next_command rounds c ≡ done (more, after)
  spinning : IsSpinning percent after

spin :
    (percent rounds : ℕ) (c : Connection)
    → percent < 256
    → percent ≢ 100
    → IsSpinning percent c
    → Spins percent rounds c
spin percent rounds c small ne s =
    let start : Connection = answering small s in
    let k = returns (ask_next percent) (ask_next-Keeps percent) start s.is_open in
    record {
      after = k.after;
      equation = runs small s rounds ne ∙ (rw (k.equation, ◌>>=◌));
      spinning = record {
        safe = rw (k.related.0) s.safe;
        good = rw (k.related.0) s.good;
        ahead = rw (k.related.0) s.ahead;
        no_file = k.related.1 ∙ s.no_file;
        is_open = k.keeps;
      };
    }

-- On a download block of size -4 with a percentage other than 100, on an open connection without a
-- file, ParseServerMessage uses up any number of rounds.
pub command_loop-IsSpinning :
    (percent rounds : ℕ) (c : Connection)
    → percent < 256
    → percent ≢ 100
    → IsSpinning percent c
    → command_loop rounds c ≡ hang
unfolding command_loop
command_loop-IsSpinning percent zero c small ne s = refl
command_loop-IsSpinning percent (suc rounds) c small ne s =
    let k = spin percent rounds c small ne s in
    rw (k.equation, ◌>>=◌) (command_loop-IsSpinning percent rounds k.after small ne k.spinning)
