-- ===== src/Msg/Safety.antt =====
-- The readers stay inside the message buffer, move forward only, and end.
use mathlib.Core.Path.{subst}
use native.Mathlib.Decide.{dec_le}
use qwnet_library.Msg.{
  Reader, Read, is_short, byte_ahead, advance, bad_read, read_long, read_short, read_coord,
  read_byte, read_char, read_angle, store_char, read_chars, c_string, max_string, read_string,
  read_float, read_angle16, when_flag, read_moves_26, read_moves, read_delta_usercmd,
}
use qwnet_library.Msg.Steps.{
  IsSafe, read_short_bad, read_long_bad, read_short_enough, read_long_enough,
}
use qwnet_library.Prelude.{
  ℕ, zero, suc, ◌+◌, ◌≤◌, ◌<◌, ◌≡◌, refl, ◌∙◌, inl, inr, true, ◌||◌, arith, length, set, length-set,
  get_elem?-eq-get_or, ◌==◌, lt→ltb, Bool-cases, u32, minus_one,
}
use qwnet_library.Prelude.Action.{Outcome, done, ◌>>=◌, ◌>>◌, gets}
use qwnet_library.Prelude.Keeps.{Post, Keeps, IsPreorder, Post-then, returns, keeps_rules}

pub record Advances (r r' : Reader) : Type 0 where
  pub forward : r.readcount ≤ r'.readcount
  pub same_bytes : r'.bytes ≡ r.bytes
  pub same_size : r'.cursize ≡ r.cursize
  pub sticky : r.badread ≡ true → r'.badread ≡ true

pub Advances-IsPreorder : IsPreorder Advances
Advances-IsPreorder = record {
  rfl = λ s. record { forward = omega arith; same_bytes = refl; same_size = refl; sticky = λ h. h };
  trans = λ s t u h k. record {
    forward = omega (arith, h.forward, k.forward);
    same_bytes = k.same_bytes ∙ h.same_bytes;
    same_size = k.same_size ∙ h.same_size;
    sticky = λ b. k.sticky (h.sticky b);
  };
}

abbrev pub Safe : {A : Type 0} → Read A → Type 0
Safe m = Keeps ⊥ IsSafe Advances m

pub read_byte-Safe : Safe read_byte
unfolding read_byte is_short byte_ahead advance bad_read
read_byte-Safe = record {
  at = λ r h. ground (arith, get_elem?-eq-get_or r.bytes (u32 (r.readcount + 0)) 0);
}

pub read_char-Safe : Safe read_char
unfolding read_char is_short byte_ahead advance bad_read
read_char-Safe = record {
  at = λ r h. ground (arith, get_elem?-eq-get_or r.bytes (u32 (r.readcount + 0)) 0);
}

pub read_short-Safe : Safe read_short
read_short-Safe = record {
  at = λ r h. elim (dec_le (r.readcount + 2) r.cursize) [
    | yes p ↦ rw (read_short_enough h p) (ground arith)
    | no p ↦ rw (read_short_bad h (omega arith)) (ground arith)
  ];
}

pub read_long-Safe : Safe read_long
read_long-Safe = record {
  at = λ r h. elim (dec_le (r.readcount + 4) r.cursize) [
    | yes p ↦ rw (read_long_enough h p) (ground arith)
    | no p ↦ rw (read_long_bad h (omega arith)) (ground arith)
  ];
}

pub read_coord-Safe : Safe read_coord
unfolding read_coord
read_coord-Safe = read_short-Safe

pub read_angle16-Safe : Safe read_angle16
unfolding read_angle16
read_angle16-Safe = read_short-Safe

pub read_angle-Safe : Safe read_angle
unfolding read_angle
read_angle-Safe = read_char-Safe

store_char-Safe : (l c : ℕ) → l < 2048 → Safe (store_char l c)
unfolding store_char
store_char-Safe l c inside = record {
  at = λ r h. ground (arith, length-set r.readstring_buffer l c);
}

pub ruleset read_rules = (
  keeps_rules, Advances-IsPreorder, read_byte-Safe, read_char-Safe, read_short-Safe, read_long-Safe,
  read_coord-Safe, read_angle-Safe, read_angle16-Safe,
)

pub store_char-eq :
    (l c : ℕ) (r : Reader)
    → l < length r.readstring_buffer
    → store_char l c r ≡ done (tt, record r { readstring_buffer = set r.readstring_buffer l c })
unfolding store_char
store_char-eq l c r inside = rw (lt→ltb _ _ inside) refl

-- The index behind the last character that was read, and the reader then.
record Stops (r : Reader) (limit : ℕ) (o : Outcome (ℕ × Reader)) : Type 0 where
  last : ℕ
  after : Reader
  equation : o ≡ done (last, after)
  below : last ≤ limit
  safe : IsSafe after
  advances : Advances r after

read_chars-Stops :
    (room l : ℕ) (r : Reader)
    → l + room ≤ max_string
    → IsSafe r
    → Stops r (l + room) (read_chars room l r)
unfolding read_chars
read_chars-Stops zero l r fits h = record {
  last = l;
  after = r;
  equation = refl;
  below = omega arith;
  safe = h;
  advances = Advances-IsPreorder.rfl r;
}
read_chars-Stops (suc room) l r fits h =
    let b = returns read_byte read_byte-Safe r h in
    let c = b.value in
    elim (Bool-cases (c == minus_one || c == 0)) [
      | inl ends ↦ record {
        last = l;
        after = b.after;
        equation = rw (b.equation, ◌>>=◌) (rw ends refl);
        below = omega arith;
        safe = b.keeps;
        advances = b.related;
      }
      | inr goes_on ↦
          let stored = record b.after { readstring_buffer = set b.after.readstring_buffer l c } in
          let store : store_char l c b.after ≡ done (tt, stored) =
            store_char-eq l c b.after (omega (arith, b.keeps.room)) in
          let kept = (store_char-Safe l c (omega arith)).at b.after b.keeps in
          let both : IsSafe stored × Advances b.after stored =
            subst (λ (o : Outcome (Unit {0} × Reader)). Post ⊥ IsSafe Advances b.after o) store
              kept in
          let rest = read_chars-Stops room (l + 1) stored (omega arith) both.0 in
          record {
            last = rest.last;
            after = rest.after;
            equation =
                rw (b.equation, ◌>>=◌) (rw (goes_on, ◌>>◌) (rw (store, ◌>>=◌) rest.equation));
            below = omega (arith, rest.below);
            safe = rest.safe;
            advances =
                Advances-IsPreorder.trans r b.after rest.after b.related
                  (Advances-IsPreorder.trans b.after stored rest.after both.1 rest.advances);
          }
    ]

ends_string-Safe :
    (l : ℕ)
    → l < 2048
    → Safe (store_char l 0 >> gets (λ (r : Reader). c_string r.readstring_buffer))
ends_string-Safe l inside = search (read_rules, store_char-Safe l 0 inside)

pub read_string-Safe : Safe read_string
unfolding read_string
read_string-Safe = record {
  at = λ r h.
      let run = read_chars-Stops max_string 0 r (omega arith) h in
      rw (run.equation, ◌>>=◌)
        (Post-then ⊥ IsSafe Advances r run.after _ Advances-IsPreorder run.advances
          ((ends_string-Safe run.last (omega (arith, run.below))).at run.after run.safe));
}

pub when_flag-Safe : (bits mask : ℕ) (m : Read ℕ) → Safe m → Safe (when_flag bits mask m)
unfolding when_flag
when_flag-Safe bits mask m h = search read_rules

read_moves-Safe : (bits : ℕ) → Safe (read_moves bits)
unfolding read_moves
read_moves-Safe bits = search (read_rules, when_flag-Safe) depth 12

read_moves_26-Safe : (bits : ℕ) → Safe (read_moves_26 bits)
unfolding read_moves_26
read_moves_26-Safe bits = search (read_rules, when_flag-Safe) depth 12

pub read_delta_usercmd-Safe : (version : ℕ) → Safe (read_delta_usercmd version)
unfolding read_delta_usercmd
read_delta_usercmd-Safe version =
    search (read_rules, when_flag-Safe, read_moves-Safe, read_moves_26-Safe) depth 12

-- MSG_ReadFloat has no bounds test: it is safe only where four bytes are known to remain.
pub read_float_lem :
    (r : Reader)
    → IsSafe r
    → r.readcount + 4 ≤ length r.bytes
    → Post ⊥ IsSafe Advances r (read_float r)
unfolding read_float byte_ahead advance
read_float_lem r h room = ground (
  arith,
  get_elem?-eq-get_or r.bytes (u32 (r.readcount + 0)) 0,
  get_elem?-eq-get_or r.bytes (u32 (r.readcount + 1)) 0,
  get_elem?-eq-get_or r.bytes (u32 (r.readcount + 2)) 0,
  get_elem?-eq-get_or r.bytes (u32 (r.readcount + 3)) 0,
)
