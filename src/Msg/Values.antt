-- ===== src/Msg/Values.antt =====
-- What the readers return: the number or the string that the bytes ahead stand for.
use qwnet_library.Msg.{Reader, read_long, read_short, read_byte}
use qwnet_library.Msg.Steps.{IsSafe, byte_of, read_byte_enough, read_short_enough, read_long_enough}
use qwnet_library.Prelude.{
  ℕ, zero, suc, ◌+◌, ◌*◌, ◌/◌, ◌%◌, ◌^◌, ◌≤◌, ◌<◌, ◌≡◌, ap, ◌∙◌, List, [], ◌∷◌, ◌++◌, append_assoc,
  arith, length, get_or, length-append, get_or-append_right, u8, of_short,
}
use qwnet_library.Prelude.Action.{Outcome, done}

-- The bytes of a number, lowest first, as the protocol sends it.
abbrev pub le_bytes : ℕ → ℕ → List ℕ
le_bytes zero v = []
le_bytes (suc n) v = u8 v ∷ le_bytes n (v / 2 ^ 8)

-- The bytes `ws` stand at the position of `r`, inside the message.
pub record HasAhead (r : Reader) (ws : List ℕ) : Type 0 where
  pub before : List ℕ
  pub after : List ℕ
  pub layout : r.bytes ≡ before ++ (ws ++ after)
  pub position : r.readcount ≡ length before
  pub enough : r.readcount + length ws ≤ r.cursize

-- Of the bytes `us ++ vs ++ ws` ahead, the bytes `vs` stand ahead once `us` are read.
pub HasAhead-part :
    {r : Reader} (us vs ws : List ℕ)
    → HasAhead r (us ++ (vs ++ ws))
    → HasAhead (record r { readcount = r.readcount + length us }) vs
HasAhead-part {r} us vs ws a = record {
  before = a.before ++ us;
  after = ws ++ a.after;
  layout = a.layout ∙ simp append_assoc;
  position = omega (arith, a.position, length-append a.before us);
  enough = omega (arith, a.enough, length-append us (vs ++ ws), length-append vs ws);
}

pub HasAhead-prefix : {r : Reader} (vs ws : List ℕ) → HasAhead r (vs ++ ws) → HasAhead r vs
HasAhead-prefix {r} vs ws a = record {
  before = a.before;
  after = ws ++ a.after;
  layout = a.layout ∙ simp append_assoc;
  position = a.position;
  enough = omega (arith, a.enough, length-append vs ws);
}

byte_of-HasAhead :
    {r : Reader} {ws : List ℕ} (a : HasAhead r ws) (i : ℕ)
    → byte_of r (r.readcount + i) ≡ get_or (ws ++ a.after) i 0
byte_of-HasAhead {r} {ws} a i =
    rw (a.layout, a.position) (get_or-append_right a.before (ws ++ a.after) i 0)

-- MSG_ReadLong returns the 32-bit number whose four bytes, lowest first, stand in the message, and
-- moves behind them.
pub read_long-le_bytes :
    {r : Reader} (v : ℕ)
    → IsSafe r
    → v < 2 ^ 32
    → HasAhead r (le_bytes 4 v)
    → read_long r ≡ done (v, record r { readcount = r.readcount + 4 })
read_long-le_bytes {r} v h small a = ground (
  arith,
  read_long_enough h,
  a.enough,
  byte_of-HasAhead a 0,
  byte_of-HasAhead a 1,
  byte_of-HasAhead a 2,
  byte_of-HasAhead a 3,
)

pub read_short-le_bytes :
    {r : Reader} (v : ℕ)
    → IsSafe r
    → v < 2 ^ 16
    → HasAhead r (le_bytes 2 v)
    → read_short r ≡ done (of_short v, record r { readcount = r.readcount + 2 })
read_short-le_bytes {r} v h small a =
    read_short_enough h a.enough ∙ ap (λ (k : ℕ). answer (of_short k)) value
  where
    answer : ℕ → Outcome (ℕ × Reader)
    answer k = done (k, record r { readcount = r.readcount + 2 })

    value : (byte_of r (r.readcount + 0) + byte_of r (r.readcount + 1) * 2 ^ 8) % 2 ^ 16 ≡ v
    value = omega (arith, byte_of-HasAhead a 0, byte_of-HasAhead a 1)

pub read_byte-HasAhead :
    {r : Reader} (v : ℕ)
    → IsSafe r
    → v < 2 ^ 8
    → HasAhead r (v ∷ [])
    → read_byte r ≡ done (v, record r { readcount = r.readcount + 1 })
read_byte-HasAhead {r} v h small a =
    ground (arith, read_byte_enough h, a.enough, byte_of-HasAhead a 0)
