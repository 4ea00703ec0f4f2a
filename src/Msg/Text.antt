-- ===== src/Msg/Text.antt =====
-- MSG_ReadString returns the text that stands in the message.
use qwnet_library.Msg.{Reader, read_chars, c_string, max_string, read_string}
use qwnet_library.Msg.Safety.{store_char-eq}
use qwnet_library.Msg.Steps.{IsSafe}
use qwnet_library.Msg.Values.{HasAhead, read_byte-HasAhead}
use qwnet_library.Prelude.{
  ℕ, zero, suc, ◌+◌, ◌≤◌, ◌<◌, ◌≡◌, refl, ap, ◌∙◌, false, ◌||◌, List, [], ◌∷◌, ◌++◌, append-nil,
  append_assoc, arith, length, set, length-append, length-set, ◌==◌, minus_one,
}
use qwnet_library.Prelude.Action.{done, ◌>>=◌, ◌>>◌}

-- Bytes that can stand inside a C string.
abbrev pub IsText : List ℕ → Type 0
IsText [] = Unit {0}
IsText (c ∷ cs) = (0 < c) × (c < 256) × IsText cs

-- The buffer after the bytes `ws` were stored one by one from index `l`.
store_all : List ℕ → ℕ → List ℕ → List ℕ
store_all b l [] = b
store_all b l (c ∷ cs) = store_all (set b l c) (l + 1) cs

length-store_all : (ws b : List ℕ) (l : ℕ) → length (store_all b l ws) ≡ length b
unfolding store_all
length-store_all [] b l = refl
length-store_all (c ∷ cs) b l = length-store_all cs (set b l c) (l + 1) ∙ length-set b l c

set-append :
    (pre : List ℕ) (x c : ℕ) (rest : List ℕ)
    → set (pre ++ (x ∷ rest)) (length pre) c ≡ pre ++ (c ∷ rest)
set-append [] x c rest = refl
set-append (p ∷ pre) x c rest = ap (λ k. p ∷ k) (set-append pre x c rest)

c_string-append : (pre rest : List ℕ) → IsText pre → c_string (pre ++ (0 ∷ rest)) ≡ pre
unfolding c_string
c_string-append [] rest t = refl
c_string-append (p ∷ pre) rest t = ground (arith, c_string-append pre rest)

IsText-snoc : (pre : List ℕ) (c : ℕ) → IsText pre → 0 < c → c < 256 → IsText (pre ++ (c ∷ []))
IsText-snoc [] c t p q = (p, q, tt)
IsText-snoc (x ∷ pre) c t p q = (t.0, t.1, IsText-snoc pre c t.2 p q)

c_string-store_all :
    (ws pre rest : List ℕ)
    → IsText pre
    → IsText ws
    → length ws < length rest
    → c_string (set (store_all (pre ++ rest) (length pre) ws) (length pre + length ws) 0)
      ≡ pre ++ ws
unfolding store_all
c_string-store_all [] pre (x ∷ rest) tp tw room =
    let e : length pre + 0 ≡ length pre = omega arith in
    rw (e, set-append pre x 0 rest, c_string-append pre rest tp, append-nil)
c_string-store_all [] pre [] tp tw room = absurd (omega arith)
c_string-store_all (c ∷ cs) pre [] tp tw room = absurd (omega arith)
c_string-store_all (c ∷ cs) pre (x ∷ rest) tp tw room =
    let e : length pre + suc (length cs) ≡ length pre + 1 + length cs = omega arith in
    let l : length (pre ++ (c ∷ [])) ≡ length pre + 1 = length-append pre (c ∷ []) in
    rw (e, set-append pre x c rest, ← l)
      (rw (← append_assoc pre (c ∷ []) rest, ← append_assoc pre (c ∷ []) cs)
        (c_string-store_all cs (pre ++ (c ∷ [])) rest (IsText-snoc pre c tp tw.0 tw.1) tw.2
          (omega arith)))

HasAhead-byte : {r : Reader} (c : ℕ) (cs : List ℕ) → HasAhead r (c ∷ cs) → HasAhead r (c ∷ [])
HasAhead-byte {r} c cs a = record {
  before = a.before;
  after = cs ++ a.after;
  layout = a.layout;
  position = a.position;
  enough = omega (arith, a.enough);
}

-- The state after one more character was read and stored.
abbrev next_char : Reader → ℕ → ℕ → Reader
next_char r l c = record r {
  readcount = r.readcount + 1;
  readstring_buffer = set r.readstring_buffer l c;
}

HasAhead-next :
    {r : Reader} (l c : ℕ) (cs : List ℕ) → HasAhead r (c ∷ cs) → HasAhead (next_char r l c) cs
HasAhead-next {r} l c cs a = record {
  before = a.before ++ (c ∷ []);
  after = a.after;
  layout = rw (append_assoc a.before (c ∷ []) (cs ++ a.after)) a.layout;
  position = rw (length-append a.before (c ∷ [])) (omega (arith, a.position));
  enough = omega (arith, a.enough);
}

IsSafe-next :
    {r : Reader} (l c : ℕ) (cs : List ℕ) → IsSafe r → HasAhead r (c ∷ cs) → IsSafe (next_char r l c)
IsSafe-next {r} l c cs h a = ground (arith, a.enough, length-set r.readstring_buffer l c)

-- The state after `ws` and its final 0 were read, the characters stored from index `l`.
abbrev read_all : Reader → ℕ → List ℕ → Reader
read_all r l ws = record r {
  readcount = r.readcount + length ws + 1;
  readstring_buffer = store_all r.readstring_buffer l ws;
}

read_chars_lem :
    (ws : List ℕ) (room l : ℕ) {r : Reader}
    → IsSafe r
    → IsText ws
    → length ws < room
    → l + room ≤ max_string
    → HasAhead r (ws ++ (0 ∷ []))
    → read_chars room l r ≡ done (l + length ws, read_all r l ws)
unfolding read_chars store_all
read_chars_lem [] zero l h t p fits a = absurd (omega arith)
read_chars_lem (c ∷ cs) zero l h t p fits a = absurd (omega arith)
read_chars_lem [] (suc room) l {r} h t p fits a =
    ground (arith, read_byte-HasAhead 0 h (omega arith) a, h.room)
read_chars_lem (c ∷ cs) (suc room) l {r} h t p fits a =
    let behind : Reader = record r { readcount = r.readcount + 1 } in
    let goes_on : (c == minus_one || c == 0) ≡ false = ground arith in
    let read = read_byte-HasAhead c h (omega arith) (HasAhead-byte c (cs ++ (0 ∷ [])) a) in
    let store = store_char-eq l c behind (omega (arith, h.room)) in
    let rest =
      read_chars_lem cs room (l + 1) (IsSafe-next l c (cs ++ (0 ∷ [])) h a) t.2 (omega arith)
        (omega arith) (HasAhead-next l c (cs ++ (0 ∷ [])) a) in
    let index : l + 1 + length cs ≡ l + suc (length cs) = omega arith in
    let place : r.readcount + 1 + length cs + 1 ≡ r.readcount + suc (length cs) + 1 = omega arith in
    rw (read, ◌>>=◌) (rw (goes_on, ◌>>◌) (rw (store, ◌>>=◌) (rest ∙ rw (index, place) refl)))

-- A text of fewer than 2047 characters that stands, with its final 0, at the position is what
-- MSG_ReadString returns; the position moves behind the 0.
pub read_string-HasAhead :
    (ws : List ℕ) {r : Reader}
    → IsSafe r
    → IsText ws
    → length ws < max_string
    → HasAhead r (ws ++ (0 ∷ []))
    → (r' : Reader) × (read_string r ≡ done (ws, r'))
      × (r'.readcount ≡ r.readcount + length ws + 1)
      × (r'.badread ≡ r.badread)
unfolding read_string
read_string-HasAhead ws {r} h t p a = (
  record (read_all r 0 ws) {
    readstring_buffer = set (store_all r.readstring_buffer 0 ws) (length ws) 0;
  },
  ground (
    arith,
    store_char-eq (0 + length ws) 0 (read_all r 0 ws)
        (omega (arith, h.room, length-store_all ws r.readstring_buffer 0)),
    read_chars_lem ws max_string 0 h t p (omega arith) a,
    c_string-store_all ws [] r.readstring_buffer tt t (omega (arith, h.room)),
  ),
  refl,
  refl,
)
