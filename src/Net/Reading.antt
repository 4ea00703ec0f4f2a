-- ===== src/Net/Reading.antt =====
-- The address parser of src/net.c.
use qwnet_library.Net.{Address, loopback, ipv4, ipv6}
use qwnet_library.Prelude.{
  ℕ, ◌+◌, ◌-◌, ◌*◌, ◌≡◌, refl, Bool, true, false, not, ◌&&◌, ◌||◌, Option, none, some, List, [],
  ◌∷◌, length, ltb, leb, ◌==◌, if◌then◌else◌, u32,
}
use qwnet_library.Prelude.Text.{codes}

abbrev pub is_digit : ℕ → Bool
is_digit c = leb b'0' c && leb c b'9'

-- `while(*s >= '0' && *s <= '9' && *value <= maxvalue)`: the value, the number of digits taken, and
-- the text behind them.
unfoldable pub scan_digits : ℕ → List ℕ → ℕ → ℕ → ℕ × ℕ × List ℕ
scan_digits max_value [] value len = (value, len, [])
scan_digits max_value (c ∷ s) value len =
    let rest = scan_digits max_value s (u32 (value * 10 + (c - b'0'))) (len + 1) in
    if is_digit c && leb value max_value then rest else (value, len, c ∷ s)

-- NET_StringDecToUInt, and the text behind: `none` is its result 0.
unfoldable pub dec_to_uint : ℕ → List ℕ → Option (ℕ × List ℕ)
unfolding scan_digits
dec_to_uint max_value s =
    let (value, len, rest) = scan_digits max_value s 0 0 in
    if ltb max_value value || len == 0 then none else some (value, rest)

infixl 5 ◌>>=◌
abbrev pub ◌>>=◌ : {A B : Type 0} → Option A → (A → Option B) → Option B
none >>= f = none
some a >>= f = f a

-- `*s == '.'`, and `s++`
abbrev pub dot : List ℕ → Option (List ℕ)
dot [] = none
dot (c ∷ s) = if c == b'.' then some s else none

-- `*s != 0 && *s != ':'` refuses.
abbrev pub at_end : List ℕ → Bool
at_end [] = true
at_end (c ∷ s) = c == b':'

-- NET_StringToIPv4, its four rounds: the address with port 0, and the text behind it.
unfoldable pub string_to_ipv4 : List ℕ → Option (Address × List ℕ)
unfolding dec_to_uint
string_to_ipv4 s = do
  (a, s) ← dec_to_uint 255 s
  s ← dot s
  (b, s) ← dec_to_uint 255 s
  s ← dot s
  (c, s) ← dec_to_uint 255 s
  s ← dot s
  (d, s) ← dec_to_uint 255 s
  if at_end s then some (ipv4 a b c d 0, s) else none

-- NET_StringToIPv6 is a stub that takes nothing.
unfoldable pub string_to_ipv6 : List ℕ → Option (Address × List ℕ)
string_to_ipv6 s = none

-- The text up to the first colon, and from there on.
unfoldable pub host_name : List ℕ → List ℕ × List ℕ
host_name [] = ([], [])
host_name (c ∷ s) =
    let (name, rest) = host_name s in if c == b':' then ([], c ∷ s) else (c ∷ name, rest)

unfoldable pub same_text : List ℕ → List ℕ → Bool
same_text [] [] = true
same_text [] (y ∷ ys) = false
same_text (x ∷ xs) [] = false
same_text (x ∷ xs) (y ∷ ys) = if x == y then same_text xs ys else false

-- A host's name; an empty one counts as not resolved, since the result is its length.
unfoldable pub resolve_host : (List ℕ → Option Address) → Bool → List ℕ → Option (Address × List ℕ)
unfolding host_name
resolve_host resolve allocated s =
    let (name, rest) = host_name s in
    if not allocated || length name == 0 then none else do a ← resolve name; some (a, rest)

-- NET_StringToNetAddrNoPort. `resolve` is Sys_Net_ResolveName, `allocated` whether malloc succeeds.
unfoldable pub string_to_addr_no_port :
    (List ℕ → Option Address) → Bool → List ℕ → Option (Address × List ℕ)
unfolding same_text string_to_ipv6 string_to_ipv4 resolve_host
string_to_addr_no_port resolve allocated s =
    if same_text s (codes "local") then some (loopback, []) else elim (string_to_ipv6 s) [
      | some r ↦ some r
      | none ↦ elim (string_to_ipv4 s) [ some r ↦ some r | none ↦ resolve_host resolve allocated s ]
    ]

abbrev pub default_port : ℕ
default_port = 27500

-- The port behind a colon, or the default.
unfoldable pub read_port : List ℕ → Option (ℕ × List ℕ)
unfolding dec_to_uint
read_port [] = some (default_port, [])
read_port (c ∷ s) = if c == b':' then dec_to_uint 65535 s else some (default_port, c ∷ s)

unfoldable pub set_port : ℕ → Address → Option Address
set_port port loopback = if port == default_port then some loopback else none
set_port port (ipv4 a b c d old) = some (ipv4 a b c d port)
set_port port (ipv6 bytes old) = some (ipv6 bytes port)

-- NET_StringToAdr: `none` is its result false.
unfoldable pub string_to_adr : (List ℕ → Option Address) → Bool → List ℕ → Option Address
unfolding string_to_addr_no_port read_port set_port
string_to_adr resolve allocated s = do
  (a, s) ← string_to_addr_no_port resolve allocated s
  (port, s) ← read_port s
  if length s == 0 then set_port port a else none

test_local : string_to_adr (λ s. none) true (codes "10.0.0.1:27501") ≡ some (ipv4 10 0 0 1 27501)
unfolding string_to_adr
test_local = refl
