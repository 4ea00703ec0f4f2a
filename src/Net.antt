-- ===== src/Net.antt =====
-- Network addresses of src/net.c. A text is the list of its characters, without the final 0.
pub mod Reading
pub mod Loopback
pub mod Sockets
pub mod Comparison
pub mod RoundTrip
pub mod Newest
pub mod Queue
pub mod Tidy
pub mod Config
pub mod Shutdown
pub mod Posix
pub mod Descriptors
pub mod Wire
pub mod Opening
use qwnet_library.Parse.Message.{more}
use qwnet_library.Prelude.{
  ℕ, zero, suc, ◌+◌, ◌-◌, ◌*◌, ◌/◌, ◌%◌, ◌^◌, Bool, true, false, ◌&&◌, Option, none, some, List, [],
  ◌∷◌, ◌++◌, get_or, ltb, ◌==◌, if◌then◌else◌, minus_one,
}
use qwnet_library.Prelude.Text.{codes, print_nat}

-- `struct netaddr`: its type with the member of the union that goes with it. An IPv6 address has 16
-- bytes.
pub data Address : Type 0 where
  loopback : Address
  ipv4 : ℕ → ℕ → ℕ → ℕ → ℕ → Address
  ipv6 : List ℕ → ℕ → Address

-- memcmp
unfoldable pub same_bytes : List ℕ → List ℕ → Bool
same_bytes [] [] = true
same_bytes [] (y ∷ ys) = false
same_bytes (x ∷ xs) [] = false
same_bytes (x ∷ xs) (y ∷ ys) = x == y && same_bytes xs ys

-- NET_CompareBaseAdr: without the port.
unfoldable pub compare_base_adr : Address → Address → Bool
unfolding same_bytes
compare_base_adr loopback loopback = true
compare_base_adr (ipv4 a b c d port) (ipv4 a' b' c' d' port') =
    a == a' && b == b' && c == c' && d == d'
compare_base_adr (ipv6 bytes port) (ipv6 bytes' port') = same_bytes bytes bytes'
compare_base_adr loopback (ipv4 a b c d port) = false
compare_base_adr loopback (ipv6 bytes port) = false
compare_base_adr (ipv4 a b c d port) loopback = false
compare_base_adr (ipv4 a b c d port) (ipv6 bytes port') = false
compare_base_adr (ipv6 bytes port) loopback = false
compare_base_adr (ipv6 bytes port) (ipv4 a b c d port') = false

-- NET_CompareAdr
unfoldable pub compare_adr : Address → Address → Bool
unfolding same_bytes
compare_adr loopback loopback = true
compare_adr (ipv4 a b c d port) (ipv4 a' b' c' d' port') =
    a == a' && b == b' && c == c' && d == d' && port == port'
compare_adr (ipv6 bytes port) (ipv6 bytes' port') = same_bytes bytes bytes' && port == port'
compare_adr loopback (ipv4 a b c d port) = false
compare_adr loopback (ipv6 bytes port) = false
compare_adr (ipv4 a b c d port) loopback = false
compare_adr (ipv4 a b c d port) (ipv6 bytes port') = false
compare_adr (ipv6 bytes port) loopback = false
compare_adr (ipv6 bytes port) (ipv4 a b c d port') = false

-- NET_IsLocalAddress: 127.0.0.1 only.
unfoldable pub is_local_address : Address → Bool
is_local_address loopback = false
is_local_address (ipv4 a b c d port) = a == 127 && b == 0 && c == 0 && d == 1
is_local_address (ipv6 bytes port) = false

-- The two bytes at `i` as one number.
unfoldable pub group_at : List ℕ → ℕ → ℕ
group_at bytes i = get_or bytes i 0 * 2 ^ 8 + get_or bytes (i + 1) 0

-- The number of bytes in the run of zero groups from `i` on; `left` groups are left.
unfoldable pub zero_run : ℕ → List ℕ → ℕ → ℕ
unfolding group_at
zero_run zero bytes i = 0
zero_run (suc left) bytes i =
    let more = zero_run left bytes (i + 2) in if group_at bytes i == 0 then 2 + more else 0

-- The first loop of NET_IPv6ToString: where the longest run starts, and how long it is.
unfoldable pub longest_run : ℕ → List ℕ → ℕ → ℕ → ℕ → ℕ × ℕ
unfolding zero_run
longest_run zero bytes i start size = (start, size)
longest_run (suc left) bytes i start size =
    let j = zero_run (suc left) bytes i in
    let next = longest_run left bytes (i + 2) in if ltb size j then next i j else next start size

abbrev hex_digit : ℕ → ℕ
hex_digit d = if ltb d 10 then d + 48 else d + 87

-- `%x`, at most `fuel` digits.
unfoldable pub print_hex_nat : ℕ → ℕ → List ℕ
print_hex_nat zero v = []
print_hex_nat (suc fuel) v =
    let high = print_hex_nat fuel (v / 16) in
    if ltb v 16 then hex_digit v ∷ [] else high ++ (hex_digit (v % 16) ∷ [])

-- The second loop: `left` groups are left; those of the run print as one colon.
unfoldable pub print_groups : ℕ → List ℕ → ℕ → ℕ → ℕ → ℕ → List ℕ
unfolding print_hex_nat group_at
print_groups zero bytes start size skip i = []
print_groups (suc left) bytes start size zero i =
    let rest = print_groups left bytes start size 0 (i + 2) in
    let run = print_groups left bytes start size (size / 2 - 1) (i + 2) in
    if i == start
    then b':' ∷ run
    else (if i == 0 then [] else b':' ∷ []) ++ (print_hex_nat 4 (group_at bytes i) ++ rest)
print_groups (suc left) bytes start size (suc skip) i =
    print_groups left bytes start size skip (i + 2)

-- NET_IPv6ToString. The text has at most 47 characters, and its buffer 64.
unfoldable pub ipv6_to_string : List ℕ → Option ℕ → List ℕ
unfolding longest_run print_groups
ipv6_to_string bytes port =
    let (start, size) = longest_run 8 bytes 0 minus_one 0 in
    b'['
    ∷ (print_groups 8 bytes start size 0 0
        ++ (b']' ∷ elim port [ none ↦ [] | some p ↦ b':' ∷ print_nat 10 p ]))

unfoldable pub dotted : ℕ → ℕ → ℕ → ℕ → List ℕ
dotted a b c d =
    print_nat 10 a
    ++ (b'.' ∷ (print_nat 10 b ++ (b'.' ∷ (print_nat 10 c ++ (b'.' ∷ print_nat 10 d)))))

-- NET_AdrToString
unfoldable pub adr_to_string : Address → List ℕ
unfolding dotted ipv6_to_string
adr_to_string loopback = codes "loopback"
adr_to_string (ipv4 a b c d port) = dotted a b c d ++ (b':' ∷ print_nat 10 port)
adr_to_string (ipv6 bytes port) = ipv6_to_string bytes (some port)

-- NET_BaseAdrToString
unfoldable pub base_adr_to_string : Address → List ℕ
unfolding dotted ipv6_to_string
base_adr_to_string loopback = codes "loopback"
base_adr_to_string (ipv4 a b c d port) = dotted a b c d
base_adr_to_string (ipv6 bytes port) = ipv6_to_string bytes none
