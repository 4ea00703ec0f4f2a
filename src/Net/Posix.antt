-- ===== src/Net/Posix.antt =====
-- src/net_posix.c: the sockets of a POSIX system. What a system call answers is an argument; -1 is
-- 2 ^ 32 - 1. The union of `struct netaddr` is its 18 bytes, on a little-endian machine.
use qwnet_library.Prelude.{
  ℕ, ◌+◌, ◌*◌, ◌/◌, ◌%◌, Bool, true, false, ◌&&◌, Option, none, some, List, [], ◌∷◌, ◌++◌, get_or,
  set, take, drop, replicate, ◌==◌, if◌then◌else◌, minus_one, is_negative,
}

-- `enum netaddrtype`
pub data Addrtype : Type 0 where
  na_loopback na_ipv4 na_ipv6 na_numtypes : Addrtype

-- `struct netaddr`. An IPv4 address has 4 bytes and then its port, an IPv6 address 16.
pub record Netaddr : Type 0 where
  pub addrtype : Addrtype
  pub addr : List ℕ

-- AF_INET, AF_INET6 or another number
pub data Domain : Type 0 where
  af_inet af_inet6 af_other : Domain

-- `struct SysSocket`
pub record SysSocket : Type 0 where
  pub s : ℕ
  pub domain : Domain

-- `struct sockaddr_in`: port and address. `struct sockaddr_in6`: port, flow information, address and
-- scope. The port is the number that its two bytes make.
pub data Sockaddr : Type 0 where
  sockaddr_in : ℕ → List ℕ → Sockaddr
  sockaddr_in6 : ℕ → ℕ → List ℕ → ℕ → Sockaddr
  no_sockaddr : Sockaddr

-- The length that recvfrom reports.
unfoldable pub size_of : Sockaddr → ℕ
size_of (sockaddr_in port address) = 16
size_of (sockaddr_in6 port flowinfo address scope_id) = 28
size_of no_sockaddr = 0

unfoldable pub htons : ℕ → ℕ
htons port = port % 256 * 256 + port / 256 % 256

-- An `unsigned short` in memory.
unfoldable pub short_at : ℕ → List ℕ → ℕ
short_at i bytes = get_or bytes i 0 + get_or bytes (i + 1) 0 * 256

-- Sys_Net_Init, which returns a pointer that is not null.
unfoldable pub sys_net_init : Bool
sys_net_init = true

-- `addr`, as Sys_Net_Send and Sys_Net_ResolveAddress fill it.
unfoldable pub ipv4_sockaddr : Netaddr → Sockaddr
ipv4_sockaddr a = sockaddr_in (htons (short_at 4 (a.addr))) (take 4 (a.addr))

unfoldable pub ipv6_sockaddr : Netaddr → Sockaddr
ipv6_sockaddr a = sockaddr_in6 (htons (short_at 16 (a.addr))) 0 (take 16 (a.addr)) 0

-- `address->addr.ipv4.address` and `address->addr.ipv6.address`, when they are written.
abbrev pub put_ipv4 : List ℕ → Netaddr → Netaddr
put_ipv4 bytes a = record { addrtype = na_ipv4; addr = bytes ++ drop 4 (a.addr) }

abbrev pub put_ipv6 : List ℕ → Netaddr → Netaddr
put_ipv6 bytes a = record { addrtype = na_ipv6; addr = bytes ++ drop 16 (a.addr) }

-- `address->addr.ipv4.port` and `address->addr.ipv6.port`, when they are written.
abbrev pub put_short : ℕ → ℕ → Netaddr → Netaddr
put_short i v a = record a { addr = set (set (a.addr) i (v % 256)) (i + 1) (v / 256 % 256) }

-- Sys_Net_ResolveName over the list that getaddrinfo returns, with what is not an internet address
-- as `no_sockaddr`: the address that is stored, or `none` for false. The port is left alone.
unfoldable pub first_address : List Sockaddr → Netaddr → Option Netaddr
first_address [] a = none
first_address (sockaddr_in port bytes ∷ rest) a = some (put_ipv4 bytes a)
first_address (sockaddr_in6 port flowinfo bytes scope_id ∷ rest) a = some (put_ipv6 bytes a)
first_address (no_sockaddr ∷ rest) a = first_address rest a

unfoldable pub sys_net_resolve_name : Option (List Sockaddr) → Netaddr → Option Netaddr
unfolding first_address
sys_net_resolve_name none a = none
sys_net_resolve_name (some answers) a = first_address answers a

-- Sys_Net_ResolveAddress: what getnameinfo is asked for, if it is called.
unfoldable pub resolved_sockaddr : Netaddr → Option Sockaddr
unfolding ipv4_sockaddr ipv6_sockaddr
resolved_sockaddr a = elim a.addrtype [
  | na_ipv4 ↦ some (ipv4_sockaddr a)
  | na_ipv6 ↦ some (ipv6_sockaddr a)
  | na_loopback ↦ none
  | na_numtypes ↦ none
]

-- Sys_Net_ResolveAddress. `named` is what getnameinfo answers about an address.
unfoldable pub sys_net_resolve_address : (Sockaddr → Option (List ℕ)) → Netaddr → Option (List ℕ)
unfolding resolved_sockaddr
sys_net_resolve_address named a = elim (resolved_sockaddr a) [ none ↦ none | some sa ↦ named sa ]

-- Sys_Net_Bind: the address that bind is called with, if it is. It succeeds if bind does.
unfoldable pub sys_net_bind : SysSocket → ℕ → (Sockaddr → Bool) → Bool
unfolding htons
sys_net_bind sock port bound = elim sock.domain [
  | af_inet ↦ bound (sockaddr_in (htons port) (replicate 4 0))
  | af_inet6 ↦ bound (sockaddr_in6 (htons port) 0 (replicate 16 0) 0)
  | af_other ↦ false
]

-- What a call of the system returns, and whether `errno` is EWOULDBLOCK.
pub record CallResult : Type 0 where
  pub r : ℕ
  pub would_block : Bool

-- `if (r == -1) { if (errno == EWOULDBLOCK) return 0; } return r;`
unfoldable pub result_of : CallResult → ℕ
result_of answer = if answer.r == minus_one && answer.would_block then 0 else answer.r

-- Where sendto is sent over a socket of that domain; `none` if Sys_Net_Send returns before.
unfoldable pub sent_sockaddr : Domain → Netaddr → Option Sockaddr
sent_sockaddr af_inet address = some (ipv4_sockaddr address)
sent_sockaddr af_inet6 address = some (ipv6_sockaddr address)
sent_sockaddr af_other address = none

-- Sys_Net_Send. `send_call` is what sendto answers, or send if there is no address.
unfoldable pub sys_net_send : SysSocket → Option Netaddr → (Option Sockaddr → CallResult) → ℕ
sys_net_send sock none send_call = result_of (send_call none)
sys_net_send sock (some address) send_call = elim (sent_sockaddr (sock.domain) address) [
  | none ↦ minus_one
  | some sa ↦ result_of (send_call (some sa))
]

-- What Sys_Net_Receive makes of the sender over a socket of that domain; `none` if the length is
-- wrong.
unfoldable pub stored_sender : Domain → Sockaddr → Netaddr → Option Netaddr
stored_sender af_inet (sockaddr_in port bytes) address =
    some (put_ipv4 bytes (put_short 4 (htons port) address))
stored_sender af_inet (sockaddr_in6 port flowinfo bytes scope_id) address = none
stored_sender af_inet no_sockaddr address = none
stored_sender af_inet6 (sockaddr_in6 port flowinfo bytes scope_id) address =
    some (put_ipv6 bytes (put_short 16 (htons port) address))
stored_sender af_inet6 (sockaddr_in port bytes) address = none
stored_sender af_inet6 no_sockaddr address = none
stored_sender af_other from address = some address

-- Sys_Net_Receive with an address to be stored: the result, and the address.
unfoldable pub sys_net_receive_from : SysSocket → Netaddr → CallResult → Sockaddr → ℕ × Netaddr
sys_net_receive_from sock address answer from =
    if is_negative (answer.r)
    then (result_of answer, address)
    else elim (stored_sender (sock.domain) from address) [
      | none ↦ (minus_one, address)
      | some a ↦ (answer.r, a)
    ]

-- Sys_Net_Receive without one.
unfoldable pub sys_net_receive : CallResult → ℕ
unfolding result_of
sys_net_receive answer = result_of answer

-- The time that Sys_Net_Wait gives to ppoll: seconds and nanoseconds.
unfoldable pub sys_net_wait : ℕ → ℕ × ℕ
sys_net_wait timeout_us = (timeout_us / 1000000, timeout_us % 1000000 * 1000)
