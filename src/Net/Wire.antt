-- ===== src/Net/Wire.antt =====
-- src/net_posix.c: the addresses that Sys_Net_Receive stores, and where Sys_Net_Send sends to.
use mathlib.Core.Path.{ap₂}
use native.Mathlib.Nat.{add-zero}
use qwnet_library.Net.Posix.{
  Netaddr, Domain, af_inet, af_inet6, af_other, SysSocket, Sockaddr, sockaddr_in, sockaddr_in6,
  no_sockaddr, htons, short_at, ipv4_sockaddr, ipv6_sockaddr, put_ipv4, put_ipv6, put_short,
  CallResult, result_of, sent_sockaddr, sys_net_send, stored_sender, sys_net_receive_from,
}
use qwnet_library.Prelude.{
  ℕ, ◌+◌, ◌/◌, ◌%◌, ◌^◌, ◌<◌, ◌≡◌, refl, sym, ap, ◌∙◌, false, Option, some, List, ◌++◌, arith,
  length, get_or, set, drop, length-set, get_or-set_self, get_or-set_ne, get_or-append_right,
  get_or-drop, take-front, lt→leb, is_negative,
}

-- What the system reports of a sender, over a socket of its family.
abbrev pub IsSender : Domain → Sockaddr → Type 0
IsSender af_inet (sockaddr_in port bytes) = (port < 65536) × (length bytes ≡ 4)
IsSender af_inet (sockaddr_in6 port flowinfo bytes scope_id) = ⊥
IsSender af_inet no_sockaddr = ⊥
IsSender af_inet6 (sockaddr_in6 port flowinfo bytes scope_id) = (port < 65536) × (length bytes ≡ 16)
IsSender af_inet6 (sockaddr_in port bytes) = ⊥
IsSender af_inet6 no_sockaddr = ⊥
IsSender af_other from = ⊥

-- The flow information and the scope of an IPv6 address are not stored.
abbrev pub without_scope : Sockaddr → Sockaddr
without_scope (sockaddr_in port bytes) = sockaddr_in port bytes
without_scope (sockaddr_in6 port flowinfo bytes scope_id) = sockaddr_in6 port 0 bytes 0
without_scope no_sockaddr = no_sockaddr

htons-htons : (port : ℕ) → port < 65536 → htons (htons port) ≡ port
unfolding htons
htons-htons port h = omega arith

htons_bound : (port : ℕ) → htons port < 65536
unfolding htons
htons_bound port = omega arith

-- A port that was written behind an address of `i` bytes, before these were.
short_at-stored :
    (bytes l : List ℕ) (i v : ℕ)
    → length bytes ≡ i
    → i + 1 < length l
    → v < 65536
    → short_at i (bytes ++ drop i (set (set l i (v % 256)) (i + 1) (v / 256 % 256))) ≡ v
unfolding short_at
short_at-stored bytes l i v long inside small =
    let l' : List ℕ = set (set l i (v % 256)) (i + 1) (v / 256 % 256) in
    let low : get_or (bytes ++ drop i l') i 0 ≡ v % 256 =
      ap (λ k. get_or (bytes ++ drop i l') k 0) (omega arith)
      ∙ get_or-append_right bytes (drop i l') 0 0
      ∙ get_or-drop i 0 l' 0
      ∙ get_or-set_ne (set l i (v % 256)) (i + 1) (i + 0) (v / 256 % 256) 0 (λ e. omega arith)
      ∙ ap (λ k. get_or (set l i (v % 256)) k 0) (add-zero i)
      ∙ get_or-set_self l i (v % 256) 0 (omega arith) in
    let high : get_or (bytes ++ drop i l') (i + 1) 0 ≡ v / 256 % 256 =
      ap (λ k. get_or (bytes ++ drop i l') k 0) (omega arith)
      ∙ get_or-append_right bytes (drop i l') 1 0
      ∙ get_or-drop i 1 l' 0
      ∙ get_or-set_self (set l i (v % 256)) (i + 1) (v / 256 % 256) 0
          (omega (arith, length-set l i (v % 256))) in
    rw (low, high) (omega arith)

-- An address that was stored, and what is sent to it.
pub record Replied (domain : Domain) (from : Sockaddr) (address : Netaddr) : Type 0 where
  pub stored : Netaddr
  pub kept : stored_sender domain from address ≡ some stored
  pub target : sent_sockaddr domain stored ≡ some (without_scope from)

sent_sockaddr-stored_sender :
    (domain : Domain) (from : Sockaddr) (address : Netaddr)
    → length address.addr ≡ 18
    → IsSender domain from
    → Replied domain from address
unfolding sent_sockaddr stored_sender ipv4_sockaddr ipv6_sockaddr
sent_sockaddr-stored_sender af_inet (sockaddr_in port bytes) address long h = record {
  stored = put_ipv4 bytes (put_short 4 (htons port) address);
  kept = refl;
  target = ap some (
      ap₂ sockaddr_in
        (ap htons (
            short_at-stored bytes (address.addr) 4 (htons port) h.1 (omega arith)
              (htons_bound port))
          ∙ htons-htons port h.0)
        (take-front bytes _ 4 (sym h.1)));
}
sent_sockaddr-stored_sender af_inet (sockaddr_in6 port flowinfo bytes scope_id) address long h =
    absurd h
sent_sockaddr-stored_sender af_inet no_sockaddr address long h = absurd h
sent_sockaddr-stored_sender af_inet6 (sockaddr_in6 port flowinfo bytes scope_id) address long h =
    record {
      stored = put_ipv6 bytes (put_short 16 (htons port) address);
      kept = refl;
      target = ap some (
          ap₂ (λ v w. sockaddr_in6 v 0 w 0)
            (ap htons (
                short_at-stored bytes (address.addr) 16 (htons port) h.1 (omega arith)
                  (htons_bound port))
              ∙ htons-htons port h.0)
            (take-front bytes _ 16 (sym h.1)));
    }
sent_sockaddr-stored_sender af_inet6 (sockaddr_in port bytes) address long h = absurd h
sent_sockaddr-stored_sender af_inet6 no_sockaddr address long h = absurd h
sent_sockaddr-stored_sender af_other from address long h = absurd h

-- What is stored of a datagram's sender, and what comes of an answer to it.
pub record Answered (sock : SysSocket) (address : Netaddr) (answer : CallResult) (from : Sockaddr)
    (send_call : Option Sockaddr → CallResult) : Type 0 where
  pub stored : Netaddr
  pub heard : sys_net_receive_from sock address answer from ≡ (answer.r, stored)
  pub sent_back :
      sys_net_send sock (some stored) send_call ≡ result_of (send_call (some (without_scope from)))

-- Over a socket of IPv4 or IPv6, once a datagram was received Sys_Net_Send with the address that
-- Sys_Net_Receive has stored sends to the address and port of the sender, whatever stood in that
-- address before; the flow information and the scope of an IPv6 address are lost.
pub sys_net_send-sys_net_receive_from :
    (sock : SysSocket) (address : Netaddr) (answer : CallResult) (from : Sockaddr)
    (send_call : Option Sockaddr → CallResult)
    → length address.addr ≡ 18
    → IsSender sock.domain from
    → answer.r < 2 ^ 31
    → Answered sock address answer from send_call
unfolding sys_net_send sys_net_receive_from
sys_net_send-sys_net_receive_from sock address answer from send_call long h got =
    let reply = sent_sockaddr-stored_sender (sock.domain) from address long h in
    let positive : is_negative (answer.r) ≡ false = lt→leb 0x8000_0000 (answer.r) got in
    record {
      stored = reply.stored;
      heard = rw (positive, reply.kept) refl;
      sent_back = rw (sys_net_send, reply.target) refl;
    }
