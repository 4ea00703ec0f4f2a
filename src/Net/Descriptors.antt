-- ===== src/Net/Descriptors.antt =====
-- src/net_posix.c: the making and closing of sockets, over what the process holds.
use qwnet_library.Net.Posix.{
  Addrtype, na_loopback, na_ipv4, na_ipv6, na_numtypes, Domain, af_inet, af_inet6, SysSocket,
}
use qwnet_library.Net.Sockets.{without}
use qwnet_library.Prelude.{
  ℕ, ◌+◌, ◌-◌, Bool, true, false, Option, none, some, List, ◌∷◌, ◌==◌, if◌then◌else◌,
}
use qwnet_library.Prelude.Action.{done, fault, Action, pure, ◌>>=◌, ◌>>◌}

-- What the process holds: the blocks from malloc, and the open descriptors.
pub record Process : Type 0 where
  pub blocks : ℕ
  pub descriptors : List ℕ

abbrev pub allocate : Bool → Action Process Bool
allocate ok p = done (ok, if ok then record p { blocks = p.blocks + 1 } else p)

-- free, of a block that was allocated
abbrev pub free_block : Action Process (Unit {0})
free_block p = if p.blocks == 0 then fault else done (tt, record p { blocks = p.blocks - 1 })

-- socket
abbrev pub open_descriptor : Option ℕ → Action Process (Option ℕ)
open_descriptor none p = done (none, p)
open_descriptor (some h) p = done (some h, record p { descriptors = h ∷ p.descriptors })

-- close, which does nothing to a descriptor that is not open
abbrev pub close_descriptor : ℕ → Action Process (Unit {0})
close_descriptor h p = elim (without h p.descriptors) [
  | none ↦ done (tt, p)
  | some left ↦ done (tt, record p { descriptors = left })
]

unfoldable pub domain_of : Addrtype → Option Domain
domain_of na_ipv4 = some af_inet
domain_of na_ipv6 = some af_inet6
domain_of na_loopback = none
domain_of na_numtypes = none

-- Sys_Net_CreateSocket, with what socket returned. `nonblocking` says whether ioctl succeeds.
unfoldable pub set_up : Domain → Bool → Option ℕ → Action Process (Option SysSocket)
set_up domain nonblocking none = do free_block; pure none
set_up domain true (some h) = pure (some (record { s = h; domain = domain }))
set_up domain false (some h) = do free_block; pure none

-- Sys_Net_CreateSocket, for the domain that goes with the type.
unfoldable pub create_in :
    Option Domain → Bool → Option ℕ → Bool → Action Process (Option SysSocket)
create_in none allocated answer nonblocking = pure none
create_in (some domain) allocated answer nonblocking = do
  ok ← allocate allocated
  if ok then open_descriptor answer >>= set_up domain nonblocking else pure none

-- Sys_Net_CreateSocket
unfoldable pub sys_net_create_socket :
    Addrtype → Bool → Option ℕ → Bool → Action Process (Option SysSocket)
unfolding domain_of create_in set_up
sys_net_create_socket addrtype = create_in (domain_of addrtype)

-- Sys_Net_DeleteSocket
unfoldable pub sys_net_delete_socket : SysSocket → Action Process (Unit {0})
sys_net_delete_socket sock = do close_descriptor (sock.s); free_block
