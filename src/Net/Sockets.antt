-- ===== src/Net/Sockets.antt =====
-- The packets, sockets and lifetime of src/net.c. What src/sys_net.c answers is an argument of each
-- operation; `handles` are the sockets that the system has open for the client, `lost` the descriptors
-- that Sys_Net_CreateSocket leaves open where ioctl fails, and that nothing names any more.
use qwnet_library.Channel.{received}
use qwnet_library.Net.{Address, loopback, ipv4, ipv6}
use qwnet_library.Net.Loopback.{Loopback, max_loopback, get_loop_packet, send_loop_packet}
use qwnet_library.Prelude.{
  ℕ, Bool, true, false, Option, none, some, List, [], ◌∷◌, replicate, ◌==◌, if◌then◌else◌,
}
use qwnet_library.Prelude.Action.{done, fault, Action, pure, stop, ◌>>=◌, ◌>>◌, modify}

-- `enum netsrc`
pub data Netsrc : Type 0 where
  ns_client ns_server : Netsrc

-- `struct NetData`. `sysnetdata` says whether Sys_Net_Init succeeded.
pub record NetData : Type 0 where
  pub sysnetdata : Bool
  pub client_loop : Loopback
  pub server_loop : Loopback
  pub client_socket : Option ℕ
  pub server_socket : Option ℕ

-- `qwc->netdata`, and the system's side.
pub record Network : Type 0 where
  pub netdata : Option NetData
  pub handles : List ℕ
  pub lost : List ℕ

abbrev pub Networking : Type 0 → Type 0
Networking A = Action Network A

abbrev pub other : Netsrc → Netsrc
other ns_client = ns_server
other ns_server = ns_client

abbrev pub loop_of : Netsrc → NetData → Loopback
loop_of ns_client d = d.client_loop
loop_of ns_server d = d.server_loop

abbrev pub with_loop : Netsrc → Loopback → NetData → NetData
with_loop ns_client l d = record d { client_loop = l }
with_loop ns_server l d = record d { server_loop = l }

abbrev pub socket_of : Netsrc → NetData → Option ℕ
socket_of ns_client d = d.client_socket
socket_of ns_server d = d.server_socket

abbrev pub with_socket : Netsrc → Option ℕ → NetData → NetData
with_socket ns_client s d = record d { client_socket = s }
with_socket ns_server s d = record d { server_socket = s }

-- NET_GetPacket: the message and where it is from, or `none` for false. `received` is what
-- Sys_Net_Receive stores, if it is called and its result is positive.
unfoldable pub net_get_packet :
    Netsrc → Option (List ℕ × Address) → NetData → Option (List ℕ × Address) × NetData
net_get_packet src received d =
    let (message, l) = get_loop_packet (loop_of src d) in
    elim message [
      | some m ↦ (some (m, loopback), with_loop src l d)
      | none ↦ elim (socket_of src d) [
        | none ↦ (none, with_loop src l d)
        | some h ↦ (received, with_loop src l d)
      ]
    ]

-- NET_SendPacket: what Sys_Net_Send is called with, if it is; `none` is a write past a slot.
unfoldable pub net_send_packet :
    Netsrc → List ℕ → Address → NetData → Option (Option (ℕ × List ℕ × Address) × NetData)
net_send_packet src bytes loopback d = elim (send_loop_packet bytes (loop_of (other src) d)) [
  | none ↦ none
  | some l ↦ some (none, with_loop (other src) l d)
]
net_send_packet src bytes (ipv4 a b c e port) d = elim (socket_of src d) [
  | none ↦ some (none, d)
  | some h ↦ some (some (h, bytes, ipv4 a b c e port), d)
]
net_send_packet src bytes (ipv6 group port) d = elim (socket_of src d) [
  | none ↦ some (none, d)
  | some h ↦ some (some (h, bytes, ipv6 group port), d)
]

unfoldable pub without : ℕ → List ℕ → Option (List ℕ)
without h [] = none
without h (k ∷ ks) =
    let rest = without h ks in
    if h == k then some ks else elim rest [ none ↦ none | some left ↦ some (k ∷ left) ]

-- Sys_Net_DeleteSocket; of a socket that is not open, a fault.
unfoldable pub delete_socket : ℕ → Networking (Unit {0})
delete_socket h n = elim (without h n.handles) [
  | none ↦ fault
  | some left ↦ done (tt, record n { handles = left })
]

-- How Sys_Net_CreateSocket ends: without memory or a descriptor, with a descriptor that ioctl fails
-- for, or with a socket.
pub data SocketAnswer : Type 0 where
  socket_refused : SocketAnswer
  socket_half_made : ℕ → SocketAnswer
  socket_made : ℕ → SocketAnswer

-- Sys_Net_CreateSocket. It does not close a descriptor that ioctl failed for.
unfoldable pub create_socket : SocketAnswer → Networking (Option ℕ)
create_socket socket_refused n = done (none, n)
create_socket (socket_half_made h) n = done (none, record n { lost = h ∷ n.lost })
create_socket (socket_made h) n = done (some h, record n { handles = h ∷ n.handles })

-- `qwc->netdata->…`; a fault while it is null.
abbrev pub the_netdata : Networking NetData
the_netdata n = elim n.netdata [ none ↦ fault | some d ↦ done (d, n) ]

abbrev pub put_socket : Netsrc → Option ℕ → Networking (Unit {0})
put_socket src s n = elim n.netdata [
  | none ↦ fault
  | some d ↦ done (tt, record n { netdata = some (with_socket src s d) })
]

-- `if (socket) Sys_Net_DeleteSocket(…, socket)`
abbrev pub delete_if_open : Option ℕ → Networking (Unit {0})
delete_if_open none = pure tt
delete_if_open (some h) = delete_socket h

-- NET_OpenSocket
unfoldable pub net_open_socket : Netsrc → SocketAnswer → Networking Bool
net_open_socket src answer = do
  d ← the_netdata
  delete_if_open (socket_of src d)
  s ← create_socket answer
  put_socket src s
  pure (elim s [ none ↦ false | some h ↦ true ])

-- NET_ServerConfig, when a new server socket was created.
unfoldable pub bind_server : Bool → Option ℕ → Networking (Unit {0})
bind_server bound none = pure tt
bind_server bound (some h) =
    if bound then pure tt else (delete_socket h >> put_socket ns_server none)

-- NET_ServerConfig, when the server is switched off.
unfoldable pub stop_server : Option ℕ → Networking (Unit {0})
stop_server none = pure tt
stop_server (some h) = do delete_socket h; put_socket ns_server none

-- NET_ServerConfig. `answer` is what Sys_Net_CreateSocket gives, `bound` whether Sys_Net_Bind
-- succeeds.
unfoldable pub net_server_config : Bool → SocketAnswer → Bool → Networking (Unit {0})
net_server_config true answer bound = do
  d ← the_netdata
  elim d.server_socket [
    | some h ↦ pure tt
    | none ↦ do s ← create_socket answer; put_socket ns_server s; bind_server bound s
  ]
net_server_config false answer bound = do d ← the_netdata; stop_server d.server_socket

abbrev pub empty_loopback : Loopback
empty_loopback = record { msgs = replicate max_loopback []; get = 0; send = 0 }

-- NET_Init
unfoldable pub net_init : Bool → Bool → Networking (Unit {0})
net_init allocated system n =
    let d : NetData = record {
      sysnetdata = system;
      client_loop = empty_loopback;
      server_loop = empty_loopback;
      client_socket = none;
      server_socket = none;
    } in
    done (tt, record n { netdata = if allocated then some d else none })

-- NET_Shutdown. Sys_Error returns, so a missing `netdata` is read all the same. The client's socket
-- is looked up in the global variable `netdata`, which nothing sets.
unfoldable pub net_shutdown : Networking (Unit {0})
unfolding net_server_config
net_shutdown = do
  d ← the_netdata
  elim d.client_socket [ none ↦ pure tt | some h ↦ stop ]
  net_server_config false socket_refused false
  modify (λ (n : Network). record n { netdata = none })
