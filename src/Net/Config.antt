-- ===== src/Net/Config.antt =====
-- NET_ServerConfig of src/net.c keeps the sockets in order.
use mathlib.Core.Path.{subst}
use qwnet_library.Net.Sockets.{
  ns_server, NetData, Network, with_socket, without, delete_socket, SocketAnswer, bind_server,
  stop_server, net_server_config,
}
use qwnet_library.Net.Tidy.{
  handle, held, IsTidy, given, lost_by, Tidied, delete_if_open-Gone, create_socket-handle,
  count-held, count-socket,
}
use qwnet_library.Netqw.Ownership.{count, count-append}
use qwnet_library.Prelude.{
  ℕ, ◌+◌, ◌≤◌, ◌≡◌, refl, sym, ap, ◌∙◌, inl, inr, Bool, true, false, Option, none, some, List, [],
  ◌∷◌, ◌++◌, arith, ◌==◌, if◌then◌else◌, Option-cases,
}
use qwnet_library.Prelude.Action.{done, ◌>>=◌}

without-head : (h : ℕ) (ks : List ℕ) → without h (h ∷ ks) ≡ some ks
unfolding without
without-head h ks = let same : (h == h) ≡ true = ground arith in rw (same) refl

-- The client's socket stays, and switching the server off leaves it without one.
abbrev pub Configured : Bool → NetData → NetData → Type 0
Configured enable d d' =
    (d'.client_socket ≡ d.client_socket) × (if enable then Unit {0} else (d'.server_socket ≡ none))

server_created :
    (k : ℕ) (answer : Option ℕ) (n : Network) (tidy : IsTidy n)
    → tidy.present.server_socket ≡ none
    → count k (handle answer ++ n.handles)
      ≡ count k (held (with_socket ns_server answer tidy.present))
server_created k answer n tidy e = omega (
  arith,
  count-append k (handle answer) n.handles,
  tidy.counted k,
  count-held k ns_server answer tidy.present,
  ap (λ (s : Option ℕ). count k (handle s)) e,
)

-- A new server socket that cannot be bound is deleted again.
bind_server-Tidied :
    (bound : Bool) (answer : Option ℕ) (may_lose lost : List ℕ) (n : Network) (tidy : IsTidy n)
    → tidy.present.server_socket ≡ none
    → ((h : ℕ) → count h lost ≤ count h may_lose + count h n.lost)
    → Tidied (Configured true tidy.present) may_lose n.lost (
        bind_server bound answer (record {
          netdata = some (with_socket ns_server answer tidy.present);
          handles = handle answer ++ n.handles;
          lost = lost;
        }))
unfolding bind_server delete_socket
bind_server-Tidied bound none may_lose lost n tidy e k = record {
  value = tt;
  after = record {
    netdata = some (with_socket ns_server none tidy.present);
    handles = n.handles;
    lost = lost;
  };
  equation = refl;
  tidy = record {
    present = with_socket ns_server none tidy.present;
    here = refl;
    counted = λ j. server_created j none n tidy e;
  };
  holds = (refl, tt);
  loses = k;
}
bind_server-Tidied true (some h) may_lose lost n tidy e k = record {
  value = tt;
  after = record {
    netdata = some (with_socket ns_server (some h) tidy.present);
    handles = h ∷ n.handles;
    lost = lost;
  };
  equation = refl;
  tidy = record {
    present = with_socket ns_server (some h) tidy.present;
    here = refl;
    counted = λ j. server_created j (some h) n tidy e;
  };
  holds = (refl, tt);
  loses = k;
}
bind_server-Tidied false (some h) may_lose lost n tidy e k = record {
  value = tt;
  after = record {
    netdata = some (with_socket ns_server none tidy.present);
    handles = n.handles;
    lost = lost;
  };
  equation = rw (delete_socket, without-head h n.handles, ◌>>=◌) refl;
  tidy = record {
    present = with_socket ns_server none tidy.present;
    here = refl;
    counted = λ j. server_created j none n tidy e;
  };
  holds = (refl, tt);
  loses = k;
}

-- NET_ServerConfig does nothing where the server's socket is as it should be.
net_server_config-same :
    (enable bound : Bool) (answer : SocketAnswer) (n : Network) (d : NetData)
    → n.netdata ≡ some d
    → (if enable then ((h : ℕ) × (d.server_socket ≡ some h)) else (d.server_socket ≡ none))
    → net_server_config enable answer bound n ≡ done (tt, n)
unfolding net_server_config stop_server
net_server_config-same true bound answer n d here (h, e) =
    subst
      (λ o.
        let m : Network = record { netdata = o; handles = n.handles; lost = n.lost } in
        net_server_config true answer bound m ≡ done (tt, m))
      (sym here) (rw (e, ◌>>=◌) refl)
net_server_config-same false bound answer n d here e =
    subst
      (λ o.
        let m : Network = record { netdata = o; handles = n.handles; lost = n.lost } in
        net_server_config false answer bound m ≡ done (tt, m))
      (sym here)
      (ap (λ s. stop_server s (record { netdata = some d; handles = n.handles; lost = n.lost })) e)

net_server_config-off :
    (bound : Bool) (answer : SocketAnswer) (n : Network) (d : NetData) (h : ℕ) (left : List ℕ)
    → n.netdata ≡ some d
    → d.server_socket ≡ some h
    → delete_socket h n ≡ done (tt, record n { handles = left })
    → net_server_config false answer bound n
      ≡ done (
        tt,
        record { netdata = some (with_socket ns_server none d); handles = left; lost = n.lost },
      )
unfolding net_server_config stop_server
net_server_config-off bound answer n d h left here e deletes =
    subst
      (λ o.
        let m : Network = record { netdata = o; handles = n.handles; lost = n.lost } in
        delete_socket h m ≡ done (tt, record m { handles = left })
        → net_server_config false answer bound m
          ≡ done (
            tt,
            record { netdata = some (with_socket ns_server none d); handles = left; lost = n.lost },
          ))
      (sym here)
      (λ gone.
        let m : Network = record { netdata = some d; handles = n.handles; lost = n.lost } in
        ap (λ s. stop_server s m) e ∙ rw (stop_server, gone, ◌>>=◌) refl)
      deletes

-- NET_ServerConfig returns, and keeps the client's socket.
pub net_server_config-Tidied :
    (enable bound : Bool) (answer : SocketAnswer) (n : Network) (tidy : IsTidy n)
    → Tidied
        (Configured enable tidy.present)
        (lost_by answer)
        n.lost
        (net_server_config enable answer bound n)
unfolding net_server_config
net_server_config-Tidied true bound answer n tidy = elim (Option-cases tidy.present.server_socket) [
  | inr (h, e) ↦ record {
    value = tt;
    after = n;
    equation = net_server_config-same true bound answer n tidy.present tidy.here (h, e);
    tidy = tidy;
    holds = (refl, tt);
    loses = λ h. omega arith;
  }
  | inl e ↦
      let made = create_socket-handle answer n in
      let bind =
        bind_server-Tidied bound (given answer) (lost_by answer) (lost_by answer ++ n.lost) n tidy e
          (λ h. omega (arith, count-append h (lost_by answer) n.lost)) in
      record {
        value = bind.value;
        after = bind.after;
        equation =
            rw (tidy.here, ◌>>=◌)
              (rw (e, ◌>>=◌) (rw (made, ◌>>=◌) (rw (tidy.here, ◌>>=◌) bind.equation)));
        tidy = bind.tidy;
        holds = bind.holds;
        loses = bind.loses;
      }
]
net_server_config-Tidied false bound answer n tidy =
    elim (Option-cases tidy.present.server_socket) [
      | inl e ↦ record {
        value = tt;
        after = n;
        equation = net_server_config-same false bound answer n tidy.present tidy.here e;
        tidy = tidy;
        holds = (refl, e);
        loses = λ h. omega arith;
      }
      | inr (h, e) ↦
          let d = tidy.present in
          let named : (k : ℕ) → count k (handle d.server_socket) ≡ count k (h ∷ []) =
            λ k. ap (λ (s : Option ℕ). count k (handle s)) e in
          let gone =
            delete_if_open-Gone (some h) n
              (λ k. omega (arith, tidy.counted k, count-socket k ns_server d, named k)) in
          record {
            value = tt;
            after = record {
              netdata = some (with_socket ns_server none d);
              handles = gone.left;
              lost = n.lost;
            };
            equation = net_server_config-off bound answer n d h gone.left tidy.here e gone.deletes;
            tidy = record {
              present = with_socket ns_server none d;
              here = refl;
              counted = λ k.
                  omega
                    (arith, gone.fewer k, tidy.counted k, count-held k ns_server none d, named k);
            };
            holds = (refl, refl);
            loses = λ h. omega arith;
          }
    ]
