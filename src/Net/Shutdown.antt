-- ===== src/Net/Shutdown.antt =====
-- NET_Shutdown of src/net.c leaves no socket behind.
use qwnet_library.Net.Config.{Configured, net_server_config-Tidied}
use qwnet_library.Net.Sockets.{
  NetData, Network, Networking, SocketAnswer, socket_refused, net_server_config, empty_loopback,
  net_init, net_shutdown,
}
use qwnet_library.Net.Tidy.{handle, held, IsTidy, lost_by, Tidied}
use qwnet_library.Netqw.Ownership.{count, count-append}
use qwnet_library.Prelude.{
  ℕ, ◌≤◌, ◌≡◌, refl, ap, ◌∙◌, Bool, true, false, Option, none, some, List, [], ◌∷◌, ◌++◌, arith,
}
use qwnet_library.Prelude.Action.{Outcome, done, pure, ◌>>=◌, ◌>>◌}

nothing_counted : (ks : List ℕ) → ((k : ℕ) → count k ks ≡ 0) → ks ≡ []
nothing_counted [] h = refl
nothing_counted (k ∷ ks) h = absurd (ground (arith, h k))

-- NET_Shutdown of a client without a socket of its own closes all that is open.
net_shutdown-lem :
    (n : Network) (tidy : IsTidy n)
    → tidy.present.client_socket ≡ none
    → (lost : List ℕ) × (net_shutdown n
        ≡ done (tt, record { netdata = none; handles = []; lost = lost }))
      × ((h : ℕ) → count h lost ≤ count h n.lost)
unfolding net_shutdown
net_shutdown-lem n tidy e =
    let off = net_server_config-Tidied false false socket_refused n tidy in
    let c = off.tidy in
    let both : held c.present ≡ [] =
      ap (λ (s : Option ℕ). handle s ++ handle c.present.server_socket) (off.holds.0 ∙ e)
      ∙ ap handle off.holds.1 in
    let closed = nothing_counted off.after.handles (λ k. c.counted k ∙ ap (count k) both) in
    (
      off.after.lost,
      rw (tidy.here, ◌>>=◌) (rw (e, ◌>>=◌) (rw (off.equation, ◌>>=◌) (rw (closed) refl))),
      λ h. omega (arith, off.loses h),
    )

-- A call of NET_ServerConfig: `enable`, how Sys_Net_CreateSocket ends, and how Sys_Net_Bind.
pub record Config : Type 0 where
  pub enable : Bool
  pub answer : SocketAnswer
  pub bound : Bool

unfoldable pub configure : List Config → Networking (Unit {0})
configure [] = pure tt
configure (c ∷ cs) = do net_server_config c.enable c.answer c.bound; configure cs

-- The descriptors that ioctl fails for.
abbrev pub half_made : List Config → List ℕ
half_made [] = []
half_made (c ∷ cs) = half_made cs ++ lost_by c.answer

configure-Tidied :
    (cs : List Config) (n : Network) (tidy : IsTidy n)
    → Tidied (Configured true tidy.present) (half_made cs) n.lost (configure cs n)
unfolding configure
configure-Tidied [] n tidy = record {
  value = tt;
  after = n;
  equation = refl;
  tidy = tidy;
  holds = (refl, tt);
  loses = λ h. omega arith;
}
configure-Tidied (c ∷ cs) n tidy =
    let first = net_server_config-Tidied c.enable c.bound c.answer n tidy in
    let rest = configure-Tidied cs first.after first.tidy in
    record {
      value = tt;
      after = rest.after;
      equation = rw (first.equation, ◌>>=◌) rest.equation;
      tidy = rest.tidy;
      holds = (rest.holds.0 ∙ first.holds.0, tt);
      loses = λ h.
          omega
            (arith, rest.loses h, first.loses h, count-append h (half_made cs) (lost_by c.answer));
    }

-- A call that returns and leaves no socket open, but for descriptors of `may_lose`, each at most as
-- often as it stands there.
pub record IsClean (may_lose : List ℕ) (o : Outcome (Unit {0} × Network)) : Type 0 where
  pub lost : List ℕ
  pub returns : o ≡ done (tt, record { netdata = none; handles = []; lost = lost })
  pub only : (h : ℕ) → count h lost ≤ count h may_lose

-- After a call of NET_Init that gets its memory and any calls of NET_ServerConfig, whatever the system
-- answers, NET_Shutdown returns and leaves no socket open, but for the descriptors that
-- Sys_Net_CreateSocket lost because ioctl failed.
pub net_shutdown-IsClean :
    (system : Bool) (cs : List Config)
    → IsClean (half_made cs) (
        (net_init true system >> configure cs >> net_shutdown)
          (record { netdata = none; handles = []; lost = [] }))
unfolding net_init
net_shutdown-IsClean system cs =
    let d : NetData = record {
      sysnetdata = system;
      client_loop = empty_loopback;
      server_loop = empty_loopback;
      client_socket = none;
      server_socket = none;
    } in
    let fresh : Network = record { netdata = some d; handles = []; lost = [] } in
    let run =
      configure-Tidied cs fresh (record { present = d; here = refl; counted = λ k. refl }) in
    let shut = net_shutdown-lem run.after run.tidy run.holds.0 in
    record {
      lost = shut.0;
      returns = rw (run.equation, ◌>>=◌) shut.1;
      only = λ h. omega (arith, shut.2 h, run.loses h);
    }
