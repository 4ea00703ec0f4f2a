-- ===== src/Net/Tidy.antt =====
-- Every socket that src/net.c has open hangs in `netdata`, and NET_Shutdown closes them.
use qwnet_library.Net.Sockets.{
  Netsrc, ns_client, ns_server, NetData, Network, other, socket_of, with_socket, without,
  delete_socket, SocketAnswer, socket_refused, socket_half_made, socket_made, create_socket,
  delete_if_open, net_open_socket,
}
use qwnet_library.Netqw.Ownership.{count, count-append}
use qwnet_library.Prelude.{
  ℕ, ◌+◌, ◌≤◌, ◌<◌, ◌≡◌, refl, inl, inr, true, false, Option, none, some, List, [], ◌∷◌, ◌++◌,
  arith, ◌==◌, if◌then◌else◌, ==_iff, Bool-cases,
}
use qwnet_library.Prelude.Action.{Outcome, done, ◌>>=◌}

abbrev pub handle : Option ℕ → List ℕ
handle none = []
handle (some h) = h ∷ []

-- The sockets that hang in `netdata`.
abbrev pub held : NetData → List ℕ
held d = handle d.client_socket ++ handle d.server_socket

-- `netdata` is there, and the open sockets are those that hang in it, each once.
pub record IsTidy (n : Network) : Type 0 where
  pub present : NetData
  pub here : n.netdata ≡ some present
  pub counted : (h : ℕ) → count h n.handles ≡ count h (held present)

-- The socket that an answer gives.
abbrev pub given : SocketAnswer → Option ℕ
given (socket_made h) = some h
given _ = none

-- The descriptor that an answer loses.
abbrev pub lost_by : SocketAnswer → List ℕ
lost_by (socket_half_made h) = h ∷ []
lost_by _ = []

-- The operation returns, and leaves the sockets in order, with `R` of the new `netdata`. It loses no
-- descriptors but those of `may_lose`, each at most as often as it stands there.
pub record Tidied {A : Type 0} (R : NetData → Type 0) (may_lose before : List ℕ)
    (o : Outcome (A × Network)) : Type 0 where
  pub value : A
  pub after : Network
  pub equation : o ≡ done (value, after)
  pub tidy : IsTidy after
  pub holds : R tidy.present
  pub loses : (h : ℕ) → count h after.lost ≤ count h may_lose + count h before

-- What is counted is found, and taken out once.
record TakenOut (h : ℕ) (ks : List ℕ) : Type 0 where
  left : List ℕ
  found : without h ks ≡ some left
  fewer : (k : ℕ) → count k left + (if k == h then 1 else 0) ≡ count k ks

without-TakenOut : (h : ℕ) (ks : List ℕ) → 0 < count h ks → TakenOut h ks
unfolding without
without-TakenOut h [] pos = absurd (omega arith)
without-TakenOut h (k ∷ ks) pos = elim (Bool-cases (h == k)) [
  | inl same ↦ record { left = ks; found = rw (same) refl; fewer = λ j. ground (arith, ==_iff h k) }
  | inr differs ↦
      let rest = without-TakenOut h ks (ground arith) in
      record {
        left = k ∷ rest.left;
        found = rw (differs) (rw rest.found refl);
        fewer = λ j. omega (arith, rest.fewer j);
      }
]

-- `delete_if_open` of a socket that is among the open ones.
pub record Gone (s : Option ℕ) (n : Network) : Type 0 where
  pub left : List ℕ
  pub deletes : delete_if_open s n ≡ done (tt, record n { handles = left })
  pub fewer : (k : ℕ) → count k left + count k (handle s) ≡ count k n.handles

pub delete_if_open-Gone :
    (s : Option ℕ) (n : Network) → ((k : ℕ) → count k (handle s) ≤ count k n.handles) → Gone s n
unfolding delete_socket
delete_if_open-Gone none n covered = record {
  left = n.handles;
  deletes = refl;
  fewer = λ k. omega arith;
}
delete_if_open-Gone (some h) n covered =
    let out = without-TakenOut h n.handles (ground (arith, covered h)) in
    record {
      left = out.left;
      deletes = rw (delete_socket, out.found) refl;
      fewer = λ k. omega (arith, out.fewer k);
    }

pub create_socket-handle :
    (a : SocketAnswer) (n : Network)
    → create_socket a n
      ≡ done (
        given a,
        record n { handles = handle (given a) ++ n.handles; lost = lost_by a ++ n.lost },
      )
unfolding create_socket
create_socket-handle socket_refused n = refl
create_socket-handle (socket_half_made h) n = refl
create_socket-handle (socket_made h) n = refl

pub count-held :
    (k : ℕ) (src : Netsrc) (s : Option ℕ) (d : NetData)
    → count k (held (with_socket src s d)) + count k (handle (socket_of src d))
      ≡ count k (held d) + count k (handle s)
count-held k ns_client s d = omega (
  arith,
  count-append k (handle s) (handle d.server_socket),
  count-append k (handle d.client_socket) (handle d.server_socket),
)
count-held k ns_server s d = omega (
  arith,
  count-append k (handle d.client_socket) (handle s),
  count-append k (handle d.client_socket) (handle d.server_socket),
)

pub count-socket :
    (k : ℕ) (src : Netsrc) (d : NetData) → count k (handle (socket_of src d)) ≤ count k (held d)
count-socket k ns_client d =
    omega (arith, count-append k (handle d.client_socket) (handle d.server_socket))
count-socket k ns_server d =
    omega (arith, count-append k (handle d.client_socket) (handle d.server_socket))

-- What NET_OpenSocket makes of the two sockets.
abbrev pub Opened : Netsrc → Option ℕ → NetData → NetData → Type 0
Opened src answer d d' =
    (socket_of src d' ≡ answer) × (socket_of (other src) d' ≡ socket_of (other src) d)

with_socket-Opened :
    (src : Netsrc) (answer : Option ℕ) (d : NetData)
    → Opened src answer d (with_socket src answer d)
with_socket-Opened ns_client answer d = (refl, refl)
with_socket-Opened ns_server answer d = (refl, refl)

-- NET_OpenSocket returns, deletes the socket that it replaces, and leaves open what `netdata` holds.
pub net_open_socket-Tidied :
    (src : Netsrc) (answer : SocketAnswer) (n : Network) (tidy : IsTidy n)
    → Tidied
        (Opened src (given answer) tidy.present)
        (lost_by answer)
        n.lost
        (net_open_socket src answer n)
unfolding net_open_socket
net_open_socket-Tidied src answer n tidy =
    let d = tidy.present in
    let gone =
      delete_if_open-Gone (socket_of src d) n
        (λ k. omega (arith, tidy.counted k, count-socket k src d)) in
    let made = create_socket-handle answer (record n { handles = gone.left }) in
    record {
      value = elim (given answer) [ none ↦ false | some h ↦ true ];
      after = record {
        netdata = some (with_socket src (given answer) d);
        handles = handle (given answer) ++ gone.left;
        lost = lost_by answer ++ n.lost;
      };
      equation =
          rw (tidy.here, ◌>>=◌) (rw (gone.deletes, ◌>>=◌) (rw (made, ◌>>=◌) (rw tidy.here refl)));
      tidy = record {
        present = with_socket src (given answer) d;
        here = refl;
        counted = λ k. omega (
          arith,
          count-append k (handle (given answer)) gone.left,
          gone.fewer k,
          tidy.counted k,
          count-held k src (given answer) d,
        );
      };
      holds = with_socket-Opened src (given answer) d;
      loses = λ h. omega (arith, count-append h (lost_by answer) n.lost);
    }
