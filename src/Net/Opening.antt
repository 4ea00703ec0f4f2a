-- ===== src/Net/Opening.antt =====
-- src/net_posix.c: what Sys_Net_CreateSocket takes and gives back, and that it does for net.c what
-- net.c asks for.
use mathlib.Core.Path.{ap₂}
use native.Mathlib.Nat.{add-zero}
use qwnet_library.Net.Descriptors.{
  Process, free_block, close_descriptor, domain_of, set_up, create_in, sys_net_create_socket,
  sys_net_delete_socket,
}
use qwnet_library.Net.Posix.{Addrtype, Domain, SysSocket}
use qwnet_library.Net.Sockets.{
  Network, without, SocketAnswer, socket_refused, socket_made, create_socket,
}
use qwnet_library.Net.Tidy.{handle}
use qwnet_library.Prelude.{
  ℕ, ◌+◌, ◌≡◌, refl, sym, ap, ◌∙◌, Bool, true, false, Option, none, some, List, [], ◌∷◌, ◌++◌,
  arith, ==_iff, pos_ne_zero,
}
use qwnet_library.Prelude.Action.{Outcome, done, pure, ◌>>◌}
use qwnet_library.Prelude.Keeps.{bind-done}

abbrev pub held_blocks : Option SysSocket → ℕ
held_blocks none = 0
held_blocks (some sock) = 1

abbrev pub held_descriptors : Option SysSocket → List ℕ
held_descriptors none = []
held_descriptors (some sock) = sock.s ∷ []

-- The descriptor that no one closes: the system gave it, but ioctl failed.
abbrev pub leaked : Option Domain → Bool → Option ℕ → Bool → List ℕ
leaked none allocated answer nonblocking = []
leaked (some domain) false answer nonblocking = []
leaked (some domain) true answer true = []
leaked (some domain) true answer false = handle answer

-- A socket or none, and what the process holds more.
pub record SocketMade (more : List ℕ) (p : Process) (o : Outcome (Option SysSocket × Process))
    : Type 0 where
  pub value : Option SysSocket
  pub after : Process
  pub returns : o ≡ done (value, after)
  pub blocks : after.blocks ≡ p.blocks + held_blocks value
  pub descriptors : after.descriptors ≡ held_descriptors value ++ (more ++ p.descriptors)

with_blocks : (p : Process) (b : ℕ) → b ≡ p.blocks → record p { blocks = b } ≡ p
with_blocks p b e = ap (λ k. record p { blocks = k }) e

-- The block that was just allocated can be freed.
free_block-lem :
    (p : Process) (b : ℕ) → b ≡ p.blocks + 1 → free_block (record p { blocks = b }) ≡ done (tt, p)
free_block-lem p b e =
    rw (e, pos_ne_zero (p.blocks + 1) (omega arith))
      (ap (λ q. done (tt, q)) (with_blocks p _ (omega arith)))

freed :
    (p : Process) (b : ℕ)
    → b ≡ p.blocks + 1
    → (free_block >> pure {A = Option SysSocket} none) (record p { blocks = b }) ≡ done (none, p)
freed p b e =
    bind-done free_block (λ _. pure none) (record p { blocks = b }) p tt (free_block-lem p b e)

no_socket :
    (o : Outcome (Option SysSocket × Process)) (p : Process)
    → o ≡ done (none, p)
    → SocketMade [] p o
no_socket o p e = record {
  value = none;
  after = p;
  returns = e;
  blocks = omega arith;
  descriptors = refl;
}

create_in-SocketMade :
    (d : Option Domain) (allocated : Bool) (answer : Option ℕ) (nonblocking : Bool) (p : Process)
    → SocketMade
        (leaked d allocated answer nonblocking)
        p
        (create_in d allocated answer nonblocking p)
unfolding create_in set_up
create_in-SocketMade none allocated answer nonblocking p = no_socket _ p refl
create_in-SocketMade (some domain) false answer nonblocking p = no_socket _ p refl
create_in-SocketMade (some domain) true none true p = no_socket _ p (freed p _ refl)
create_in-SocketMade (some domain) true none false p = no_socket _ p (freed p _ refl)
create_in-SocketMade (some domain) true (some h) true p = record {
  value = some (record { s = h; domain = domain });
  after = record { blocks = p.blocks + 1; descriptors = h ∷ p.descriptors };
  returns = refl;
  blocks = refl;
  descriptors = refl;
}
create_in-SocketMade (some domain) true (some h) false p = record {
  value = none;
  after = record p { descriptors = h ∷ p.descriptors };
  returns = freed (record p { descriptors = h ∷ p.descriptors }) _ refl;
  blocks = omega arith;
  descriptors = refl;
}

-- Sys_Net_CreateSocket returns, whatever the system answers. A socket holds one block and its
-- descriptor. Without a socket the block is given back, but a descriptor stays open if ioctl failed,
-- and only then.
pub sys_net_create_socket-SocketMade :
    (addrtype : Addrtype) (allocated : Bool) (answer : Option ℕ) (nonblocking : Bool) (p : Process)
    → SocketMade
        (leaked (domain_of addrtype) allocated answer nonblocking)
        p
        (sys_net_create_socket addrtype allocated answer nonblocking p)
unfolding sys_net_create_socket
sys_net_create_socket-SocketMade addrtype = create_in-SocketMade (domain_of addrtype)

abbrev pub descriptor_of : Option SysSocket → Option ℕ
descriptor_of none = none
descriptor_of (some sock) = some (sock.s)

-- How net.c sees a socket, or that there is none.
abbrev pub answer_of : Option SysSocket → SocketAnswer
answer_of none = socket_refused
answer_of (some sock) = socket_made (sock.s)

-- Sys_Net_DeleteSocket gives back all that the socket holds.
abbrev pub GivesBack : Option SysSocket → Process → Process → Type 0
GivesBack none after p = after ≡ p
GivesBack (some sock) after p = sys_net_delete_socket sock after ≡ done (tt, p)

-- What the operations of net.c take a new socket for.
pub record CreatedFor (n : Network) (p : Process) (o : Outcome (Option SysSocket × Process))
    : Type 0 where
  pub value : Option SysSocket
  pub after : Process
  pub returns : o ≡ done (value, after)
  pub as_asked :
      create_socket (answer_of value) n
      ≡ done (descriptor_of value, record n { handles = after.descriptors })
  pub gives_back : GivesBack value after p

without-head : (h : ℕ) (ds : List ℕ) → without h (h ∷ ds) ≡ some ds
unfolding without
without-head h ds = rw ((==_iff h h).1 refl) refl

close_descriptor-lem :
    (h : ℕ) (p : Process) (ds : List ℕ)
    → p.descriptors ≡ h ∷ ds
    → close_descriptor h p ≡ done (tt, record p { descriptors = ds })
close_descriptor-lem h p ds e =
    let found : without h p.descriptors ≡ some ds = ap (without h) e ∙ without-head h ds in
    rw (close_descriptor, found) refl

delete_socket-GivesBack :
    (v : Option SysSocket) (after p : Process)
    → after.blocks ≡ p.blocks + held_blocks v
    → after.descriptors ≡ held_descriptors v ++ p.descriptors
    → GivesBack v after p
unfolding sys_net_delete_socket without
delete_socket-GivesBack none after p e f =
    ap₂ (λ b ds. record { blocks = b; descriptors = ds }) (e ∙ add-zero p.blocks) f
delete_socket-GivesBack (some sock) after p e f =
    bind-done (close_descriptor (sock.s)) (λ _. free_block) after
      (record after { descriptors = p.descriptors }) tt
      (close_descriptor-lem (sock.s) after p.descriptors f)
    ∙ free_block-lem p after.blocks e

as_asked-lem :
    (v : Option SysSocket) (n : Network) (ds : List ℕ)
    → ds ≡ held_descriptors v ++ n.handles
    → create_socket (answer_of v) n ≡ done (descriptor_of v, record n { handles = ds })
unfolding create_socket
as_asked-lem none n ds e = rw e refl
as_asked-lem (some sock) n ds e = rw e refl

no_leak :
    (d : Option Domain) (allocated : Bool) (answer : Option ℕ) → leaked d allocated answer true ≡ []
no_leak none allocated answer = refl
no_leak (some domain) false answer = refl
no_leak (some domain) true answer = refl

-- Where ioctl does not fail, Sys_Net_CreateSocket does to the open descriptors what net.c takes it
-- to do to its sockets, and Sys_Net_DeleteSocket then brings the process back to where it was.
pub sys_net_create_socket-CreatedFor :
    (addrtype : Addrtype) (allocated : Bool) (answer : Option ℕ) (p : Process) (n : Network)
    → n.handles ≡ p.descriptors
    → CreatedFor n p (sys_net_create_socket addrtype allocated answer true p)
sys_net_create_socket-CreatedFor addrtype allocated answer p n same =
    let made = sys_net_create_socket-SocketMade addrtype allocated answer true p in
    let kept : made.after.descriptors ≡ held_descriptors made.value ++ p.descriptors =
      made.descriptors
      ∙ ap (λ ds. held_descriptors made.value ++ (ds ++ p.descriptors))
          (no_leak (domain_of addrtype) allocated answer) in
    record {
      value = made.value;
      after = made.after;
      returns = made.returns;
      as_asked =
          as_asked-lem made.value n made.after.descriptors
            (kept ∙ ap (λ ds. held_descriptors made.value ++ ds) (sym same));
      gives_back = delete_socket-GivesBack made.value made.after p made.blocks kept;
    }
