-- ===== src/Netqw/Lifetime.antt =====
-- What NetQW_Create and NetQW_Delete of src/netqw.c acquire and give back.
use qwnet_library.Netqw.{NetQw, put_packet}
use qwnet_library.Netqw.Api.{set_fps}
use qwnet_library.Netqw.Delayed.{Ordered}
use qwnet_library.Netqw.Lifecycle.{
  Held, nothing_held, Answers, started, thread_init, created, create_threadless, create_thread,
  create, free_client, free_internal,
}
use qwnet_library.Netqw.Ownership.{
  IsOwned, Owned, uses-Found, dropped, ==_refl, store-release, Ends, release_lem,
}
use qwnet_library.Prelude.{
  ℕ, ◌≡◌, refl, ◌⊎◌, inl, inr, Bool, true, false, not, Option, none, some, List, [], ◌∷◌, arith,
  if◌then◌else◌, Bool-cases,
}
use qwnet_library.Prelude.Action.{Outcome, done, ◌>>=◌}

-- What a connection holds, with or without a thread, before or after NetQW_Thread_Init.
abbrev pub session : Bool → Bool → Held
session threaded initialised = record {
  block_held = true;
  hoststring_held = true;
  userinfo_held = true;
  mutex_held = threaded;
  thread_held = threaded;
  netdata_held = initialised;
  socket_held = initialised;
}

-- NetQW_Thread_Init holds the network and the socket, or neither.
abbrev Started : NetQw → Bool → Outcome (Option NetQw × Held) → Type 0
Started n threaded r =
    (r ≡ done (none, session threaded false)) ⊎ (r ≡ done (some (started n), session threaded true))

pub thread_init-Started :
    (a : Answers) (n : NetQw) (threaded : Bool)
    → Started n threaded (thread_init a n (session threaded false))
unfolding thread_init
thread_init-Started a n threaded = elim (Bool-cases a.netdata_ok) [
  | inr down ↦ inl (simp (down) refl)
  | inl up ↦ elim (Bool-cases a.address_ok) [
    | inr bad ↦ inl (simp (up, bad) refl)
    | inl good ↦ elim (Bool-cases a.socket_ok) [
      | inr shut ↦ inl (simp (up, good, shut) refl)
      | inl open_ ↦ inr (simp (up, good, open_) refl)
    ]
  ]
]

-- A connection that was made: what it holds, and its first state.
pub record Made (first : NetQw) (r : Outcome (Option NetQw × Held)) : Type 0 where
  pub connection : NetQw
  pub threaded : Bool
  pub returns : r ≡ done (some connection, session threaded (not threaded))
  pub ordered : Ordered connection
  pub first_state : connection ≡ (if threaded then first else started first)

-- NetQW_Create makes a connection, or nothing is held.
abbrev pub Created : NetQw → Outcome (Option NetQw × Held) → Type 0
Created first r = (r ≡ done (none, nothing_held)) ⊎ Made first r

created-Ordered : (garbage : NetQw) (info : List ℕ) (port : ℕ) → Ordered (created garbage info port)
unfolding created set_fps
created-Ordered garbage info port = (
  record { counted = λ p. refl; live = λ p packet e. absurd (ground arith); fresh = λ p le. refl },
  omega arith,
)

create_threadless-Created :
    (a : Answers) (n : NetQw) → Ordered n → Created n (create_threadless a n (session false false))
unfolding create_threadless
create_threadless-Created a n h = elim (thread_init-Started a n false) [
  | inl failed ↦ inl (rw (failed, ◌>>=◌) refl)
  | inr up ↦ inr (record {
    connection = started n;
    threaded = false;
    returns = rw (up, ◌>>=◌) refl;
    ordered = unfold started in h;
    first_state = refl;
  })
]

-- The session with a mutex and no thread.
abbrev locked : Held
locked = record (session false false) { mutex_held = true }

create_thread-Created :
    (a : Answers) (n : NetQw) → Ordered n → Created n (create_thread a n (session false false))
unfolding create_thread
create_thread-Created a n h = elim (Bool-cases a.mutex_ok) [
  | inr unlocked ↦ simp (unlocked) (create_threadless-Created a n h)
  | inl lock ↦ elim (Bool-cases a.thread_ok) [
    | inl made ↦ inr (record {
      connection = n;
      threaded = true;
      returns = simp (lock, made) refl;
      ordered = h;
      first_state = refl;
    })
    | inr none_made ↦ simp (lock, none_made) (create_threadless-Created a n h)
  ]
]

-- Whatever the system answers, NetQW_Create ends without freeing what it does not hold. Where it
-- fails nothing is held; where it succeeds the connection holds its blocks, and either a mutex and a
-- thread or the network and a socket, and its packet lists and reliable queue are well formed.
pub create-Created :
    (a : Answers) (garbage : NetQw) (info : List ℕ) (port : ℕ)
    → Created (created garbage info port) (create a garbage info port nothing_held)
unfolding create
create-Created a garbage info port = elim (Bool-cases a.block_ok) [
  | inr b ↦ inl (simp (b) refl)
  | inl b ↦ elim (Bool-cases a.hoststring_ok) [
    | inr host ↦ inl (simp (b, host) refl)
    | inl host ↦ elim (Bool-cases a.userinfo_ok) [
      | inr user ↦ inl (simp (b, host, user) refl)
      | inl user ↦
          simp (b, host, user)
            (create_thread-Created a (created garbage info port)
              (created-Ordered garbage info port))
    ]
  ]
]

-- The lists are well formed, and `client` and `internal` are the packets still to free.
pub free_client-Owned :
    (ps : List ℕ) (n : NetQw)
    → n.client_packets ≡ ps
    → Owned n
    → Ends
        (λ m.
          Owned m
          × (m.client_packets ≡ [])
          × (m.reliable_buffers ≡ n.reliable_buffers)
          × (m.send_packets ≡ n.send_packets))
        (free_client ps n)
unfolding free_client
free_client-Owned [] n e h = record { after = n; returns = refl; holds = (h, e, refl, refl) }
free_client-Owned (p ∷ ps) n e h =
    let owned : IsOwned n.packets n.next_packet (p ∷ ps) n.internal_packets = rw e at h in
    let found = uses-Found n.packets p (ground (arith, ==_refl p, owned.counted p)) in
    let m : NetQw = record n {
      client_packets = ps;
      packets = put_packet n.packets p (dropped found.packet);
    } in
    let left =
      store-release n.packets n.next_packet p (p ∷ ps) n.internal_packets ps n.internal_packets
        found.packet owned found.here (λ q. omega arith) in
    let rest = free_client-Owned ps m refl left in
    rw (release_lem p (record n { client_packets = ps }) found.packet found.here, free_client)
      (record { after = rest.after; returns = rest.returns; holds = rest.holds })

pub free_internal-Owned :
    (ps : List ℕ) (n : NetQw)
    → n.internal_packets ≡ ps
    → Owned n
    → Ends
        (λ m.
          Owned m
          × (m.internal_packets ≡ [])
          × (m.client_packets ≡ n.client_packets)
          × (m.reliable_buffers ≡ n.reliable_buffers)
          × (m.send_packets ≡ n.send_packets))
        (free_internal ps n)
unfolding free_internal
free_internal-Owned [] n e h = record {
  after = n;
  returns = refl;
  holds = (h, e, refl, refl, refl);
}
free_internal-Owned (p ∷ ps) n e h =
    let owned : IsOwned n.packets n.next_packet n.client_packets (p ∷ ps) = rw e at h in
    let found = uses-Found n.packets p (ground (arith, ==_refl p, owned.counted p)) in
    let m : NetQw = record n {
      internal_packets = ps;
      packets = put_packet n.packets p (dropped found.packet);
    } in
    let left =
      store-release n.packets n.next_packet p n.client_packets (p ∷ ps) n.client_packets ps
        found.packet owned found.here (λ q. omega arith) in
    let rest = free_internal-Owned ps m refl left in
    rw (release_lem p (record n { internal_packets = ps }) found.packet found.here, free_internal)
      (record { after = rest.after; returns = rest.returns; holds = rest.holds })
