-- ===== src/Client/Runs.antt =====
-- How the calls of src/main.c start and end a client's connection.
use qwnet_library.Client.Session.{
  qwc_state_idle, qwc_state_connecting, qwc_state_connected, Client, delete_netqw, qwc_disconnect,
  qwc_connect,
}
use qwnet_library.Net.Newest.{sent}
use qwnet_library.Net.Tidy.{held}
use qwnet_library.Netqw.{NetQw}
use qwnet_library.Netqw.Closing.{free_lists-Emptied, delete-Deleted}
use qwnet_library.Netqw.Dispatch.{disconnect}
use qwnet_library.Netqw.Lifecycle.{nothing_held, Answers, thread_deinit, create, shut_down, delete}
use qwnet_library.Netqw.Lifetime.{session, create-Created}
use qwnet_library.Netqw.Ownership.{Owned}
use qwnet_library.Prelude.{
  ℕ, ◌≡◌, refl, ◌⊎◌, inl, inr, Bool, true, false, not, none, some, List, set,
}
use qwnet_library.Prelude.Action.{Outcome, done, fault, ◌>>=◌, ◌>>◌, require}

-- An idle client, which holds nothing of a connection.
abbrev pub idle : Client → Client
idle q = record q {
  connection = record q.connection { netqw = none };
  held = nothing_held;
  state = qwc_state_idle;
  run_thread = false;
  thread_set = false;
}

delete_netqw_lem :
    (threaded : Bool) (allocated : ℕ → Bool) (now : ℕ → ℕ) (n sent : NetQw) (q : Client)
    → q.connection.netqw ≡ some n
    → q.held ≡ session threaded q.initialised
    → Owned n
    → disconnect allocated now (record n { quit = true }) ≡ some sent
    → delete_netqw allocated now q ≡ done (tt, record q { held = nothing_held })
unfolding delete_netqw
delete_netqw_lem threaded allocated now n sent q e held owned farewell =
    let gone = delete-Deleted threaded q.initialised allocated now n sent owned farewell in
    rw (e, ◌>>=◌) (rw (held, gone.returns, ◌>>=◌) refl)

-- QWC_Disconnect
qwc_disconnect-idle :
    (threaded : Bool) (allocated : ℕ → Bool) (now : ℕ → ℕ) (n sent : NetQw) (q : Client)
    → q.connection.netqw ≡ some n
    → q.held ≡ session threaded q.initialised
    → q.thread_set ≡ true
    → Owned n
    → disconnect allocated now (record n { quit = true }) ≡ some sent
    → qwc_disconnect allocated now q ≡ done (tt, idle q)
unfolding qwc_disconnect
qwc_disconnect-idle threaded allocated now n sent q e held set owned farewell =
    rw (delete_netqw_lem threaded allocated now n sent q e held owned farewell, ◌>>=◌)
      (rw (set) refl)

-- NetQW_Delete of what was deleted before.
delete_again :
    (initialised : Bool) (allocated : ℕ → Bool) (now : ℕ → ℕ) (n sent : NetQw)
    → Owned n
    → disconnect allocated now (record n { quit = true }) ≡ some sent
    → delete initialised allocated now n nothing_held ≡ fault
unfolding delete shut_down thread_deinit
delete_again true allocated now n sent owned farewell = rw (farewell, require) refl
delete_again false allocated now n sent owned farewell =
    let freed = free_lists-Emptied (record n { quit = true }) owned in
    rw (freed.returns, ◌>>=◌) refl

-- The client after QWC_Connect.
abbrev pub connecting_to : NetQw → Bool → Bool → Client → Client
connecting_to n threaded thread_ok q = record q {
  connection = record q.connection { netqw = some n };
  held = session threaded (not threaded);
  initialised = not threaded;
  state = qwc_state_connected;
  run_thread = true;
  thread_set = thread_ok;
}

-- QWC_Connect when the NetQW can be made and the client's thread cannot.
qwc_connect-failed :
    (a : Answers) (threaded : Bool) (allocated : ℕ → Bool) (now : ℕ → ℕ) (garbage n sent : NetQw)
    (info : List ℕ) (port : ℕ) (q : Client)
    → create a garbage info port q.held ≡ done (some n, session threaded (not threaded))
    → Owned n
    → disconnect allocated now (record n { quit = true }) ≡ some sent
    → qwc_connect a false allocated now garbage info port q
      ≡ done (
        tt,
        record (connecting_to n threaded false q) {
          held = nothing_held;
          state = qwc_state_connecting;
        },
      )
unfolding qwc_connect
qwc_connect-failed a threaded allocated now garbage n sent info port q made owned farewell =
    let last =
      delete_netqw_lem threaded allocated now n sent (connecting_to n threaded false q) refl refl
        owned farewell in
    rw (made, ◌>>=◌) (rw (last, ◌>>=◌) refl)

-- Where NetQW_Create makes a connection, the farewell can be coded and the client's own thread cannot
-- be created, QWC_Connect returns with the pointer to the deleted NetQW: a call of QWC_Disconnect then
-- faults.
pub qwc_connect-dangling :
    (a : Answers) (threaded : Bool) (allocated : ℕ → Bool) (now : ℕ → ℕ) (garbage n sent : NetQw)
    (info : List ℕ) (port : ℕ) (q : Client)
    → create a garbage info port q.held ≡ done (some n, session threaded (not threaded))
    → Owned n
    → disconnect allocated now (record n { quit = true }) ≡ some sent
    → (qwc_connect a false allocated now garbage info port >> qwc_disconnect allocated now) q
      ≡ fault
unfolding qwc_disconnect delete_netqw
qwc_connect-dangling a threaded allocated now garbage n sent info port q made owned farewell =
    let first =
      qwc_connect-failed a threaded allocated now garbage n sent info port q made owned farewell in
    let again = delete_again (not threaded) allocated now n sent owned farewell in
    rw (first, ◌>>=◌) (rw (again, ◌>>=◌) refl)

-- A connection that QWC_Connect made, and QWC_Disconnect of it.
pub record Balanced (allocated : ℕ → Bool) (now : ℕ → ℕ) (result : Outcome (Unit {0} × Client))
    : Type 0 where
  pub connected_to : Client
  pub first : NetQw
  pub returns : result ≡ done (tt, connected_to)
  pub has : connected_to.connection.netqw ≡ some first
  pub state_is : connected_to.state ≡ qwc_state_connected
  pub ends :
      (sent : NetQw)
      → disconnect allocated now (record first { quit = true }) ≡ some sent
      → qwc_disconnect allocated now connected_to ≡ done (tt, idle connected_to)

abbrev pub unconnected : Client → Client
unconnected q = record q { connection = record q.connection { netqw = none }; held = nothing_held }

-- On a client that holds nothing, with a thread of its own, QWC_Connect either leaves it without a
-- connection and holding nothing, or makes one: the state is `connected` at once, and if the farewell
-- can be coded, a call of QWC_Disconnect
-- right after it gives back all that is held and leaves the client idle.
pub qwc_connect-Balanced :
    (a : Answers) (allocated : ℕ → Bool) (now : ℕ → ℕ) (garbage : NetQw) (info : List ℕ) (port : ℕ)
    (q : Client)
    → q.held ≡ nothing_held
    → (qwc_connect a true allocated now garbage info port q ≡ done (tt, unconnected q))
      ⊎ Balanced allocated now (qwc_connect a true allocated now garbage info port q)
unfolding qwc_connect
qwc_connect-Balanced a allocated now garbage info port q empty =
    elim (create-Created a garbage info port) [
      | inl failed ↦ inl (rw (empty, failed, ◌>>=◌) refl)
      | inr made ↦
          let q' = connecting_to made.connection made.threaded true q in
          inr (record {
            connected_to = q';
            first = made.connection;
            returns = rw (empty, made.returns, ◌>>=◌) refl;
            has = refl;
            state_is = refl;
            ends = λ sent farewell.
                qwc_disconnect-idle made.threaded allocated now made.connection sent q' refl refl
                  refl made.ordered.0 farewell;
          })
    ]
