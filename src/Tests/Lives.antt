-- ===== src/Tests/Lives.antt =====
-- Connections from NetQW_Create to NetQW_Delete, and the client around them.
use qwnet_library.Client.Runs.{qwc_connect-dangling, Balanced, unconnected, qwc_connect-Balanced}
use qwnet_library.Client.Session.{
  qwc_state_idle, Client, qwc_disconnect, qwc_connect, serve, handler_round,
}
use qwnet_library.Netqw.{NetQw}
use qwnet_library.Netqw.Api.{set_fps}
use qwnet_library.Netqw.Closing.{Deleted, shut, delete-Deleted}
use qwnet_library.Netqw.Dispatch.{disconnect}
use qwnet_library.Netqw.Farewell.{Dropped, disconnect-Dropped}
use qwnet_library.Netqw.Lifecycle.{nothing_held, Answers, created, create_thread, create, delete}
use qwnet_library.Netqw.Lifetime.{session, Created, create-Created}
use qwnet_library.Netqw.Ownership.{Owned}
use qwnet_library.Prelude.{◌≡◌, refl, ◌⊎◌, true, false, not, none, some, [], arith}
use qwnet_library.Prelude.Action.{done, fault, ◌>>◌}
use qwnet_library.Samples.{idle_netqw, reader_of, connection_of}

abbrev all_well : Answers
all_well = record {
  block_ok = true;
  hoststring_ok = true;
  userinfo_ok = true;
  mutex_ok = true;
  thread_ok = true;
  netdata_ok = true;
  address_ok = true;
  socket_ok = true;
}

create-Created_example :
    Created (created idle_netqw [] 22000) (create all_well idle_netqw [] 22000 nothing_held)
create-Created_example = create-Created all_well idle_netqw [] 22000

-- The connection that NetQW_Create makes then.
abbrev newborn : NetQw
newborn = created idle_netqw [] 22000

newborn-Owned : Owned newborn
unfolding created set_fps
newborn-Owned = record {
  counted = λ p. refl;
  live = λ p packet e. absurd (ground arith);
  fresh = λ p le. refl;
}

idle-Owned : Owned idle_netqw
idle-Owned = record {
  counted = λ p. refl;
  live = λ p packet e. absurd (ground arith);
  fresh = λ p le. refl;
}

newborn_made :
    create all_well idle_netqw [] 22000 nothing_held ≡ done (some newborn, session true (not true))
unfolding create create_thread
newborn_made = refl

-- The farewells.
farewell :
    Dropped 3
      (record idle_netqw { quit = true })
      (disconnect (λ k. true) (λ k. k) (record idle_netqw { quit = true }))
farewell = disconnect-Dropped (λ k. true) (λ k. k) (record idle_netqw { quit = true }) refl refl

-- Before it is connected, a NetQW takes its leave in silence.
newborn_farewell :
    disconnect (λ k. true) (λ k. k) (record newborn { quit = true })
    ≡ some (record newborn { quit = true })
unfolding disconnect created set_fps
newborn_farewell = refl

delete-Deleted_example :
    Deleted
      (shut true (record idle_netqw { quit = true }) farewell.after)
      (delete true (λ k. true) (λ k. k) idle_netqw (session true true))
delete-Deleted_example =
    delete-Deleted true true (λ k. true) (λ k. k) idle_netqw farewell.after idle-Owned
      farewell.returns

-- A client without a connection.
abbrev resting : Client
resting = record {
  connection = record (connection_of (reader_of [] 0 0)) { netqw = none };
  network = record { netdata = none; handles = []; lost = [] };
  held = nothing_held;
  initialised = false;
  state = qwc_state_idle;
  quit = false;
  run_thread = false;
  thread_set = false;
  fps = 72;
  sleep_granularity = 200;
}

qwc_connect-Balanced_example :
    (qwc_connect all_well true (λ k. true) (λ k. k) idle_netqw [] 22000 resting
      ≡ done (tt, unconnected resting))
    ⊎ Balanced
        (λ k. true)
        (λ k. k)
        (qwc_connect all_well true (λ k. true) (λ k. k) idle_netqw [] 22000 resting)
qwc_connect-Balanced_example =
    qwc_connect-Balanced all_well (λ k. true) (λ k. k) idle_netqw [] 22000 resting refl

qwc_connect-dangling_example :
    (qwc_connect all_well false (λ k. true) (λ k. k) idle_netqw [] 22000
        >> qwc_disconnect (λ k. true) (λ k. k))
      resting
    ≡ fault
qwc_connect-dangling_example =
    qwc_connect-dangling all_well true (λ k. true) (λ k. k) idle_netqw newborn
      (record newborn { quit = true }) [] 22000 resting newborn_made newborn-Owned newborn_farewell

resting_round : handler_round 5 true resting ≡ done (tt, resting)
unfolding handler_round serve
resting_round = refl
