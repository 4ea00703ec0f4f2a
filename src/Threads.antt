-- ===== src/Threads.antt =====
-- src/thread_posix.c: threads and mutexes over what the process holds. What malloc, pthread_create
-- and pthread_mutex_init answer is an argument; `start` and `ready` say whether they succeed.
use qwnet_library.Prelude.{
  ℕ, ◌+◌, ◌-◌, ◌≡◌, refl, ap, ◌∙◌, Bool, true, false, not, arith, ◌==◌, if◌then◌else◌, pos_ne_zero,
}
use qwnet_library.Prelude.Action.{Outcome, done, fault, Action, pure, ◌>>=◌, ◌>>◌, modify}
use qwnet_library.Prelude.Keeps.{bind-done}

-- The blocks from malloc, the threads that run, and the mutexes there are.
pub record Workers : Type 0 where
  pub memory : ℕ
  pub running : ℕ
  pub mutexes : ℕ

abbrev pub claim_memory : Bool → Action Workers Bool
claim_memory ok w = done (ok, if ok then record w { memory = w.memory + 1 } else w)

-- free, of a block that was allocated
abbrev pub release_memory : Action Workers (Unit {0})
release_memory w = if w.memory == 0 then fault else done (tt, record w { memory = w.memory - 1 })

-- Sys_Thread_CreateThread: whether there is a thread.
unfoldable pub sys_thread_create_thread : Bool → Bool → Action Workers Bool
sys_thread_create_thread allocated start = do
  ok ← claim_memory allocated
  if not ok
      then pure false
      else if start
      then (modify (λ (w : Workers). record w { running = w.running + 1 }) >> pure true)
      else (release_memory >> pure false)

-- Sys_Thread_DeleteThread: pthread_join returns once the thread has ended.
unfoldable pub sys_thread_delete_thread : Action Workers (Unit {0})
sys_thread_delete_thread = do
  modify (λ (w : Workers). record w { running = w.running - 1 })
  release_memory

-- Sys_Thread_CreateMutex: whether there is a mutex.
unfoldable pub sys_thread_create_mutex : Bool → Bool → Action Workers Bool
sys_thread_create_mutex allocated ready = do
  ok ← claim_memory allocated
  if not ok
      then pure false
      else if ready
      then (modify (λ (w : Workers). record w { mutexes = w.mutexes + 1 }) >> pure true)
      else (release_memory >> pure false)

-- Sys_Thread_DeleteMutex
unfoldable pub sys_thread_delete_mutex : Action Workers (Unit {0})
sys_thread_delete_mutex = do
  modify (λ (w : Workers). record w { mutexes = w.mutexes - 1 })
  release_memory

-- Sys_Thread_SetThreadPriority, which only complains.
unfoldable pub sys_thread_set_thread_priority : ℕ
sys_thread_set_thread_priority = 0

-- Whether there is a thread or a mutex, and that deleting it brings back what there was.
pub record Undoable (delete : Action Workers (Unit {0})) (w : Workers)
    (o : Outcome (Bool × Workers)) : Type 0 where
  pub made : Bool
  pub after : Workers
  pub returns : o ≡ done (made, after)
  pub undone : (if made then delete after else done (tt, after)) ≡ done (tt, w)

restored :
    (w : Workers) (m : ℕ)
    → m ≡ w.memory + 1
    → release_memory (record w { memory = m }) ≡ done (tt, w)
restored w m e =
    rw (e, pos_ne_zero (w.memory + 1) (omega arith))
      (ap (λ k. done (tt, record w { memory = k })) (omega arith))

-- Whatever the system answers, Sys_Thread_CreateThread makes a thread, which Sys_Thread_DeleteThread
-- undoes, or leaves everything as it was.
pub sys_thread_create_thread-Undoable :
    (allocated start : Bool) (w : Workers)
    → Undoable sys_thread_delete_thread w (sys_thread_create_thread allocated start w)
unfolding sys_thread_create_thread sys_thread_delete_thread
sys_thread_create_thread-Undoable false start w = record {
  made = false;
  after = w;
  returns = refl;
  undone = refl;
}
sys_thread_create_thread-Undoable true true w = record {
  made = true;
  after = record w { memory = w.memory + 1; running = w.running + 1 };
  returns = refl;
  undone =
      bind-done (modify (λ (v : Workers). record v { running = v.running - 1 }))
        (λ _. release_memory) (record w { memory = w.memory + 1; running = w.running + 1 })
        (record w { memory = w.memory + 1; running = w.running + 1 - 1 }) tt refl
      ∙ restored (record w { running = w.running + 1 - 1 }) _ refl
      ∙ ap (λ k. done (tt, record w { running = k })) (omega arith);
}
sys_thread_create_thread-Undoable true false w = record {
  made = false;
  after = w;
  returns =
      bind-done release_memory (λ _. pure false) (record w { memory = w.memory + 1 }) w tt
        (restored w _ refl);
  undone = refl;
}

-- The same of Sys_Thread_CreateMutex and Sys_Thread_DeleteMutex.
pub sys_thread_create_mutex-Undoable :
    (allocated ready : Bool) (w : Workers)
    → Undoable sys_thread_delete_mutex w (sys_thread_create_mutex allocated ready w)
unfolding sys_thread_create_mutex sys_thread_delete_mutex
sys_thread_create_mutex-Undoable false ready w = record {
  made = false;
  after = w;
  returns = refl;
  undone = refl;
}
sys_thread_create_mutex-Undoable true true w = record {
  made = true;
  after = record w { memory = w.memory + 1; mutexes = w.mutexes + 1 };
  returns = refl;
  undone =
      bind-done (modify (λ (v : Workers). record v { mutexes = v.mutexes - 1 }))
        (λ _. release_memory) (record w { memory = w.memory + 1; mutexes = w.mutexes + 1 })
        (record w { memory = w.memory + 1; mutexes = w.mutexes + 1 - 1 }) tt refl
      ∙ restored (record w { mutexes = w.mutexes + 1 - 1 }) _ refl
      ∙ ap (λ k. done (tt, record w { mutexes = k })) (omega arith);
}
sys_thread_create_mutex-Undoable true false w = record {
  made = false;
  after = w;
  returns =
      bind-done release_memory (λ _. pure false) (record w { memory = w.memory + 1 }) w tt
        (restored w _ refl);
  undone = refl;
}
