-- ===== src/Net/Loopback.antt =====
-- The loopback buffers of src/net.c. A message is its bytes; its length is `datalen`.
use qwnet_library.Prelude.{
  ℕ, ◌+◌, ◌%◌, Bool, ◌||◌, Option, none, some, List, [], length, get_or, set, ltb, ◌==◌,
  if◌then◌else◌, u32, sub32, is_negative,
}

-- `struct loopback`: MAX_LOOPBACK slots, and two counters of 32 bits.
pub record Loopback : Type 0 where
  pub msgs : List (List ℕ)
  pub get : ℕ
  pub send : ℕ

-- A power of two, so that `& (MAX_LOOPBACK - 1)` is the remainder.
abbrev pub max_loopback : ℕ
max_loopback = 4

-- `sizeof(loop->msgs[i].data)`, MAX_MSGLEN * 2
abbrev pub loopback_size : ℕ
loopback_size = 2900

-- NET_ClearLoopback, for one of the two.
unfoldable pub clear_loopback : Loopback → Loopback
clear_loopback loop = record loop { get = 0; send = 0 }

-- The reader's counter is at most four behind.
unfoldable pub skip_overwritten : Loopback → Loopback
skip_overwritten loop =
    if ltb max_loopback (sub32 loop.send loop.get)
    then record loop { get = sub32 loop.send max_loopback }
    else loop

-- `(int)n <= 0`
abbrev pub not_positive : ℕ → Bool
not_positive n = n == 0 || is_negative n

-- The message at the reader's counter; `none` where there is none.
unfoldable pub take_next : Loopback → Option (List ℕ) × Loopback
take_next loop = if not_positive (sub32 loop.send loop.get) then (none, loop) else (
  some (get_or loop.msgs (loop.get % max_loopback) []),
  record loop { get = u32 (loop.get + 1) },
)

-- NET_GetLoopPacket: the message, or `none` where it returns false.
unfoldable pub get_loop_packet : Loopback → Option (List ℕ) × Loopback
unfolding skip_overwritten take_next
get_loop_packet loop = take_next (skip_overwritten loop)

-- NET_SendLoopPacket. Sys_Error returns, so a message that is too long is copied all the same, past
-- the slot: `none`.
unfoldable pub send_loop_packet : List ℕ → Loopback → Option Loopback
send_loop_packet bytes loop =
    let slots = set loop.msgs (loop.send % max_loopback) bytes in
    if ltb loopback_size (length bytes)
    then none
    else some (record loop { msgs = slots; send = u32 (loop.send + 1) })
