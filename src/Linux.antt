-- ===== src/Linux.antt =====
-- src/sys_linux.c: the system as the client sees it. What a system call answers is an argument.
pub mod Clock
pub mod Printing
pub mod Pages
use qwnet_library.Prelude.{
  ℕ, suc, ◌+◌, ◌-◌, ◌*◌, ◌/◌, ◌%◌, ◌^◌, Bool, true, false, not, ◌&&◌, ◌||◌, Option, none, some,
  List, [], ◌∷◌, ◌++◌, length, set, take, drop, ltb, ◌==◌, if◌then◌else◌, u32, u64,
}

-- The character that `"%02x"` makes of four bits.
unfoldable pub hex_digit : ℕ → ℕ
hex_digit n = if ltb n 10 then 48 + n else 87 + n

-- The condition of Sys_Printf: a byte that is printed as its number.
unfoldable pub is_escaped : ℕ → Bool
is_escaped c = (ltb 128 c || ltb c 32) && not (c == 10) && not (c == 13) && not (c == 9)

unfoldable pub printed_byte : ℕ → List ℕ
printed_byte c =
    if is_escaped c then 91 ∷ hex_digit (c / 16) ∷ hex_digit (c % 16) ∷ 93 ∷ [] else c ∷ []

-- `for (p = text; *p; p++)`
unfoldable pub print_loop : List ℕ → List ℕ
print_loop [] = []
print_loop (c ∷ cs) = let rest = print_loop cs in if c == 0 then [] else printed_byte c ++ rest

-- Sys_Printf: what is put on stdout. `text` is what vsnprintf makes of the arguments, which writes
-- 2047 of its bytes.
unfoldable pub sys_printf : Bool → List ℕ → List ℕ
sys_printf nostdout text = if nostdout then [] else print_loop (take 2047 text)

-- `struct timeval`
pub record Timeval : Type 0 where
  pub tv_sec : ℕ
  pub tv_usec : ℕ

-- Sys_IntTime, over `secbase`.
unfoldable pub sys_int_time : Timeval → ℕ → ℕ × ℕ
sys_int_time tp secbase =
    let base = if secbase == 0 then u32 (tp.tv_sec) else secbase in
    (u64 (u64 (tp.tv_sec + (2 ^ 64 - base)) * 1000000 + tp.tv_usec), base)

-- What Sys_ConsoleInput reads: `text`, `stdin_ready` and `do_stdin`.
pub record Console : Type 0 where
  pub stdin_ready : Bool
  pub do_stdin : Bool
  pub text : List ℕ

-- Sys_ConsoleInput: whether it returns `text`, or null. `got` is what read stores, or `none` if it
-- fails.
unfoldable pub sys_console_input : Option (List ℕ) → Console → Bool × Console
sys_console_input got c = if not c.stdin_ready || not c.do_stdin then (false, c) else elim got [
  | none ↦ (false, record c { stdin_ready = false })
  | some [] ↦ (false, record c { stdin_ready = false; do_stdin = false })
  | some (b ∷ bs) ↦ (
    true,
    record c {
      stdin_ready = false;
      text = set (b ∷ bs) (length bs) 0 ++ drop (suc (length bs)) (c.text);
    },
  )
]

-- Sys_MakeCodeWriteable: the address and the length that mprotect gets. The page size is a power of
-- two.
unfoldable pub sys_make_code_writeable : ℕ → ℕ → ℕ → ℕ × ℕ
sys_make_code_writeable psize startaddr length =
    let addr = u64 (startaddr - startaddr % psize + (2 ^ 64 - psize)) in
    (addr, u64 (length + startaddr + (2 ^ 64 - addr) + psize))
