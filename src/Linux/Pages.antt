-- ===== src/Linux/Pages.antt =====
-- src/sys_linux.c: the pages that Sys_MakeCodeWriteable opens.
use native.Mathlib.Nat.{mod-lt}
use qwnet_library.Linux.{sys_make_code_writeable}
use qwnet_library.Prelude.{ℕ, ◌+◌, ◌-◌, ◌*◌, ◌%◌, ◌^◌, ◌≤◌, ◌<◌, ◌≡◌, arith, length, u64}

-- From the first page on, and away from the end of the address space, the pages that are opened
-- hold the whole block, and begin on a page.
pub sys_make_code_writeable-covers :
    (psize startaddr length : ℕ)
    → 0 < psize
    → 2 * psize ≤ startaddr
    → startaddr + length + 2 * psize < 2 ^ 64
    → let opened = sys_make_code_writeable psize startaddr length in
      (opened.0 < startaddr) × (startaddr + length ≤ opened.0 + opened.1)
unfolding sys_make_code_writeable
sys_make_code_writeable-covers psize startaddr length pos far inside =
    let part : startaddr % psize < psize = mod-lt startaddr pos in
    let rest : startaddr % psize ≤ startaddr = omega arith in
    let addr : u64 (startaddr - startaddr % psize + (2 ^ 64 - psize))
        ≡ startaddr - startaddr % psize - psize =
      omega arith in
    rw addr (omega arith, omega arith)
