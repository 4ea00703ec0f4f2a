-- ===== src/Linux/Printing.antt =====
-- src/sys_linux.c: what Sys_Printf puts on the terminal.
use mathlib.Core.Bool.{true≢false}
use qwnet_library.Crc.Laws.{AreBytes, take-AreBytes}
use qwnet_library.Linux.{hex_digit, is_escaped, printed_byte, print_loop, sys_printf}
use qwnet_library.Prelude.{
  ℕ, ◌*◌, ◌/◌, ◌%◌, ◌≤◌, ◌<◌, min, ◌≡◌, refl, sym, ◌∙◌, ◌⊎◌, inl, inr, Bool, true, false, not, ◌&&◌,
  ◌||◌, List, [], ◌∷◌, ◌++◌, arith, length, take, length-append, length-take, ltb, ◌==◌, ltb→lt,
  ltb→le, ==_iff, Bool-cases,
}

-- A character that Sys_Printf means to print as it is.
abbrev pub IsPrintable : ℕ → Type 0
IsPrintable c = ((32 ≤ c) × (c ≤ 128)) ⊎ (c ≡ 9) ⊎ (c ≡ 10) ⊎ (c ≡ 13)

abbrev pub ArePrintable : List ℕ → Type 0
ArePrintable [] = Unit {0}
ArePrintable (c ∷ cs) = IsPrintable c × ArePrintable cs

hex_digit-IsPrintable : (n : ℕ) → n < 16 → IsPrintable (hex_digit n)
unfolding hex_digit
hex_digit-IsPrintable n h = elim (Bool-cases (ltb n 10)) [
  | inl e ↦ rw e (inl (omega arith, omega (arith, ltb→lt n 10 e)))
  | inr e ↦ rw e (inl (omega arith, omega arith))
]

open_gate : (g z : Bool) → (g && z) ≡ false → z ≡ true → g ≡ false
open_gate false z h e = refl
open_gate true z h e = absurd (true≢false (sym e ∙ h))

neither : (p q : Bool) → (p || q) ≡ false → (p ≡ false) × (q ≡ false)
neither false q h = (refl, h)
neither true q h = absurd (true≢false h)

unescaped-IsPrintable : (c : ℕ) → is_escaped c ≡ false → IsPrintable c
unfolding is_escaped
unescaped-IsPrintable c h = elim (Bool-cases (c == 10)) [
  | inl ten ↦ inr (inr (inl ((==_iff c 10).0 ten)))
  | inr a ↦ elim (Bool-cases (c == 13)) [
    | inl thirteen ↦ inr (inr (inr ((==_iff c 13).0 thirteen)))
    | inr b ↦ elim (Bool-cases (c == 9)) [
      | inl nine ↦ inr (inl ((==_iff c 9).0 nine))
      | inr d ↦
          let g = ltb 128 c || ltb c 32 in
          let past_nine =
            open_gate (g && not (c == 10) && not (c == 13)) (not (c == 9)) h (rw d refl) in
          let past_thirteen =
            open_gate (g && not (c == 10)) (not (c == 13)) past_nine (rw b refl) in
          let outside =
            neither (ltb 128 c) (ltb c 32)
              (open_gate g (not (c == 10)) past_thirteen (rw a refl)) in
          inl (ltb→le c 32 outside.1, ltb→le 128 c outside.0)
    ]
  ]
]

printed_byte-ArePrintable : (c : ℕ) → c < 256 → ArePrintable (printed_byte c)
unfolding printed_byte
printed_byte-ArePrintable c h = elim (Bool-cases (is_escaped c)) [
  | inl e ↦ rw e (
    inl (omega arith, omega arith),
    (
      hex_digit-IsPrintable (c / 16) (omega arith),
      (hex_digit-IsPrintable (c % 16) (omega arith), (inl (omega arith, omega arith), tt)),
    ),
  )
  | inr e ↦ rw e (unescaped-IsPrintable c e, tt)
]

printed_byte-length : (c : ℕ) → length (printed_byte c) ≤ 4
unfolding printed_byte
printed_byte-length c = elim (Bool-cases (is_escaped c)) [
  | inl e ↦ rw e (omega arith)
  | inr e ↦ rw e (omega arith)
]

append-ArePrintable : (xs ys : List ℕ) → ArePrintable xs → ArePrintable ys → ArePrintable (xs ++ ys)
append-ArePrintable [] ys h k = k
append-ArePrintable (x ∷ xs) ys h k = (h.0, append-ArePrintable xs ys h.1 k)

print_loop-ArePrintable :
    (cs : List ℕ)
    → AreBytes cs
    → ArePrintable (print_loop cs) × (length (print_loop cs) ≤ 4 * length cs)
unfolding print_loop
print_loop-ArePrintable [] h = (tt, omega arith)
print_loop-ArePrintable (c ∷ cs) h =
    let rest = print_loop-ArePrintable cs h.1 in
    elim (Bool-cases (c == 0)) [
      | inl e ↦ rw e (tt, omega arith)
      | inr e ↦ rw e (
        append-ArePrintable (printed_byte c) (print_loop cs) (printed_byte-ArePrintable c h.0)
            rest.0,
        omega
            (arith, length-append (printed_byte c) (print_loop cs), printed_byte-length c, rest.1),
      )
    ]

-- Whatever bytes a message has, Sys_Printf puts nothing on the terminal but characters from 32 to
-- 128, tabs and ends of lines, at most four for a byte of the message, and at most 8188.
pub sys_printf-ArePrintable :
    (nostdout : Bool) (text : List ℕ)
    → AreBytes text
    → ArePrintable (sys_printf nostdout text)
      × (length (sys_printf nostdout text) ≤ 4 * min 2047 (length text))
unfolding sys_printf
sys_printf-ArePrintable nostdout text h = elim (Bool-cases nostdout) [
  | inl e ↦ rw e (tt, omega arith)
  | inr e ↦
      let loop = print_loop-ArePrintable (take 2047 text) (take-AreBytes 2047 text h) in
      rw e (loop.0, omega (arith, loop.1, length-take 2047 text))
]
