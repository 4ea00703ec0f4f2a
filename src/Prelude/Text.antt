-- ===== src/Prelude/Text.antt =====
-- C strings as lists of character codes, and the conversions of snprintf that the source uses.
use Prim.Native.Char.{code}
use Prim.Native.String.{String}
use qwnet_library.Prelude.{
  ℕ, zero, suc, ◌+◌, ◌-◌, ◌/◌, ◌%◌, ◌^◌, Bool, true, false, List, [], ◌∷◌, ◌++◌, ltb, ◌==◌,
  if◌then◌else◌, is_negative,
}

-- The codes of a text literal.
abbrev pub codes : String → List ℕ
codes String.[] = []
codes (String.◌∷◌ c s) = code c ∷ codes s

-- Decimal digits, at most `fuel` of them.
unfoldable pub print_nat : ℕ → ℕ → List ℕ
print_nat zero n = []
print_nat (suc fuel) n =
    let high = print_nat fuel (n / 10) in
    if ltb n 10 then (n + 48) ∷ [] else high ++ ((n % 10 + 48) ∷ [])

-- `%i` of an `int`, given as its pattern; ten digits are enough for 32 bits.
unfoldable pub print_int : ℕ → List ℕ
unfolding print_nat
print_int v = if is_negative v then b'-' ∷ print_nat 10 (2 ^ 32 - v) else print_nat 10 v

-- `strncmp(prefix, s, strlen(prefix)) == 0`
unfoldable pub starts_with : List ℕ → List ℕ → Bool
starts_with [] s = true
starts_with (c ∷ cs) [] = false
starts_with (c ∷ cs) (x ∷ s) = if c == x then starts_with cs s else false
