-- ===== src/Huffman/Bits.antt =====
-- For src/huffman.c: the bits of bytes and of codes, as lists. The table of src/bitswap.h turns the
-- order of the bits in a byte round.
use mathlib.Core.Bool.{false≢true}
use mathlib.Core.Path.{subst}
use native.Mathlib.Nat.{pow-suc, one-le-pow, zero-add, mul-add-div_right, div-eq_of_lt}
use qwnet_library.Prelude.{
  ℕ, zero, suc, ◌+◌, ◌*◌, ◌/◌, ◌%◌, ◌^◌, ◌≤◌, ◌<◌, ◌≡◌, refl, sym, ap, ◌∙◌, Bool, true, false, ◌&&◌,
  Option, none, some, List, [], ◌∷◌, ◌++◌, append_assoc, arith, length, replicate, length-append,
  length-replicate, ◌==◌, ==_iff, u16,
}

abbrev pub bit : Bool → ℕ
bit true = 1
bit false = 0

-- The lowest bit stands first.
abbrev pub low_first : List Bool → ℕ
low_first [] = 0
low_first (b ∷ bs) = bit b + 2 * low_first bs

-- The highest bit stands first.
abbrev pub high_first : List Bool → ℕ
high_first [] = 0
high_first (b ∷ bs) = bit b * 2 ^ length bs + high_first bs

-- The `n` lowest bits, the lowest one first.
abbrev pub low_bits : ℕ → ℕ → List Bool
low_bits zero b = []
low_bits (suc n) b = (b % 2 == 1) ∷ low_bits n (b / 2)

-- The bits of a buffer, in the order in which codes are put into it.
abbrev pub bits : List ℕ → List Bool
bits [] = []
bits (b ∷ bs) = low_bits 8 b ++ bits bs

abbrev pub zeros : ℕ → List Bool
zeros n = replicate n false

pub two_pow_add : (a b : ℕ) → 2 ^ (a + b) ≡ 2 ^ a * 2 ^ b
two_pow_add zero b = rw (zero-add b) (omega arith)
two_pow_add (suc a) b =
    let e : suc a + b ≡ suc (a + b) = omega arith in
    rw e
      (omega (arith, ap (λ (t : ℕ). t * 2 ^ b) (pow-suc 2 a), pow-suc 2 (a + b), two_pow_add a b))

pub length-low_bits : (n b : ℕ) → length (low_bits n b) ≡ n
length-low_bits zero b = refl
length-low_bits (suc n) b = ap suc (length-low_bits n (b / 2))

pub length-bits : (bs : List ℕ) → length (bits bs) ≡ 8 * length bs
length-bits [] = refl
length-bits (b ∷ bs) = omega (arith, length-bits bs)

pub bits-append : (xs ys : List ℕ) → bits (xs ++ ys) ≡ bits xs ++ bits ys
bits-append [] ys = refl
bits-append (x ∷ xs) ys =
    rw (bits-append xs ys, append_assoc (low_bits 8 x) (bits xs) (bits ys)) refl

pub bit_bound : (b : Bool) → bit b ≤ 1
bit_bound true = omega arith
bit_bound false = omega arith

pub low_first_bound : (xs : List Bool) → low_first xs < 2 ^ length xs
low_first_bound [] = omega arith
low_first_bound (x ∷ xs) = omega (arith, bit_bound x, low_first_bound xs, pow-suc 2 (length xs))

pub low_first-append :
    (xs ys : List Bool) → low_first (xs ++ ys) ≡ low_first xs + 2 ^ length xs * low_first ys
low_first-append [] ys = omega arith
low_first-append (x ∷ xs) ys =
    omega (arith, low_first-append xs ys, ap (λ (t : ℕ). t * low_first ys) (pow-suc 2 (length xs)))

bit_times : (x : Bool) (k : ℕ) → bit x * k ≤ k
bit_times true k = omega arith
bit_times false k = omega arith

pub high_first_bound : (xs : List Bool) → high_first xs < 2 ^ length xs
high_first_bound [] = omega arith
high_first_bound (x ∷ xs) =
    omega (arith, pow-suc 2 (length xs), high_first_bound xs, bit_times x (2 ^ length xs))

pub high_first-append :
    (xs ys : List Bool) → high_first (xs ++ ys) ≡ high_first xs * 2 ^ length ys + high_first ys
high_first-append [] ys = omega arith
high_first-append (true ∷ xs) ys =
    rw (length-append xs ys)
      (omega (arith, high_first-append xs ys, two_pow_add (length xs) (length ys)))
high_first-append (false ∷ xs) ys = omega (arith, high_first-append xs ys)

pub high_first-zeros : (n : ℕ) → high_first (zeros n) ≡ 0
high_first-zeros zero = refl
high_first-zeros (suc n) = omega (arith, high_first-zeros n)

pub low_first-zeros : (n : ℕ) → low_first (zeros n) ≡ 0
low_first-zeros zero = refl
low_first-zeros (suc n) = omega (arith, low_first-zeros n)

even_odd :
    (b : Bool) (xs : List Bool)
    → low_bits (length xs) (low_first xs) ≡ xs
    → low_bits (suc (length xs)) (low_first (b ∷ xs)) ≡ b ∷ xs
even_odd true xs h =
    let one : (1 + 2 * low_first xs) % 2 ≡ 1 = omega arith in
    let half : (1 + 2 * low_first xs) / 2 ≡ low_first xs = omega arith in rw (one, half, h) refl
even_odd false xs h =
    let one : (0 + 2 * low_first xs) % 2 ≡ 0 = omega arith in
    let half : (0 + 2 * low_first xs) / 2 ≡ low_first xs = omega arith in rw (one, half, h) refl

pub low_first-low_bits : (n b : ℕ) → b < 2 ^ n → low_first (low_bits n b) ≡ b
low_first-low_bits zero b h = omega arith
low_first-low_bits (suc n) b h =
    omega (
      arith,
      low_first-low_bits n (b / 2) (omega (arith, pow-suc 2 n)),
      parity (b % 2) (omega arith),
    )
  where
    parity : (r : ℕ) → r < 2 → bit (r == 1) ≡ r
    parity zero k = refl
    parity (suc zero) k = refl
    parity (suc (suc r)) k = absurd (omega arith)

pub low_bits-low_first : (xs : List Bool) → low_bits (length xs) (low_first xs) ≡ xs
low_bits-low_first [] = refl
low_bits-low_first (true ∷ xs) = even_odd true xs (low_bits-low_first xs)
low_bits-low_first (false ∷ xs) = even_odd false xs (low_bits-low_first xs)

-- The `n` lowest bits, the highest one first.
abbrev pub high_bits : ℕ → ℕ → List Bool
high_bits zero v = []
high_bits (suc n) v = (v / 2 ^ n % 2 == 1) ∷ high_bits n v

pub length-high_bits : (n v : ℕ) → length (high_bits n v) ≡ n
length-high_bits zero v = refl
length-high_bits (suc n) v = ap suc (length-high_bits n v)

pub split_and : (a b : Bool) → (a && b) ≡ true → (a ≡ true) × (b ≡ true)
split_and true b h = (refl, h)
split_and false b h = absurd (false≢true h)

abbrev pub holds_number : Option ℕ → ℕ → Bool
holds_number none v = false
holds_number (some w) v = w == v

pub holds_number-eq : (o : Option ℕ) (v : ℕ) → holds_number o v ≡ true → o ≡ some v
holds_number-eq none v h = absurd (false≢true h)
holds_number-eq (some w) v h = ap some ((==_iff w v).0 h)

pub high_first-div : (xs ys : List Bool) → high_first (xs ++ ys) / 2 ^ length ys ≡ high_first xs
high_first-div xs ys =
    let pos : 0 < 2 ^ length ys = one-le-pow (length ys) 2 (omega arith) in
    rw
      (
        high_first-append xs ys,
        mul-add-div_right pos (high_first xs) (high_first ys),
        div-eq_of_lt (high_first_bound ys),
      )
      (omega arith)

pub high_first-padded : (n : ℕ) (w : List Bool) → high_first (w ++ zeros n) ≡ high_first w * 2 ^ n
high_first-padded n w = omega (
  arith,
  high_first-append w (zeros n),
  high_first-zeros n,
  ap (λ (k : ℕ). high_first w * 2 ^ k) (length-replicate n false),
)

-- A shift to the left in 16 bits loses the bits at the front.
pub u16_shifted :
    (a b : List Bool) (n : ℕ)
    → length b + n ≡ 16
    → u16 (high_first (a ++ b) * 2 ^ n) ≡ high_first (b ++ zeros n)
u16_shifted a b n h =
    let long : length (b ++ zeros n) ≡ 16 =
      omega (arith, length-append b (zeros n), length-replicate n false) in
    let number : high_first (a ++ b) * 2 ^ n ≡ high_first a * 65536 + high_first (b ++ zeros n) =
      sym (high_first-padded n (a ++ b))
      ∙ ap high_first (append_assoc a b (zeros n))
      ∙ high_first-append a (b ++ zeros n)
      ∙ ap (λ k. high_first a * 2 ^ k + high_first (b ++ zeros n)) long in
    let small : high_first (b ++ zeros n) < 65536 =
      subst (λ k. high_first (b ++ zeros n) < 2 ^ k) long (high_first_bound (b ++ zeros n)) in
    rw number (omega arith)
