-- ===== src/Net/RoundTrip.antt =====
-- NET_StringToAdr of src/net.c reads what NET_AdrToString prints.
use qwnet_library.Net.{Address, ipv4, dotted, adr_to_string}
use qwnet_library.Net.Reading.{
  is_digit, scan_digits, dec_to_uint, ◌>>=◌, at_end, string_to_ipv4, string_to_ipv6, same_text,
  string_to_addr_no_port, read_port, set_port, string_to_adr,
}
use qwnet_library.Prelude.{
  ℕ, zero, suc, ◌+◌, ◌-◌, ◌*◌, ◌/◌, ◌%◌, ◌^◌, ◌≤◌, ◌<◌, ◌≡◌, refl, ap, ◌∙◌, inl, inr, Bool, true,
  false, ◌&&◌, ◌||◌, Option, some, List, [], ◌∷◌, ◌++◌, append-nil, append_assoc, arith, length,
  length-append, ltb, leb, ◌==◌, ltb→lt, ltb→le, Bool-cases, u32,
}
use qwnet_library.Prelude.Text.{codes, print_nat}

-- The text does not go on with a digit.
abbrev StopsDigits : List ℕ → Type 0
StopsDigits [] = Unit {0}
StopsDigits (c ∷ s) = is_digit c ≡ false

scan_digits-stop :
    (most value len : ℕ) (s : List ℕ)
    → StopsDigits s
    → scan_digits most s value len ≡ (value, len, s)
unfolding scan_digits
scan_digits-stop most value len [] h = refl
scan_digits-stop most value len (c ∷ s) h = ground arith

-- One more digit.
scan_digits-digit :
    (most value len d n : ℕ) (s : List ℕ)
    → d < 10
    → value ≤ most
    → n ≡ value * 10 + d
    → n < 2 ^ 32
    → scan_digits most ((d + 48) ∷ s) value len ≡ scan_digits most s n (suc len)
unfolding scan_digits
scan_digits-digit most value len d n s h le e small =
    let next : u32 (value * 10 + (d + 48 - b'0')) ≡ n = omega arith in
    let more : len + 1 ≡ suc len = omega arith in
    let digit : leb b'0' (d + 48) && leb (d + 48) b'9' && leb value most ≡ true = ground arith in
    rw (digit, next, more, scan_digits) refl

-- The first number of more than `k` digits.
abbrev tens : ℕ → ℕ
tens zero = 1
tens (suc k) = tens k * 10

-- A number of several digits has fuel for more than one.
fuel_left : (k n : ℕ) → n < tens (suc k) → 10 ≤ n → 0 < k
fuel_left zero n small many = absurd (omega arith)
fuel_left (suc k) n small many = omega arith

-- The digits of a number are read as that number.
scan_digits-print_nat :
    (fuel most n : ℕ) (s : List ℕ)
    → n < tens fuel
    → 0 < fuel
    → n ≤ most
    → most < 2 ^ 28
    → scan_digits most (print_nat fuel n ++ s) 0 0
      ≡ scan_digits most s n (length (print_nat fuel n))
unfolding print_nat
scan_digits-print_nat zero most n s small some_fuel le big = absurd (omega arith)
scan_digits-print_nat (suc k) most n s small some_fuel le big = elim (Bool-cases (ltb n 10)) [
  | inl one ↦
      rw (one, print_nat)
        (scan_digits-digit most 0 0 n n s (ltb→lt n 10 one) (omega arith) (omega arith)
          (omega arith))
  | inr many ↦
      rw (many, print_nat, append_assoc, length-append)
        (scan_digits-print_nat k most (n / 10) ((n % 10 + 48) ∷ s) (omega arith)
            (fuel_left k n small (ltb→le n 10 many)) (omega arith) big
          ∙ scan_digits-digit most (n / 10) (length (print_nat k (n / 10))) (n % 10) n s
              (omega arith) (omega arith) (omega arith) (omega arith)
          ∙ ap (scan_digits most s n) (omega arith))
]

-- A number has a digit.
length-print_nat : (k n : ℕ) → 0 < length (print_nat (suc k) n)
unfolding print_nat
length-print_nat k n = elim (Bool-cases (ltb n 10)) [
  | inl one ↦ rw (one, print_nat) (omega arith)
  | inr many ↦ rw (many, print_nat, length-append) (omega arith)
]

-- NET_StringDecToUInt reads a number within the bound.
dec_to_uint-print_nat :
    (most n : ℕ) (s : List ℕ)
    → n ≤ most
    → most < 2 ^ 28
    → StopsDigits s
    → dec_to_uint most (print_nat 10 n ++ s) ≡ some (n, s)
unfolding dec_to_uint
dec_to_uint-print_nat most n s le big stops =
    let read : scan_digits most (print_nat 10 n ++ s) 0 0 ≡ (n, length (print_nat 10 n), s) =
      scan_digits-print_nat 10 most n s (omega arith) (omega arith) le big
      ∙ scan_digits-stop most n (length (print_nat 10 n)) s stops in
    let fits : (ltb most n || length (print_nat 10 n) == 0) ≡ false =
      ground (arith, length-print_nat 9 n) in
    rw (read, dec_to_uint, fits) refl

at_end-StopsDigits : (s : List ℕ) → at_end s ≡ true → StopsDigits s
at_end-StopsDigits [] h = tt
at_end-StopsDigits (c ∷ s) h = ground arith

-- One number, then a dot.
dec_to_uint-print_byte :
    (n : ℕ) (s : List ℕ)
    → n < 256
    → StopsDigits s
    → dec_to_uint 255 (print_nat 10 n ++ s) ≡ some (n, s)
dec_to_uint-print_byte n s h stops = dec_to_uint-print_nat 255 n s (omega arith) (omega arith) stops

-- The four numbers of an IPv4 address.
string_to_ipv4-dotted :
    (a b c d : ℕ) (s : List ℕ)
    → a < 256
    → b < 256
    → c < 256
    → d < 256
    → at_end s ≡ true
    → string_to_ipv4 (dotted a b c d ++ s) ≡ some (ipv4 a b c d 0, s)
unfolding string_to_ipv4 dotted
string_to_ipv4-dotted a b c d s ha hb hc hd ends =
    let rest_d = print_nat 10 d ++ s in
    let rest_c = b'.' ∷ (print_nat 10 c ++ (b'.' ∷ rest_d)) in
    let rest_b = b'.' ∷ (print_nat 10 b ++ rest_c) in
    let read_a = dec_to_uint-print_byte a rest_b ha refl in
    let read_b = dec_to_uint-print_byte b rest_c hb refl in
    let read_c = dec_to_uint-print_byte c (b'.' ∷ rest_d) hc refl in
    let read_d = dec_to_uint-print_byte d s hd (at_end-StopsDigits s ends) in
    let text : dotted a b c d ++ s ≡ print_nat 10 a ++ rest_b = simp (append_assoc) refl in
    rw (text, read_a, ◌>>=◌)
      (rw (read_b, ◌>>=◌) (rw (read_c, ◌>>=◌) (rw (read_d, ◌>>=◌, ends) refl)))

-- A number is not the start of another text.
same_text-print_nat :
    (k n c : ℕ) (s t : List ℕ) → b'9' < c → same_text (print_nat (suc k) n ++ s) (c ∷ t) ≡ false
unfolding print_nat same_text
same_text-print_nat zero n c s t h = elim (Bool-cases (ltb n 10)) [
  | inl one ↦ rw (one) (ground (arith, ltb→lt n 10 one))
  | inr many ↦ rw (many) (ground arith)
]
same_text-print_nat (suc k) n c s t h = elim (Bool-cases (ltb n 10)) [
  | inl one ↦ rw (one) (ground (arith, ltb→lt n 10 one))
  | inr many ↦
      rw (many, print_nat, append_assoc) (same_text-print_nat k (n / 10) c ((n % 10 + 48) ∷ s) t h)
]

not_local : (a b c d : ℕ) (s : List ℕ) → same_text (dotted a b c d ++ s) (codes "local") ≡ false
unfolding dotted
not_local a b c d s = rw (append_assoc) (
    same_text-print_nat 9 a b'l'
      ((b'.' ∷ (print_nat 10 b ++ (b'.' ∷ (print_nat 10 c ++ (b'.' ∷ print_nat 10 d))))) ++ s)
      (codes "ocal") (omega arith))

-- NET_StringToAdr gives back the IPv4 address that NET_AdrToString prints, port included, whatever
-- Sys_Net_ResolveName and malloc do, when the four bytes and the port have their C types' range.
pub string_to_adr-adr_to_string :
    (resolve : List ℕ → Option Address) (allocated : Bool) (a b c d port : ℕ)
    → a < 256
    → b < 256
    → c < 256
    → d < 256
    → port < 2 ^ 16
    → string_to_adr resolve allocated (adr_to_string (ipv4 a b c d port)) ≡ some (ipv4 a b c d port)
unfolding adr_to_string string_to_adr string_to_addr_no_port string_to_ipv6 read_port set_port
string_to_adr-adr_to_string resolve allocated a b c d port ha hb hc hd hp =
    let rest = b':' ∷ print_nat 10 port in
    let other = not_local a b c d rest in
    let host = string_to_ipv4-dotted a b c d rest ha hb hc hd refl in
    let text = append-nil (print_nat 10 port) in
    let read = dec_to_uint-print_nat 65535 port [] (omega arith) (omega arith) tt in
    rw (other, string_to_addr_no_port, host, ◌>>=◌) (rw (← text, read, ◌>>=◌) refl)
