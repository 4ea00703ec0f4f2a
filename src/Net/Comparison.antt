-- ===== src/Net/Comparison.antt =====
-- What NET_CompareAdr and NET_CompareBaseAdr of src/net.c tell apart.
use qwnet_library.Net.{Address, loopback, ipv4, ipv6, same_bytes, compare_base_adr, compare_adr}
use qwnet_library.Prelude.{ℕ, ◌≡◌, refl, ◌↔◌, true, List, [], ◌∷◌, arith}

same_bytes_refl : (xs : List ℕ) → same_bytes xs xs ≡ true
unfolding same_bytes
same_bytes_refl [] = refl
same_bytes_refl (x ∷ xs) = ground (arith, same_bytes_refl xs)

same_bytes-eq : (xs ys : List ℕ) → same_bytes xs ys ≡ true → xs ≡ ys
unfolding same_bytes
same_bytes-eq [] [] h = refl
same_bytes-eq [] (y ∷ ys) h = cc
same_bytes-eq (x ∷ xs) [] h = cc
same_bytes-eq (x ∷ xs) (y ∷ ys) h = ground (arith, same_bytes-eq xs ys)

compare_adr_refl : (x : Address) → compare_adr x x ≡ true
unfolding compare_adr
compare_adr_refl loopback = refl
compare_adr_refl (ipv4 a b c d port) = ground arith
compare_adr_refl (ipv6 bytes port) = ground (arith, same_bytes_refl bytes)

compare_adr-eq : (x y : Address) → compare_adr x y ≡ true → x ≡ y
unfolding compare_adr
compare_adr-eq loopback loopback h = refl
compare_adr-eq loopback (ipv4 a b c d port) h = cc
compare_adr-eq loopback (ipv6 bytes port) h = cc
compare_adr-eq (ipv4 a b c d port) loopback h = cc
compare_adr-eq (ipv4 a b c d port) (ipv4 a' b' c' d' port') h = ground arith
compare_adr-eq (ipv4 a b c d port) (ipv6 bytes port') h = cc
compare_adr-eq (ipv6 bytes port) loopback h = cc
compare_adr-eq (ipv6 bytes port) (ipv4 a b c d port') h = cc
compare_adr-eq (ipv6 bytes port) (ipv6 bytes' port') h = ground (arith, same_bytes-eq bytes bytes')

-- The address with its port taken off.
abbrev pub without_port : Address → Address
without_port loopback = loopback
without_port (ipv4 a b c d port) = ipv4 a b c d 0
without_port (ipv6 bytes port) = ipv6 bytes 0

-- The base comparison is the full one on the addresses without their ports.
compare_base_adr-without_port :
    (x y : Address) → compare_base_adr x y ≡ compare_adr (without_port x) (without_port y)
unfolding compare_base_adr compare_adr
compare_base_adr-without_port loopback loopback = refl
compare_base_adr-without_port loopback (ipv4 a b c d port) = refl
compare_base_adr-without_port loopback (ipv6 bytes port) = refl
compare_base_adr-without_port (ipv4 a b c d port) loopback = refl
compare_base_adr-without_port (ipv4 a b c d port) (ipv4 a' b' c' d' port') = ground arith
compare_base_adr-without_port (ipv4 a b c d port) (ipv6 bytes port') = refl
compare_base_adr-without_port (ipv6 bytes port) loopback = refl
compare_base_adr-without_port (ipv6 bytes port) (ipv4 a b c d port') = refl
compare_base_adr-without_port (ipv6 bytes port) (ipv6 bytes' port') = ground arith

-- NET_CompareAdr holds exactly of equal addresses, and NET_CompareBaseAdr exactly of addresses that
-- are equal without their ports.
pub compare_adr_iff :
    (x y : Address)
    → ((compare_adr x y ≡ true) ↔ (x ≡ y))
      × ((compare_base_adr x y ≡ true) ↔ (without_port x ≡ without_port y))
compare_adr_iff x y =
    (equal x y, rw (compare_base_adr-without_port x y) (equal (without_port x) (without_port y)))
  where
    equal : (u v : Address) → (compare_adr u v ≡ true) ↔ (u ≡ v)
    equal u v = (compare_adr-eq u v, λ e. rw e (compare_adr_refl v))
