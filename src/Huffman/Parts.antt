-- ===== src/Huffman/Parts.antt =====
-- For the proofs about src/huffman.c: lists in parts, and places in them.
use native.Mathlib.Nat.{zero-add}
use qwnet_library.Prelude.{
  ℕ, zero, suc, ◌+◌, ◌≤◌, ◌≡◌, refl, sym, ap, ◌∙◌, some, List, [], ◌∷◌, ◌++◌, arith, length,
  get_elem?, set, take, drop, replicate, take-front, drop-front,
}

pub get_elem?-middle :
    {A : Type 0} (xs ys : List A) (a : A) → get_elem? (xs ++ a ∷ ys) (length xs) ≡ some a
get_elem?-middle [] ys a = refl
get_elem?-middle (x ∷ xs) ys a = get_elem?-middle xs ys a

pub set-middle :
    {A : Type 0} (xs ys : List A) (a b : A) → set (xs ++ a ∷ ys) (length xs) b ≡ xs ++ b ∷ ys
set-middle [] ys a b = refl
set-middle (x ∷ xs) ys a b = ap (λ zs. x ∷ zs) (set-middle xs ys a b)

pub replicate-add :
    {A : Type 0} (m n : ℕ) (a : A) → replicate (m + n) a ≡ replicate m a ++ replicate n a
replicate-add zero n a = rw (zero-add n) refl
replicate-add (suc m) n a =
    let e : suc m + n ≡ suc (m + n) = omega arith in rw (e, replicate-add m n a) refl

-- A list in two parts, the first of `n` elements.
pub record Split {A : Type 0} (n : ℕ) (xs : List A) : Type 0 where
  pub front : List A
  pub back : List A
  pub parts : xs ≡ front ++ back
  pub long : length front ≡ n

pub split : {A : Type 0} (n : ℕ) (xs : List A) → n ≤ length xs → Split n xs
split zero xs h = record { front = []; back = xs; parts = refl; long = refl }
split (suc n) [] h = absurd (omega arith)
split (suc n) (x ∷ xs) h =
    let s = split n xs (omega arith) in
    record {
      front = x ∷ s.front;
      back = s.back;
      parts = ap (λ zs. x ∷ zs) s.parts;
      long = ap suc s.long;
    }

pub get_elem?-behind :
    {A : Type 0} (xs ys : List A) (i : ℕ) → get_elem? (xs ++ ys) (length xs + i) ≡ get_elem? ys i
get_elem?-behind [] ys i = ap (get_elem? ys) (zero-add i)
get_elem?-behind (x ∷ xs) ys i =
    let e : suc (length xs) + i ≡ suc (length xs + i) = omega arith in
    rw e (get_elem?-behind xs ys i)

-- Two lists with parts of one length in front are equal part by part.
pub same_parts :
    {A : Type 0} (xs ys zs vs : List A)
    → xs ++ ys ≡ zs ++ vs
    → length xs ≡ length zs
    → (xs ≡ zs) × (ys ≡ vs)
same_parts xs ys zs vs e h = (
  sym (take-front xs ys (length xs) refl)
      ∙ ap (take (length xs)) e
      ∙ take-front zs vs (length xs) h,
  sym (drop-front xs ys (length xs) refl)
      ∙ ap (drop (length xs)) e
      ∙ drop-front zs vs (length xs) h,
)
