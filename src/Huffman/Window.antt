-- ===== src/Huffman/Window.antt =====
-- src/huffman.c: the three bytes that `huffdecbyte` reads, and the code that stands in them.
use mathlib.Core.Path.{ap₂}
use qwnet_library.Huffman.Parts.{Split, split, same_parts}
use qwnet_library.Prelude.{
  ℕ, ◌+◌, ◌-◌, ◌≤◌, ◌<◌, ◌≡◌, sym, ap, ◌∙◌, Bool, List, ◌++◌, append_assoc, arith, length,
  length-append,
}

-- The bits of three bytes, where `w` and then a code stand ahead.
pub record Window (x0 x1 x2 w code : List Bool) : Type 0 where
  pub s0 : List Bool
  pub s2 : List Bool
  pub unread : List Bool
  pub front : List Bool
  pub back : List Bool
  pub first_byte : x0 ≡ w ++ s0
  pub third_byte : x2 ≡ s2 ++ unread
  pub index : (s0 ++ x1) ++ s2 ≡ (code ++ front) ++ back
  pub long_first : length w + length s0 ≡ 8
  pub long_third : length s2 ≡ length w
  pub long_unread : length unread ≡ length s0
  pub eleven : length code + length front ≡ 11
  pub five : length back ≡ 5

-- The same bits, put together in another order.
regrouped :
    (s0 x1 s2 u r : List Bool) → ((s0 ++ x1) ++ s2) ++ (u ++ r) ≡ s0 ++ (x1 ++ ((s2 ++ u) ++ r))
regrouped s0 x1 s2 u r =
    append_assoc (s0 ++ x1) s2 (u ++ r)
    ∙ append_assoc s0 x1 (s2 ++ (u ++ r))
    ∙ ap (λ v. s0 ++ (x1 ++ v)) (sym (append_assoc s2 u r))

module _ (x0 x1 x2 r w code t : List Bool) (long0 : length x0 ≡ 8) (long1 : length x1 ≡ 8)
    (long2 : length x2 ≡ 8) (h : length w < 8) (few : length code ≤ 11)
    (e : x0 ++ (x1 ++ (x2 ++ r)) ≡ w ++ (code ++ t)) where
  in_order : (a : Split (length w) x0) → (a.front ≡ w) × (a.back ++ (x1 ++ (x2 ++ r)) ≡ code ++ t)
  in_order a =
      same_parts a.front (a.back ++ (x1 ++ (x2 ++ r))) w (code ++ t)
        (sym (append_assoc a.front a.back (x1 ++ (x2 ++ r)))
          ∙ ap (λ v. v ++ (x1 ++ (x2 ++ r))) (sym a.parts)
          ∙ e)
        a.long

  sum_of_parts : {n : ℕ} {xs : List Bool} (a : Split n xs) → length xs ≡ n + length a.back
  sum_of_parts a =
      ap length a.parts ∙ length-append a.front a.back ∙ ap (λ k. k + length a.back) a.long

  index_size :
      (a : Split (length w) x0) (b : Split (length w) x2) → length ((a.back ++ x1) ++ b.front) ≡ 16
  index_size a b =
      omega (
        arith,
        length-append (a.back ++ x1) b.front,
        length-append a.back x1,
        sum_of_parts a,
        b.long,
      )

  code_ahead :
      (a : Split (length w) x0) (b : Split (length w) x2)
      → (d : Split (length code) ((a.back ++ x1) ++ b.front)) → d.front ≡ code
  code_ahead a b d =
      (same_parts d.front (d.back ++ (b.back ++ r)) code t
        (sym (append_assoc d.front d.back (b.back ++ r))
          ∙ ap (λ v. v ++ (b.back ++ r)) (sym d.parts)
          ∙ regrouped a.back x1 b.front b.back r
          ∙ ap (λ v. a.back ++ (x1 ++ (v ++ r))) (sym b.parts)
          ∙ (in_order a).1)
        d.long).0

  placed_code :
      (a : Split (length w) x0) (b : Split (length w) x2)
      → (d : Split (length code) ((a.back ++ x1) ++ b.front)) → Split (11 - length code) d.back
      → Window x0 x1 x2 w code
  placed_code a b d f = record {
    s0 = a.back;
    s2 = b.front;
    unread = b.back;
    front = f.front;
    back = f.back;
    first_byte = a.parts ∙ ap (λ v. v ++ a.back) (in_order a).0;
    third_byte = b.parts;
    index =
        d.parts
        ∙ ap₂ (λ u v. u ++ v) (code_ahead a b d) f.parts
        ∙ sym (append_assoc code f.front f.back);
    long_first = omega (arith, sum_of_parts a);
    long_third = b.long;
    long_unread = omega (arith, sum_of_parts a, sum_of_parts b);
    eleven = omega (arith, f.long);
    five = omega (arith, sum_of_parts f, sum_of_parts d, index_size a b);
  }

  pub three_bytes : Window x0 x1 x2 w code
  three_bytes =
      let a = split (length w) x0 (omega arith) in
      let b = split (length w) x2 (omega arith) in
      let d = split (length code) ((a.back ++ x1) ++ b.front) (omega (arith, index_size a b)) in
      placed_code a b d
        (split (11 - length code) d.back (omega (arith, sum_of_parts d, index_size a b)))
