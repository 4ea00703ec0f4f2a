-- ===== src/Huffman/Tables.antt =====
-- src/huffmantable_q3.h: the codes of the bytes, and how the two tables fit each other.
use mathlib.Core.Bool.{false≢true}
use mathlib.Core.Path.{subst, ap₂}
use native.Mathlib.Nat.{add-zero, zero-add}
use qwnet_library.Huffman.Bits.{high_first, zeros, high_bits, length-high_bits, split_and}
use qwnet_library.Huffman.Decoding.{dec_table}
use qwnet_library.Huffman.Encoding.{enc_table}
use qwnet_library.Prelude.{
  ℕ, zero, suc, ◌+◌, ◌-◌, ◌*◌, ◌/◌, ◌^◌, ◌≤◌, ◌<◌, ◌≡◌, refl, sym, ap, ◌∙◌, Bool, true, false, ◌&&◌,
  some, List, [], ◌∷◌, ◌++◌, arith, length, get_elem?, get_or, drop, get_elem?-eq-get_or, leb, ◌==◌,
  leb→le, ==_iff,
}

-- The code of a byte, as bits: it stands at the front of the 16 bits of the entry.
abbrev pub code_bits : ℕ × ℕ → List Bool
code_bits e = high_bits e.0 (e.1 / 2 ^ (16 - e.0))

pub length-code_bits : (e : ℕ × ℕ) → length (code_bits e) ≡ e.0
length-code_bits e = length-high_bits e.0 _

-- The first `k` entries are `v`.
abbrev starts_with_entry : ℕ → ℕ × ℕ → List (ℕ × ℕ) → Bool
starts_with_entry zero v es = true
starts_with_entry (suc k) v [] = false
starts_with_entry (suc k) v (e ∷ es) = (e.0 == v.0 && e.1 == v.1) && starts_with_entry k v es

-- The place of the decoding table at which the entries of a code begin.
abbrev pub first_place : ℕ × ℕ → ℕ
first_place e = high_first (code_bits e) * 2 ^ (11 - e.0)

-- The places of the decoding table that begin with the code hold the byte and the length.
abbrev entry_fits : ℕ → ℕ × ℕ → Bool
entry_fits c e =
    (leb 1 e.0 && leb e.0 11)
    && ((high_first (code_bits e ++ zeros (16 - e.0)) == e.1)
        && starts_with_entry (2 ^ (11 - e.0)) (c, e.0) (drop (first_place e) dec_table))

abbrev entries_fit : ℕ → List (ℕ × ℕ) → Bool
entries_fit c [] = true
entries_fit c (e ∷ es) = entry_fits c e && entries_fit (c + 1) es

tables_fit : entries_fit 0 enc_table ≡ true
unfolding dec_table
tables_fit = refl

-- What the entry of a byte is good for.
pub record FitsTables (c : ℕ) (e : ℕ × ℕ) : Type 0 where
  pub some_bit : 1 ≤ e.0
  pub few_bits : e.0 ≤ 11
  pub at_front : high_first (code_bits e ++ zeros (16 - e.0)) ≡ e.1
  pub decodes :
      (i : ℕ) → i < 2 ^ (11 - e.0) → get_elem? dec_table (first_place e + i) ≡ some (c, e.0)

starts_with_entry-at :
    (k i : ℕ) (v : ℕ × ℕ) (es : List (ℕ × ℕ))
    → starts_with_entry k v es ≡ true
    → i < k
    → get_elem? es i ≡ some v
starts_with_entry-at zero i v es h j = absurd (omega arith)
starts_with_entry-at (suc k) i v [] h j = absurd (false≢true h)
starts_with_entry-at (suc k) zero v (e ∷ es) h j =
    let same : (e.0 == v.0 && e.1 == v.1) ≡ true = (split_and _ _ h).0 in
    let parts : ((e.0 == v.0) ≡ true) × ((e.1 == v.1) ≡ true) = split_and _ _ same in
    ap some (ap₂ (λ x y. (x, y)) ((==_iff e.0 v.0).0 parts.0) ((==_iff e.1 v.1).0 parts.1))
starts_with_entry-at (suc k) (suc i) v (e ∷ es) h j =
    starts_with_entry-at k i v es (split_and _ _ h).1 (omega arith)

get_elem?-drop :
    {A : Type 0} (n i : ℕ) (xs : List A) → get_elem? (drop n xs) i ≡ get_elem? xs (n + i)
get_elem?-drop zero i xs = rw (zero-add i) refl
get_elem?-drop (suc n) i [] = refl
get_elem?-drop (suc n) i (x ∷ xs) =
    let e : suc n + i ≡ suc (n + i) = omega arith in rw e (get_elem?-drop n i xs)

entry_fits-FitsTables : (c : ℕ) (e : ℕ × ℕ) → entry_fits c e ≡ true → FitsTables c e
entry_fits-FitsTables c e h =
    let outer = split_and (leb 1 e.0 && leb e.0 11) _ h in
    let size = split_and (leb 1 e.0) _ outer.0 in
    let inner = split_and (high_first (code_bits e ++ zeros (16 - e.0)) == e.1) _ outer.1 in
    record {
      some_bit = leb→le 1 e.0 size.0;
      few_bits = leb→le e.0 11 size.1;
      at_front = (==_iff (high_first (code_bits e ++ zeros (16 - e.0))) e.1).0 inner.0;
      decodes = λ i j.
          sym (get_elem?-drop (first_place e) i dec_table)
          ∙ starts_with_entry-at (2 ^ (11 - e.0)) i (c, e.0) _ inner.1 j;
    }

entries_fit-at :
    (k i : ℕ) (es : List (ℕ × ℕ))
    → entries_fit k es ≡ true
    → i < length es
    → FitsTables (k + i) (get_or es i (0, 0))
entries_fit-at k i [] h j = absurd (omega arith)
entries_fit-at k zero (e ∷ es) h j =
    entry_fits-FitsTables (k + 0) e (rw (add-zero k) (split_and _ _ h).0)
entries_fit-at k (suc i) (e ∷ es) h j =
    let apart : (entry_fits k e ≡ true) × (entries_fit (k + 1) es ≡ true) = split_and _ _ h in
    let next : k + 1 + i ≡ k + suc i = omega arith in
    subst (λ n. FitsTables n (get_or es i (0, 0))) next
      (entries_fit-at (k + 1) i es apart.1 (omega arith))

-- The entry of a byte in the encoding table.
unfoldable pub entry : ℕ → ℕ × ℕ
entry c = get_or enc_table c (0, 0)

pub get_elem?-entry : (c : ℕ) → c < 256 → get_elem? enc_table c ≡ some (entry c)
unfolding entry
get_elem?-entry c h = get_elem?-eq-get_or enc_table c (0, 0) h

pub entry-FitsTables : (c : ℕ) → c < 256 → FitsTables c (entry c)
unfolding entry
entry-FitsTables c h =
    subst (λ n. FitsTables n (entry c)) (zero-add c) (entries_fit-at 0 c enc_table tables_fit h)

-- The bits of a whole message.
abbrev pub stream : List ℕ → List Bool
stream [] = []
stream (c ∷ cs) = code_bits (entry c) ++ stream cs
