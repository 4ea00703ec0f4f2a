-- ===== src/Huffman/Encoder.antt =====
-- src/huffman.c: `huffencbyte` as a whole, and the loop of Huff_CompressPacket.
use mathlib.Core.Path.{subst}
use native.Mathlib.Nat.{le_refl}
use qwnet_library.Crc.Laws.{AreBytes}
use qwnet_library.Huffman.{put, ◌>>=◌, copy_bits, enc_byte, compress_loop}
use qwnet_library.Huffman.Bits.{low_first, high_first, bits, zeros, length-bits}
use qwnet_library.Huffman.Codes.{Holds, PutIn, copy_bits-PutIn}
use qwnet_library.Huffman.Tables.{
  code_bits, length-code_bits, FitsTables, entry, get_elem?-entry, entry-FitsTables, stream,
}
use qwnet_library.Huffman.Writing.{put-middle}
use qwnet_library.Net.Tidy.{held}
use qwnet_library.Prelude.{
  ℕ, suc, ◌+◌, ◌-◌, ◌*◌, ◌/◌, ◌%◌, ◌^◌, ◌≤◌, ◌<◌, ◌≡◌, refl, sym, ap, ◌∙◌, inl, inr, Bool, Option,
  some, List, [], ◌∷◌, ◌++◌, append-nil, append_assoc, arith, length, length-append, ltb, ◌==◌,
  if◌then◌else◌, ltb→lt, ltb→le, ==_iff, Bool-cases,
}

put_ahead :
    (full after : List ℕ) (w : List Bool)
    → length w ≡ 0
    → put (full ++ low_first w ∷ after) (length full) 0 ≡ some (full ++ low_first w ∷ after)
put_ahead full after [] h = put-middle full after 0 0
put_ahead full after (x ∷ w) h = absurd (omega arith)

-- The place of the next bit, in bytes and bits.
pub place_of :
    (bs : List Bool) (buf : List ℕ) (held : Holds bs buf)
    → (length bs / 8 ≡ length (held.full)) × (length bs % 8 ≡ length (held.partial_byte))
place_of bs buf held =
    let long : length bs ≡ 8 * length held.full + length held.partial_byte = omega (
      arith,
      ap length held.all_bits,
      length-append (bits held.full) held.partial_byte,
      length-bits held.full,
    ) in
    let small = held.room in (omega arith, omega arith)

-- A byte in which no bit is used is cleared first, which changes nothing.
front_is_clear :
    (full after : List ℕ) (w : List Bool)
    → (if 8 - length w == 8
        then put (full ++ low_first w ∷ after) (length full) 0
        else some (full ++ low_first w ∷ after))
      ≡ some (full ++ low_first w ∷ after)
front_is_clear full after w = elim (Bool-cases (8 - length w == 8)) [
  | inl e ↦ rw e (put_ahead full after w (omega (arith, (==_iff (8 - length w) 8).0 e)))
  | inr e ↦ rw e refl
]

enc_byte-copies :
    (c l : ℕ) (full after : List ℕ) (w : List Bool)
    → c < 256
    → l / 8 ≡ length full
    → l % 8 ≡ length w
    → enc_byte c (full ++ low_first w ∷ after) l
      ≡ copy_bits
          (length (code_bits (entry c)))
          (full ++ low_first w ∷ after)
          (length full)
          (8 - length w)
          (length (code_bits (entry c)))
          (high_first (code_bits (entry c) ++ zeros (16 - length (code_bits (entry c)))))
          l
unfolding enc_byte
enc_byte-copies c l full after w h e f =
    rw (e, f, front_is_clear full after w, ◌>>=◌)
      (rw
        (
          get_elem?-entry c h,
          ◌>>=◌,
          length-code_bits (entry c),
          FitsTables.at_front (entry-FitsTables c h),
        )
        refl)

pub enc_byte-PutIn :
    (c : ℕ) (bs : List Bool) (buf : List ℕ)
    → c < 256
    → Holds bs buf
    → length bs / 8 + 4 ≤ length buf
    → length bs + 11 < 2 ^ 32
    → PutIn
        (enc_byte c buf (length bs))
        (bs ++ code_bits (entry c))
        (length buf)
        (length bs + length (code_bits (entry c)))
enc_byte-PutIn c bs buf h held h1 h2 =
    let place = place_of bs buf held in
    let few : length (code_bits (entry c)) ≤ 11 =
      omega (arith, length-code_bits (entry c), FitsTables.few_bits (entry-FitsTables c h)) in
    let long : length buf ≡ length held.full + suc (length held.after) =
      ap length held.as_bytes ∙ length-append held.full _ in
    let run =
      copy_bits-PutIn (length (code_bits (entry c))) held.full held.after held.partial_byte
        (code_bits (entry c)) (length bs) held.room (omega arith) (le_refl _)
        (omega (arith, held.room, place.0, place.1)) (omega arith) held.full_bytes in
    record {
      buf = run.buf;
      equation =
          ap (λ b. enc_byte c b (length bs)) held.as_bytes
          ∙ enc_byte-copies c (length bs) held.full held.after held.partial_byte h place.0 place.1
          ∙ run.equation;
      holds =
          subst (λ v. Holds v run.buf)
            (sym (append_assoc (bits held.full) held.partial_byte (code_bits (entry c)))
              ∙ ap (λ v. v ++ code_bits (entry c)) (sym held.all_bits))
            run.holds;
      same_length = run.same_length ∙ sym long;
    }

-- The loop leaves the bytes that it has seen in the buffer, all of them unless it stopped.
pub record Encoded (result : Option (List ℕ × ℕ)) (bs : List Bool) (size limit : ℕ) : Type 0 where
  pub buf : List ℕ
  pub count : ℕ
  pub equation : result ≡ some (buf, count)
  pub whole : count / 8 < limit → Holds bs buf × (count ≡ length bs)
  pub same_length : length buf ≡ size

pub compress_loop-Encoded :
    (limit : ℕ) (cs buf : List ℕ) (bs : List Bool)
    → AreBytes cs
    → Holds bs buf
    → limit + 3 ≤ length buf
    → limit < 2 ^ 28
    → Encoded (compress_loop limit cs buf (length bs)) (bs ++ stream cs) (length buf) limit
unfolding compress_loop
compress_loop-Encoded limit [] buf bs h held h1 h2 = record {
  buf = buf;
  count = length bs;
  equation = refl;
  whole =
      λ _. (subst (λ v. Holds v buf) (sym (append-nil bs)) held, ap length (sym (append-nil bs)));
  same_length = refl;
}
compress_loop-Encoded limit (c ∷ cs) buf bs h held h1 h2 =
    elim (Bool-cases (ltb (length bs / 8) limit)) [
      | inr e ↦ record {
        buf = buf;
        count = length bs;
        equation = rw e refl;
        whole = λ k. absurd (omega (arith, ltb→le _ _ e));
        same_length = refl;
      }
      | inl e ↦
          let inside = ltb→lt _ _ e in
          let put = enc_byte-PutIn c bs buf h.0 held (omega arith) (omega arith) in
          let long : length bs + length (code_bits (entry c)) ≡ length (bs ++ code_bits (entry c)) =
            sym (length-append bs (code_bits (entry c))) in
          let rest =
            compress_loop-Encoded limit cs put.buf (bs ++ code_bits (entry c)) h.1 put.holds
              (omega (arith, put.same_length)) h2 in
          record {
            buf = rest.buf;
            count = rest.count;
            equation = rw (e, put.equation, ◌>>=◌, long) rest.equation;
            whole = λ k.
                subst (λ v. Holds v rest.buf × (rest.count ≡ length v))
                  (append_assoc bs (code_bits (entry c)) (stream cs)) (rest.whole k);
            same_length = rest.same_length ∙ put.same_length;
          }
    ]
