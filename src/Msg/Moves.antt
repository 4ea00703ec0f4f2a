-- ===== src/Msg/Moves.antt =====
-- MSG_ReadDeltaUsercmd of src/message_reading.c reads what WriteDeltaUsercmd of src/netqw.c writes.
use qwnet_library.Msg.{
  Reader, Read, read_short, read_byte, read_angle16, when_flag, read_moves_26, read_moves,
  read_delta_usercmd,
}
use qwnet_library.Msg.Steps.{IsSafe, read_byte_enough, read_short_enough}
use qwnet_library.Msg.Values.{HasAhead, HasAhead-prefix, read_byte-HasAhead}
use qwnet_library.Netqw.{Usercmd}
use qwnet_library.Netqw.Send.{changed, usercmd_bits, field_if, write_delta_usercmd}
use qwnet_library.Prelude.{
  ℕ, ◌+◌, ◌^◌, ◌≤◌, ◌<◌, ◌≡◌, refl, sym, ap, ◌∙◌, inl, inr, Bool, true, false, List, [], ◌∷◌, arith,
  length, drop, length-append, ◌==◌, if◌then◌else◌, Bool-cases, has_flag,
}
use qwnet_library.Prelude.Action.{Outcome, done, pure, ◌>>=◌, ◌>>◌}
use qwnet_library.Prelude.Bits.{bit_or_bound}

-- `m` reads `k` bytes wherever so many are left.
record Takes {A : Type 0} (k : ℕ) (r : Reader) (o : Outcome (A × Reader)) : Type 0 where
  value : A
  equation : o ≡ done (value, record r { readcount = r.readcount + k })

record Reads {A : Type 0} (k : ℕ) (m : Read A) : Type 0 where
  at : (r : Reader) → IsSafe r → r.readcount + k ≤ r.cursize → Takes k r (m r)

moved-IsSafe :
    (k : ℕ) (r : Reader)
    → IsSafe r
    → r.readcount + k ≤ r.cursize
    → IsSafe (record r { readcount = r.readcount + k })
moved-IsSafe k r h le = record {
  attached = h.attached;
  fits = h.fits;
  inside = omega (arith, h.fits);
  small = h.small;
  room = h.room;
}

Reads-pure : {A : Type 0} (a : A) → Reads 0 (pure a)
Reads-pure a = record {
  at = λ r h le. record {
    value = a;
    equation = ap (λ (k : ℕ). done (a, record r { readcount = k })) (omega arith);
  };
}

Reads-bind :
    {A B : Type 0} (j k : ℕ) (m : Read A) (f : A → Read B)
    → Reads j m
    → ((a : A) → Reads k (f a))
    → Reads (j + k) (m >>= f)
Reads-bind j k m f h g = record {
  at = λ r s le.
      let first = h.at r s (omega arith) in
      let r' = record r { readcount = r.readcount + j } in
      let rest = (g first.value).at r' (moved-IsSafe j r s (omega arith)) (omega arith) in
      rw (first.equation, ◌>>=◌)
        (record {
          value = rest.value;
          equation =
              rest.equation
              ∙ ap (λ (i : ℕ). done (rest.value, record r { readcount = i })) (omega arith);
        });
}

read_byte-Reads : Reads 1 read_byte
read_byte-Reads = record { at = λ r h le. record { value = _; equation = read_byte_enough h le } }

read_short-Reads : Reads 2 read_short
read_short-Reads = record { at = λ r h le. record { value = _; equation = read_short_enough h le } }

read_angle16-Reads : Reads 2 read_angle16
unfolding read_angle16
read_angle16-Reads = read_short-Reads

Reads-then :
    {A B : Type 0} (j k : ℕ) (m : Read A) (n : Read B)
    → Reads j m
    → Reads k n
    → Reads (j + k) (m >> n)
Reads-then j k m n h g = Reads-bind j k m (λ _. n) h (λ _. g)

Reads-cast : {A : Type 0} (j k : ℕ) (m : Read A) → j ≡ k → Reads j m → Reads k m
Reads-cast j k m e h = rw (sym e) h

Reads-if :
    {A : Type 0} (b : Bool) (k : ℕ) (m n : Read A)
    → Reads k m
    → Reads 0 n
    → Reads (if b then k else 0) (if b then m else n)
Reads-if true k m n h g = h
Reads-if false k m n h g = g

-- The bytes of a field that the flag `mask` announces.
abbrev flagged : ℕ → ℕ → ℕ → ℕ
flagged bits mask k = if has_flag bits mask then k else 0

when_flag-Reads :
    (k bits mask : ℕ) (m : Read ℕ) → Reads k m → Reads (flagged bits mask k) (when_flag bits mask m)
unfolding when_flag
when_flag-Reads k bits mask m h =
    Reads-if (has_flag bits mask) k (m >> pure tt) (pure tt)
      (Reads-cast (k + 0) k (m >> pure tt) (omega arith)
        (Reads-then k 0 m (pure tt) h (Reads-pure tt)))
      (Reads-pure tt)

read_moves-Reads :
    (bits : ℕ)
    → Reads
        (flagged bits 0x01 2
          + (flagged bits 0x80 2
              + (flagged bits 0x02 2
                  + (flagged bits 0x04 2 + (flagged bits 0x08 2 + flagged bits 0x10 2)))))
        (read_moves bits)
unfolding read_moves
read_moves-Reads bits =
    Reads-then _ _ _ _ (when_flag-Reads 2 bits 0x01 read_angle16 read_angle16-Reads) (
      Reads-then _ _ _ _ (when_flag-Reads 2 bits 0x80 read_angle16 read_angle16-Reads) (
        Reads-then _ _ _ _ (when_flag-Reads 2 bits 0x02 read_angle16 read_angle16-Reads) (
          Reads-then _ _ _ _ (when_flag-Reads 2 bits 0x04 read_short read_short-Reads) (
            Reads-then _ _ _ _ (when_flag-Reads 2 bits 0x08 read_short read_short-Reads)
              (when_flag-Reads 2 bits 0x10 read_short read_short-Reads)))))

field_if-length :
    (bits mask : ℕ) (bs : List ℕ) → length (field_if bits mask bs) ≡ flagged bits mask (length bs)
field_if-length bits mask bs = elim (Bool-cases (has_flag bits mask)) [
  | inl on ↦ rw on refl
  | inr off ↦ rw off refl
]

changed_bound : (mask a b : ℕ) → mask < 2 ^ 8 → changed mask a b < 2 ^ 8
changed_bound mask a b h = ground arith

usercmd_bits_bound : (from cmd : Usercmd) → usercmd_bits from cmd < 2 ^ 8
unfolding usercmd_bits
usercmd_bits_bound from cmd = bit_or_bound 8 _ _ (changed_bound 0x01 _ _ (omega arith)) (
    bit_or_bound 8 _ _ (changed_bound 0x80 _ _ (omega arith)) (
      bit_or_bound 8 _ _ (changed_bound 0x02 _ _ (omega arith)) (
        bit_or_bound 8 _ _ (changed_bound 0x04 _ _ (omega arith)) (
          bit_or_bound 8 _ _ (changed_bound 0x08 _ _ (omega arith)) (
            bit_or_bound 8 _ _ (changed_bound 0x10 _ _ (omega arith)) (
              bit_or_bound 8 _ _ (changed_bound 0x20 _ _ (omega arith))
                (changed_bound 0x40 _ _ (omega arith))))))))

-- What MSG_ReadDeltaUsercmd reads behind the flags, for any protocol version but 26.
tail_length : ℕ → ℕ
tail_length bits =
    flagged bits 0x01 2
    + (flagged bits 0x80 2
        + (flagged bits 0x02 2
            + (flagged bits 0x04 2 + (flagged bits 0x08 2 + flagged bits 0x10 2))))
    + (flagged bits 0x20 1 + (flagged bits 0x40 1 + 1))

write_delta_usercmd-length :
    (from cmd : Usercmd)
    → length (write_delta_usercmd from cmd) ≡ 1 + tail_length (usercmd_bits from cmd)
unfolding write_delta_usercmd tail_length
write_delta_usercmd-length from cmd =
    let bits = usercmd_bits from cmd in simp (length-append, field_if-length) (omega arith)

read_tail-Reads :
    (version bits : ℕ)
    → (version == 26) ≡ false
    → Reads (tail_length bits) (
        (if version == 26 then read_moves_26 bits else read_moves bits)
        >> (when_flag bits 0x20 read_byte
            >> (when_flag bits 0x40 read_byte
                >> (if version == 26
                    then when_flag bits 0x80 read_byte
                    else (read_byte >> pure tt)))))
unfolding tail_length
read_tail-Reads version bits other = rw other (
    Reads-then _ _ _ _ (read_moves-Reads bits) (
      Reads-then _ _ _ _ (when_flag-Reads 1 bits 0x20 read_byte read_byte-Reads) (
        Reads-then _ _ _ _ (when_flag-Reads 1 bits 0x40 read_byte read_byte-Reads) (
          Reads-cast (1 + 0) 1 (read_byte >> pure tt) (omega arith)
            (Reads-then 1 0 read_byte (pure tt) read_byte-Reads (Reads-pure tt))))))

-- The flags come first.
record Headed (from cmd : Usercmd) : Type 0 where
  rest : List ℕ
  layout : write_delta_usercmd from cmd ≡ usercmd_bits from cmd ∷ rest

write_delta_usercmd-Headed : (from cmd : Usercmd) → Headed from cmd
unfolding write_delta_usercmd
write_delta_usercmd-Headed from cmd = record {
  rest = drop 1 (write_delta_usercmd from cmd);
  layout =
      ap (λ (b : ℕ). b ∷ drop 1 (write_delta_usercmd from cmd))
        (omega (arith, usercmd_bits_bound from cmd));
}

-- In every protocol version but 26, a movement command that WriteDeltaUsercmd wrote is taken up by
-- MSG_ReadDeltaUsercmd to its last byte, and no byte behind it is touched.
pub read_delta_usercmd-write_delta_usercmd :
    (version : ℕ) (from cmd : Usercmd) {r : Reader}
    → (version == 26) ≡ false
    → IsSafe r
    → HasAhead r (write_delta_usercmd from cmd)
    → read_delta_usercmd version r
      ≡ done (tt, record r { readcount = r.readcount + length (write_delta_usercmd from cmd) })
unfolding read_delta_usercmd
read_delta_usercmd-write_delta_usercmd version from cmd {r} other h a =
    let bits = usercmd_bits from cmd in
    let size = write_delta_usercmd-length from cmd in
    let head = write_delta_usercmd-Headed from cmd in
    let flags =
      read_byte-HasAhead bits h (usercmd_bits_bound from cmd)
        (HasAhead-prefix (bits ∷ []) head.rest (rw (head.layout) at a)) in
    let enough = a.enough in
    let r' = record r { readcount = r.readcount + 1 } in
    let rest =
      (read_tail-Reads version bits other).at r' (moved-IsSafe 1 r h (omega arith)) (omega arith) in
    rw (flags, ◌>>=◌)
      (rest.equation ∙ ap (λ (i : ℕ). done (tt, record r { readcount = i })) (omega arith))
