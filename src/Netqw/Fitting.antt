-- ===== src/Netqw/Fitting.antt =====
-- Which reliable buffers src/netqw.c puts into a packet.
use qwnet_library.Netqw.Send.{fit_buffers}
use qwnet_library.Prelude.{
  ℕ, ◌+◌, ◌≤◌, ◌<◌, ◌≡◌, refl, ap, inl, inr, List, [], ◌∷◌, ◌++◌, arith, length, get_or, take,
  length-append, ltb, ltb→lt, Bool-cases,
}

abbrev pub concat : List (List ℕ) → List ℕ
concat [] = []
concat (b ∷ bs) = b ++ concat bs

-- Which buffers go into a packet that has `i` bytes already: the first ones, in order, as many as
-- leave it below 1450 bytes, and no fewer.
pub record FitsWell (i : ℕ) (buffers : List (List ℕ)) (fit : List ℕ × ℕ) : Type 0 where
  pub counted : fit.1 ≤ length buffers
  pub in_order : fit.0 ≡ concat (take fit.1 buffers)
  pub below : 0 < fit.1 → i + length fit.0 < 1450
  pub maximal : fit.1 < length buffers → 1450 ≤ i + length fit.0 + length (get_or buffers fit.1 [])

pub fit_buffers_below :
    (i : ℕ) (buffers : List (List ℕ)) → i < 1450 → i + length (fit_buffers i buffers).0 < 1450
unfolding fit_buffers
fit_buffers_below i [] h = omega arith
fit_buffers_below i (b ∷ bs) h =
    ground (
      arith,
      fit_buffers_below (i + length b) bs,
      length-append b (fit_buffers (i + length b) bs).0,
    )

-- The reliable buffers that go into a packet with `i` bytes already are the first ones of the queue,
-- in order: as many as leave the packet below 1450 bytes, and no fewer.
pub fit_buffers-FitsWell :
    (i : ℕ) (buffers : List (List ℕ)) → FitsWell i buffers (fit_buffers i buffers)
unfolding fit_buffers
fit_buffers-FitsWell i [] = record {
  counted = omega arith;
  in_order = refl;
  below = λ h. absurd (omega arith);
  maximal = λ h. absurd (omega arith);
}
fit_buffers-FitsWell i (b ∷ bs) = elim (Bool-cases (ltb (i + length b) 1450)) [
  | inl fits ↦
      let rest = fit_buffers-FitsWell (i + length b) bs in
      rw fits (record {
        counted = omega (arith, rest.counted);
        in_order = ap (λ (t : List ℕ). b ++ t) rest.in_order;
        below = λ h. omega (
          arith,
          length-append b (fit_buffers (i + length b) bs).0,
          fit_buffers_below (i + length b) bs (ltb→lt _ _ fits),
        );
        maximal = λ h.
            omega (
              arith,
              length-append b (fit_buffers (i + length b) bs).0,
              rest.maximal (omega arith),
            );
      })
  | inr full ↦ rw full (record {
    counted = omega arith;
    in_order = refl;
    below = λ h. absurd (omega arith);
    maximal = λ h. ground arith;
  })
]
