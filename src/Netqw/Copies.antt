-- ===== src/Netqw/Copies.antt =====
-- NetQW_CopyFrames of src/netqw.c hands every frame over once, in order.
use qwnet_library.Netqw.{SentFrame, NetQw, update_backup, empty_frame}
use qwnet_library.Netqw.Api.{copied_frame, copy_loop, copy_frames}
use qwnet_library.Prelude.{
  ℕ, zero, suc, ◌+◌, ◌%◌, ◌≤◌, ◌<◌, ◌≡◌, refl, ap, ◌≢◌, List, [], ◌∷◌, map, arith, get_or,
}

-- `k` indices of the ring behind `last`.
abbrev pub ring_from : ℕ → ℕ → List ℕ
ring_from zero last = []
ring_from (suc k) last = (last + 1) % update_backup ∷ ring_from k ((last + 1) % update_backup)

abbrev pub IsNew : ℕ → List ℕ → Type 0
IsNew i [] = Unit {0}
IsNew i (j ∷ js) = (i ≢ j) × IsNew i js

abbrev pub AllDistinct : List ℕ → Type 0
AllDistinct [] = Unit {0}
AllDistinct (i ∷ is) = IsNew i is × AllDistinct is

-- What a run of the copying loop over `rounds` frames gives.
pub record CopiedAll (rounds : ℕ) (n : NetQw) (result : List (ℕ × SentFrame) × NetQw) : Type 0 where
  pub indices : map (λ (p : ℕ × SentFrame). p.0) result.0 ≡ ring_from rounds n.lastcopiedframe
  pub frames :
      map (λ (p : ℕ × SentFrame). p.1) result.0
      ≡ map (λ (i : ℕ). get_or n.frames i empty_frame) (ring_from rounds n.lastcopiedframe)
  pub none_left : result.1.framestocopy ≡ 0
  pub last : result.1.lastcopiedframe % update_backup ≡ (n.lastcopiedframe + rounds) % update_backup
  pub kept : result.1.frames ≡ n.frames

copy_loop-CopiedAll : (rounds : ℕ) (n : NetQw) → CopiedAll rounds n (copy_loop rounds n)
unfolding copy_loop copied_frame
copy_loop-CopiedAll zero n = record {
  indices = refl;
  frames = refl;
  none_left = refl;
  last = omega arith;
  kept = refl;
}
copy_loop-CopiedAll (suc rounds) n =
    let i = (n.lastcopiedframe + 1) % update_backup in
    let rest =
      copy_loop-CopiedAll rounds (record n { lastcopiedframe = i; framestocopy = rounds }) in
    record {
      indices = ap (λ (is : List ℕ). i ∷ is) rest.indices;
      frames = ap (λ (fs : List SentFrame). get_or n.frames i empty_frame ∷ fs) rest.frames;
      none_left = rest.none_left;
      last = omega (arith, rest.last);
      kept = rest.kept;
    }

-- None of the places that follow on a place, up to a whole round of the ring, is that place: `gap` is
-- how far `last` is behind it.
ring_from-IsNew :
    (k gap i : ℕ)
    → i < update_backup
    → gap + k < update_backup
    → IsNew i (ring_from k ((i + gap) % update_backup))
ring_from-IsNew zero gap i small inside = tt
ring_from-IsNew (suc k) gap i small inside =
    let next : ((i + gap) % update_backup + 1) % update_backup ≡ (i + (gap + 1)) % update_backup =
      omega arith in
    rw (next) ((λ e. absurd (omega arith)), ring_from-IsNew k (gap + 1) i small (omega arith))

-- Behind each place, at most 63 others follow before it comes again.
ring_from-AllDistinct : (k last : ℕ) → k ≤ update_backup → AllDistinct (ring_from k last)
ring_from-AllDistinct zero last h = tt
ring_from-AllDistinct (suc k) last h =
    let first : ℕ = (last + 1) % update_backup in
    let start : IsNew first (ring_from k ((first + 0) % update_backup)) =
      ring_from-IsNew k 0 first (omega arith) (omega arith) in
    let same : (first + 0) % update_backup ≡ first = omega arith in
    (rw (same) at start, ring_from-AllDistinct k first (omega arith))

-- Where at most 64 frames are due, NetQW_CopyFrames copies as many as that, each from the place in the
-- ring of 64 behind the one before, and no place twice; none is left due, and the frames themselves
-- stay as they are.
pub copy_frames-CopiedAll :
    (n : NetQw)
    → n.framestocopy ≤ update_backup
    → CopiedAll n.framestocopy n ((copy_frames n).copied, (copy_frames n).after)
      × AllDistinct (map (λ (p : ℕ × SentFrame). p.0) (copy_frames n).copied)
unfolding copy_frames
copy_frames-CopiedAll n few =
    let all = copy_loop-CopiedAll n.framestocopy n in
    (all, rw (all.indices) (ring_from-AllDistinct n.framestocopy n.lastcopiedframe few))
