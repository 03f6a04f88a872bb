-- ===== src/Processors/Mdx23c/Faded.antt =====
-- mdx23c_vocals.py, `_crossfade`: what becomes of each sample of a segment.
use karaoke_anything.Prelude.{
  ℕ, zero, suc, ◌*◌, ◌/◌, ◌<◌, ◌≡◌, refl, sym, ◌∙◌, subst, inl, inr, Bool-cases, Option, none, some,
  List, [], ◌∷◌, length, ltb, ltb→le, ltb→lt, if◌then◌else◌, All, All-drop, arith, Option-cases,
}
use karaoke_anything.Prelude.Int.{ℤ, pos, negsuc}
use karaoke_anything.Errors.{ok, Result-cases, ok-injective}
use karaoke_anything.Host.{Host}
use karaoke_anything.Kany.{IsWord}
use karaoke_anything.Processors.Mdx23c.Crossfade.{
  usable_tail, new_tail, Crossfaded, alpha, mixed, mix, overlap_frames_of, crossfaded,
}
use karaoke_anything.Processors.Mdx23c.Mixing.{nth, Mixes, mix-Mixes, usable_tail-eq, overlap-le}

-- The sample at `i` of a segment: up to the end of the overlap it slides from that of the tail to
-- that of the segment.
abbrev pub faded : (host : Host) → ℤ → Option (List ℕ) → List ℕ → ℕ → ℕ
faded host (pos n) (some tail) output i =
    if ltb i (n * 2)
    then mixed host (alpha host n (i / 2)) (nth tail i) (nth output i)
    else nth output i
faded host z tail output i = nth output i

module _ (host : Host) where
  Mixes-faded :
      (n : ℕ) (tail output after : List ℕ)
      → Mixes host n tail 0 (n * 2) output after
      → (i : ℕ) → nth after i ≡ faded host (pos n) (some tail) output i
  Mixes-faded n tail output after m i = elim (Bool-cases (ltb i (n * 2))) [
    | inl early ↦ rw early (m.inside i (omega arith) (ltb→lt i (n * 2) early))
    | inr late ↦ rw late (m.outside i (inr (ltb→le i (n * 2) late)))
  ]

  -- the segment, mixed: as many samples, each by the formula
  abbrev pub Fades : ℤ → Option (List ℕ) → List ℕ → List ℕ → Type 0
  Fades z tail output after =
      (length after ≡ length output) × ((i : ℕ) → nth after i ≡ faded host z tail output i)

  mix-Fades :
      (overlap : host.Float) (output : List ℕ) (previous : Option (List ℕ)) (z : ℤ)
      → overlap_frames_of host overlap output ≡ ok z
      → (after : List ℕ) × (mix host z (usable_tail z previous) output ≡ ok after)
        × Fades z (usable_tail z previous) output after
  unfolding mix
  mix-Fades overlap output previous z h = elim (Option-cases (usable_tail z previous)) [
    | inl e ↦ unmixed z e
    | inr (tail, e) ↦
        let (n, same, _, _, fits) = usable_tail-eq z previous tail e in
        let (after, r, m) =
          mix-Mixes host n tail output fits
            (overlap-le host overlap output n (h ∙ (rw same refl))) in
        (
          after,
          rw (e, same) r,
          (m.same_length, λ i. rw (e, same) (Mixes-faded n tail output after m i)),
        )
  ]
    where
      unmixed :
          (z : ℤ)
          → usable_tail z previous ≡ none
          → (after : List ℕ) × (mix host z (usable_tail z previous) output ≡ ok after)
            × Fades z (usable_tail z previous) output after
      unmixed (pos n) e = (output, rw e refl, (refl, λ i. rw e refl))
      unmixed (negsuc n) e = (output, refl, (refl, λ i. refl))

  -- When the overlap can be rounded, `_crossfade` returns, whatever tail there is: the segment keeps
  -- its length, each sample is the formula's, and the samples kept for the next segment are the last
  -- ones of the result.
  pub crossfaded-Fades :
      (overlap : host.Float) (output : List ℕ) (previous : Option (List ℕ)) (z : ℤ)
      → overlap_frames_of host overlap output ≡ ok z
      → (result : Crossfaded) × (crossfaded host overlap output previous ≡ ok result)
        × (result.tail ≡ new_tail z result.output)
        × Fades z (usable_tail z previous) output result.output
  unfolding crossfaded
  crossfaded-Fades overlap output previous z h =
      let (after, e, f) = mix-Fades overlap output previous z h in
      (record { output = after; tail = new_tail z after }, rw (h, e) refl, refl, f)

  pub crossfaded-eq_ok :
      (overlap : host.Float) (output : List ℕ) (previous : Option (List ℕ)) (result : Crossfaded)
      → crossfaded host overlap output previous ≡ ok result
      → (z : ℤ) × (result.tail ≡ new_tail z result.output)
        × Fades z (usable_tail z previous) output result.output
  unfolding crossfaded
  crossfaded-eq_ok overlap output previous result h =
      elim (Result-cases (overlap_frames_of host overlap output)) [
        | inr (x, e) ↦ cc (rw e at h)
        | inl (z, e) ↦
            let (r, e', tail, fades) = crossfaded-Fades overlap output previous z e in
            let is_r : r ≡ result = ok-injective (sym e' ∙ h) in
            subst
              (λ (c : Crossfaded).
                (k : ℤ) × (c.tail ≡ new_tail k c.output)
                × Fades k (usable_tail k previous) output c.output)
              is_r (z, tail, fades)
      ]

All-nth : (P : ℕ → Type 0) (xs : List ℕ) → ((i : ℕ) → i < length xs → P (nth xs i)) → All P xs
All-nth P [] h = tt
All-nth P (x ∷ xs) h = (h 0 (omega arith), All-nth P xs (λ i k. h (suc i) (omega arith)))

nth-All : (P : ℕ → Type 0) (xs : List ℕ) (i : ℕ) → All P xs → i < length xs → P (nth xs i)
nth-All P [] i h k = absurd (omega arith)
nth-All P (x ∷ xs) zero h k = h.0
nth-All P (x ∷ xs) (suc i) h k = nth-All P xs i h.1 (omega arith)

-- the samples that are kept are 32-bit patterns
abbrev pub TailFits : Option (List ℕ) → Type 0
TailFits none = Unit
TailFits (some tail) = All IsWord tail

new_tail-TailFits : (z : ℤ) (output : List ℕ) → All IsWord output → TailFits (new_tail z output)
unfolding new_tail
new_tail-TailFits (pos zero) output h = tt
new_tail-TailFits (pos (suc n)) output h = All-drop IsWord _ output h
new_tail-TailFits (negsuc n) output h = All-drop IsWord _ output h

module _ (host : Host) (stores : (x : host.Float) → IsWord (host.store x)) where
  faded-IsWord :
      (z : ℤ) (tail : Option (List ℕ)) (output : List ℕ) (i : ℕ)
      → IsWord (nth output i)
      → IsWord (faded host z tail output i)
  faded-IsWord (pos n) (some tail) output i h = elim (Bool-cases (ltb i (n * 2))) [
    | inl early ↦ rw early (stores _)
    | inr late ↦ rw late h
  ]
  faded-IsWord (pos n) none output i h = h
  faded-IsWord (negsuc n) tail output i h = h

  -- what a crossfade that returned leaves
  pub crossfaded-IsWord :
      (overlap : host.Float) (output : List ℕ) (previous : Option (List ℕ)) (result : Crossfaded)
      → crossfaded host overlap output previous ≡ ok result
      → All IsWord output
      → All IsWord result.output × TailFits result.tail
  crossfaded-IsWord overlap output previous result h words =
      let (z, tail, (same, f)) = crossfaded-eq_ok host overlap output previous result h in
      let fine : All IsWord result.output = All-nth IsWord result.output (λ i k.
        subst IsWord (sym (f i)) (
          faded-IsWord z (usable_tail z previous) output i
            (nth-All IsWord output i words (omega (arith, same))))) in
      (fine, rw tail (new_tail-TailFits z result.output fine))
