-- ===== src/Processors/Mdx23c/Formula.antt =====
-- mdx23c_vocals.py, `_crossfade`: what it computes, written down without its helpers.
use karaoke_anything.Prelude.{
  ℕ, zero, suc, ◌+◌, ◌-◌, ◌*◌, ◌/◌, ◌≤◌, ◌<◌, ◌≡◌, refl, sym, ap, ap₂, ◌∙◌, subst, ◌⊎◌, inl, inr,
  Bool-cases, Option, none, some, List, [], ◌∷◌, ◌++◌, length, take, drop, take-append-drop,
  length-take, length-drop, ltb, ltb→le, ltb→lt, min, arith,
}
use karaoke_anything.Prelude.Int.{ℤ, pos, negsuc}
use karaoke_anything.Errors.{ok}
use karaoke_anything.Host.{Host}
use karaoke_anything.Processors.Mdx23c.Crossfade.{
  min_int, usable_tail, new_tail, Crossfaded, overlap_frames_of, crossfaded,
}
use karaoke_anything.Processors.Mdx23c.Mixing.{nth, overlap-le}
use karaoke_anything.Processors.Mdx23c.Faded.{Fades, crossfaded-Fades}

-- A sample in a frame of the overlap, from the one of the segment before and the one of the segment:
-- the share of the new sample is (frame + 1) / (n + 1), and that of the old one is the rest of 1.
abbrev pub slide : (host : Host) → (n frame old new : ℕ) → ℕ
slide host n frame old new =
    let share = host.ratio (frame + 1) (n + 1) in
    host.store (
      host.add (host.mul (host.load old) (host.sub (host.ratio 1 1) share))
        (host.mul (host.load new) share))

-- `after` is the segment with its first `n` frames mixed with those of the tail, sample by sample
pub record Slides (host : Host) (n : ℕ) (tail output after : List ℕ) : Type 0 where
  pub same_length : length after ≡ length output
  pub inside :
      (frame channel : ℕ)
      → frame < n
      → channel < 2
      → nth after (frame * 2 + channel)
        ≡ slide host n frame (nth tail (frame * 2 + channel)) (nth output (frame * 2 + channel))
  pub outside : (i : ℕ) → n * 2 ≤ i → nth after i ≡ nth output i

-- without a tail, or with one that is too short, the segment stays as it is
abbrev pub Blends : (host : Host) → ℕ → Option (List ℕ) → List ℕ → List ℕ → Type 0
Blends host n none output after = after ≡ output
Blends host n (some tail) output after =
    ((length tail < n * 2) × (after ≡ output))
    ⊎ ((n * 2 ≤ length tail) × Slides host n tail output after)

-- the last `n` frames of the result are kept, if there are any
abbrev pub KeepsEnd : ℕ → List ℕ → Option (List ℕ) → Type 0
KeepsEnd zero after tail = tail ≡ none
KeepsEnd (suc n) after tail =
    (front : List ℕ) × (end : List ℕ) × (after ≡ front ++ end)
    × (length end ≡ suc n * 2)
    × (tail ≡ some end)

-- Where `r` is the rounded product of the frames and the overlap, at most half of the frames overlap. A
-- negative index of a slice counts from the end, so for a negative `r` all but the first samples are
-- kept, and nothing is mixed.
abbrev pub Formula : (host : Host) → List ℕ → Option (List ℕ) → Crossfaded → ℤ → Type 0
Formula host output previous result (pos r) =
    Blends host (min r (length output / 2 / 2)) previous output result.output
    × KeepsEnd (min r (length output / 2 / 2)) result.output result.tail
Formula host output previous result (negsuc k) =
    (result.output ≡ output)
    × (front : List ℕ) × (end : List ℕ) × (output ≡ front ++ end)
    × (length front ≡ min (suc k * 2) (length output))
    × (result.tail ≡ some end)

nth-ext : (xs ys : List ℕ) → length xs ≡ length ys → ((i : ℕ) → nth xs i ≡ nth ys i) → xs ≡ ys
nth-ext [] [] h e = refl
nth-ext [] (y ∷ ys) h e = absurd (omega arith)
nth-ext (x ∷ xs) [] h e = absurd (omega arith)
nth-ext (x ∷ xs) (y ∷ ys) h e = ap₂ ◌∷◌ (e 0) (nth-ext xs ys (omega arith) (λ i. e (suc i)))

new_tail-KeepsEnd :
    (n : ℕ) (after : List ℕ) → n * 2 ≤ length after → KeepsEnd n after (new_tail (pos n) after)
unfolding new_tail
new_tail-KeepsEnd zero after h = refl
new_tail-KeepsEnd (suc n) after h =
    let cut = length after - suc n * 2 in
    (
      take cut after,
      drop cut after,
      sym (take-append-drop cut after),
      length-drop cut after ∙ (omega arith),
      refl,
    )

module _ (host : Host) (output after : List ℕ) where
  -- without a usable tail nothing is mixed
  kept :
      (z : ℤ) (tail : Option (List ℕ))
      → tail ≡ none
      → Fades host z tail output after
      → after ≡ output
  kept (pos n) none e f = nth-ext after output f.0 f.1
  kept (negsuc n) none e f = nth-ext after output f.0 f.1
  kept (pos n) (some tail) e f = cc e
  kept (negsuc n) (some tail) e f = cc e

  Fades-Slides :
      (n : ℕ) (tail : List ℕ)
      → Fades host (pos n) (some tail) output after
      → Slides host n tail output after
  Fades-Slides n tail f = record {
    same_length = f.0;
    inside = λ frame channel early two. at_sample frame channel early two;
    outside = λ i late. elim (Bool-cases (ltb i (n * 2))) [
      | inl early ↦ absurd (let less = ltb→lt i (n * 2) early in omega arith)
      | inr other ↦ f.1 i ∙ (rw other refl)
    ];
  }
    where
      at_sample :
          (frame channel : ℕ)
          → frame < n
          → channel < 2
          → nth after (frame * 2 + channel)
            ≡ slide host n frame (nth tail (frame * 2 + channel)) (nth output (frame * 2 + channel))
      at_sample frame channel early two =
          let i = frame * 2 + channel in
          let half : i / 2 ≡ frame = omega arith in
          elim (Bool-cases (ltb i (n * 2))) [
            | inl inside ↦ f.1 i ∙ (rw (inside, half) refl)
            | inr outside ↦ absurd (let more = ltb→le i (n * 2) outside in omega arith)
          ]

  Fades-Blends :
      (n : ℕ) (previous : Option (List ℕ))
      → Fades host (pos n) (usable_tail (pos n) previous) output after
      → Blends host n previous output after
  unfolding usable_tail
  Fades-Blends zero none f = kept (pos zero) none refl f
  Fades-Blends (suc n) none f = kept (pos (suc n)) none refl f
  Fades-Blends zero (some tail) f = inr (
    omega arith,
    record {
      same_length = f.0;
      inside = λ frame channel h k. absurd (omega arith);
      outside = λ i h. f.1 i;
    },
  )
  Fades-Blends (suc n) (some tail) f = elim (Bool-cases (ltb (length tail) (suc n * 2))) [
    | inl short ↦
        inl (ltb→lt (length tail) (suc n * 2) short, kept (pos (suc n)) none refl (rw short at f))
    | inr long ↦
        inr (ltb→le (length tail) (suc n * 2) long, Fades-Slides (suc n) tail (rw long at f))
  ]

-- When the overlap can be rounded, `_crossfade` returns, whatever tail there is. If a tail is long
-- enough, the first frames of the result slide from the tail to the segment by the formula, and all
-- else is the segment's, as long as before; without such a tail nothing changes. The last frames of the
-- result, as many as overlap, are kept for the next segment.
pub crossfaded-Formula :
    (host : Host) (overlap : host.Float) (output : List ℕ) (previous : Option (List ℕ)) (r : ℤ)
    → host.round (host.mul (host.ratio (length output / 2) 1) overlap) ≡ ok r
    → (result : Crossfaded) × (crossfaded host overlap output previous ≡ ok result)
      × Formula host output previous result r
unfolding overlap_frames_of usable_tail new_tail
crossfaded-Formula host overlap output previous r h =
    let z = min_int r (length output / 2 / 2) in
    let rounded : overlap_frames_of host overlap output ≡ ok z = rw h refl in
    let (result, e, tail, fades) = crossfaded-Fades host overlap output previous z rounded in
    (result, e, by_sign r result rounded tail fades)
  where
    by_sign :
        (r : ℤ) (result : Crossfaded)
        → overlap_frames_of host overlap output ≡ ok (min_int r (length output / 2 / 2))
        → result.tail ≡ new_tail (min_int r (length output / 2 / 2)) result.output
        → Fades host
            (min_int r (length output / 2 / 2))
            (usable_tail (min_int r (length output / 2 / 2)) previous)
            output
            result.output
        → Formula host output previous result r
    by_sign (pos r) result rounded tail fades =
        let n = min r (length output / 2 / 2) in
        let fits = overlap-le host overlap output n rounded in
        (
          Fades-Blends host output result.output n previous fades,
          subst (KeepsEnd n result.output) (sym tail)
              (new_tail-KeepsEnd n result.output (omega (arith, fits, fades.0))),
        )
    by_sign (negsuc k) result rounded tail fades =
        let same = kept host output result.output (negsuc k) none refl fades in
        (
          same,
          take (suc k * 2) output,
          drop (suc k * 2) output,
          sym (take-append-drop (suc k * 2) output),
          length-take (suc k * 2) output,
          tail ∙ ap (λ xs. some (drop (suc k * 2) xs)) same,
        )
