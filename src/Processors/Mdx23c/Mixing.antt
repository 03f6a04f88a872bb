-- ===== src/Processors/Mdx23c/Mixing.antt =====
-- mdx23c_vocals.py, `_crossfade`: the loops against a formula for each sample.
use karaoke_anything.Prelude.{
  ℕ, zero, suc, ◌+◌, ◌*◌, ◌/◌, ◌≤◌, ◌<◌, ◌≡◌, ◌≢◌, refl, ap, ◌∙◌, ◌⊎◌, inl, inr, Bool-cases, true,
  false, Option, none, some, List, [], ◌∷◌, length, ltb, ltb→le, ltb→lt, arith,
}
use karaoke_anything.Prelude.Int.{ℤ, pos, negsuc}
use karaoke_anything.Errors.{ok, >>=-eq-ok, ok-injective}
use karaoke_anything.Host.{Host}
use karaoke_anything.Processors.Mdx23c.Crossfade.{
  item, set_item, min_int, usable_tail, alpha, mixed, mix_item, crossfade_loop, mix,
  overlap_frames_of,
}

-- the sample at an index, for an index in range
abbrev pub nth : List ℕ → ℕ → ℕ
nth [] i = 0
nth (x ∷ xs) zero = x
nth (x ∷ xs) (suc i) = nth xs i

item-nth : (xs : List ℕ) (i : ℕ) → i < length xs → item xs i ≡ ok (nth xs i)
item-nth [] i h = absurd (omega arith)
item-nth (x ∷ xs) zero h = refl
item-nth (x ∷ xs) (suc i) h = item-nth xs i (omega arith)

-- `after` is `before` with `y` at `i`
record Replaces (i y : ℕ) (before after : List ℕ) : Type 0 where
  same_length : length after ≡ length before
  there : nth after i ≡ y
  elsewhere : (j : ℕ) → j ≢ i → nth after j ≡ nth before j

set_item-Replaces :
    (xs : List ℕ) (i y : ℕ)
    → i < length xs
    → (ys : List ℕ) × (set_item xs i y ≡ ok ys) × Replaces i y xs ys
set_item-Replaces [] i y h = absurd (omega arith)
set_item-Replaces (x ∷ xs) zero y h =
    (y ∷ xs, refl, record { same_length = refl; there = refl; elsewhere = others })
  where
    others : (j : ℕ) → j ≢ 0 → nth (y ∷ xs) j ≡ nth (x ∷ xs) j
    others zero n = absurd (n refl)
    others (suc j) n = refl
set_item-Replaces (x ∷ xs) (suc i) y h =
    let (ys, e, r) = set_item-Replaces xs i y (omega arith) in
    (
      x ∷ ys,
      rw e refl,
      record {
        same_length = ap suc r.same_length;
        there = r.there;
        elsewhere = λ j n. others ys r j n;
      },
    )
  where
    others :
        (ys : List ℕ) → Replaces i y xs ys → (j : ℕ) → j ≢ suc i → nth (x ∷ ys) j ≡ nth (x ∷ xs) j
    others ys r zero n = refl
    others ys r (suc j) n = r.elsewhere j (λ e. n (ap suc e))

module _ (host : Host) (overlap_frames : ℕ) (tail : List ℕ) where
  -- `after` is `before` with the samples from `lo` up to `hi` mixed with those of `tail`
  pub record Mixes (lo hi : ℕ) (before after : List ℕ) : Type 0 where
    pub same_length : length after ≡ length before
    pub inside :
        (i : ℕ)
        → lo ≤ i
        → i < hi
        → nth after i ≡ mixed host (alpha host overlap_frames (i / 2)) (nth tail i) (nth before i)
    pub outside : (i : ℕ) → (i < lo) ⊎ (hi ≤ i) → nth after i ≡ nth before i

  Mixes-refl : (lo : ℕ) (xs : List ℕ) → Mixes lo lo xs xs
  Mixes-refl lo xs = record {
    same_length = refl;
    inside = λ i h k. absurd (omega arith);
    outside = λ i h. refl;
  }

  Mixes-trans :
      {lo mid hi : ℕ} {a b c : List ℕ}
      → lo ≤ mid
      → mid ≤ hi
      → Mixes lo mid a b
      → Mixes mid hi b c
      → Mixes lo hi a c
  Mixes-trans {lo} {mid} {hi} {a} {b} {c} below above f g = record {
    same_length = g.same_length ∙ f.same_length;
    inside = λ i h k. by_half i h k (Bool-cases (ltb i mid));
    outside = λ i h. g.outside i (omega arith) ∙ f.outside i (omega arith);
  }
    where
      by_half :
          (i : ℕ)
          → lo ≤ i
          → i < hi
          → (ltb i mid ≡ true) ⊎ (ltb i mid ≡ false)
          → nth c i ≡ mixed host (alpha host overlap_frames (i / 2)) (nth tail i) (nth a i)
      by_half i h k (inl early) =
          g.outside i (inl (ltb→lt i mid early)) ∙ f.inside i h (ltb→lt i mid early)
      by_half i h k (inr late) =
          g.inside i (ltb→le i mid late) k
          ∙ ap (mixed host (alpha host overlap_frames (i / 2)) (nth tail i))
              (f.outside i (inr (ltb→le i mid late)))

  mix_item-Mixes :
      (frame i : ℕ) (output : List ℕ)
      → frame ≡ i / 2
      → i < length tail
      → i < length output
      → (after : List ℕ) × (mix_item host (alpha host overlap_frames frame) tail i output
          ≡ ok after)
        × Mixes i (i + 1) output after
  unfolding mix_item
  mix_item-Mixes frame i output half in_tail in_output =
      let y = mixed host (alpha host overlap_frames frame) (nth tail i) (nth output i) in
      let (after, e, r) = set_item-Replaces output i y in_output in
      (
        after,
        rw (item-nth tail i in_tail, item-nth output i in_output) e,
        record {
          same_length = r.same_length;
          inside = λ j h k. at_index after r j (omega arith);
          outside = λ j h. r.elsewhere j (λ e. omega arith);
        },
      )
    where
      at_index :
          (after : List ℕ)
          → Replaces i
              (mixed host (alpha host overlap_frames frame) (nth tail i) (nth output i))
              output
              after
          → (j : ℕ) → i ≡ j
          → nth after j ≡ mixed host (alpha host overlap_frames (j / 2)) (nth tail j) (nth output j)
      at_index after r j same = rw (← same, ← half) r.there

  crossfade_loop-Mixes :
      (left frame : ℕ) (output : List ℕ)
      → (frame + left) * 2 ≤ length tail
      → (frame + left) * 2 ≤ length output
      → (after : List ℕ) × (crossfade_loop host tail overlap_frames left frame output ≡ ok after)
        × Mixes (frame * 2) ((frame + left) * 2) output after
  unfolding crossfade_loop
  crossfade_loop-Mixes zero frame output h k =
      let whole : (frame + 0) * 2 ≡ frame * 2 = omega arith in
      (output, refl, rw whole (Mixes-refl (frame * 2) output))
  crossfade_loop-Mixes (suc left) frame output h k =
      let (first, e, f) =
        mix_item-Mixes frame (frame * 2 + 0) output (omega arith) (omega arith) (omega arith) in
      let (second, e', g) =
        mix_item-Mixes frame (frame * 2 + 1) first (omega arith) (omega arith)
          (omega (arith, f.same_length)) in
      let (after, e'', m) =
        crossfade_loop-Mixes left (frame + 1) second (omega arith)
          (omega (arith, f.same_length, g.same_length)) in
      (after, rw (e, e') e'', joined first second after f g m)
    where
      joined :
          (first second after : List ℕ)
          → Mixes (frame * 2 + 0) (frame * 2 + 0 + 1) output first
          → Mixes (frame * 2 + 1) (frame * 2 + 1 + 1) first second
          → Mixes ((frame + 1) * 2) ((frame + 1 + left) * 2) second after
          → Mixes (frame * 2) ((frame + suc left) * 2) output after
      joined first second after f g m =
          let start : frame * 2 + 0 ≡ frame * 2 = omega arith in
          let two : frame * 2 + 1 + 1 ≡ (frame + 1) * 2 = omega arith in
          let end : (frame + 1 + left) * 2 ≡ (frame + suc left) * 2 = omega arith in
          Mixes-trans (omega arith) (omega arith) (rw start at f)
            (Mixes-trans (omega arith) (omega arith) (rw two at g) (rw end at m))

  -- as `_crossfade` calls it
  pub mix-Mixes :
      (output : List ℕ)
      → overlap_frames * 2 ≤ length tail
      → overlap_frames * 2 ≤ length output
      → (after : List ℕ) × (mix host (pos overlap_frames) (some tail) output ≡ ok after)
        × Mixes 0 (overlap_frames * 2) output after
  unfolding mix
  mix-Mixes output h k =
      let same : 0 + overlap_frames ≡ overlap_frames = omega arith in
      let (after, e, m) =
        crossfade_loop-Mixes overlap_frames 0 output (omega arith) (omega arith) in
      (after, e, rw same at m)

-- the tail is used when there is something to mix, and it covers that
pub usable_tail-eq :
    (z : ℤ) (previous : Option (List ℕ)) (tail : List ℕ)
    → usable_tail z previous ≡ some tail
    → (n : ℕ) × (z ≡ pos n) × (0 < n) × (previous ≡ some tail) × (n * 2 ≤ length tail)
unfolding usable_tail
usable_tail-eq (negsuc n) previous tail h = cc
usable_tail-eq (pos zero) previous tail h = cc
usable_tail-eq (pos (suc n)) none tail h = cc
usable_tail-eq (pos (suc n)) (some old) tail h = elim (Bool-cases (ltb (length old) (suc n * 2))) [
  | inl short ↦ cc (rw short at h)
  | inr long ↦
      let same : some old ≡ some tail = rw long at h in
      (suc n, refl, omega arith, same, fits old same (ltb→le (length old) (suc n * 2) long))
]
  where
    fits : (old : List ℕ) → some old ≡ some tail → suc n * 2 ≤ length old → suc n * 2 ≤ length tail
    fits old e h = ground (arith, e)

min_int-le : (z : ℤ) (m n : ℕ) → min_int z m ≡ pos n → n ≤ m
min_int-le (pos k) m n h = ground arith
min_int-le (negsuc k) m n h = cc

pub overlap-le :
    (host : Host) (overlap : host.Float) (output : List ℕ) (n : ℕ)
    → overlap_frames_of host overlap output ≡ ok (pos n)
    → n * 2 ≤ length output
unfolding overlap_frames_of
overlap-le host overlap output n h =
    let (z, _, e) =
      >>=-eq-ok (host.round (host.mul (host.ratio (length output / 2) 1) overlap)) _ h in
    omega (arith, min_int-le z (length output / 2 / 2) n (ok-injective e))
