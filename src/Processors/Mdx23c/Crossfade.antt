-- ===== src/Processors/Mdx23c/Crossfade.antt =====
-- mdx23c_vocals.py, `_usable_tail` and `_crossfade`: the start of a segment mixed with the end of the
-- segment before it.
use karaoke_anything.Prelude.{
  ℕ, zero, suc, ◌+◌, ◌-◌, ◌*◌, ◌/◌, min, Option, none, some, List, [], ◌∷◌, length, drop, ltb,
  if◌then◌else◌,
}
use karaoke_anything.Prelude.Int.{ℤ, pos, negsuc}
use karaoke_anything.Errors.{Result, ok, err, index_error, ◌>>=◌}
use karaoke_anything.Host.{Host}

-- `xs[i]`
abbrev pub item {ℓ} : {A : Type ℓ} → List A → ℕ → Result A
item [] i = err index_error
item (x ∷ xs) zero = ok x
item (x ∷ xs) (suc i) = item xs i

-- `xs[i] = x`
abbrev pub set_item {ℓ} : {A : Type ℓ} → List A → ℕ → A → Result (List A)
set_item [] i y = err index_error
set_item (x ∷ xs) zero y = ok (y ∷ xs)
set_item (x ∷ xs) (suc i) y = set_item xs i y >>= λ ys. ok (x ∷ ys)

-- `min(z, n)`
abbrev pub min_int : ℤ → ℕ → ℤ
min_int (pos m) n = pos (min m n)
min_int (negsuc m) n = negsuc m

-- `_usable_tail(samples)`, where `samples` is `overlap_frames * 2`
unfoldable pub usable_tail : ℤ → Option (List ℕ) → Option (List ℕ)
usable_tail (negsuc n) tail = none
usable_tail (pos zero) tail = none
usable_tail (pos (suc n)) none = none
usable_tail (pos (suc n)) (some tail) = if ltb (length tail) (suc n * 2) then none else some tail

-- `output[-samples:] if samples else None`
unfoldable pub new_tail : ℤ → List ℕ → Option (List ℕ)
new_tail (pos zero) output = none
new_tail (pos (suc n)) output = some (drop (length output - suc n * 2) output)
new_tail (negsuc n) output = some (drop (suc n * 2) output)

-- What `_crossfade` writes: into `output`, and into `self._previous_tail`.
pub record Crossfaded : Type 0 where
  pub output : List ℕ
  pub tail : Option (List ℕ)

module _ (host : Host) where
  -- `(frame + 1) / (overlap_frames + 1)`
  abbrev pub alpha : ℕ → ℕ → host.Float
  alpha overlap_frames frame = host.ratio (frame + 1) (overlap_frames + 1)

  -- `tail[index] * (1 - alpha) + output[index] * alpha`
  abbrev pub mixed : host.Float → ℕ → ℕ → ℕ
  mixed a old new = host.store (
      host.add (host.mul (host.load old) (host.sub (host.ratio 1 1) a))
        (host.mul (host.load new) a))

  -- the body of the inner loop
  unfoldable pub mix_item : host.Float → List ℕ → ℕ → List ℕ → Result (List ℕ)
  mix_item a tail index output = do
    old ← item tail index
    new ← item output index
    set_item output index (mixed a old new)

  -- `for frame in range(overlap_frames)`, with `left` frames to go
  unfoldable pub crossfade_loop : List ℕ → ℕ → ℕ → ℕ → List ℕ → Result (List ℕ)
  unfolding mix_item
  crossfade_loop tail overlap_frames zero frame output = ok output
  crossfade_loop tail overlap_frames (suc left) frame output = do
    first ← mix_item (alpha overlap_frames frame) tail (frame * 2 + 0) output
    second ← mix_item (alpha overlap_frames frame) tail (frame * 2 + 1) first
    crossfade_loop tail overlap_frames left (frame + 1) second

  -- `if tail is not None`
  unfoldable pub mix : ℤ → Option (List ℕ) → List ℕ → Result (List ℕ)
  unfolding crossfade_loop
  mix (pos n) (some tail) output = crossfade_loop tail n n 0 output
  mix _ _ output = ok output

  -- `min(round(frames * self.overlap), frames // 2)`
  unfoldable pub overlap_frames_of : host.Float → List ℕ → Result ℤ
  overlap_frames_of overlap output =
      let frames = length output / 2 in
      host.round (host.mul (host.ratio frames 1) overlap) >>= λ z. ok (min_int z (frames / 2))

  -- `_crossfade`
  unfoldable pub crossfaded : host.Float → List ℕ → Option (List ℕ) → Result Crossfaded
  unfolding usable_tail new_tail mix overlap_frames_of
  crossfaded overlap output previous_tail = do
    overlap_frames ← overlap_frames_of overlap output
    output ← mix overlap_frames (usable_tail overlap_frames previous_tail) output
    ok (record { output = output; tail = new_tail overlap_frames output })
