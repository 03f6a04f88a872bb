-- ===== src/Processors/Segmented/Launch.antt =====
-- segmented_inference.py, `_launch_segment`: which packets the loop takes.
use karaoke_anything.Prelude.{
  ℕ, ◌+◌, ◌-◌, ◌≤◌, ◌<◌, ◌≡◌, refl, ◌∙◌, inl, inr, Bool-cases, List, [], ◌∷◌, ◌++◌, append_assoc,
  ltb, ltb→lt, lt→ltb, ltb→le, arith,
}
use karaoke_anything.Kany.{KanyPacket}
use karaoke_anything.Processors.Segmented.Defs.{Segmented, Split, split_loop, sum_frames, launch}

pub sum_frames-append :
    (xs ys : List KanyPacket) → sum_frames (xs ++ ys) ≡ sum_frames xs + sum_frames ys
sum_frames-append [] ys = omega arith
sum_frames-append (x ∷ xs) ys = omega (arith, sum_frames-append xs ys)

-- The loop cuts `input` in two behind `before`, and its counters are the frames of the two parts.
pub record Cuts (target : ℕ) (input before : List KanyPacket) (s : Split) : Type 0 where
  pub in_order : s.packets ++ s.rest ≡ before ++ input
  pub frames : s.frames ≡ sum_frames s.packets
  pub left : s.input_frames ≡ sum_frames s.rest
  pub reached : target ≤ sum_frames before + sum_frames input → target ≤ sum_frames s.packets

pub split_loop-Cuts :
    (target : ℕ) (input before : List KanyPacket) (frames input_frames : ℕ)
    → frames ≡ sum_frames before
    → input_frames ≡ sum_frames input
    → Cuts target input before (split_loop target input before frames input_frames)
unfolding split_loop
split_loop-Cuts target [] before frames input_frames f i = record {
  in_order = refl;
  frames = f;
  left = i;
  reached = λ h. omega arith;
}
split_loop-Cuts target (p ∷ rest) before frames input_frames f i =
    elim (Bool-cases (ltb frames target)) [
      | inl more ↦
          let next =
            split_loop-Cuts target rest (before ++ p ∷ []) (frames + p.frames)
              (input_frames - p.frames) (omega (arith, sum_frames-append before (p ∷ [])))
              (omega arith) in
          rw more (record {
            in_order = next.in_order ∙ append_assoc before (p ∷ []) rest;
            frames = next.frames;
            left = next.left;
            reached = λ h. next.reached (omega (arith, sum_frames-append before (p ∷ [])));
          })
      | inr enough ↦ rw enough (record {
        in_order = refl;
        frames = f;
        left = i;
        reached = λ h. omega (arith, ltb→le frames target enough);
      })
    ]

pub split_loop-frames :
    (target : ℕ) (input : List KanyPacket)
    → let s = split_loop target input [] 0 (sum_frames input) in s.frames ≡ sum_frames s.packets
split_loop-frames target input =
    (split_loop-Cuts target input [] 0 (sum_frames input) refl refl).frames

-- nothing is taken beyond the packet that reaches the target
abbrev pub Minimal : ℕ → List KanyPacket → Type 0
Minimal target packets =
    (first : List KanyPacket) × (last : KanyPacket) × (packets ≡ first ++ last ∷ [])
    × (sum_frames first < target)

split_loop-Minimal :
    (target : ℕ) (input before : List KanyPacket) (frames input_frames : ℕ)
    → frames ≡ sum_frames before
    → Minimal target before
    → Minimal target (split_loop target input before frames input_frames).packets
unfolding split_loop
split_loop-Minimal target [] before frames input_frames f m = m
split_loop-Minimal target (p ∷ rest) before frames input_frames f m =
    elim (Bool-cases (ltb frames target)) [
      | inl more ↦ rw more (
          split_loop-Minimal target rest (before ++ p ∷ []) (frames + p.frames)
            (input_frames - p.frames) (omega (arith, sum_frames-append before (p ∷ [])))
            (before, p, refl, omega (arith, ltb→lt frames target more)))
      | inr enough ↦ rw enough m
    ]

split_loop-first :
    (target : ℕ) (input : List KanyPacket) (input_frames : ℕ)
    → 0 < target
    → 0 < sum_frames input
    → Minimal target (split_loop target input [] 0 input_frames).packets
unfolding split_loop
split_loop-first target [] input_frames h k = absurd (omega arith)
split_loop-first target (p ∷ rest) input_frames h k = rw (lt→ltb 0 target h) (
    split_loop-Minimal target rest (p ∷ []) (0 + p.frames) (input_frames - p.frames) (omega arith)
      ([], p, refl, omega arith))

module _ {F : Type 0} (target : ℕ) (s : Segmented F) where
  -- What `_launch_segment` does to the buffer, when the frame count is right: the new segment and
  -- what is left are the buffered packets, in order, and the count is again right.
  pub launch-Cuts :
      s.input_frames ≡ sum_frames s.input_packets
      → let t = launch target s in
        (t.active_packets ++ t.input_packets ≡ s.input_packets)
        × (t.input_frames ≡ sum_frames t.input_packets)
  unfolding launch
  launch-Cuts counted =
      let cuts = split_loop-Cuts target s.input_packets [] 0 s.input_frames refl counted in
      (cuts.in_order, cuts.left)

  -- If the buffer holds a positive target number of frames, the new segment has as many frames, and
  -- without its last packet it would have fewer: no packet is taken in excess.
  pub launch-Minimal :
      s.input_frames ≡ sum_frames s.input_packets
      → 0 < target
      → target ≤ s.input_frames
      → let t = launch target s in
        (target ≤ sum_frames t.active_packets) × Minimal target t.active_packets
  unfolding launch
  launch-Minimal counted positive ready =
      let cuts = split_loop-Cuts target s.input_packets [] 0 s.input_frames refl counted in
      (
        cuts.reached (omega arith),
        split_loop-first target s.input_packets s.input_frames positive (omega arith),
      )
