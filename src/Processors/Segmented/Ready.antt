-- ===== src/Processors/Segmented/Ready.antt =====
-- segmented_inference.py, `_segment_ready` and the call of `_launch_segment` in `process`: every way
-- that it can end.
use karaoke_anything.Prelude.{
  ℕ, ◌≤◌, ◌<◌, ◌≡◌, subst, inl, inr, Bool-cases, none, leb, leb→le, arith, Option-cases,
}
use karaoke_anything.Prelude.Int.{max_ℕ, pos, negsuc, ℤ}
use karaoke_anything.Errors.{Exception, Result, ok, err, >>=-eq-ok, Result-cases, ok-injective}
use karaoke_anything.Host.{Host}
use karaoke_anything.Processors.Segmented.Defs.{
  Segmented, Subclass, target_segment_frames, launch, launch_if_ready,
}

max_ℕ_pos : (z : ℤ) → 0 < max_ℕ 1 z
max_ℕ_pos (pos n) = omega arith
max_ℕ_pos (negsuc n) = omega arith

module _ (host : Host) (subclass : Subclass) (segment_seconds : host.Float) where
  -- `max(1, …)`
  pub target_pos :
      (s : Segmented host.Float) (t : ℕ)
      → target_segment_frames host subclass segment_seconds s ≡ ok t
      → 0 < t
  unfolding target_segment_frames
  target_pos s t h = elim (Option-cases s.stream_sample_rate) [
    | inl e ↦ cc (rw (e, target_segment_frames) at h)
    | inr (rate, e) ↦
        let (z, _, same) =
          >>=-eq-ok (host.round (host.mul (host.ratio rate 1) segment_seconds)) _
            (rw (e, target_segment_frames) at h) in
        subst (λ n. 0 < n) (ok-injective same) (max_ℕ_pos z)
  ]

  pub data Launches (s : Segmented host.Float) (r : Result (Unit {0}) × Segmented host.Float)
      : Type 0 where
    waits : r ≡ (ok tt, s) → Launches s r
    starts :
        (target : ℕ)
        → s.inference_task ≡ none
        → target_segment_frames host subclass segment_seconds s ≡ ok target
        → target ≤ s.input_frames
        → r ≡ (ok tt, launch target s)
        → Launches s r
    fails :
        (e : Exception)
        → s.inference_task ≡ none
        → target_segment_frames host subclass segment_seconds s ≡ err e
        → r ≡ (err e, s)
        → Launches s r

  launch_idle :
      (s : Segmented host.Float)
      → s.inference_task ≡ none
      → Launches s (launch_if_ready host subclass segment_seconds s)
  unfolding launch_if_ready
  launch_idle s e = elim (Result-cases (target_segment_frames host subclass segment_seconds s)) [
    | inr (x, t) ↦ fails x e t (simp (e, launch_if_ready, t))
    | inl (target, t) ↦ elim (Bool-cases (leb target s.input_frames)) [
      | inl full ↦ starts target e t (leb→le _ _ full) (simp (e, launch_if_ready, t, full))
      | inr short ↦ waits (simp (e, launch_if_ready, t, short))
    ]
  ]

  pub launch_cases :
      (s : Segmented host.Float) → Launches s (launch_if_ready host subclass segment_seconds s)
  unfolding launch_if_ready
  launch_cases s = elim (Option-cases s.inference_task) [
    | inl e ↦ launch_idle s e
    | inr (task, e) ↦ waits (simp (e, launch_if_ready))
  ]
