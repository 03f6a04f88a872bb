-- ===== src/Processors/Segmented/Lengths.antt =====
-- segmented_inference.py: a task that ends with as many samples as it was given is never refused for
-- their number.
use karaoke_anything.Prelude.{
  ℕ, ◌*◌, ◌≡◌, refl, sym, ap, ap₂, ◌∙◌, subst, ◌⊎◌, inl, inr, some, List, [], ◌∷◌, length,
  length-append, All, map, ◌++◌, List-cases, arith,
}
use karaoke_anything.Errors.{Exception, Result, ok, err, Result-cases, ok-injective, ◌>>=◌}
use karaoke_anything.Host.{Host}
use karaoke_anything.Kany.{KanyPacket}
use karaoke_anything.Kany.RoundTrip.{IsPacket}
use karaoke_anything.Processors.Segmented.Defs.{
  Segmented, Subclass, running, finished, Job, infer, complete, harvest_inference, sum_frames,
  concat_samples, expected_samples,
}
use karaoke_anything.Processors.Segmented.Distribute.{resliced, written}
use karaoke_anything.Processors.Segmented.Harvest.{
  waits, delivers, mismatches, cancelled, fails, Harvest-cases, delivered, IsUnfinished, failure,
  failure-other, finished-injective, err-injective,
}
use karaoke_anything.Processors.Segmented.Invariant.{Inv, TaskFits}

abbrev pub IsStereo : KanyPacket → Type 0
IsStereo p = p.channels ≡ 2

-- Inference of a stereo segment returns one float32 item for each sample.
abbrev pub KeepsLength : (List ℕ → ℕ → ℕ → Result (List ℕ)) → Type 0
KeepsLength run =
    (samples : List ℕ) (rate frames : ℕ) (ws : List ℕ)
    → length samples ≡ 2 * frames
    → run samples rate 2 ≡ ok ws
    → length ws ≡ length samples

length-concat_samples :
    (ps : List KanyPacket) → All IsPacket ps → length (concat_samples ps) ≡ expected_samples ps
length-concat_samples [] h = refl
length-concat_samples (p ∷ ps) h = omega (
  arith,
  length-append p.samples.items (concat_samples ps),
  h.0.sample_count,
  length-concat_samples ps h.1,
)

expected-stereo : (ps : List KanyPacket) → All IsStereo ps → expected_samples ps ≡ 2 * sum_frames ps
expected-stereo [] h = refl
expected-stereo (p ∷ ps) h = rw h.0 (omega (arith, expected-stereo ps h.1))

module _ (host : Host) (run : List ℕ → ℕ → ℕ → Result (List ℕ)) (elapsed : host.Float) where
  -- the real-time factor of so many frames
  abbrev pub real_time_factor : ℕ → ℕ → Result host.Float
  real_time_factor frames rate =
      host.div (host.ratio frames 1) (host.ratio rate 1) >>= λ duration. host.div elapsed duration

  abbrev Same : Segmented host.Float → Segmented host.Float → Type 0
  Same s t = (t.active_packets ≡ s.active_packets) × (t.ready_output ≡ s.ready_output)

  -- the coroutine returns what inference returned, unless inference or the division raised
  infer-outcome :
      (job : Job) (s : Segmented host.Float) (p : KanyPacket) (rest : List KanyPacket)
      → job.packets ≡ p ∷ rest
      → let (r, t) = infer host run elapsed job s in
        (r ≡ (
          run job.samples p.sample_rate p.channels >>= λ ws.
          real_time_factor job.frames p.sample_rate >>= λ _. ok ws))
        × Same s t
  unfolding infer
  infer-outcome job s p rest e = elim (Result-cases (run job.samples p.sample_rate p.channels)) [
    | inr (x, r) ↦ rw (e, infer, r) (refl, (refl, refl))
    | inl (out, r) ↦
        elim (Result-cases (host.div (host.ratio job.frames 1) (host.ratio p.sample_rate 1))) [
          | inr (x, d) ↦ rw (e, infer, r, d) (refl, (refl, refl))
          | inl (duration, d) ↦ elim (Result-cases (host.div elapsed duration)) [
            | inr (x, f) ↦ rw (e, infer, r, d, f) (refl, (refl, refl))
            | inl (factor, f) ↦ rw (e, infer, r, d, f) (refl, (refl, refl))
          ]
        ]
  ]

module _ (host : Host) (subclass : Subclass) (segment_seconds : host.Float) where
  harvest_failed :
      (x : Exception) (t : Segmented host.Float)
      → t.inference_task ≡ some (finished (err x))
      → (harvest_inference host subclass segment_seconds t).0 ≡ err (failure subclass x)
  harvest_failed x t e = elim (Harvest-cases host subclass segment_seconds t) [
    | waits w q ↦ absurd (subst IsUnfinished e w)
    | delivers ws f _ q ↦ cc (e, f)
    | mismatches ws f _ q ↦ cc (e, f)
    | cancelled f q ↦
        ap (λ (z : Result (Unit {0}) × Segmented host.Float). z.0) q
        ∙ ap (λ y. err (failure subclass y)) (err-injective (finished-injective (sym f ∙ e)))
    | fails y f differ q ↦
        ap (λ (z : Result (Unit {0}) × Segmented host.Float). z.0) q
        ∙ ap err (sym (failure-other subclass y differ))
        ∙ ap (λ y. err (failure subclass y)) (err-injective (finished-injective (sym f ∙ e)))
  ]

  harvest_delivered :
      (ws : List ℕ) (t : Segmented host.Float)
      → t.inference_task ≡ some (finished (ok ws))
      → length ws ≡ expected_samples t.active_packets
      → harvest_inference host subclass segment_seconds t ≡ (ok tt, delivered host.byteorder ws t)
  harvest_delivered ws t e fits = elim (Harvest-cases host subclass segment_seconds t) [
    | waits w q ↦ absurd (subst IsUnfinished e w)
    | delivers out f _ q ↦
        q
        ∙ ap (λ z. (ok tt, delivered host.byteorder z t))
            (ok-injective (finished-injective (sym f ∙ e)))
    | mismatches out f differ q ↦ absurd (
        differ (
          subst (λ z. length z ≡ expected_samples t.active_packets)
            (ok-injective (finished-injective (sym e ∙ f))) fits))
    | cancelled f q ↦ cc (e, f)
    | fails x f _ q ↦ cc (e, f)
  ]

module _ (host : Host) (subclass : Subclass) (segment_seconds : host.Float)
    (run : List ℕ → ℕ → ℕ → Result (List ℕ)) (elapsed : host.Float) where
  -- How the next look at the task ends, where `p` is the first packet of the segment `s`. What is
  -- delivered is what inference returned for the samples of the segment, cut up behind the packets that
  -- were ready before; what is raised is what inference raised, or the division of the timing.
  abbrev pub Answered : KanyPacket → Segmented host.Float → Segmented host.Float → Type 0
  Answered p s t =
      let (r, u) = harvest_inference host subclass segment_seconds t in
      let separated = run (concat_samples s.active_packets) p.sample_rate 2 in
      let factor = real_time_factor host run elapsed (sum_frames s.active_packets) p.sample_rate in
      ((ws : List ℕ) × (x : host.Float) × (separated ≡ ok ws)
        × (factor ≡ ok x)
        × (r ≡ ok tt)
        × (u.ready_output
            ≡ s.ready_output ++ map (written host.byteorder) (resliced s.active_packets ws)))
      ⊎ (((x : Exception) × (separated ≡ err x) × (r ≡ err (failure subclass x)))
          ⊎ ((ws : List ℕ) × (x : Exception) × (separated ≡ ok ws)
              × (factor ≡ err x)
              × (r ≡ err (failure subclass x))))

  by_outcome :
      (p : KanyPacket) (s t : Segmented host.Float)
      → t.inference_task
        ≡ some (
            finished (
              run (concat_samples s.active_packets) p.sample_rate 2 >>= λ ws.
              real_time_factor host run elapsed (sum_frames s.active_packets) p.sample_rate >>= λ _.
              ok ws))
      → t.active_packets ≡ s.active_packets
      → t.ready_output ≡ s.ready_output
      → ((ws : List ℕ)
          → run (concat_samples s.active_packets) p.sample_rate 2 ≡ ok ws
          → length ws ≡ expected_samples s.active_packets)
      → Answered p s t
  by_outcome p s t ended actives ready fits =
      let separated = run (concat_samples s.active_packets) p.sample_rate 2 in
      let factor = real_time_factor host run elapsed (sum_frames s.active_packets) p.sample_rate in
      elim (Result-cases separated) [
        | inr (x, e) ↦
            inr (inl (x, e, harvest_failed host subclass segment_seconds x t (rw e at ended)))
        | inl (ws, e) ↦ elim (Result-cases factor) [
          | inr (x, f) ↦ inr (
              inr (
                ws,
                x,
                e,
                f,
                harvest_failed host subclass segment_seconds x t (rw (e, f) at ended),
              ))
          | inl (x, f) ↦
              let q =
                harvest_delivered host subclass segment_seconds ws t (rw (e, f) at ended)
                  (fits ws e ∙ ap expected_samples (sym actives)) in
              inl (
                ws,
                x,
                e,
                f,
                ap (λ (z : Result (Unit {0}) × Segmented host.Float). z.0) q,
                ap (λ (z : Result (Unit {0}) × Segmented host.Float). z.1.ready_output) q
                    ∙ ap₂ (λ out ps. out ++ map (written host.byteorder) (resliced ps ws)) ready
                        actives,
              )
        ]
      ]

  -- If inference returns one sample for each sample of a stereo segment, then behind the end of a task
  -- `_harvest_inference` delivers what inference returned for the samples of the segment, cut up for its
  -- packets, or raises what inference raised, as the failure of the model unless it was a cancellation.
  -- The only other error is that of the division which computes the real-time factor; it is never that
  -- the number of samples is wrong.
  pub complete_answers :
      (job : Job) (s : Segmented host.Float)
      → KeepsLength run
      → Inv host.byteorder s
      → All IsStereo s.active_packets
      → s.inference_task ≡ some (running job)
      → (p : KanyPacket) × (rest : List KanyPacket) × (s.active_packets ≡ p ∷ rest)
        × Answered p s (complete host run elapsed s)
  unfolding complete
  complete_answers job s keeps v stereo task =
      let (packets, samples, frames, busy) = subst (TaskFits s.active_packets) task v.task in
      let t = complete host run elapsed s in
      let after : t ≡ record ((infer host run elapsed job s).1) {
        inference_task = some (finished (infer host run elapsed job s).0);
      } =
        simp (task, complete) in
      elim (List-cases s.active_packets) [
        | inl idle ↦ absurd (busy idle)
        | inr (p, rest, e) ↦
            let (same, same_parts) = infer-outcome host run elapsed job s p rest (packets ∙ e) in
            let two : p.channels ≡ 2 = (subst (All IsStereo) e stereo).0 in
            let given : length (concat_samples s.active_packets)
                ≡ expected_samples s.active_packets =
              length-concat_samples s.active_packets v.actives in
            (
              p,
              rest,
              e,
              by_outcome p s t
                  (ap (λ (z : Segmented host.Float). z.inference_task) after
                    ∙ ap (λ z. some (finished z)) (same ∙ (rw (samples, frames, two) refl)))
                  (ap (λ (z : Segmented host.Float). z.active_packets) after ∙ same_parts.0)
                  (ap (λ (z : Segmented host.Float). z.ready_output) after ∙ same_parts.1)
                  (λ ws r.
                    keeps (concat_samples s.active_packets) p.sample_rate
                      (sum_frames s.active_packets) ws
                      (given ∙ expected-stereo s.active_packets stereo) r
                    ∙ given),
            )
      ]
