-- ===== src/Processors/Segmented/Complete.antt =====
-- segmented_inference.py: the end of the coroutine `infer`.
use karaoke_anything.Prelude.{
  ℕ, ◌≡◌, refl, sym, subst, inl, inr, Option, none, some, List, All, List-cases,
}
use karaoke_anything.Errors.{Result, ok, err, Result-cases, ok-injective}
use karaoke_anything.Host.{Host}
use karaoke_anything.Kany.{IsWord, KanyPacket}
use karaoke_anything.Processors.Segmented.Defs.{
  Segmented, Task, running, finished, Job, infer, complete,
}
use karaoke_anything.Processors.Segmented.Invariant.{Inv, TaskFits}

-- Inference returns an `array("f")`: its items are 32-bit patterns.
abbrev pub ReturnsWords : (List ℕ → ℕ → ℕ → Result (List ℕ)) → Type 0
ReturnsWords run =
    (samples : List ℕ) (rate channels : ℕ) (ws : List ℕ)
    → run samples rate channels ≡ ok ws
    → All IsWord ws

module _ (host : Host) (run_inference : List ℕ → ℕ → ℕ → Result (List ℕ)) (elapsed : host.Float)
    (words : ReturnsWords run_inference) where
  -- The coroutine writes the two timings and nothing else, and a result that it returns is the one
  -- that inference returned for the samples of the job.
  pub infer_lem :
      (job : Job) (s : Segmented host.Float)
      → let (r, t) = infer host run_inference elapsed job s in
        (t ≡ record s {
          last_inference_seconds = t.last_inference_seconds;
          last_real_time_factor = t.last_real_time_factor;
        })
        × ((ws : List ℕ) → r ≡ ok ws → All IsWord ws)
  unfolding infer
  infer_lem job s = elim (List-cases job.packets) [
    | inl e ↦ rw (e, infer) (refl, λ ws h. cc)
    | inr (p, rest, e) ↦ elim (Result-cases (run_inference job.samples p.sample_rate p.channels)) [
      | inr (x, h) ↦ rw (e, infer, h) (refl, λ ws q. cc)
      | inl (ws, h) ↦
          elim (Result-cases (host.div (host.ratio job.frames 1) (host.ratio p.sample_rate 1))) [
            | inr (x, d) ↦ rw (e, infer, h, d) (refl, λ ws q. cc)
            | inl (duration, d) ↦ elim (Result-cases (host.div elapsed duration)) [
              | inr (x, f) ↦ rw (e, infer, h, d, f) (refl, λ ws q. cc)
              | inl (factor, f) ↦
                  rw (e, infer, h, d, f)
                    (
                      refl,
                      λ ws' q.
                          subst (All IsWord) (ok-injective q)
                            (words job.samples p.sample_rate p.channels ws h),
                    )
            ]
          ]
    ]
  ]

  finished-TaskFits :
      (active : List KanyPacket) (r : Result (List ℕ))
      → ((ws : List ℕ) → r ≡ ok ws → All IsWord ws)
      → TaskFits active (some (finished r))
  finished-TaskFits active (ok ws) h = h ws refl
  finished-TaskFits active (err x) h = tt

  finish-Inv :
      (s u : Segmented host.Float) (seconds factor : Option host.Float) (r : Result (List ℕ))
      → u ≡ record s { last_inference_seconds = seconds; last_real_time_factor = factor }
      → ((ws : List ℕ) → r ≡ ok ws → All IsWord ws)
      → Inv host.byteorder s
      → Inv host.byteorder (record u { inference_task = some (finished r) })
  finish-Inv s u seconds factor r same good v =
      subst
        (λ (w : Segmented host.Float).
          Inv host.byteorder (record w { inference_task = some (finished r) }))
        (sym same)
        (record {
          counted = v.counted;
          inputs = v.inputs;
          actives = v.actives;
          outputs = v.outputs;
          task = finished-TaskFits s.active_packets r good;
        })

  -- The end of the task keeps the invariant, with whatever it ends.
  pub complete-Inv :
      (s : Segmented host.Float)
      → Inv host.byteorder s
      → Inv host.byteorder (complete host run_inference elapsed s)
  unfolding complete
  complete-Inv s v = by_task s.inference_task refl
    where
      by_task :
          (t : Option Task)
          → s.inference_task ≡ t
          → Inv host.byteorder (complete host run_inference elapsed s)
      by_task none e = simp (e, complete) v
      by_task (some (finished r)) e = simp (e, complete) v
      by_task (some (running job)) e =
          let (frame, good) = infer_lem job s in
          let ended = infer host run_inference elapsed job s in
          rw (e, complete)
            (finish-Inv s ended.1 ended.1.last_inference_seconds ended.1.last_real_time_factor
              ended.0 frame good v)
