-- ===== src/Processors/Mdx23c/Process.antt =====
-- mdx23c_vocals.py: `process`, `flush` and the end of the inference as steps of the pipeline.
use karaoke_anything.Prelude.{
  ℕ, ◌≡◌, refl, sym, ap, ◌∙◌, subst, inl, inr, Option, none, some, List, [], ◌∷◌, take-append_exact,
  All, ◌==◌, Bool-cases, ==_iff, List-cases,
}
use karaoke_anything.Prelude.Exec.{Exec-cases}
use karaoke_anything.Errors.{Exception, Result, ok, err, kany_error, Result-cases, ok-injective}
use karaoke_anything.Host.{Host}
use karaoke_anything.Models.{MediaPacket, ProcessedPacket}
use karaoke_anything.Kany.{Bytes, ByteOrder, IsByte, IsWord, KanyPacket, decode}
use karaoke_anything.Kany.RoundTrip.{decode-IsPacket}
use karaoke_anything.Processors.Segmented.{Task, running, finished, Job}
use karaoke_anything.Processors.Segmented.Fifo.{header}
use karaoke_anything.Processors.Segmented.Complete.{ReturnsWords}
use karaoke_anything.Processors.Pipeline.{Run, stays, goes, refuses, Run-trans}
use karaoke_anything.Processors.Mdx23c.Defs.{
  Mdx23c, Window, validate_stereo, decode_and_validate, track_stream_format, buffer_packet,
  launch_if_ready, pop_or_count, harvest_inference, process, flush, infer, complete,
}
use karaoke_anything.Processors.Mdx23c.Harvest.{IsStereo}
use karaoke_anything.Processors.Mdx23c.Invariant.{TaskFits, Inv}
use karaoke_anything.Processors.Mdx23c.Methods.{
  view, Reaches, Reaches-trans, Leaves, track-Leaves, buffer-Leaves, launch-Leaves,
}
use karaoke_anything.Processors.Mdx23c.Outputs.{harvest-Leaves, Yields, pop-Yields, pop_all-Yields}

validate_stereo-eq_ok :
    (r : Result KanyPacket) (p : KanyPacket)
    → validate_stereo r ≡ ok p
    → (r ≡ ok p) × (p.channels ≡ 2)
unfolding validate_stereo
validate_stereo-eq_ok (ok q) p h = elim (Bool-cases (q.channels == 2)) [
  | inl two ↦
      let same : q ≡ p = ok-injective (rw two at h) in
      (ap ok same, subst (λ (k : KanyPacket). k.channels ≡ 2) same ((==_iff _ _).0 two))
  | inr other ↦ cc (rw other at h)
]
validate_stereo-eq_ok (err (kany_error e)) p h = cc
validate_stereo-eq_ok (err _) p h = cc

-- what `_decode_and_validate` returns is a stereo packet that begins with the datagram's header
pub decode_and_validate-IsStereo :
    (order : ByteOrder) (payload : Bytes) (p : KanyPacket)
    → All IsByte payload
    → decode_and_validate order payload ≡ ok p
    → IsStereo p × (p.raw_header ≡ header payload)
unfolding decode_and_validate
decode_and_validate-IsStereo order payload p hb h =
    let (d, two) = validate_stereo-eq_ok (decode order payload) p h in
    let (hp, whole) = decode-IsPacket order payload p hb d in
    ((hp, two), sym (take-append_exact 28 p.raw_header _ hp.header_length) ∙ ap header whole)

module _ (host : Host) where
  -- a call that raised, with the header of its datagram refused
  refused :
      (h : Bytes) (s : Mdx23c host.Float) (e : Exception) {t : Mdx23c host.Float}
      → Reaches host [] [] s t
      → Yields host (h ∷ []) s (err e, t)
  refused h s e (v, run) = ((v, goes run (refuses h refl refl refl)), tt)

  yields_then :
      (h : Bytes) (s y : Mdx23c host.Float)
      → Reaches host (h ∷ []) [] s y
      → (z : Result (List ProcessedPacket) × Mdx23c host.Float)
      → (Inv host.byteorder y → Yields host [] y z)
      → Yields host (h ∷ []) s z
  yields_then h s y (v, run) z next =
      let ((w, more), outs) = next v in ((w, Run-trans run more), outs)

  reached :
      {ins : List Bytes} (s : Mdx23c host.Float) {r : Result (Unit {0})} {t : Mdx23c host.Float}
      (z : Result (Unit {0}) × Mdx23c host.Float)
      → z ≡ (r, t)
      → Leaves host ins s z
      → Reaches host ins [] s t
  reached {ins} s z e l =
      subst (λ (y : Result (Unit {0}) × Mdx23c host.Float). Reaches host ins [] s y.1) e l

module _ (host : Host) (window : Window host.Float)
    (stores : (x : host.Float) → IsWord (host.store x)) where
  -- Whether it returns or raises, a call of `process` keeps the invariant and is a run of the pipeline
  -- that takes in the header of the datagram and sends out what is yielded.
  pub process-Yields :
      (packet : MediaPacket host.Float) (s : Mdx23c host.Float)
      → All IsByte packet.payload
      → Inv host.byteorder s
      → Yields host (header packet.payload ∷ []) s (process host window packet s)
  unfolding process
  process-Yields packet s hb v = elim (Exec-cases (harvest_inference host window s)) [
    | inr (e, t, hv) ↦ rw hv (refused host h s e (harvested t hv))
    | inl (_, t, hv) ↦ elim (Result-cases (decode_and_validate host.byteorder packet.payload)) [
      | inr (e, d) ↦ rw (hv, d) (refused host h s e (harvested t hv))
      | inl (p, d) ↦ elim (Exec-cases (track_stream_format p t)) [
        | inr (e, u, a) ↦ rw (hv, d, a) (refused host h s e (tracked t hv p u a))
        | inl (_, u, a) ↦ elim (Exec-cases (buffer_packet host window p u)) [
          | inr (e, w, b) ↦ rw (hv, d, a, b) (collected p d u w b (tracked t hv p u a), tt)
          | inl (_, w, b) ↦
              let four = collected p d u w b (tracked t hv p u a) in
              elim (Exec-cases (launch_if_ready host window w)) [
                | inr (e, y, l) ↦ rw (hv, d, a, b, l) (launched w y l four, tt)
                | inl (_, y, l) ↦
                    rw (hv, d, a, b, l)
                      (yields_then host h s y (launched w y l four) (pop_or_count y)
                        (pop-Yields host y))
              ]
        ]
      ]
    ]
  ]
    where
      h : Bytes
      h = header packet.payload

      harvested :
          {r : Result (Unit {0})} (t : Mdx23c host.Float)
          → harvest_inference host window s ≡ (r, t)
          → Reaches host [] [] s t
      harvested t hv = reached host s _ hv (harvest-Leaves host window stores s v)

      tracked :
          {r x : Result (Unit {0})} (t : Mdx23c host.Float)
          → harvest_inference host window s ≡ (r, t)
          → (p : KanyPacket) (u : Mdx23c host.Float) → track_stream_format p t ≡ (x, u)
          → Reaches host [] [] s u
      tracked t hv p u a =
          Reaches-trans host s t u (harvested t hv)
            (λ w. reached host t _ a (track-Leaves host p t w))

      collected :
          (p : KanyPacket)
          → decode_and_validate host.byteorder packet.payload ≡ ok p
          → {r : Result (Unit {0})} (u w : Mdx23c host.Float)
          → buffer_packet host window p u ≡ (r, w)
          → Reaches host [] [] s u
          → Reaches host (h ∷ []) [] s w
      collected p d u w b three =
          let (hp, raw) = decode_and_validate-IsStereo host.byteorder packet.payload p hb d in
          Reaches-trans host s u w three (λ z.
            subst (λ l. Reaches host (l ∷ []) [] u w) raw
              (reached host u _ b (buffer-Leaves host window p u hp z)))

      launched :
          {r : Result (Unit {0})} (w y : Mdx23c host.Float)
          → launch_if_ready host window w ≡ (r, y)
          → Reaches host (h ∷ []) [] s w
          → Reaches host (h ∷ []) [] s y
      launched w y l four =
          Reaches-trans host s w y four (λ z. reached host w _ l (launch-Leaves host window w z))

  pub flush-Yields :
      (s : Mdx23c host.Float) → Inv host.byteorder s → Yields host [] s (flush host window s)
  unfolding flush
  flush-Yields s v = elim (Exec-cases (harvest_inference host window s)) [
    | inr (e, t, hv) ↦ rw hv (reached host s _ hv (harvest-Leaves host window stores s v), tt)
    | inl (_, t, hv) ↦
        let (w, run) = reached host s _ hv (harvest-Leaves host window stores s v) in
        let ((y, more), outs) = pop_all-Yields host t w in rw hv ((y, Run-trans run more), outs)
  ]

-- The end of the inference changes neither the queues nor the invariant.
module _ (host : Host) (run_inference : List ℕ → ℕ → ℕ → Result (List ℕ)) (elapsed : host.Float)
    (words : ReturnsWords run_inference) where
  -- The coroutine writes the two timings and nothing else.
  infer_lem :
      (job : Job) (s : Mdx23c host.Float)
      → let (r, t) = infer host run_inference elapsed job s in
        (t ≡ record s {
          last_inference_seconds = t.last_inference_seconds;
          last_real_time_factor = t.last_real_time_factor;
        })
        × ((ws : List ℕ) → r ≡ ok ws → All IsWord ws)
  unfolding infer
  infer_lem job s = elim (List-cases job.packets) [
    | inl e ↦ rw (e, infer) (refl, λ ws q. cc)
    | inr (p, rest, e) ↦ elim (Result-cases (run_inference job.samples p.sample_rate 2)) [
      | inr (x, h) ↦ rw (e, infer, h) (refl, λ ws q. cc)
      | inl (ws, h) ↦
          elim (Result-cases (host.div (host.ratio job.frames 1) (host.ratio p.sample_rate 1))) [
            | inr (x, d) ↦ rw (e, infer, h, d) (refl, λ ws q. cc)
            | inl (duration, d) ↦ elim (Result-cases (host.div elapsed duration)) [
              | inr (x, f) ↦ rw (e, infer, h, d, f) (refl, λ ws q. cc)
              | inl (factor, f) ↦
                  rw (e, infer, h, d, f)
                    (
                      refl,
                      λ ys q.
                          subst (All IsWord) (ok-injective q)
                            (words job.samples p.sample_rate 2 ws h),
                    )
            ]
          ]
    ]
  ]

  finished-TaskFits :
      (active : List KanyPacket) (r : Result (List ℕ))
      → ((ws : List ℕ) → r ≡ ok ws → All IsWord ws)
      → TaskFits active (some (finished r))
  finished-TaskFits active (ok ws) h = h ws refl
  finished-TaskFits active (err x) h = tt

  pub complete-Reaches :
      (s : Mdx23c host.Float)
      → Inv host.byteorder s
      → Reaches host [] [] s (complete host run_inference elapsed s)
  unfolding complete
  complete-Reaches s v = by_task s.inference_task refl
    where
      ended :
          (job : Job) (r : Result (List ℕ)) (t : Mdx23c host.Float)
          → s.inference_task ≡ some (running job)
          → t ≡ record s {
            last_inference_seconds = t.last_inference_seconds;
            last_real_time_factor = t.last_real_time_factor;
          }
          → ((ws : List ℕ) → r ≡ ok ws → All IsWord ws)
          → Reaches host [] [] s (record t { inference_task = some (finished r) })
      ended job r t e same fine =
          let busy : view (record s { inference_task = some (finished r) }) ≡ view s = rw e refl in
          let still = λ (u : Mdx23c host.Float).
            Reaches host [] [] s (record u { inference_task = some (finished r) }) in
          subst still (sym same) (
            record {
              counted = v.counted;
              inputs = v.inputs;
              actives = v.actives;
              outputs = v.outputs;
              task = finished-TaskFits s.active_packets r fine;
              tail = v.tail;
            },
            subst (Run (view s) [] []) (sym busy) stays,
          )

      by_task :
          (t : Option Task)
          → s.inference_task ≡ t
          → Reaches host [] [] s (complete host run_inference elapsed s)
      by_task none e = subst (Reaches host [] [] s) (sym (simp (e, complete))) (v, stays)
      by_task (some (finished r)) e =
          subst (Reaches host [] [] s) (sym (simp (e, complete))) (v, stays)
      by_task (some (running job)) e =
          let (r, t) = infer host run_inference elapsed job s in
          let (same, fine) = infer_lem job s in
          let after : complete host run_inference elapsed s
              ≡ record t { inference_task = some (finished r) } =
            simp (e, complete) in
          subst (Reaches host [] [] s) (sym after) (ended job r t e same fine)
