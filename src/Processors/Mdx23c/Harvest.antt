-- ===== src/Processors/Mdx23c/Harvest.antt =====
-- mdx23c_vocals.py, `_harvest_inference` with the methods that it calls: every way that it can end.
use karaoke_anything.Prelude.{
  ℕ, ◌+◌, ◌*◌, ◌≡◌, refl, sym, ap, ◌∙◌, ◌⊎◌, inl, inr, Bool-cases, true, Option, none, some, List,
  [], ◌∷◌, ◌++◌, map, append-nil, append_assoc, length, take, drop, length-take, length-drop,
  drop-drop, ◌==◌, ==_iff, All, arith,
}
use karaoke_anything.Errors.{
  Exception, Result, ok, err, cancelled_error, inference_failed, wrong_sample_count, Result-cases,
}
use karaoke_anything.Host.{Host}
use karaoke_anything.Kany.{ByteOrder, KanyPacket, floats}
use karaoke_anything.Kany.RoundTrip.{IsPacket, encode_total}
use karaoke_anything.Processors.Segmented
use karaoke_anything.Processors.Segmented.{Task, running, finished}
use karaoke_anything.Processors.Segmented.Distribute.{resliced, written}
use karaoke_anything.Processors.Segmented.Harvest.{IsUnfinished}
use karaoke_anything.Processors.Mdx23c.Crossfade.{Crossfaded, crossfaded}
use karaoke_anything.Processors.Mdx23c.Faded.{crossfaded-eq_ok}
use karaoke_anything.Processors.Mdx23c.Defs.{
  Mdx23c, Window, expected_samples, distribute_loop, distribute_crossfaded, await_segment_result,
  distribute_segment_output, finish_segment, harvest_inference,
}

-- a packet that `_decode_and_validate` returns
abbrev pub IsStereo : KanyPacket → Type 0
IsStereo p = IsPacket p × (p.channels ≡ 2)

pub expected-stereo :
    (ps : List KanyPacket) → All IsStereo ps → expected_samples ps ≡ Segmented.expected_samples ps
expected-stereo [] h = refl
expected-stereo (p ∷ ps) h = rw h.0.1 (ap (λ n. p.frames * 2 + n) (expected-stereo ps h.1))

module _ {F : Type 0} (order : ByteOrder) where
  pub distribute_loop_lem :
      (output : List ℕ) (ps : List KanyPacket) (offset : ℕ) (s : Mdx23c F)
      → All IsStereo ps
      → length output ≡ offset + expected_samples ps
      → distribute_loop order output ps offset s ≡ (
        ok tt,
        record s {
          ready_output = s.ready_output ++ map (written order) (resliced ps (drop offset output));
        },
      )
  unfolding distribute_loop
  distribute_loop_lem output [] offset s hp h =
      ap (λ r. (ok tt, record s { ready_output = r })) (sym (append-nil s.ready_output))
  distribute_loop_lem output (p ∷ ps) offset s hp h =
      let count = p.frames * 2 in
      let same : p.frames * p.channels ≡ count = ap (λ c. p.frames * c) hp.0.1 in
      let part = take count (drop offset output) in
      let fits : length part ≡ p.channels * p.frames =
        omega (arith, same, length-take count (drop offset output), length-drop offset output) in
      let q : KanyPacket = record p { samples = floats part } in
      rw (same, encode_total order p part fits, distribute_loop)
        (distribute_loop_lem output ps (offset + count)
            (record s { ready_output = s.ready_output ++ written order q ∷ [] }) hp.1 (omega arith)
          ∙ ap (λ r. (ok tt, record s { ready_output = r }))
              (append_assoc s.ready_output (written order q ∷ [])
                  (map (written order) (resliced ps (drop (offset + count) output)))
                ∙ ap
                    (λ rest.
                      s.ready_output ++ written order q ∷ map (written order) (resliced ps rest))
                    (sym (drop-drop offset count output))))

module _ {F : Type 0} where
  -- the mixed segment is cut up, behind what is already waiting
  abbrev pub delivered : ByteOrder → Crossfaded → Mdx23c F → Mdx23c F
  delivered order c s = record s {
    inference_task = none;
    active_packets = [];
    ready_output = s.ready_output ++ map (written order) (resliced s.active_packets c.output);
    previous_tail = c.tail;
    segments_completed = s.segments_completed + 1;
    last_error = none;
  }

  -- the task is gone, and its packets are forgotten or never looked at again
  abbrev pub abandoned : List KanyPacket → Option Exception → Mdx23c F → Mdx23c F
  abandoned active error s = record s {
    inference_task = none;
    active_packets = active;
    last_error = error;
  }

module _ (host : Host) (window : Window host.Float) where
  pub data Harvest (s : Mdx23c host.Float) (r : Result (Unit {0}) × Mdx23c host.Float)
      : Type 0 where
    waits : IsUnfinished s.inference_task → r ≡ (ok tt, s) → Harvest s r
    delivers :
        (ws : List ℕ) (c : Crossfaded)
        → s.inference_task ≡ some (finished (ok ws))
        → length ws ≡ expected_samples s.active_packets
        → crossfaded host window.overlap ws s.previous_tail ≡ ok c
        → r ≡ (ok tt, delivered host.byteorder c s)
        → Harvest s r
    raises :
        (result : Result (List ℕ)) (e : Exception) (active : List KanyPacket)
        (error : Option Exception)
        → s.inference_task ≡ some (finished result)
        → (active ≡ []) ⊎ (active ≡ s.active_packets)
        → r ≡ (err e, abandoned active error s)
        → Harvest s r

  Harvest-fits :
      (ws : List ℕ) (s : Mdx23c host.Float)
      → All IsStereo s.active_packets
      → s.inference_task ≡ some (finished (ok ws))
      → (length ws == expected_samples s.active_packets) ≡ true
      → Harvest s (harvest_inference host window s)
  unfolding harvest_inference await_segment_result finish_segment distribute_segment_output
      distribute_crossfaded
  Harvest-fits ws s stereo t same =
      elim (Result-cases (crossfaded host window.overlap ws s.previous_tail)) [
        | inr (e, x) ↦
            raises (ok ws) e s.active_packets s.last_error t (inr refl)
              (rw (t, harvest_inference, same, x) refl)
        | inl (c, x) ↦
            let fits = (==_iff _ _).0 same in
            let (_, _, (kept, _)) = crossfaded-eq_ok host window.overlap ws s.previous_tail c x in
            delivers ws c t fits x (
              rw
                (
                  t,
                  harvest_inference,
                  same,
                  x,
                  distribute_loop_lem host.byteorder c.output s.active_packets 0
                      (record s { inference_task = none; previous_tail = c.tail }) stereo
                      (omega (arith, kept, fits)),
                )
                refl)
      ]

  Harvest-err :
      (x : Exception) (s : Mdx23c host.Float)
      → s.inference_task ≡ some (finished (err x))
      → Harvest s (harvest_inference host window s)
  unfolding harvest_inference await_segment_result
  Harvest-err cancelled_error s t =
      raises (err cancelled_error) cancelled_error s.active_packets s.last_error t (inr refl)
        (rw (t, harvest_inference) refl)
  Harvest-err other s t =
      raises (err other) (inference_failed "MDX23C" other) [] (some other) t (inl refl)
        (rw (t, harvest_inference) refl)

  -- every way that `_harvest_inference` ends
  pub Harvest-cases :
      (s : Mdx23c host.Float)
      → All IsStereo s.active_packets
      → Harvest s (harvest_inference host window s)
  unfolding harvest_inference await_segment_result distribute_segment_output
  Harvest-cases s stereo = by_task s.inference_task refl
    where
      by_task :
          (t : Option Task) → s.inference_task ≡ t → Harvest s (harvest_inference host window s)
      by_task none e = waits (rw e tt) (simp (e, harvest_inference))
      by_task (some (running job)) e = waits (rw e tt) (simp (e, harvest_inference))
      by_task (some (finished (err x))) e = Harvest-err x s e
      by_task (some (finished (ok ws))) e =
          elim (Bool-cases (length ws == expected_samples s.active_packets)) [
            | inl same ↦ Harvest-fits ws s stereo e same
            | inr other ↦
                raises (ok ws)
                  (wrong_sample_count "MDX23C" (length ws) (expected_samples s.active_packets)) []
                  s.last_error e (inl refl) (rw (e, harvest_inference, other) refl)
          ]
