-- ===== src/Processors/Segmented/Failures.antt =====
-- segmented_inference.py: what is lost when `process` raises.
use karaoke_anything.Prelude.{
  ℕ, ◌≡◌, ◌≢◌, refl, sym, ap, ap₂, ◌∙◌, subst, inl, inr, ◌⊎◌, none, some, List, [], ◌∷◌, ◌++◌,
  length, All,
}
use karaoke_anything.Errors.{
  Exception, Result, ok, err, cancelled_error, inference_failed, wrong_sample_count, format_changed,
  Result-cases,
}
use karaoke_anything.Host.{Host}
use karaoke_anything.Models.{MediaPacket}
use karaoke_anything.Kany.{IsByte, KanyPacket}
use karaoke_anything.Processors.Segmented.Defs.{
  Segmented, Subclass, finished, expected_samples, append_input, harvest_inference, launch_if_ready,
  target_segment_frames, process,
}
use karaoke_anything.Processors.Segmented.Harvest.{
  waits, delivers, mismatches, cancelled, fails, Harvest-cases, abandoned, delivered, IsUnfinished,
  failure, failure-other,
}
use karaoke_anything.Processors.Segmented.Ready.{Launches, launch_cases}
use karaoke_anything.Processors.Segmented.Process.{
  harvest_raises, rejects, format_changes, launch_raises, buffers, process_cases, pop_cases,
}
use karaoke_anything.Processors.Segmented.Invariant.{Lawful, Inv}
use karaoke_anything.Processors.Segmented.Format.{accept_raised, accept_returned, accept-same}
use karaoke_anything.Processors.Segmented.Fifo.{
  pending, header, output_headers, packet_headers, harvest-pending, accept-pending, append-pending,
  accepted-header,
}

module _ (host : Host) (subclass : Subclass) (segment_seconds : host.Float) where
  -- The segment that was being separated is gone, and the processor is idle.
  abbrev LosesSegment : Segmented host.Float → Segmented host.Float → Type 0
  LosesSegment s t =
      (t.inference_task ≡ none)
      × (t.active_packets ≡ [])
      × (pending t ≡ output_headers s.ready_output ++ packet_headers s.input_packets)

  -- The task, if it has not ended, goes on and nothing changes; one that has returned a result of the
  -- right length is delivered.
  abbrev pub Settled : Segmented host.Float → Segmented host.Float → Type 0
  Settled s t =
      (IsUnfinished s.inference_task × (t ≡ s))
      ⊎ ((ws : List ℕ) × (s.inference_task ≡ some (finished (ok ws)))
          × (length ws ≡ expected_samples s.active_packets)
          × (t ≡ delivered host.byteorder ws s))

  -- why a call of `process` raised `e`, and what it left
  pub data Raised (packet : MediaPacket host.Float) (s t : Segmented host.Float) (e : Exception)
      : Type 0 where
    task_failed :
        (x : Exception)
        → s.inference_task ≡ some (finished (err x))
        → e ≡ failure subclass x
        → LosesSegment s t
        → Raised packet s t e
    wrong_length :
        (ws : List ℕ)
        → s.inference_task ≡ some (finished (ok ws))
        → length ws ≢ expected_samples s.active_packets
        → e
          ≡ wrong_sample_count subclass.model_label (length ws) (expected_samples s.active_packets)
        → LosesSegment s t
        → Raised packet s t e
    datagram_refused :
        subclass.decode_and_validate packet.payload ≡ err e
        → Settled s t
        → pending t ≡ pending s
        → Raised packet s t e
    format_refused :
        (p : KanyPacket) (rate : ℕ)
        → subclass.decode_and_validate packet.payload ≡ ok p
        → t.stream_sample_rate ≡ some rate
        → (p.sample_rate ≢ rate) ⊎ (some p.channels ≢ t.stream_channels)
        → e ≡ format_changed rate t.stream_channels p.sample_rate p.channels
        → Settled s t
        → pending t ≡ pending s
        → Raised packet s t e
    not_measured :
        (u : Segmented host.Float) (p : KanyPacket) (rate : ℕ)
        → Settled s u
        → u.inference_task ≡ none
        → subclass.decode_and_validate packet.payload ≡ ok p
        → t.stream_sample_rate ≡ some rate
        → host.round (host.mul (host.ratio rate 1) segment_seconds) ≡ err e
        → t.inference_task ≡ none
        → t.input_packets ≡ u.input_packets ++ p ∷ []
        → pending t ≡ pending s ++ header packet.payload ∷ []
        → Raised packet s t e

  harvest_returned :
      (s t : Segmented host.Float)
      → harvest_inference host subclass segment_seconds s ≡ (ok tt, t)
      → Settled s t
  harvest_returned s t h = elim (Harvest-cases host subclass segment_seconds s) [
    | waits idle q ↦ inl (idle, cc (h, q))
    | delivers ws task fits q ↦ inr (ws, task, fits, cc (h, q))
    | mismatches ws _ _ q ↦ cc (h, q)
    | cancelled _ q ↦ cc (h, q)
    | fails x _ _ q ↦ cc (h, q)
  ]

  harvest-Raised :
      (packet : MediaPacket host.Float) (s t : Segmented host.Float) (e : Exception)
      → harvest_inference host subclass segment_seconds s ≡ (err e, t)
      → Raised packet s t e
  harvest-Raised packet s t e h = elim (Harvest-cases host subclass segment_seconds s) [
    | waits _ q ↦ cc (h, q)
    | delivers ws _ _ q ↦ cc (h, q)
    | mismatches ws task differ q ↦
        let same : abandoned s ≡ t = cc (h, q) in
        wrong_length ws task differ (cc (h, q)) (subst (LosesSegment s) same (refl, refl, refl))
    | cancelled task q ↦
        let same : abandoned s ≡ t = cc (h, q) in
        task_failed cancelled_error task (cc (h, q))
          (subst (LosesSegment s) same (refl, refl, refl))
    | fails x task other q ↦
        let same : record (abandoned s) { last_error = some x } ≡ t = cc (h, q) in
        let raised : e ≡ inference_failed subclass.model_label x = cc (h, q) in
        task_failed x task (raised ∙ sym (failure-other subclass x other))
          (subst (LosesSegment s) same (refl, refl, refl))
  ]

  launch_raised :
      (s t : Segmented host.Float) (e : Exception) (rate : ℕ)
      → launch_if_ready host subclass segment_seconds s ≡ (err e, t)
      → s.stream_sample_rate ≡ some rate
      → (s ≡ t)
        × (s.inference_task ≡ none)
        × (host.round (host.mul (host.ratio rate 1) segment_seconds) ≡ err e)
  unfolding target_segment_frames
  launch_raised s t e rate h known = elim (launch_cases host subclass segment_seconds s) [
    | Launches.waits q ↦ cc (h, q)
    | Launches.starts target _ _ _ q ↦ cc (h, q)
    | Launches.fails x idle target q ↦
        let raised : x ≡ e = cc (h, q) in
        (
          cc (h, q),
          idle,
          elim (Result-cases (host.round (host.mul (host.ratio rate 1) segment_seconds))) [
            | inl (z, r) ↦ cc (rw (known, target_segment_frames, r) at target)
            | inr (y, r) ↦
                let same : y ≡ x = cc (rw (known, target_segment_frames, r) at target) in
                r ∙ ap err (same ∙ raised)
          ],
        )
  ]

  moved :
      (packet : MediaPacket host.Float) (s : Segmented host.Float) {t u : Segmented host.Float}
      {x e : Exception}
      → u ≡ t
      → x ≡ e
      → Raised packet s u x
      → Raised packet s t e
  moved packet s {t} {u} {x} {e} same raised r =
      subst (λ z. Raised packet s z e) same (subst (Raised packet s u) raised r)

  -- When `process` raises, it is for one of five reasons. The finished task had failed, or its result has a
  -- wrong length: then that is the exception, the segment and the new datagram are lost, the processor is
  -- idle, and all else that waits is kept. The datagram was refused by the subclass, or has another format
  -- than the stream: then a running task goes on, a result is delivered first, and nothing is lost but the
  -- datagram. Or the length of a segment cannot be rounded while no task runs: then the datagram waits
  -- behind the others.
  pub process_raises :
      Lawful host.byteorder subclass
      → (packet : MediaPacket host.Float) (s t : Segmented host.Float) (e : Exception)
      → All IsByte packet.payload
      → Inv host.byteorder s
      → process host subclass segment_seconds packet s ≡ (err e, t)
      → Raised packet s t e
  process_raises lawful packet s t e hb v h =
      elim (process_cases host subclass segment_seconds packet s) [
        | harvest_raises x u hv q ↦
            moved packet s (cc (h, q)) (cc (h, q)) (harvest-Raised packet s u x hv)
        | rejects u x hv d q ↦ moved packet s (cc (h, q)) (cc (h, q)) (
            datagram_refused d (harvest_returned s u hv)
              (harvest-pending host subclass segment_seconds s u v hv))
        | format_changes u p x w hv d a q ↦
            let (kept, rate, known, other, why) = accept_raised p u w x a in
            moved packet s (cc (h, q, kept)) (cc (h, q)) (
              format_refused p rate d known other why (harvest_returned s u hv)
                (harvest-pending host subclass segment_seconds s u v hv))
        | launch_raises u p w x y hv d a l q ↦
            let (rate, known) = accept_returned p u w a in
            let (kept, idle, why) = launch_raised (append_input p w) y x rate l known in
            let is_w = ap (λ (z : Result (Unit {0}) × Segmented host.Float). z.1) a in
            let (inputs, tasks) = accept-same p u in
            moved packet s {u = append_input p w} (cc (h, q, kept)) (cc (h, q)) (
              not_measured u p rate (harvest_returned s u hv)
                (sym tasks ∙ ap (λ (z : Segmented host.Float). z.inference_task) is_w ∙ idle) d
                known why idle
                (ap (λ (z : Segmented host.Float). z.input_packets ++ p ∷ []) (sym is_w)
                  ∙ ap (λ ps. ps ++ p ∷ []) inputs)
                (append-pending p w
                  ∙ ap₂ (λ z r. z ++ r ∷ [])
                      (ap pending (sym is_w)
                        ∙ accept-pending p u
                        ∙ harvest-pending host subclass segment_seconds s u v hv)
                      (accepted-header host subclass segment_seconds lawful packet.payload p hb d)))
        | buffers u p w y hv d a l q ↦ elim (pop_cases y) [
          | inl (_, z) ↦ cc (h, q, z)
          | inr (out, rest, _, z) ↦ cc (h, q, z)
        ]
      ]
