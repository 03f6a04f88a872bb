-- ===== src/Processors/Segmented/Process.antt =====
-- segmented_inference.py, `process` and `flush`: every way that they can end, step by step.
use karaoke_anything.Prelude.{◌≡◌, refl, inl, inr, ◌⊎◌, List, [], ◌∷◌, List-cases}
use karaoke_anything.Prelude.Exec.{Exec-cases}
use karaoke_anything.Errors.{Exception, Result, ok, err, Result-cases}
use karaoke_anything.Host.{Host}
use karaoke_anything.Models.{MediaPacket, ProcessedPacket}
use karaoke_anything.Kany.{KanyPacket}
use karaoke_anything.Processors.Segmented.Defs.{
  Segmented, Subclass, accept_stream_format, append_input, pop_ready, pop_all, harvest_inference,
  launch_if_ready, process, flush,
}

pub pop_cases :
    {F : Type 0} (s : Segmented F)
    → ((s.ready_output ≡ []) × (pop_ready s ≡ (ok [], s)))
      ⊎ ((out : ProcessedPacket) × (rest : List ProcessedPacket) × (s.ready_output ≡ out ∷ rest)
          × (pop_ready s ≡ (ok (out ∷ []), record s { ready_output = rest })))
unfolding pop_ready
pop_cases s = elim (List-cases s.ready_output) [
  | inl e ↦ inl (e, simp (e, pop_ready))
  | inr (out, rest, e) ↦ inr (out, rest, e, simp (e, pop_ready))
]

module _ (host : Host) (subclass : Subclass) (segment_seconds : host.Float) where
  pub data Process (packet : MediaPacket host.Float) (s : Segmented host.Float)
      (r : Result (List ProcessedPacket) × Segmented host.Float) : Type 0 where
    harvest_raises :
        (e : Exception) (t : Segmented host.Float)
        → harvest_inference host subclass segment_seconds s ≡ (err e, t)
        → r ≡ (err e, t)
        → Process packet s r
    rejects :
        (t : Segmented host.Float) (e : Exception)
        → harvest_inference host subclass segment_seconds s ≡ (ok tt, t)
        → subclass.decode_and_validate packet.payload ≡ err e
        → r ≡ (err e, t)
        → Process packet s r
    format_changes :
        (t : Segmented host.Float) (p : KanyPacket) (e : Exception) (u : Segmented host.Float)
        → harvest_inference host subclass segment_seconds s ≡ (ok tt, t)
        → subclass.decode_and_validate packet.payload ≡ ok p
        → accept_stream_format p t ≡ (err e, u)
        → r ≡ (err e, u)
        → Process packet s r
    launch_raises :
        (t : Segmented host.Float) (p : KanyPacket) (u : Segmented host.Float) (e : Exception)
        (w : Segmented host.Float)
        → harvest_inference host subclass segment_seconds s ≡ (ok tt, t)
        → subclass.decode_and_validate packet.payload ≡ ok p
        → accept_stream_format p t ≡ (ok tt, u)
        → launch_if_ready host subclass segment_seconds (append_input p u) ≡ (err e, w)
        → r ≡ (err e, w)
        → Process packet s r
    buffers :
        (t : Segmented host.Float) (p : KanyPacket) (u w : Segmented host.Float)
        → harvest_inference host subclass segment_seconds s ≡ (ok tt, t)
        → subclass.decode_and_validate packet.payload ≡ ok p
        → accept_stream_format p t ≡ (ok tt, u)
        → launch_if_ready host subclass segment_seconds (append_input p u) ≡ (ok tt, w)
        → r ≡ pop_ready w
        → Process packet s r

  pub process_cases :
      (packet : MediaPacket host.Float) (s : Segmented host.Float)
      → Process packet s (process host subclass segment_seconds packet s)
  unfolding process
  process_cases packet s = elim (Exec-cases (harvest_inference host subclass segment_seconds s)) [
    | inr (e, t, h) ↦ harvest_raises e t h (rw h refl)
    | inl (_, t, h) ↦ elim (Result-cases (subclass.decode_and_validate packet.payload)) [
      | inr (e, d) ↦ rejects t e h d (rw (h, d) refl)
      | inl (p, d) ↦ elim (Exec-cases (accept_stream_format p t)) [
        | inr (e, u, a) ↦ format_changes t p e u h d a (rw (h, d, a) refl)
        | inl (_, u, a) ↦
            elim (Exec-cases (launch_if_ready host subclass segment_seconds (append_input p u))) [
              | inr (e, w, l) ↦ launch_raises t p u e w h d a l (rw (h, d, a, l) refl)
              | inl (_, w, l) ↦ buffers t p u w h d a l (rw (h, d, a, l) refl)
            ]
      ]
    ]
  ]

  pub data Flush (s : Segmented host.Float)
      (r : Result (List ProcessedPacket) × Segmented host.Float) : Type 0 where
    harvest_raises :
        (e : Exception) (t : Segmented host.Float)
        → harvest_inference host subclass segment_seconds s ≡ (err e, t)
        → r ≡ (err e, t)
        → Flush s r
    drains :
        (t : Segmented host.Float)
        → harvest_inference host subclass segment_seconds s ≡ (ok tt, t)
        → r ≡ (ok t.ready_output, record t { ready_output = [] })
        → Flush s r

  pub flush_cases : (s : Segmented host.Float) → Flush s (flush host subclass segment_seconds s)
  unfolding flush pop_all
  flush_cases s = elim (Exec-cases (harvest_inference host subclass segment_seconds s)) [
    | inr (e, t, h) ↦ Flush.harvest_raises e t h (rw h refl)
    | inl (_, t, h) ↦ Flush.drains t h (rw h refl)
  ]
