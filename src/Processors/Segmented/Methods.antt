-- ===== src/Processors/Segmented/Methods.antt =====
-- segmented_inference.py: `process`, `flush` and the end of a task keep the invariant.
use karaoke_anything.Prelude.{
  ℕ, ◌≤◌, ◌<◌, ◌≡◌, ◌≢◌, refl, sym, ◌∙◌, subst, inl, inr, ◌⊎◌, Bool-cases, not, ◌||◌, ◌==◌, none,
  some, List, [], ◌∷◌, ◌++◌, All, All-left, All-right, Option-cases,
}
use karaoke_anything.Errors.{Result, ok, err}
use karaoke_anything.Host.{Host}
use karaoke_anything.Models.{MediaPacket, ProcessedPacket}
use karaoke_anything.Kany.{IsByte, KanyPacket}
use karaoke_anything.Kany.RoundTrip.{IsPacket, decode-IsPacket}
use karaoke_anything.Processors.Segmented.Defs.{
  Segmented, Subclass, accept_stream_format, append_input, launch, pop_ready, differs,
  harvest_inference, launch_if_ready, process, flush,
}
use karaoke_anything.Processors.Segmented.Launch.{split_loop-frames, launch-Cuts, launch-Minimal}
use karaoke_anything.Processors.Segmented.Harvest.{
  waits, delivers, mismatches, cancelled, fails, Harvest-cases,
}
use karaoke_anything.Processors.Segmented.Process.{
  harvest_raises, rejects, format_changes, launch_raises, buffers, process_cases, Flush,
  flush_cases, pop_cases,
}
use karaoke_anything.Processors.Segmented.Ready.{Launches, launch_cases, target_pos}
use karaoke_anything.Processors.Segmented.Invariant.{
  Lawful, IsOutput, Inv, TaskFits, abandoned-Inv, delivered-Inv, append_input-Inv,
}

-- `_accept_stream_format` returns the processor as it was, or with the stream's format set
pub accept_cases :
    {F : Type 0} (p : KanyPacket) (s : Segmented F)
    → ((accept_stream_format p s).1 ≡ s)
      ⊎ ((s.stream_sample_rate ≡ none)
          × (accept_stream_format p s ≡ (
            ok tt,
            record s { stream_sample_rate = some p.sample_rate; stream_channels = some p.channels },
          )))
unfolding accept_stream_format
accept_cases p s = elim (Option-cases s.stream_sample_rate) [
  | inl e ↦ inr (e, simp (e, accept_stream_format))
  | inr (rate, e) ↦
      elim (Bool-cases (not (p.sample_rate == rate) || differs p.channels s.stream_channels)) [
        | inl other ↦ inl (simp (e, accept_stream_format, other))
        | inr same ↦ inl (simp (e, accept_stream_format, same))
      ]
]

module _ (host : Host) where
  abbrev pub P : Segmented host.Float → Type 0
  P = Inv host.byteorder

  accept-Inv : (p : KanyPacket) (s : Segmented host.Float) → P s → P (accept_stream_format p s).1
  accept-Inv p s v = elim (accept_cases p s) [
    | inl e ↦ rw e v
    | inr (_, e) ↦ rw e (record {
      counted = v.counted;
      inputs = v.inputs;
      actives = v.actives;
      outputs = v.outputs;
      task = v.task;
    })
  ]

  nonempty : (first : List KanyPacket) (last : KanyPacket) → first ++ last ∷ [] ≢ []
  nonempty [] last h = cc
  nonempty (p ∷ ps) last h = cc

  launch-Inv :
      (target : ℕ) (s : Segmented host.Float)
      → 0 < target
      → target ≤ s.input_frames
      → P s
      → P (launch target s)
  unfolding launch
  launch-Inv target s positive ready v =
      let (in_order, left) = launch-Cuts target s v.counted in
      let (_, (first, last, split, _)) = launch-Minimal target s v.counted positive ready in
      let t : Segmented host.Float = launch target s in
      let whole : All IsPacket (t.active_packets ++ t.input_packets) =
        subst (All IsPacket) (sym in_order) v.inputs in
      record {
        counted = left;
        inputs = All-right IsPacket t.active_packets t.input_packets whole;
        actives = All-left IsPacket t.active_packets t.input_packets whole;
        outputs = v.outputs;
        task = (
          refl,
          refl,
          rw v.counted (split_loop-frames target s.input_packets),
          λ h. nonempty first last (sym split ∙ h),
        );
      }

module _ (host : Host) (subclass : Subclass) (segment_seconds : host.Float) where
  harvest-Inv :
      (s : Segmented host.Float)
      → P host s
      → P host (harvest_inference host subclass segment_seconds s).1
  harvest-Inv s v = elim (Harvest-cases host subclass segment_seconds s) [
    | waits _ e ↦ rw e v
    | delivers ws t fits e ↦
        rw e (delivered-Inv host.byteorder ws s (subst (TaskFits s.active_packets) t v.task) fits v)
    | mismatches ws t _ e ↦ rw e (abandoned-Inv host.byteorder s v)
    | cancelled t e ↦ rw e (abandoned-Inv host.byteorder s v)
    | fails x t _ e ↦ rw e (record {
      counted = v.counted;
      inputs = v.inputs;
      actives = tt;
      outputs = v.outputs;
      task = refl;
    })
  ]

  launch_if_ready-Inv :
      (s : Segmented host.Float)
      → P host s
      → P host (launch_if_ready host subclass segment_seconds s).1
  launch_if_ready-Inv s v = elim (launch_cases host subclass segment_seconds s) [
    | Launches.waits e ↦ rw e v
    | Launches.starts target _ t full e ↦
        rw e (launch-Inv host target s (target_pos host subclass segment_seconds s target t) full v)
    | Launches.fails x _ _ e ↦ rw e v
  ]

  -- every packet that a call yields is a datagram that a receiver accepts
  abbrev pub Yields : Result (List ProcessedPacket) → Type 0
  Yields (ok outs) = All (IsOutput host.byteorder) outs
  Yields (err e) = Unit

  abbrev pub Keeps : Result (List ProcessedPacket) × Segmented host.Float → Type 0
  Keeps (r, s) = Inv host.byteorder s × Yields r

  pop_ready-Keeps : (s : Segmented host.Float) → P host s → Keeps (pop_ready s)
  pop_ready-Keeps s v = elim (pop_cases s) [
    | inl (_, e) ↦ rw e (v, tt)
    | inr (out, rest, ready, e) ↦
        let outs = subst (All (IsOutput host.byteorder)) ready v.outputs in
        rw e (
          record {
            counted = v.counted;
            inputs = v.inputs;
            actives = v.actives;
            outputs = outs.1;
            task = v.task;
          },
          (outs.0, tt),
        )
  ]

  pub harvested-Inv :
      (s : Segmented host.Float) {r : Result (Unit {0})} {t : Segmented host.Float}
      → harvest_inference host subclass segment_seconds s ≡ (r, t)
      → P host s
      → P host t
  harvested-Inv s e v =
      subst (λ (z : Result (Unit {0}) × Segmented host.Float). P host z.1) e (harvest-Inv s v)

  module _ (lawful : Lawful host.byteorder subclass) where
    pub accepted-Inv :
        (packet : MediaPacket host.Float) (p : KanyPacket) (t : Segmented host.Float)
        {r : Result (Unit {0})} {u : Segmented host.Float}
        → All IsByte packet.payload
        → subclass.decode_and_validate packet.payload ≡ ok p
        → accept_stream_format p t ≡ (r, u)
        → P host t
        → P host u × IsPacket p
    accepted-Inv packet p t hb d a v = (
      subst (λ (z : Result (Unit {0}) × Segmented host.Float). P host z.1) a
          (accept-Inv host p t v),
      (decode-IsPacket host.byteorder packet.payload p hb (lawful.decodes packet.payload p d)).0,
    )

    pub launched-Inv :
        (packet : MediaPacket host.Float) (p : KanyPacket) (t : Segmented host.Float)
        {u w : Segmented host.Float} {r : Result (Unit {0})}
        → All IsByte packet.payload
        → subclass.decode_and_validate packet.payload ≡ ok p
        → accept_stream_format p t ≡ (ok tt, u)
        → launch_if_ready host subclass segment_seconds (append_input p u) ≡ (r, w)
        → P host t
        → P host w
    launched-Inv packet p t {u} hb d a l v =
        let (vu, hp) = accepted-Inv packet p t hb d a v in
        subst (λ (z : Result (Unit {0}) × Segmented host.Float). P host z.1) l
          (launch_if_ready-Inv (append_input p u) (append_input-Inv host.byteorder p u hp vu))

    -- A call of `process`, whether it returns or raises, keeps the invariant, and what it yields
    -- is accepted by the receiver.
    pub process-Keeps :
        (packet : MediaPacket host.Float) (s : Segmented host.Float)
        → All IsByte packet.payload
        → Inv host.byteorder s
        → Keeps (process host subclass segment_seconds packet s)
    process-Keeps packet s hb v = elim (process_cases host subclass segment_seconds packet s) [
      | harvest_raises x t h e ↦ rw e (harvested-Inv s h v, tt)
      | rejects t x h d e ↦ rw e (harvested-Inv s h v, tt)
      | format_changes t p x u h d a e ↦
          rw e ((accepted-Inv packet p t hb d a (harvested-Inv s h v)).0, tt)
      | launch_raises t p u x w h d a l e ↦
          rw e (launched-Inv packet p t hb d a l (harvested-Inv s h v), tt)
      | buffers t p u w h d a l e ↦
          rw e (pop_ready-Keeps w (launched-Inv packet p t hb d a l (harvested-Inv s h v)))
    ]

  -- So does a call of `flush`.
  pub flush-Keeps :
      (s : Segmented host.Float)
      → Inv host.byteorder s
      → Keeps (flush host subclass segment_seconds s)
  flush-Keeps s v = elim (flush_cases host subclass segment_seconds s) [
    | Flush.harvest_raises x t h e ↦ rw e (harvested-Inv s h v, tt)
    | Flush.drains t h e ↦
        let vt = harvested-Inv s h v in
        rw e (
          record {
            counted = vt.counted;
            inputs = vt.inputs;
            actives = vt.actives;
            outputs = tt;
            task = vt.task;
          },
          vt.outputs,
        )
  ]
