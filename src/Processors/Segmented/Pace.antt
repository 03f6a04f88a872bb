-- ===== src/Processors/Segmented/Pace.antt =====
-- segmented_inference.py: when finished packets leave the processor, and what they carry.
use karaoke_anything.Prelude.{
  ℕ, ◌*◌, ◌≤◌, ◌≡◌, refl, sym, ap, ap₂, ◌∙◌, inl, inr, Option, none, some, List, [], ◌∷◌, ◌++◌, map,
  length, All, All-take, All-drop, arith, take, drop,
}
use karaoke_anything.Errors.{Result, ok}
use karaoke_anything.Host.{Host}
use karaoke_anything.Models.{MediaPacket, ProcessedPacket}
use karaoke_anything.Kany.{ByteOrder, IsWord, KanyPacket, decode}
use karaoke_anything.Kany.RoundTrip.{IsPacket, decode_written}
use karaoke_anything.Processors.Segmented.Defs.{
  Segmented, Subclass, Task, running, finished, accept_stream_format, append_input, launch,
  pop_ready, harvest_inference, launch_if_ready, process, expected_samples, concat_samples,
  distribute_segment_output,
}
use karaoke_anything.Processors.Segmented.Distribute.{resliced, written, concat-resliced}
use karaoke_anything.Processors.Segmented.Harvest.{
  waits, delivers, mismatches, cancelled, fails, Harvest-cases, IsUnfinished, distribute_fits,
}
use karaoke_anything.Processors.Segmented.Ready.{Launches, launch_cases}
use karaoke_anything.Processors.Segmented.Process.{
  harvest_raises, rejects, format_changes, launch_raises, buffers, process_cases, pop_cases,
}
use karaoke_anything.Processors.Segmented.Invariant.{length_front, length_back}
use karaoke_anything.Processors.Segmented.Methods.{accept_cases}
use karaoke_anything.Processors.Segmented.Fifo.{packet_headers}

launch-ready :
    {F : Type 0} (target : ℕ) (s : Segmented F) → (launch target s).ready_output ≡ s.ready_output
unfolding launch
launch-ready target s = refl

accept-ready :
    {F : Type 0} (p : KanyPacket) (s : Segmented F)
    → (accept_stream_format p s).1.ready_output ≡ s.ready_output
accept-ready p s = elim (accept_cases p s) [
  | inl e ↦ ap (λ t. t.ready_output) e
  | inr (_, e) ↦ rw e refl
]

-- The finished packets that a call finds: those that wait, and those of a task that has returned.
abbrev pub available : {F : Type 0} → ByteOrder → Segmented F → Option Task → List ProcessedPacket
available order s (some (finished (ok ws))) =
    s.ready_output ++ map (written order) (resliced s.active_packets ws)
available order s _ = s.ready_output

available_unfinished :
    {F : Type 0} (order : ByteOrder) (s : Segmented F) (t : Option Task)
    → IsUnfinished t
    → available order s t ≡ s.ready_output
available_unfinished order s none h = refl
available_unfinished order s (some (running job)) h = refl
available_unfinished order s (some (finished r)) h = absurd h

module _ (host : Host) (subclass : Subclass) (segment_seconds : host.Float) where
  harvest-ready :
      (s t : Segmented host.Float)
      → harvest_inference host subclass segment_seconds s ≡ (ok tt, t)
      → t.ready_output ≡ available host.byteorder s s.inference_task
  harvest-ready s t h = elim (Harvest-cases host subclass segment_seconds s) [
    | waits u e ↦
        let same : s ≡ t = cc (h, e) in
        rw (← same) (sym (available_unfinished host.byteorder s s.inference_task u))
    | delivers ws task _ e ↦
        rw task
          (ap (λ (z : Result (Unit {0}) × Segmented host.Float). z.1.ready_output) (sym h ∙ e))
    | mismatches ws _ _ e ↦ cc (h, e)
    | cancelled _ e ↦ cc (h, e)
    | fails x _ _ e ↦ cc (h, e)
  ]

  launched-ready :
      (s t : Segmented host.Float)
      → launch_if_ready host subclass segment_seconds s ≡ (ok tt, t)
      → t.ready_output ≡ s.ready_output
  launched-ready s t h = elim (launch_cases host subclass segment_seconds s) [
    | Launches.waits e ↦
        ap (λ (z : Result (Unit {0}) × Segmented host.Float). z.1.ready_output) (sym h ∙ e)
    | Launches.starts target _ _ _ e ↦
        ap (λ (z : Result (Unit {0}) × Segmented host.Float). z.1.ready_output) (sym h ∙ e)
        ∙ launch-ready target s
    | Launches.fails x _ _ e ↦ cc (h, e)
  ]

  pop_pace :
      {F : Type 0} (s t : Segmented F) (outs : List ProcessedPacket)
      → pop_ready s ≡ (ok outs, t)
      → (length outs ≤ 1)
        × (outs ≡ [] → t.ready_output ≡ [])
        × (outs ++ t.ready_output ≡ s.ready_output)
  pop_pace s t outs h = elim (pop_cases s) [
    | inl (empty, e) ↦
        let same : s ≡ t = cc (h, e) in
        let no_outs : outs ≡ [] = cc (h, e) in
        (rw no_outs (omega arith), λ _. rw (← same) empty, rw (no_outs, ← same) refl)
    | inr (out, rest, ready, e) ↦
        let after : record s { ready_output = rest } ≡ t = cc (h, e) in
        let one : outs ≡ out ∷ [] = cc (h, e) in
        (rw one (omega arith), λ z. cc (one, z), rw (one, ← after) (sym ready))
  ]

  -- A call of `process` that returns yields at most one packet, the oldest finished one, and none
  -- only when no finished packet is left. A task that has returned adds its packets to the finished
  -- ones in this very call.
  pub process_pace :
      (packet : MediaPacket host.Float) (s t : Segmented host.Float) (outs : List ProcessedPacket)
      → process host subclass segment_seconds packet s ≡ (ok outs, t)
      → (length outs ≤ 1)
        × (outs ≡ [] → t.ready_output ≡ [])
        × (outs ++ t.ready_output ≡ available host.byteorder s s.inference_task)
  process_pace packet s t outs h = elim (process_cases host subclass segment_seconds packet s) [
    | harvest_raises x u _ e ↦ cc (h, e)
    | rejects u x _ _ e ↦ cc (h, e)
    | format_changes u p x w _ _ _ e ↦ cc (h, e)
    | launch_raises u p w x y _ _ _ _ e ↦ cc (h, e)
    | buffers u p w y hv d a l e ↦
        let (few, drained, split) = pop_pace y t outs (sym e ∙ h) in
        (
          few,
          drained,
          split
              ∙ launched-ready (append_input p w) y l
              ∙ ap (λ (z : Result (Unit {0}) × Segmented host.Float). z.1.ready_output) (sym a)
              ∙ accept-ready p u
              ∙ harvest-ready s u hv,
        )
  ]

decoded_outputs :
    (reader writer : ByteOrder) (ps : List KanyPacket) (ws : List ℕ)
    → All IsPacket ps
    → All IsWord ws
    → length ws ≡ expected_samples ps
    → map (λ out. decode reader out.payload) (map (written writer) (resliced ps ws))
      ≡ map ok (resliced ps ws)
decoded_outputs reader writer [] ws hp hw h = refl
decoded_outputs reader writer (p ∷ ps) ws hp hw h =
    let count = p.frames * p.channels in
    ap₂ ◌∷◌
      (decode_written reader writer p (take count ws) hp.0 (All-take IsWord count ws hw)
        (length_front p ps ws h))
      (decoded_outputs reader writer ps (drop count ws) hp.1 (All-drop IsWord count ws hw)
        (length_back p ps ws h))

headers-resliced :
    (ps : List KanyPacket) (ws : List ℕ) → packet_headers (resliced ps ws) ≡ packet_headers ps
headers-resliced [] ws = refl
headers-resliced (p ∷ ps) ws =
    ap (◌∷◌ p.raw_header) (headers-resliced ps (drop (p.frames * p.channels) ws))

-- A result of the right length is cut into one datagram for each packet of the segment. On any
-- machine these decode to packets with the headers of the segment's packets, in order, and their
-- samples together are the result.
pub distribute_samples :
    (host : Host) (subclass : Subclass) (segment_seconds : host.Float) (reader : ByteOrder)
    (ws : List ℕ) (s : Segmented host.Float)
    → All IsPacket s.active_packets
    → All IsWord ws
    → length ws ≡ expected_samples s.active_packets
    → (outs : List ProcessedPacket) × (ps : List KanyPacket) × (distribute_segment_output host
          subclass segment_seconds ws s
        ≡ (ok tt, record s { ready_output = s.ready_output ++ outs }))
      × (map (λ out. decode reader out.payload) outs ≡ map ok ps)
      × (packet_headers ps ≡ packet_headers s.active_packets)
      × (concat_samples ps ≡ ws)
distribute_samples host subclass segment_seconds reader ws s hp hw h =
    let ps = resliced s.active_packets ws in
    (
      map (written host.byteorder) ps,
      ps,
      distribute_fits host subclass segment_seconds ws s h,
      decoded_outputs reader host.byteorder s.active_packets ws hp hw h,
      headers-resliced s.active_packets ws,
      concat-resliced s.active_packets ws h,
    )
