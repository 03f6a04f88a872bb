-- ===== src/Processors/Segmented/Fifo.antt =====
-- segmented_inference.py: the packets that wait inside the processor, as one queue of their headers.
use karaoke_anything.Prelude.{
  ℕ, ◌*◌, ◌≡◌, refl, sym, ap, ap₂, ◌∙◌, subst, inl, inr, none, List, [], ◌∷◌, ◌++◌, map, map-append,
  append_assoc, take, drop, take-append_exact, All,
}
use karaoke_anything.Errors.{Result, ok}
use karaoke_anything.Host.{Host}
use karaoke_anything.Models.{MediaPacket, ProcessedPacket}
use karaoke_anything.Kany.{Bytes, ByteOrder, IsByte, KanyPacket}
use karaoke_anything.Kany.RoundTrip.{IsPacket, decode-IsPacket}
use karaoke_anything.Processors.Segmented.Defs.{
  Segmented, Subclass, accept_stream_format, append_input, launch, pop_ready, harvest_inference,
  launch_if_ready, process, flush,
}
use karaoke_anything.Processors.Segmented.Launch.{launch-Cuts}
use karaoke_anything.Processors.Segmented.Distribute.{resliced, written}
use karaoke_anything.Processors.Segmented.Harvest.{
  waits, delivers, mismatches, cancelled, fails, Harvest-cases, delivered,
}
use karaoke_anything.Processors.Segmented.Ready.{Launches, launch_cases}
use karaoke_anything.Processors.Segmented.Process.{
  harvest_raises, rejects, format_changes, launch_raises, buffers, process_cases, Flush,
  flush_cases, pop_cases,
}
use karaoke_anything.Processors.Segmented.Invariant.{Lawful, Inv, TaskFits, append_input-Inv}
use karaoke_anything.Processors.Segmented.Methods.{accept_cases, accepted-Inv, harvested-Inv}

-- the header that a datagram begins with
abbrev pub header : Bytes → Bytes
header payload = take 28 payload

abbrev pub output_headers : List ProcessedPacket → List Bytes
output_headers = map (λ out. header out.payload)

abbrev pub packet_headers : List KanyPacket → List Bytes
packet_headers = map (λ p. p.raw_header)

-- oldest first: finished, being separated, collected
abbrev pub pending : {F : Type 0} → Segmented F → List Bytes
pending s =
    output_headers s.ready_output
    ++ (packet_headers s.active_packets ++ packet_headers s.input_packets)

pub written_headers :
    (order : ByteOrder) (ps : List KanyPacket) (ws : List ℕ)
    → All IsPacket ps
    → output_headers (map (written order) (resliced ps ws)) ≡ packet_headers ps
written_headers order [] ws h = refl
written_headers order (p ∷ ps) ws h =
    ap₂ ◌∷◌ (take-append_exact 28 p.raw_header _ h.0.header_length)
      (written_headers order ps (drop (p.frames * p.channels) ws) h.1)

-- a finished segment moves to the front part of the queue as it is
delivered-pending :
    {F : Type 0} (order : ByteOrder) (ws : List ℕ) (s : Segmented F)
    → All IsPacket s.active_packets
    → pending (delivered order ws s) ≡ pending s
delivered-pending order ws s h =
    let new = map (written order) (resliced s.active_packets ws) in
    ap (λ l. l ++ packet_headers s.input_packets)
      (map-append (λ (out : ProcessedPacket). header out.payload) s.ready_output new
        ∙ ap (λ l. output_headers s.ready_output ++ l)
            (written_headers order s.active_packets ws h))
    ∙ append_assoc (output_headers s.ready_output) (packet_headers s.active_packets)
        (packet_headers s.input_packets)

-- a new packet comes last
pub append-pending :
    {F : Type 0} (p : KanyPacket) (s : Segmented F)
    → pending (append_input p s) ≡ pending s ++ p.raw_header ∷ []
append-pending p s =
    let ready = output_headers s.ready_output in
    let active = packet_headers s.active_packets in
    let input = packet_headers s.input_packets in
    ap (λ l. ready ++ (active ++ l))
      (map-append (λ (q : KanyPacket). q.raw_header) s.input_packets (p ∷ []))
    ∙ ap (λ l. ready ++ l) (sym (append_assoc active input (p.raw_header ∷ [])))
    ∙ sym (append_assoc ready (active ++ input) (p.raw_header ∷ []))

-- an idle processor's active packets are gone, and the new segment is cut off the input
launch-pending :
    {F : Type 0} (target : ℕ) (s : Segmented F) (order : ByteOrder)
    → Inv order s
    → s.inference_task ≡ none
    → pending (launch target s) ≡ pending s
unfolding launch
launch-pending target s order v idle =
    let t = launch target s in
    let empty : s.active_packets ≡ [] = subst (TaskFits s.active_packets) idle v.task in
    ap (λ l. output_headers s.ready_output ++ l)
      (sym (map-append (λ (q : KanyPacket). q.raw_header) t.active_packets t.input_packets)
        ∙ ap packet_headers (launch-Cuts target s v.counted).0
        ∙ ap (λ l. packet_headers l ++ packet_headers s.input_packets) (sym empty))

pub accept-pending :
    {F : Type 0} (p : KanyPacket) (s : Segmented F)
    → pending (accept_stream_format p s).1 ≡ pending s
accept-pending p s = elim (accept_cases p s) [ inl e ↦ ap pending e | inr (_, e) ↦ rw e refl ]

-- a packet that is yielded was the oldest
pub pop-pending :
    {F : Type 0} (s : Segmented F) {outs : List ProcessedPacket} {t : Segmented F}
    → pop_ready s ≡ (ok outs, t)
    → output_headers outs ++ pending t ≡ pending s
pop-pending s {outs} {t} h = elim (pop_cases s) [
  | inl (_, e) ↦
      let same : s ≡ t = cc (h, e) in
      let none_out : outs ≡ [] = cc (h, e) in rw none_out (ap pending (sym same))
  | inr (out, rest, ready, e) ↦
      let after : record s { ready_output = rest } ≡ t = cc (h, e) in
      let one : outs ≡ out ∷ [] = cc (h, e) in rw (one, ← after, ready) refl
]

module _ (host : Host) (subclass : Subclass) (segment_seconds : host.Float) where
  abbrev pub snd_pending : {A : Type 0} → Result A × Segmented host.Float → List Bytes
  snd_pending r = pending r.1

  pub harvest-pending :
      (s t : Segmented host.Float)
      → Inv host.byteorder s
      → harvest_inference host subclass segment_seconds s ≡ (ok tt, t)
      → pending t ≡ pending s
  harvest-pending s t v h = elim (Harvest-cases host subclass segment_seconds s) [
    | waits _ e ↦ ap snd_pending (sym h ∙ e)
    | delivers ws _ _ e ↦
        ap snd_pending (sym h ∙ e) ∙ delivered-pending host.byteorder ws s v.actives
    | mismatches ws _ _ e ↦ cc (h, e)
    | cancelled _ e ↦ cc (h, e)
    | fails x _ _ e ↦ cc (h, e)
  ]

  launched-pending :
      (s t : Segmented host.Float)
      → Inv host.byteorder s
      → launch_if_ready host subclass segment_seconds s ≡ (ok tt, t)
      → pending t ≡ pending s
  launched-pending s t v h = elim (launch_cases host subclass segment_seconds s) [
    | Launches.waits e ↦ ap snd_pending (sym h ∙ e)
    | Launches.starts target idle _ _ e ↦
        ap snd_pending (sym h ∙ e) ∙ launch-pending target s host.byteorder v idle
    | Launches.fails x _ _ e ↦ cc (h, e)
  ]

  pub accepted-header :
      Lawful host.byteorder subclass
      → (payload : Bytes) (p : KanyPacket) → All IsByte payload
      → subclass.decode_and_validate payload ≡ ok p
      → p.raw_header ≡ header payload
  accepted-header lawful payload p hb d =
      let (hp, whole) = decode-IsPacket host.byteorder payload p hb (lawful.decodes payload p d) in
      sym (take-append_exact 28 p.raw_header _ hp.header_length) ∙ ap header whole

  -- First in, first out: when `process` returns, what it yields, followed by what still waits, is
  -- what waited before, followed by the new datagram's header. Nothing is lost, repeated or reordered.
  pub process-Fifo :
      Lawful host.byteorder subclass
      → (packet : MediaPacket host.Float) (s t : Segmented host.Float) (outs : List ProcessedPacket)
      → All IsByte packet.payload
      → Inv host.byteorder s
      → process host subclass segment_seconds packet s ≡ (ok outs, t)
      → output_headers outs ++ pending t ≡ pending s ++ header packet.payload ∷ []
  process-Fifo lawful packet s t outs hb v h =
      elim (process_cases host subclass segment_seconds packet s) [
        | harvest_raises x u _ e ↦ cc (h, e)
        | rejects u x _ _ e ↦ cc (h, e)
        | format_changes u p x w _ _ _ e ↦ cc (h, e)
        | launch_raises u p w x y _ _ _ _ e ↦ cc (h, e)
        | buffers u p w y hv d a l e ↦
            let vu = harvested-Inv host subclass segment_seconds s hv v in
            let (vw, hp) = accepted-Inv host subclass segment_seconds lawful packet p u hb d a vu in
            let raw = accepted-header lawful packet.payload p hb d in
            pop-pending y (sym e ∙ h)
            ∙ launched-pending (append_input p w) y (append_input-Inv host.byteorder p w hp vw) l
            ∙ append-pending p w
            ∙ ap₂ (λ q x. q ++ x ∷ [])
                (ap snd_pending (sym a) ∙ accept-pending p u ∙ harvest-pending s u v hv) raw
      ]

  -- A `flush` that returns yields the finished packets, the oldest that wait, and keeps the others.
  pub flush-Fifo :
      (s t : Segmented host.Float) (outs : List ProcessedPacket)
      → Inv host.byteorder s
      → flush host subclass segment_seconds s ≡ (ok outs, t)
      → (output_headers outs ++ pending t ≡ pending s) × (t.ready_output ≡ [])
  flush-Fifo s t outs v h = elim (flush_cases host subclass segment_seconds s) [
    | Flush.harvest_raises x u _ e ↦ cc (h, e)
    | Flush.drains u hv e ↦
        let after : record u { ready_output = [] } ≡ t = cc (h, e) in
        let all : outs ≡ u.ready_output = cc (h, e) in
        (rw (all, ← after) (harvest-pending s u v hv), rw (← after) refl)
  ]
