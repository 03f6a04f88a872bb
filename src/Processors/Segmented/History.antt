-- ===== src/Processors/Segmented/History.antt =====
-- segmented_inference.py: any sequence of calls and of ends of the inference task.
use karaoke_anything.Prelude.{
  ℕ, ◌≡◌, refl, sym, ap, ◌∙◌, Option, none, some, List, [], ◌∷◌, ◌++◌, append_assoc, append-nil,
  map-append, All, All-append,
}
use karaoke_anything.Errors.{Result, ok, err}
use karaoke_anything.Host.{Host}
use karaoke_anything.Models.{MediaPacket, ProcessedPacket}
use karaoke_anything.Kany.{Bytes, IsByte}
use karaoke_anything.Processors.Segmented.Defs.{
  Segmented, Subclass, Task, running, finished, reset, process, flush, complete,
}
use karaoke_anything.Processors.Segmented.Invariant.{Lawful, IsOutput, Inv, reset-Inv}
use karaoke_anything.Processors.Segmented.Methods.{Keeps, process-Keeps, flush-Keeps}
use karaoke_anything.Processors.Segmented.Complete.{ReturnsWords, complete-Inv, infer_lem}
use karaoke_anything.Processors.Segmented.Fifo.{
  pending, output_headers, header, process-Fifo, flush-Fifo,
}

-- What may happen to a processor: the service calls a method, or the inference task ends.
pub data Call (F : Type 0) : Type 0 where
  processes : MediaPacket F → Call F
  flushes resets : Call F
  ends : (List ℕ → ℕ → ℕ → Result (List ℕ)) → F → Call F

-- a datagram consists of bytes, and inference returns float32 items
abbrev pub IsSound : {F : Type 0} → Call F → Type 0
IsSound (processes packet) = All IsByte packet.payload
IsSound flushes = Unit
IsSound resets = Unit
IsSound (ends run elapsed) = ReturnsWords run

abbrev pub yielded : Result (List ProcessedPacket) → List ProcessedPacket
yielded (ok outs) = outs
yielded (err e) = []

-- the headers of the datagrams that arrived
abbrev pub arrived : {F : Type 0} → List (Call F) → List Bytes
arrived [] = []
arrived (processes packet ∷ cs) = header packet.payload ∷ arrived cs
arrived (c ∷ cs) = arrived cs

module _ (host : Host) (subclass : Subclass) (segment_seconds : host.Float) where
  unfoldable pub step :
      Call host.Float → Segmented host.Float → Result (List ProcessedPacket) × Segmented host.Float
  step (processes packet) s = process host subclass segment_seconds packet s
  step flushes s = flush host subclass segment_seconds s
  step resets s = (ok [], reset s)
  step (ends run elapsed) s = (ok [], complete host run elapsed s)

  -- The caller catches what a call raises and goes on with the processor as it was left.
  unfoldable pub run :
      List (Call host.Float) → Segmented host.Float → List ProcessedPacket × Segmented host.Float
  run [] s = ([], s)
  run (c ∷ cs) s = let (r, t) = step c s in let (outs, u) = run cs t in (yielded r ++ outs, u)

  pub yielded-IsOutput :
      (z : Result (List ProcessedPacket) × Segmented host.Float)
      → Keeps host subclass segment_seconds z
      → Inv host.byteorder z.1 × All (IsOutput host.byteorder) (yielded z.0)
  yielded-IsOutput (ok outs, s) h = h
  yielded-IsOutput (err e, s) h = (h.0, tt)

  module _ (lawful : Lawful host.byteorder subclass) where
    pub step-Keeps :
        (c : Call host.Float) (s : Segmented host.Float)
        → IsSound c
        → Inv host.byteorder s
        → Inv host.byteorder (step c s).1 × All (IsOutput host.byteorder) (yielded (step c s).0)
    unfolding step
    step-Keeps (processes packet) s h v =
        yielded-IsOutput (process host subclass segment_seconds packet s)
          (process-Keeps host subclass segment_seconds lawful packet s h v)
    step-Keeps flushes s h v =
        yielded-IsOutput (flush host subclass segment_seconds s)
          (flush-Keeps host subclass segment_seconds s v)
    step-Keeps resets s h v = (reset-Inv host.byteorder s, tt)
    step-Keeps (ends run elapsed) s h v = (complete-Inv host run elapsed h s v, tt)

    -- After any calls, in any order, whatever they raise and whenever the inference tasks end: the
    -- frame count is that of the buffered packets, a running task works on the active packets, and
    -- every packet that was yielded is accepted by `decode`.
    pub run-Inv :
        (cs : List (Call host.Float)) (s : Segmented host.Float)
        → All IsSound cs
        → Inv host.byteorder s
        → Inv host.byteorder (run cs s).1 × All (IsOutput host.byteorder) (run cs s).0
    unfolding run
    run-Inv [] s h v = (v, tt)
    run-Inv (c ∷ cs) s h v =
        let (w, outs) = step-Keeps c s h.0 v in
        let (z, more) = run-Inv cs (step c s).1 h.1 w in
        (
          z,
          All-append (IsOutput host.byteorder) (yielded (step c s).0) (run cs (step c s).1).0 outs
              more,
        )

  -- no call raises, and the processor is not reset
  abbrev pub Returns : Call host.Float → Result (List ProcessedPacket) → Type 0
  Returns resets r = ⊥
  Returns c (ok outs) = Unit
  Returns c (err e) = ⊥

  abbrev pub AllReturn : List (Call host.Float) → Segmented host.Float → Type 0
  AllReturn [] s = Unit
  AllReturn (c ∷ cs) s = Returns c (step c s).0 × AllReturn cs (step c s).1

  complete-pending :
      (infer_fn : List ℕ → ℕ → ℕ → Result (List ℕ)) (elapsed : host.Float)
      (s : Segmented host.Float)
      → ReturnsWords infer_fn
      → pending (complete host infer_fn elapsed s) ≡ pending s
  unfolding complete
  complete-pending infer_fn elapsed s words = by_task s.inference_task refl
    where
      by_task :
          (t : Option Task)
          → s.inference_task ≡ t
          → pending (complete host infer_fn elapsed s) ≡ pending s
      by_task none e = simp (e, complete)
      by_task (some (finished r)) e = simp (e, complete)
      by_task (some (running job)) e =
          rw (e, complete) (ap pending (infer_lem host infer_fn elapsed words job s).0)

  module _ (lawful : Lawful host.byteorder subclass) where
    step-Fifo :
        (c : Call host.Float) (s : Segmented host.Float)
        → IsSound c
        → Inv host.byteorder s
        → Returns c (step c s).0
        → output_headers (yielded (step c s).0) ++ pending (step c s).1
          ≡ pending s ++ arrived (c ∷ [])
    unfolding step
    step-Fifo (processes packet) s h v good =
        by_result (process host subclass segment_seconds packet s) refl good
      where
        by_result :
            (z : Result (List ProcessedPacket) × Segmented host.Float)
            → process host subclass segment_seconds packet s ≡ z
            → Returns (processes packet) z.0
            → output_headers (yielded z.0) ++ pending z.1 ≡ pending s ++ header packet.payload ∷ []
        by_result (ok outs, t) e g =
            process-Fifo host subclass segment_seconds lawful packet s t outs h v e
        by_result (err x, t) e g = absurd g
    step-Fifo flushes s h v good = by_result (flush host subclass segment_seconds s) refl good
      where
        by_result :
            (z : Result (List ProcessedPacket) × Segmented host.Float)
            → flush host subclass segment_seconds s ≡ z
            → Returns flushes z.0
            → output_headers (yielded z.0) ++ pending z.1 ≡ pending s ++ []
        by_result (ok outs, t) e g =
            (flush-Fifo host subclass segment_seconds s t outs v e).0 ∙ sym (append-nil (pending s))
        by_result (err x, t) e g = absurd g
    step-Fifo resets s h v good = absurd good
    step-Fifo (ends infer_fn elapsed) s h v good =
        complete-pending infer_fn elapsed s h ∙ sym (append-nil (pending s))

    pub arrived-cons :
        (c : Call host.Float) (cs : List (Call host.Float))
        → arrived (c ∷ []) ++ arrived cs ≡ arrived (c ∷ cs)
    arrived-cons (processes packet) cs = refl
    arrived-cons _ cs = refl

    -- Over any calls that all return, with no reset among them: the headers of the packets yielded,
    -- followed by those of the packets that still wait, are the headers of the packets that waited at
    -- first, followed by those of the datagrams that arrived, in order.
    pub run-Fifo :
        (cs : List (Call host.Float)) (s : Segmented host.Float)
        → All IsSound cs
        → Inv host.byteorder s
        → AllReturn cs s
        → output_headers (run cs s).0 ++ pending (run cs s).1 ≡ pending s ++ arrived cs
    unfolding run
    run-Fifo [] s h v good = sym (append-nil (pending s))
    run-Fifo (c ∷ cs) s h v good =
        let t = (step c s).1 in
        let now = output_headers (yielded (step c s).0) in
        let later = output_headers (run cs t).0 in
        let w = (step-Keeps lawful c s h.0 v).0 in
        ap (λ l. l ++ pending (run cs t).1)
          (map-append (λ (out : ProcessedPacket). header out.payload) (yielded (step c s).0)
            (run cs t).0)
        ∙ append_assoc now later (pending (run cs t).1)
        ∙ ap (λ l. now ++ l) (run-Fifo cs t h.1 w good.1)
        ∙ sym (append_assoc now (pending t) (arrived cs))
        ∙ ap (λ l. l ++ arrived cs) (step-Fifo c s h.0 v good.0)
        ∙ append_assoc (pending s) (arrived (c ∷ [])) (arrived cs)
        ∙ ap (λ l. pending s ++ l) (arrived-cons c cs)
