-- ===== src/Processors/Segmented/Refines.antt =====
-- segmented_inference.py: the processor as a pipeline, whatever its calls raise.
use karaoke_anything.Prelude.{
  ℕ, ◌≡◌, refl, sym, ap, ◌∙◌, subst, inl, inr, Option, none, some, List, [], ◌∷◌, ◌++◌, append-nil,
  map-append, All,
}
use karaoke_anything.Errors.{Result, ok}
use karaoke_anything.Host.{Host}
use karaoke_anything.Models.{MediaPacket, ProcessedPacket}
use karaoke_anything.Kany.{Bytes, IsByte, KanyPacket}
use karaoke_anything.Processors.Pipeline.{
  Pipeline, Run, stays, goes, accepts, refuses, starts, finishes, loses, emits, clears, Run-trans,
  Step-Run,
}
use karaoke_anything.Processors.Pipeline.Held.{
  in_task, held, output_headers-written, packet_headers-append,
}
use karaoke_anything.Processors.Segmented.Defs.{
  Segmented, Subclass, Task, running, finished, accept_stream_format, append_input, launch,
  pop_ready, reset, harvest_inference, launch_if_ready, process, flush, infer, complete,
}
use karaoke_anything.Processors.Segmented.Launch.{launch-Cuts}
use karaoke_anything.Processors.Segmented.Harvest.{
  waits, delivers, mismatches, cancelled, fails, Harvest-cases, delivered, abandoned,
}
use karaoke_anything.Processors.Segmented.Ready.{Launches, launch_cases}
use karaoke_anything.Processors.Segmented.Process.{
  harvest_raises, rejects, format_changes, launch_raises, buffers, process_cases, Flush,
  flush_cases, pop_cases,
}
use karaoke_anything.Processors.Segmented.Invariant.{Lawful, Inv, append_input-Inv}
use karaoke_anything.Processors.Segmented.Methods.{accept_cases, accepted-Inv, harvested-Inv}
use karaoke_anything.Processors.Segmented.Complete.{ReturnsWords, infer_lem}
use karaoke_anything.Processors.Segmented.Fifo.{
  header, output_headers, packet_headers, accepted-header,
}
use karaoke_anything.Processors.Segmented.History.{
  Call, processes, flushes, resets, ends, IsSound, yielded, arrived, step, run, step-Keeps,
  arrived-cons,
}

abbrev pub view : {F : Type 0} → Segmented F → Pipeline
view s = held s.ready_output s.inference_task s.active_packets s.input_packets

module _ (host : Host) (subclass : Subclass) (segment_seconds : host.Float) where
  abbrev Moves : List Bytes → List Bytes → Segmented host.Float → Segmented host.Float → Type 0
  Moves ins outs s t = Run (view s) ins outs (view t)

  -- the state behind a call, from an equation for the call
  moved :
      {A : Type 0} {ins outs : List Bytes} (s t u : Segmented host.Float) {x y : Result A}
      (r : Result A × Segmented host.Float)
      → r ≡ (x, t)
      → r ≡ (y, u)
      → Moves ins outs s u
      → Moves ins outs s t
  moved {A} {ins} {outs} s t u r h e m =
      subst (λ (z : Result A × Segmented host.Float). Moves ins outs s z.1) (sym e ∙ h) m

  harvest-Moves :
      (s t : Segmented host.Float) {x : Result (Unit {0})}
      → Inv host.byteorder s
      → harvest_inference host subclass segment_seconds s ≡ (x, t)
      → Moves [] [] s t
  harvest-Moves s t v h = elim (Harvest-cases host subclass segment_seconds s) [
    | waits _ e ↦ moved s t s _ h e stays
    | delivers ws task fits e ↦ moved s t (delivered host.byteorder ws s) _ h e (
        Step-Run (
          finishes refl refl (
            ap (λ l. record (view s) { done = l; busy = [] })
              (output_headers-written host.byteorder s.ready_output s.active_packets ws v.actives
                ∙ ap (λ z. output_headers s.ready_output ++ in_task z s.active_packets)
                    (sym task)))))
    | mismatches ws _ _ e ↦ moved s t (abandoned s) _ h e (Step-Run (loses refl refl refl))
    | cancelled _ e ↦ moved s t (abandoned s) _ h e (Step-Run (loses refl refl refl))
    | fails x _ _ e ↦
        moved s t (record (abandoned s) { last_error = some x }) _ h e
          (Step-Run (loses refl refl refl))
  ]

  accept-Moves :
      (p : KanyPacket) (s t : Segmented host.Float) {x : Result (Unit {0})}
      → accept_stream_format p s ≡ (x, t)
      → Moves [] [] s t
  accept-Moves p s t {x} h =
      subst (λ (z : Result (Unit {0}) × Segmented host.Float). Moves [] [] s z.1) h
        (elim (accept_cases p s) [
          | inl e ↦ subst (Moves [] [] s) (sym e) stays
          | inr (_, e) ↦
              subst (λ (z : Result (Unit {0}) × Segmented host.Float). Moves [] [] s z.1) (sym e)
                stays
        ])

  append-Moves :
      (p : KanyPacket) (s : Segmented host.Float)
      → Moves (p.raw_header ∷ []) [] s (append_input p s)
  append-Moves p s = Step-Run (
      accepts p.raw_header refl refl (
        ap (λ l. record (view s) { waiting = l }) (packet_headers-append s.input_packets (p ∷ []))))

  launch-Moves :
      (s t : Segmented host.Float) {x : Result (Unit {0})}
      → Inv host.byteorder s
      → launch_if_ready host subclass segment_seconds s ≡ (x, t)
      → Moves [] [] s t
  unfolding launch
  launch-Moves s t v h = elim (launch_cases host subclass segment_seconds s) [
    | Launches.waits e ↦ moved s t s _ h e stays
    | Launches.fails x _ _ e ↦ moved s t s _ h e stays
    | Launches.starts target idle _ _ e ↦
        let u = launch target s in
        moved s t u _ h e (
          Step-Run (
            starts (packet_headers u.active_packets) (packet_headers u.input_packets)
              (ap (λ z. in_task z s.active_packets) idle)
              (ap packet_headers (sym (launch-Cuts target s v.counted).0)
                ∙ packet_headers-append u.active_packets u.input_packets)
              refl refl refl))
  ]

  pop-Moves :
      (s : Segmented host.Float)
      → Moves [] (output_headers (yielded (pop_ready s).0)) s (pop_ready s).1
  unfolding pop_ready
  pop-Moves s = elim (pop_cases s) [
    | inl (_, e) ↦ rw e stays
    | inr (out, rest, ready, e) ↦
        rw e (Step-Run (emits (output_headers rest) (ap output_headers ready) refl refl))
  ]

  module _ (lawful : Lawful host.byteorder subclass) where
    collected-Moves :
        (packet : MediaPacket host.Float) (s t : Segmented host.Float) (p : KanyPacket)
        (u w : Segmented host.Float) {x : Result (Unit {0})}
        → All IsByte packet.payload
        → Inv host.byteorder s
        → harvest_inference host subclass segment_seconds s ≡ (ok tt, t)
        → subclass.decode_and_validate packet.payload ≡ ok p
        → accept_stream_format p t ≡ (ok tt, u)
        → launch_if_ready host subclass segment_seconds (append_input p u) ≡ (x, w)
        → Moves (header packet.payload ∷ []) [] s w
    collected-Moves packet s t p u w hb v h d a l =
        let vt = harvested-Inv host subclass segment_seconds s h v in
        let (vu, hp) = accepted-Inv host subclass segment_seconds lawful packet p t hb d a vt in
        let raw = accepted-header host subclass segment_seconds lawful packet.payload p hb d in
        Run-trans (harvest-Moves s t v h) (
          Run-trans (accept-Moves p t u a) (
            Run-trans (subst (λ l. Moves (l ∷ []) [] u (append_input p u)) raw (append-Moves p u))
              (launch-Moves (append_input p u) w (append_input-Inv host.byteorder p u hp vu) l)))

    pub process-Moves :
        (packet : MediaPacket host.Float) (s : Segmented host.Float)
        → All IsByte packet.payload
        → Inv host.byteorder s
        → let (r, t) = process host subclass segment_seconds packet s in
          Moves (header packet.payload ∷ []) (output_headers (yielded r)) s t
    process-Moves packet s hb v = elim (process_cases host subclass segment_seconds packet s) [
      | harvest_raises x t h e ↦
          rw e (goes (harvest-Moves s t v h) (refuses (header packet.payload) refl refl refl))
      | rejects t x h d e ↦
          rw e (goes (harvest-Moves s t v h) (refuses (header packet.payload) refl refl refl))
      | format_changes t p x u h d a e ↦ rw e (
          goes (Run-trans (harvest-Moves s t v h) (accept-Moves p t u a))
            (refuses (header packet.payload) refl refl refl))
      | launch_raises t p u x w h d a l e ↦ rw e (collected-Moves packet s t p u w hb v h d a l)
      | buffers t p u w h d a l e ↦
          rw e (Run-trans (collected-Moves packet s t p u w hb v h d a l) (pop-Moves w))
    ]

  pub flush-Moves :
      (s : Segmented host.Float)
      → Inv host.byteorder s
      → let (r, t) = flush host subclass segment_seconds s in
        Moves [] (output_headers (yielded r)) s t
  flush-Moves s v = elim (flush_cases host subclass segment_seconds s) [
    | Flush.harvest_raises x t h e ↦ rw e (harvest-Moves s t v h)
    | Flush.drains t h e ↦ rw e (
        goes (harvest-Moves s t v h)
          (emits [] (sym (append-nil (output_headers t.ready_output))) refl refl))
  ]

  complete-Moves :
      (infer_fn : List ℕ → ℕ → ℕ → Result (List ℕ)) (elapsed : host.Float)
      (s : Segmented host.Float)
      → ReturnsWords infer_fn
      → Moves [] [] s (complete host infer_fn elapsed s)
  unfolding complete
  complete-Moves infer_fn elapsed s words = by_task s.inference_task refl
    where
      by_task :
          (t : Option Task)
          → s.inference_task ≡ t
          → Moves [] [] s (complete host infer_fn elapsed s)
      by_task none e =
          let same : complete host infer_fn elapsed s ≡ s = simp (e, complete) in
          subst (Moves [] [] s) (sym same) stays
      by_task (some (finished r)) e =
          let same : complete host infer_fn elapsed s ≡ s = simp (e, complete) in
          subst (Moves [] [] s) (sym same) stays
      by_task (some (running job)) e =
          let (r, t) = infer host infer_fn elapsed job s in
          let after : complete host infer_fn elapsed s
              ≡ record t { inference_task = some (finished r) } =
            simp (e, complete) in
          let (same, _) = infer_lem host infer_fn elapsed words job s in
          let still = λ (u : Segmented host.Float).
            Moves [] [] s (record u { inference_task = some (finished r) }) in
          subst (Moves [] [] s) (sym after) (
            subst still (sym same) (
              subst
                (λ z. Run (view s) [] [] (record (view s) { busy = in_task z s.active_packets })) e
                stays))

  module _ (lawful : Lawful host.byteorder subclass) where
    step-Moves :
        (c : Call host.Float) (s : Segmented host.Float)
        → IsSound c
        → Inv host.byteorder s
        → let (r, t) = step host subclass segment_seconds c s in
          Moves (arrived (c ∷ [])) (output_headers (yielded r)) s t
    unfolding step reset
    step-Moves (processes packet) s h v = process-Moves lawful packet s h v
    step-Moves flushes s h v = flush-Moves s v
    step-Moves resets s h v = Step-Run (clears refl refl refl)
    step-Moves (ends infer_fn elapsed) s h v = complete-Moves infer_fn elapsed s h

    -- Any calls, in any order, whatever they raise, resets among them, are steps of the pipeline that
    -- take in the headers of the datagrams and send out those of the packets yielded.
    pub run-Run :
        (cs : List (Call host.Float)) (s : Segmented host.Float)
        → All IsSound cs
        → Inv host.byteorder s
        → let (outs, t) = run host subclass segment_seconds cs s in
          Run (view s) (arrived cs) (output_headers outs) (view t)
    unfolding run
    run-Run [] s h v = stays
    run-Run (c ∷ cs) s h v =
        let (r, t) = step host subclass segment_seconds c s in
        let (outs, u) = run host subclass segment_seconds cs t in
        let w = (step-Keeps host subclass segment_seconds lawful c s h.0 v).0 in
        let joined = map-append (λ (out : ProcessedPacket). header out.payload) (yielded r) outs in
        subst (λ l. Moves (arrived (c ∷ cs)) l s u) (sym joined)
          (subst (λ l. Moves l (output_headers (yielded r) ++ output_headers outs) s u)
            (arrived-cons host subclass segment_seconds lawful c cs)
            (Run-trans (step-Moves c s h.0 v) (run-Run cs t h.1 w)))
