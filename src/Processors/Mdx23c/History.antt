-- ===== src/Processors/Mdx23c/History.antt =====
-- mdx23c_vocals.py: any sequence of calls and of ends of the inference task.
use karaoke_anything.Prelude.{
  ◌≡◌, refl, sym, subst, List, [], ◌∷◌, ◌++◌, map-append, All, All-append,
}
use mathlib.Core.List.{Sublist}
use karaoke_anything.Errors.{Result, ok}
use karaoke_anything.Host.{Host}
use karaoke_anything.Models.{ProcessedPacket}
use karaoke_anything.Kany.{IsWord}
use karaoke_anything.Processors.Segmented.Fifo.{header, output_headers}
use karaoke_anything.Processors.Segmented.Invariant.{IsOutput}
use karaoke_anything.Processors.Segmented.History.{
  Call, processes, flushes, resets, ends, IsSound, yielded, arrived,
}
use karaoke_anything.Processors.Pipeline.{
  Run, stays, clears, contents, Run-trans, Step-Run, Run-InOrder,
}
use karaoke_anything.Processors.Mdx23c.Defs.{Mdx23c, Window, process, flush, reset, complete}
use karaoke_anything.Processors.Mdx23c.Invariant.{Inv, reset-Inv}
use karaoke_anything.Processors.Mdx23c.Methods.{view}
use karaoke_anything.Processors.Mdx23c.Outputs.{Yields}
use karaoke_anything.Processors.Mdx23c.Process.{process-Yields, flush-Yields, complete-Reaches}

module _ (host : Host) (window : Window host.Float) where
  unfoldable pub step :
      Call host.Float → Mdx23c host.Float → Result (List ProcessedPacket) × Mdx23c host.Float
  step (processes packet) s = process host window packet s
  step flushes s = flush host window s
  step resets s = (ok [], reset s)
  step (ends infer_fn elapsed) s = (ok [], complete host infer_fn elapsed s)

  -- The caller catches what a call raises and goes on with the processor as it was left.
  unfoldable pub run_calls :
      List (Call host.Float) → Mdx23c host.Float → List ProcessedPacket × Mdx23c host.Float
  run_calls [] s = ([], s)
  run_calls (c ∷ cs) s =
      let (r, t) = step c s in let (outs, u) = run_calls cs t in (yielded r ++ outs, u)

  module _ (stores : (x : host.Float) → IsWord (host.store x)) where
    step-Yields :
        (c : Call host.Float) (s : Mdx23c host.Float)
        → IsSound c
        → Inv host.byteorder s
        → Yields host (arrived (c ∷ [])) s (step c s)
    unfolding step reset
    step-Yields (processes packet) s h v = process-Yields host window stores packet s h v
    step-Yields flushes s h v = flush-Yields host window stores s v
    step-Yields resets s h v = ((reset-Inv host.byteorder s, Step-Run (clears refl refl refl)), tt)
    step-Yields (ends infer_fn elapsed) s h v = (complete-Reaches host infer_fn elapsed h s v, tt)

    arrived-cons :
        (c : Call host.Float) (cs : List (Call host.Float))
        → arrived (c ∷ []) ++ arrived cs ≡ arrived (c ∷ cs)
    arrived-cons (processes packet) cs = refl
    arrived-cons _ cs = refl

    -- Any calls, in any order, whatever they raise and whenever the inference tasks end, are steps of
    -- the pipeline that take in the headers of the datagrams and send out those of the packets yielded.
    pub run_calls-Run :
        (cs : List (Call host.Float)) (s : Mdx23c host.Float)
        → All IsSound cs
        → Inv host.byteorder s
        → Run (view s) (arrived cs) (output_headers (run_calls cs s).0) (view (run_calls cs s).1)
    unfolding run_calls
    run_calls-Run [] s h v = stays
    run_calls-Run (c ∷ cs) s h v =
        let t = (step c s).1 in
        let ((w, first), _) = step-Yields c s h.0 v in
        let joined : output_headers (yielded (step c s).0 ++ (run_calls cs t).0)
            ≡ output_headers (yielded (step c s).0) ++ output_headers (run_calls cs t).0 =
          map-append (λ (out : ProcessedPacket). header out.payload) (yielded (step c s).0)
            (run_calls cs t).0 in
        subst (λ l. Run (view s) (arrived (c ∷ cs)) l (view (run_calls cs t).1)) (sym joined)
          (subst
            (λ l.
              Run (view s) l
                (output_headers (yielded (step c s).0) ++ output_headers (run_calls cs t).0)
                (view (run_calls cs t).1))
            (arrived-cons c cs) (Run-trans first (run_calls-Run cs t h.1 w)))

    -- After any calls, whatever they raise: the frame count is that of the buffered packets, a running
    -- task works on the active packets, the tail consists of float32 items, and every packet that was
    -- yielded is accepted by `decode`.
    pub run_calls-Inv :
        (cs : List (Call host.Float)) (s : Mdx23c host.Float)
        → All IsSound cs
        → Inv host.byteorder s
        → Inv host.byteorder (run_calls cs s).1 × All (IsOutput host.byteorder) (run_calls cs s).0
    unfolding run_calls
    run_calls-Inv [] s h v = (v, tt)
    run_calls-Inv (c ∷ cs) s h v =
        let ((w, _), outs) = step-Yields c s h.0 v in
        let (z, more) = run_calls-Inv cs (step c s).1 h.1 w in
        (
          z,
          All-append (IsOutput host.byteorder) (yielded (step c s).0) (run_calls cs (step c s).1).0
              outs more,
        )

    -- Over any calls, whatever they raise: the headers of the packets yielded, followed by those that
    -- the processor still holds, are headers that it held at first and then those of the datagrams that
    -- arrived, in this order, with some left out: none is repeated and none overtakes another.
    pub run_calls-InOrder :
        (cs : List (Call host.Float)) (s : Mdx23c host.Float)
        → All IsSound cs
        → Inv host.byteorder s
        → Sublist
            (output_headers (run_calls cs s).0 ++ contents (view (run_calls cs s).1))
            (contents (view s) ++ arrived cs)
    run_calls-InOrder cs s h v = Run-InOrder (run_calls-Run cs s h v)
