-- ===== src/Processors/Mdx23c/Outputs.antt =====
-- mdx23c_vocals.py: `_harvest_inference` and the output keep the invariant, as steps
-- of the pipeline.
use karaoke_anything.Prelude.{
  ℕ, ◌+◌, ◌≡◌, refl, sym, ap, ◌∙◌, subst, inl, inr, ◌⊎◌, Option, some, List, [], ◌∷◌, ◌++◌,
  append-nil, length, All, All-append, Option-cases, List-cases,
}
use karaoke_anything.Errors.{Exception, Result, ok}
use karaoke_anything.Host.{Host}
use karaoke_anything.Models.{ProcessedPacket}
use karaoke_anything.Kany.{Bytes, IsWord, KanyPacket}
use karaoke_anything.Processors.Segmented.{finished}
use karaoke_anything.Processors.Segmented.Fifo.{output_headers}
use karaoke_anything.Processors.Segmented.Invariant.{IsOutput, written-IsOutput}
use karaoke_anything.Processors.Pipeline.{stays, finishes, loses, emits, Step-Run}
use karaoke_anything.Processors.Pipeline.Held.{in_task, output_headers-written}
use karaoke_anything.Processors.Mdx23c.Defs.{
  Mdx23c, Window, pop_or_count, pop_all, harvest_inference, expected_samples,
}
use karaoke_anything.Processors.Mdx23c.Crossfade.{Crossfaded, crossfaded}
use karaoke_anything.Processors.Mdx23c.Faded.{crossfaded-eq_ok, crossfaded-IsWord}
use karaoke_anything.Processors.Mdx23c.Harvest.{
  IsStereo, expected-stereo, delivered, abandoned, waits, delivers, raises, Harvest-cases,
}
use karaoke_anything.Processors.Mdx23c.Invariant.{TaskFits, Inv, stereo-IsPacket}
use karaoke_anything.Processors.Segmented.History.{yielded}
use karaoke_anything.Processors.Mdx23c.Methods.{view, Reaches, Leaves}

module _ (host : Host) (window : Window host.Float) where
  delivered-Reaches :
      ((x : host.Float) → IsWord (host.store x))
      → (ws : List ℕ) (c : Crossfaded) (s : Mdx23c host.Float)
      → s.inference_task ≡ some (finished (ok ws))
      → length ws ≡ expected_samples s.active_packets
      → crossfaded host window.overlap ws s.previous_tail ≡ ok c
      → Inv host.byteorder s
      → Reaches host [] [] s (delivered host.byteorder c s)
  delivered-Reaches stores ws c s t fits x v =
      let words : All IsWord ws = subst (TaskFits s.active_packets) t v.task in
      let (fine, tail) =
        crossfaded-IsWord host stores window.overlap ws s.previous_tail c x words in
      let (_, _, (kept, _)) = crossfaded-eq_ok host window.overlap ws s.previous_tail c x in
      let packets = stereo-IsPacket s.active_packets v.actives in
      (
        record {
          counted = v.counted;
          inputs = v.inputs;
          actives = tt;
          outputs = All-append (IsOutput host.byteorder) s.ready_output _ v.outputs (
              written-IsOutput host.byteorder s.active_packets c.output packets fine
                (kept ∙ fits ∙ expected-stereo s.active_packets v.actives));
          task = tt;
          tail = tail;
        },
        Step-Run (
            finishes refl refl (
              ap (λ l. record (view s) { done = l; busy = [] })
                (output_headers-written host.byteorder s.ready_output s.active_packets c.output
                    packets
                  ∙ ap (λ task. output_headers s.ready_output ++ in_task task s.active_packets)
                      (sym t)))),
      )

  abandoned-Reaches :
      (active : List KanyPacket) (error : Option Exception) (s : Mdx23c host.Float)
      → (active ≡ []) ⊎ (active ≡ s.active_packets)
      → Inv host.byteorder s
      → Reaches host [] [] s (abandoned active error s)
  abandoned-Reaches active error s either v = (
    record {
      counted = v.counted;
      inputs = v.inputs;
      actives = fine either;
      outputs = v.outputs;
      task = tt;
      tail = v.tail;
    },
    Step-Run (loses refl refl refl),
  )
    where
      fine : (active ≡ []) ⊎ (active ≡ s.active_packets) → All IsStereo active
      fine (inl e) = rw e tt
      fine (inr e) = rw e v.actives

  pub harvest-Leaves :
      ((x : host.Float) → IsWord (host.store x))
      → (s : Mdx23c host.Float) → Inv host.byteorder s
      → Leaves host [] s (harvest_inference host window s)
  harvest-Leaves stores s v = elim (Harvest-cases host window s v.actives) [
    | waits _ e ↦ rw e (v, stays)
    | delivers ws c t fits x e ↦
        subst (Leaves host [] s) (sym e) (delivered-Reaches stores ws c s t fits x v)
    | raises result x active error t either e ↦
        subst (Leaves host [] s) (sym e) (abandoned-Reaches active error s either v)
  ]

module _ (host : Host) where
  -- A call leaves a state that is reached with what it yields, which a receiver accepts.
  abbrev pub Yields :
      List Bytes → Mdx23c host.Float → Result (List ProcessedPacket) × Mdx23c host.Float → Type 0
  Yields ins s (r, t) =
      Reaches host ins (output_headers (yielded r)) s t × All (IsOutput host.byteorder) (yielded r)

  pub pop-Yields : (s : Mdx23c host.Float) → Inv host.byteorder s → Yields [] s (pop_or_count s)
  unfolding pop_or_count
  pop-Yields s v = elim (List-cases s.ready_output) [
    | inr (out, rest, e) ↦
        let popped : pop_or_count s ≡ (ok (out ∷ []), record s { ready_output = rest }) =
          simp (e, pop_or_count) in
        let outs = subst (All (IsOutput host.byteorder)) e v.outputs in
        subst (Yields [] s) (sym popped) (
          (
            record {
              counted = v.counted;
              inputs = v.inputs;
              actives = v.actives;
              outputs = outs.1;
              task = v.task;
              tail = v.tail;
            },
            Step-Run (emits (output_headers rest) (ap output_headers e) refl refl),
          ),
          (outs.0, tt),
        )
    | inl e ↦ elim (Option-cases s.inference_task) [
      | inl t ↦
          let same : pop_or_count s ≡ (ok [], s) = simp (e, pop_or_count, t) in
          subst (Yields [] s) (sym same) ((v, stays), tt)
      | inr (task, t) ↦
          let counted : pop_or_count s ≡ (ok [], record s { underruns = s.underruns + 1 }) =
            simp (e, pop_or_count, t) in
          subst (Yields [] s) (sym counted) (
            (
              record {
                counted = v.counted;
                inputs = v.inputs;
                actives = v.actives;
                outputs = v.outputs;
                task = v.task;
                tail = v.tail;
              },
              stays,
            ),
            tt,
          )
    ]
  ]

  pub pop_all-Yields : (s : Mdx23c host.Float) → Inv host.byteorder s → Yields [] s (pop_all s)
  unfolding pop_all
  pop_all-Yields s v = (
    (
      record {
        counted = v.counted;
        inputs = v.inputs;
        actives = v.actives;
        outputs = tt;
        task = v.task;
        tail = v.tail;
      },
      Step-Run (emits [] (sym (append-nil (output_headers s.ready_output))) refl refl),
    ),
    v.outputs,
  )
