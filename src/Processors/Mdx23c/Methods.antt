-- ===== src/Processors/Mdx23c/Methods.antt =====
-- mdx23c_vocals.py: each method keeps the invariant, and is steps of the pipeline.
use karaoke_anything.Prelude.{
  ℕ, ◌≡◌, refl, sym, ap, ◌∙◌, subst, inl, inr, Bool-cases, not, ◌||◌, ◌==◌, leb, none, List, [],
  ◌∷◌, ◌++◌, All, All-left, All-right, Option-cases,
}
use karaoke_anything.Prelude.Int.{ℤ}
use karaoke_anything.Prelude.Exec.{continue}
use karaoke_anything.Errors.{Result, ok, err, Result-cases}
use karaoke_anything.Host.{Host}
use karaoke_anything.Kany.{Bytes, KanyPacket}
use karaoke_anything.Processors.Segmented.{differs}
use karaoke_anything.Processors.Segmented.Launch.{split_loop-Cuts}
use karaoke_anything.Processors.Segmented.Fifo.{packet_headers}
use karaoke_anything.Processors.Pipeline.{
  Pipeline, Run, stays, goes, accepts, drops, starts, clears, Run-trans, Step-Run,
}
use karaoke_anything.Processors.Pipeline.Held.{held, packet_headers-append}
use karaoke_anything.Processors.Mdx23c.Defs.{
  Mdx23c, Window, track_stream_format, append_input, trim, buffer_packet, launch, launch_at,
  target_segment_frames, launch_if_ready, reset,
}
use karaoke_anything.Processors.Mdx23c.Trim.{maximum_frames, trimmed}
use karaoke_anything.Processors.Mdx23c.Harvest.{IsStereo}
use karaoke_anything.Processors.Mdx23c.Invariant.{Inv, reset-Inv, append_input-Inv}

abbrev pub view : {F : Type 0} → Mdx23c F → Pipeline
view s = held s.ready_output s.inference_task s.active_packets s.input_packets

module _ (host : Host) where
  -- from `s`, the state `t` is reached by steps of the pipeline, and keeps the invariant
  abbrev pub Reaches : List Bytes → List Bytes → Mdx23c host.Float → Mdx23c host.Float → Type 0
  Reaches ins outs s t = Inv host.byteorder t × Run (view s) ins outs (view t)

  pub Reaches-trans :
      {ins outs more_ins more_outs : List Bytes} (s t u : Mdx23c host.Float)
      → Reaches ins outs s t
      → (Inv host.byteorder t → Reaches more_ins more_outs t u)
      → Reaches (ins ++ more_ins) (outs ++ more_outs) s u
  Reaches-trans s t u (v, first) next = let (w, then_run) = next v in (w, Run-trans first then_run)

  -- a call leaves such a state
  abbrev pub Leaves {ℓ} :
      {A : Type ℓ} → List Bytes → Mdx23c host.Float → Result A × Mdx23c host.Float → Type 0
  Leaves ins s r = Reaches ins [] s r.1

  pub Leaves-same :
      (s : Mdx23c host.Float) (r : Result (Unit {0}) × Mdx23c host.Float) (x : Result (Unit {0}))
      → r ≡ (x, s)
      → Inv host.byteorder s
      → Leaves [] s r
  Leaves-same s r x e v = rw e (v, stays)

  pub track-Leaves :
      (p : KanyPacket) (s : Mdx23c host.Float)
      → Inv host.byteorder s
      → Leaves [] s (track_stream_format p s)
  unfolding track_stream_format reset
  track-Leaves p s v = elim (Option-cases s.stream_sample_rate) [
    | inl e ↦
        rw (e, track_stream_format)
          (
            record {
              counted = v.counted;
              inputs = v.inputs;
              actives = v.actives;
              outputs = v.outputs;
              task = v.task;
              tail = v.tail;
            },
            stays,
          )
    | inr (rate, e) ↦
        elim (Bool-cases (not (p.sample_rate == rate) || differs p.channels s.stream_channels)) [
          | inl other ↦
              rw (e, track_stream_format, other)
                (reset-Inv host.byteorder s, Step-Run (clears refl refl refl))
          | inr same ↦ rw (e, track_stream_format, same) (v, stays)
        ]
  ]

  trim-Reaches :
      (window : Window host.Float) (z : ℤ) (p : KanyPacket) (s : Mdx23c host.Float)
      → IsStereo p
      → Inv host.byteorder s
      → Reaches (p.raw_header ∷ []) [] s (trim z (append_input p s))
  unfolding trim
  trim-Reaches window z p s hp v =
      let t = trim z (append_input p s) in
      let k = trimmed host window p s z v.counted in
      let all : All IsStereo (k.gone ++ t.input_packets) =
        subst (All IsStereo) (sym k.in_order) (append_input-Inv host.byteorder p s hp v).inputs in
      (
        record {
          counted = k.counted;
          inputs = All-right IsStereo k.gone t.input_packets all;
          actives = v.actives;
          outputs = v.outputs;
          task = v.task;
          tail = v.tail;
        },
        goes (Step-Run (accepts p.raw_header refl refl refl)) (
            drops (packet_headers k.gone) (packet_headers t.input_packets)
              (sym (packet_headers-append s.input_packets (p ∷ []))
                ∙ ap packet_headers (sym k.in_order)
                ∙ packet_headers-append k.gone t.input_packets)
              refl refl refl),
      )

  pub append-Reaches :
      (p : KanyPacket) (s : Mdx23c host.Float)
      → IsStereo p
      → Inv host.byteorder s
      → Reaches (p.raw_header ∷ []) [] s (append_input p s)
  append-Reaches p s hp v = (
    append_input-Inv host.byteorder p s hp v,
    Step-Run (
        accepts p.raw_header refl refl (
          ap (λ l. record (view s) { waiting = l })
            (packet_headers-append s.input_packets (p ∷ [])))),
  )

  -- `_launch_segment` for an idle processor
  launch-Reaches :
      (target : ℕ) (s : Mdx23c host.Float)
      → s.inference_task ≡ none
      → Inv host.byteorder s
      → Reaches [] [] s (launch target s)
  unfolding launch
  launch-Reaches target s idle v =
      let t = launch target s in
      let cuts = split_loop-Cuts target s.input_packets [] 0 s.input_frames refl v.counted in
      let all : All IsStereo (t.active_packets ++ t.input_packets) =
        subst (All IsStereo) (sym cuts.in_order) v.inputs in
      (
        record {
          counted = cuts.left;
          inputs = All-right IsStereo t.active_packets t.input_packets all;
          actives = All-left IsStereo t.active_packets t.input_packets all;
          outputs = v.outputs;
          task = (refl, refl, cuts.frames);
          tail = v.tail;
        },
        Step-Run (
            starts (packet_headers t.active_packets) (packet_headers t.input_packets) (rw idle refl)
              (ap packet_headers (sym cuts.in_order)
                ∙ packet_headers-append t.active_packets t.input_packets)
              refl refl refl),
      )

  launch_at-Leaves :
      (target : ℕ) (s : Mdx23c host.Float)
      → s.inference_task ≡ none
      → Inv host.byteorder s
      → Leaves [] s (launch_at target s)
  unfolding launch_at
  launch_at-Leaves target s idle v = elim (Bool-cases (leb target s.input_frames)) [
    | inl full ↦ rw full (launch-Reaches target s idle v)
    | inr short ↦ rw short (v, stays)
  ]

module _ (host : Host) (window : Window host.Float) where
  pub buffer-Leaves :
      (p : KanyPacket) (s : Mdx23c host.Float)
      → IsStereo p
      → Inv host.byteorder s
      → Leaves host (p.raw_header ∷ []) s (buffer_packet host window p s)
  unfolding buffer_packet
  buffer-Leaves p s hp v = elim (Result-cases (maximum_frames host window p s)) [
    | inr (x, e) ↦ rw e (append-Reaches host p s hp v)
    | inl (z, e) ↦ rw e (trim-Reaches host window z p s hp v)
  ]

  pub launch-Leaves :
      (s : Mdx23c host.Float)
      → Inv host.byteorder s
      → Leaves host [] s (launch_if_ready host window s)
  unfolding launch_if_ready
  launch-Leaves s v = elim (Option-cases s.inference_task) [
    | inr (task, e) ↦
        Leaves-same host s (launch_if_ready host window s) (ok tt) (simp (e, launch_if_ready)) v
    | inl e ↦
        let idle : launch_if_ready host window s
            ≡ continue (target_segment_frames host window s) launch_at s =
          simp (e, launch_if_ready) in
        subst (Leaves host [] s) (sym idle) (by_target e (target_segment_frames host window s))
  ]
    where
      by_target :
          s.inference_task ≡ none → (r : Result ℕ) → Leaves host [] s (continue r launch_at s)
      by_target e (err x) = (v, stays)
      by_target e (ok target) = launch_at-Leaves host target s e v
