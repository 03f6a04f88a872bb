-- ===== src/Service/Runs.antt =====
-- app/audio_trombone/service.py with app/audio_trombone/processors: the service with the classes of the
-- registry, and the tasks of the processors, which end between its operations.
use karaoke_anything.Prelude.{
  ℕ, ◌≡◌, subst, if◌then◌else◌, String, Option, none, some, List, [], ◌∷◌, length, ◌/◌, All,
}
use karaoke_anything.Prelude.Int.{ℤ, pos, same_int}
use karaoke_anything.Errors.{ok, >>=-eq-ok, ok-injective}
use karaoke_anything.Host.{Host}
use karaoke_anything.Kany.{IsWord}
use karaoke_anything.Registry.{
  ProcessorConfig, passthrough, null_processor, delay_passthrough, stereo_centre_reduction,
  htdemucs_vocals, convtasnet_lyrics, mdx23c_vocals, ConvTasNetLyricsConfig,
}
use karaoke_anything.Processors.Torch.{Torch}
use karaoke_anything.Processors.Segmented
use karaoke_anything.Processors.Segmented.Complete.{ReturnsWords, complete-Inv}
use karaoke_anything.Processors.Htdemucs.Inference as Htdemucs
use karaoke_anything.Processors.Htdemucs.Inference.{Separator}
use karaoke_anything.Processors.Convtasnet.Inference as Convtasnet
use karaoke_anything.Processors.Convtasnet.Inference.{Model}
use karaoke_anything.Processors.Mdx23c
use karaoke_anything.Processors.Mdx23c.Process.{complete-Reaches}
use karaoke_anything.Processors.Mdx23c.Adapter.{Adapter, infer, stem_index}
use karaoke_anything.Processors.Mdx23c.Inference as Mdx23cInference
use karaoke_anything.Service.State.{TromboneService}
use karaoke_anything.Service.Live.{set_attribute}
use karaoke_anything.Service.Egress.{with_memory}
use karaoke_anything.Service.Library.{
  Memory, stateless, separating, separating_lyrics, windowed, Loaders, library,
}
use karaoke_anything.Service.Holds.{Holds, library-Holds}
use karaoke_anything.Service.History
use karaoke_anything.Service.History.{Event}
use karaoke_anything.Service.Healthy.{Lawful, Healthy, Delivers}
use karaoke_anything.Service.Healthy.Steps.{step-Healthy}

-- An operation of the service, or the end of the task of the active processor, after so many seconds.
pub data Happening (F : Type 0) : Type 0 where
  operation : Event F → Happening F
  task_ends : F → Happening F

abbrev pub Arrives : {F : Type 0} → Happening F → Type 0
Arrives (operation e) = Delivers e
Arrives (task_ends elapsed) = Unit

module _ (host : Host) (torch : Torch host) (loaders : Loaders host torch)
    (lower : String → String) where
  -- the coroutine of the task, with the `_run_inference` of its class
  unfoldable pub task_end :
      ProcessorConfig host.Float → host.Float → Memory host torch → Memory host torch
  unfolding Segmented.complete Mdx23c.complete
  task_end (htdemucs_vocals c) elapsed (separating s) = separating (record s {
    segmented =
        Segmented.complete host (Htdemucs.run_inference host torch s.separator c.vocal_reduction)
          elapsed s.segmented;
  })
  task_end (convtasnet_lyrics c) elapsed (separating_lyrics s) = separating_lyrics (record s {
    segmented =
        Segmented.complete host
          (Convtasnet.run_inference host torch s.model s.model_sample_rate s.device c) elapsed
          s.segmented;
  })
  task_end (mdx23c_vocals c) elapsed (windowed s) = windowed (record s {
    buffers =
        Mdx23c.complete host
          (Mdx23cInference.run_inference host torch lower s.adapter c.vocal_reduction) elapsed
          s.buffers;
  })
  task_end _ elapsed memory = memory

  abbrev State : Type 0
  State = TromboneService host.Float (Memory host torch)

  unfoldable pub step : Happening host.Float → State → State
  unfolding task_end
  step (operation e) s = History.step host (library host torch loaders) e s
  step (task_ends elapsed) s = with_memory (task_end s.processor elapsed s.memory) s

  unfoldable pub run : List (Happening host.Float) → State → State
  unfolding step
  run [] s = s
  run (h ∷ happenings) s = run happenings (step h s)

  module _ (stores : (x : host.Float) → IsWord (host.store x))
      (words : (t : torch.Tensor) → All IsWord (torch.interleave t)) where
    finalized-IsWord :
        (model_rate rate : ℤ) (output : torch.Tensor) (target : ℕ) (ws : List ℕ)
        → Htdemucs.finalize_output host torch model_rate output rate target ≡ ok ws
        → All IsWord ws
    unfolding Htdemucs.finalize_output
    finalized-IsWord model_rate rate output target ws e =
        let (u, _, k) =
          >>=-eq-ok
            (if same_int model_rate rate then ok output else torch.resample output model_rate rate)
            _ e in
        subst (All IsWord) (ok-injective k) (words _)

    demucs-ReturnsWords :
        (separator : Option (Separator host torch)) (reduction : host.Float)
        → ReturnsWords (Htdemucs.run_inference host torch separator reduction)
    unfolding Htdemucs.run_inference
    demucs-ReturnsWords none reduction samples rate channels ws e = cc e
    demucs-ReturnsWords (some separator) reduction samples rate channels ws e =
        let (waveform, _, e₁) =
          >>=-eq-ok (torch.channel_first channels (torch.tensor samples)) _ e in
        let (output, _, e₂) =
          >>=-eq-ok (Htdemucs.reduce_vocals host torch separator reduction waveform (pos rate)) _
            e₁ in
        finalized-IsWord separator.samplerate (pos rate) output (length samples / channels) ws e₂

    tasnet-ReturnsWords :
        (model : Option (Model host torch)) (rate : ℤ) (device : String)
        (config : ConvTasNetLyricsConfig host.Float)
        → ReturnsWords (Convtasnet.run_inference host torch model rate device config)
    unfolding Convtasnet.run_inference
    tasnet-ReturnsWords none model_rate device config samples rate channels ws e = cc e
    tasnet-ReturnsWords (some model) model_rate device config samples rate channels ws e =
        let (waveform, _, e₁) =
          >>=-eq-ok
            (Convtasnet.prepare_waveform host torch model_rate device samples (pos rate) channels) _
            e in
        let (output, _, e₂) =
          >>=-eq-ok (Convtasnet.separate_accompaniment host torch config model waveform) _ e₁ in
        finalized-IsWord model_rate (pos rate) output (length samples / channels) ws e₂

    mdx23c-ReturnsWords :
        (adapter : Option (Adapter host torch)) (reduction : host.Float)
        → ReturnsWords (Mdx23cInference.run_inference host torch lower adapter reduction)
    unfolding Mdx23cInference.run_inference
    mdx23c-ReturnsWords none reduction samples rate channels ws e = cc e
    mdx23c-ReturnsWords (some adapter) reduction samples rate channels ws e =
        let kept = host.sub (host.ratio 1 1) reduction in
        let (flat, _, e₁) = >>=-eq-ok (torch.channel_first 2 (torch.tensor samples)) _ e in
        let (waveform, _, e₂) =
          >>=-eq-ok
            (Mdx23cInference.resampled host torch (pos rate) adapter.sample_rate
              (torch.unsqueeze 0 flat))
            _ e₁ in
        let (estimates, _, e₃) =
          >>=-eq-ok (infer host torch adapter waveform adapter.sample_rate) _ e₂ in
        let (index, _, e₄) =
          >>=-eq-ok
            (stem_index lower adapter.stems ("instrumental" ∷ "other" ∷ "accompaniment" ∷ [])) _
            e₃ in
        let (stems, _, e₅) = >>=-eq-ok (torch.select estimates (pos 0)) _ e₄ in
        let (instrumental, _, e₆) = >>=-eq-ok (torch.select stems (pos index)) _ e₅ in
        let (original, _, e₇) = >>=-eq-ok (torch.select waveform (pos 0)) _ e₆ in
        let (mixed, _, e₈) =
          >>=-eq-ok (torch.add (torch.scale instrumental reduction) (torch.scale original kept)) _
            e₇ in
        let (result, _, e₉) =
          >>=-eq-ok (Mdx23cInference.resampled host torch adapter.sample_rate (pos rate) mixed) _
            e₈ in
        subst (All IsWord) (ok-injective e₉) (words _)

    task_end-Holds :
        (config : ProcessorConfig host.Float) (elapsed : host.Float) (memory : Memory host torch)
        → Holds host torch loaders config memory
        → Holds host torch loaders config (task_end config elapsed memory)
    unfolding task_end
    task_end-Holds (htdemucs_vocals c) elapsed (separating s) h =
        complete-Inv host (Htdemucs.run_inference host torch s.separator c.vocal_reduction) elapsed
          (demucs-ReturnsWords s.separator c.vocal_reduction) s.segmented h
    task_end-Holds (convtasnet_lyrics c) elapsed (separating_lyrics s) h =
        complete-Inv host
          (Convtasnet.run_inference host torch s.model s.model_sample_rate s.device c) elapsed
          (tasnet-ReturnsWords s.model s.model_sample_rate s.device c) s.segmented h
    task_end-Holds (mdx23c_vocals c) elapsed (windowed s) h =
        (complete-Reaches host
          (Mdx23cInference.run_inference host torch lower s.adapter c.vocal_reduction) elapsed
          (mdx23c-ReturnsWords s.adapter c.vocal_reduction) s.buffers h).0
    task_end-Holds passthrough elapsed stateless h = tt
    task_end-Holds null_processor elapsed stateless h = tt
    task_end-Holds (delay_passthrough _) elapsed stateless h = tt
    task_end-Holds (stereo_centre_reduction _) elapsed stateless h = tt
    task_end-Holds _ elapsed _ h = absurd h

    attribute-Holds :
        (name : String) (value : host.Float) (config : ProcessorConfig host.Float)
        (memory : Memory host torch)
        → Holds host torch loaders config memory
        → Holds host torch loaders (set_attribute name value config) memory
    unfolding set_attribute
    attribute-Holds name value (htdemucs_vocals c) (separating s) h = h
    attribute-Holds name value (convtasnet_lyrics c) (separating_lyrics s) h = h
    attribute-Holds name value (mdx23c_vocals c) (windowed s) h = h
    attribute-Holds name value passthrough stateless h = tt
    attribute-Holds name value null_processor stateless h = tt
    attribute-Holds name value (delay_passthrough _) stateless h = tt
    attribute-Holds name value (stereo_centre_reduction _) stateless h = tt
    attribute-Holds name value _ _ h = absurd h

    library-Lawful : Lawful (library host torch loaders) (Holds host torch loaders)
    library-Lawful = record {
      init = λ config. (library-Holds host torch loaders stores config).0;
      starts = λ config m h. ((library-Holds host torch loaders stores config).1 m h).0;
      stops = λ config m h. ((library-Holds host torch loaders stores config).1 m h).1;
      resets = λ config m h. ((library-Holds host torch loaders stores config).1 m h).2;
      flushes = λ config m h. ((library-Holds host torch loaders stores config).1 m h).3.0;
      processes = λ config packet m hb h.
          (((library-Holds host torch loaders stores config).1 m h).4 packet hb).0;
      attributes = attribute-Holds;
    }

    -- If a stored float and an item of an interleaved tensor are 32-bit patterns: over any datagrams of
    -- bytes, steps of the worker and requests, whatever they raise, and with the tasks ending at any time
    -- between them, the fields of the active processor are always those of its class and satisfy their
    -- invariant, if they did at first, when the packets that waited were bytes too.
    pub run-Holds :
        (happenings : List (Happening host.Float)) (s : State)
        → All Arrives happenings
        → Healthy host (library host torch loaders) (Holds host torch loaders) s
        → Holds host torch loaders (run happenings s).processor (run happenings s).memory
    unfolding run step
    run-Holds [] s a h = h.0
    run-Holds (operation e ∷ happenings) s a h = run-Holds happenings (step (operation e) s) a.1 (
        step-Healthy host (library host torch loaders) (Holds host torch loaders) library-Lawful e s
          a.0 h)
    run-Holds (task_ends elapsed ∷ happenings) s a h =
        run-Holds happenings (step (task_ends elapsed) s) a.1
          (task_end-Holds s.processor elapsed s.memory h.0, h.1)
