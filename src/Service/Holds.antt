-- ===== src/Service/Holds.antt =====
-- app/audio_trombone/processors: each class of the registry keeps the invariant of its fields.
use karaoke_anything.Prelude.{sym, subst, inl, inr, List, All}
use karaoke_anything.Errors.{Result, ok, err, Result-cases}
use karaoke_anything.Host.{Host}
use karaoke_anything.Kany.{IsByte, IsWord}
use karaoke_anything.Models.{MediaPacket, ProcessedPacket}
use karaoke_anything.Registry.{
  ProcessorConfig, passthrough, null_processor, delay_passthrough, stereo_centre_reduction,
  htdemucs_vocals, convtasnet_lyrics, mdx23c_vocals,
}
use karaoke_anything.Service.State.{Yields}
use karaoke_anything.Service.Library.{
  Memory, stateless, separating, separating_lyrics, windowed, Loaders, init, start, stop, reset,
  yields, window_of, process, flush, library,
}
use karaoke_anything.Processors.Torch.{Torch}
use karaoke_anything.Processors.Segmented
use karaoke_anything.Processors.Segmented.{Segmented}
use karaoke_anything.Processors.Segmented.Invariant.{IsOutput, Inv, initial-Inv, reset-Inv}
use karaoke_anything.Processors.Segmented.Methods.{process-Keeps, flush-Keeps}
use karaoke_anything.Processors.Segmented.History.{yielded, yielded-IsOutput}
use karaoke_anything.Processors.Htdemucs.{htdemucs, htdemucs-Lawful}
use karaoke_anything.Processors.Htdemucs.Inference as Htdemucs
use karaoke_anything.Processors.Htdemucs.Inference.{load_separator-segmented}
use karaoke_anything.Processors.Convtasnet.Inference.{load_model-segmented}
use karaoke_anything.Processors.Convtasnet.{convtasnet, convtasnet-Lawful}
use karaoke_anything.Processors.Convtasnet.Inference as Convtasnet
use karaoke_anything.Processors.Centre.{process_stereo}
use karaoke_anything.Processors.Mdx23c
use karaoke_anything.Processors.Mdx23c.Invariant as Mdx23cInvariant
use karaoke_anything.Processors.Mdx23c.Process.{process-Yields, flush-Yields}
use karaoke_anything.Processors.Mdx23c.Inference as Mdx23cInference

module _ (host : Host) (torch : Torch host) (loaders : Loaders host torch) where
  -- the fields of a class, with their invariant
  abbrev pub Holds : ProcessorConfig host.Float → Memory host torch → Type 0
  Holds (htdemucs_vocals c) (separating s) = Inv host.byteorder s.segmented
  Holds (convtasnet_lyrics c) (separating_lyrics s) = Inv host.byteorder s.segmented
  Holds (mdx23c_vocals c) (windowed s) = Mdx23cInvariant.Inv host.byteorder s.buffers
  Holds passthrough stateless = Unit
  Holds null_processor stateless = Unit
  Holds (delay_passthrough _) stateless = Unit
  Holds (stereo_centre_reduction _) stateless = Unit
  Holds _ _ = ⊥

  -- what a processor that buffers yields is accepted by a receiver
  abbrev pub Sends : ProcessorConfig host.Float → List ProcessedPacket → Type 0
  Sends (htdemucs_vocals c) outs = All (IsOutput host.byteorder) outs
  Sends (convtasnet_lyrics c) outs = All (IsOutput host.byteorder) outs
  Sends (mdx23c_vocals c) outs = All (IsOutput host.byteorder) outs
  Sends _ outs = Unit

  abbrev pub Kept : ProcessorConfig host.Float → Yields (Memory host torch) → Type 0
  Kept config y = Holds config y.memory × Sends config y.outputs

  init-Holds : (config : ProcessorConfig host.Float) → Holds config (init host torch loaders config)
  unfolding init
  init-Holds passthrough = tt
  init-Holds null_processor = tt
  init-Holds (delay_passthrough _) = tt
  init-Holds (stereo_centre_reduction _) = tt
  init-Holds (htdemucs_vocals c) = initial-Inv host.byteorder
  init-Holds (convtasnet_lyrics c) = initial-Inv host.byteorder
  init-Holds (mdx23c_vocals c) = Mdx23cInvariant.initial-Inv host.byteorder

  reset-Holds :
      (config : ProcessorConfig host.Float) (memory : Memory host torch)
      → Holds config memory
      → Holds config (reset host torch loaders config memory).1
  unfolding reset
  reset-Holds (htdemucs_vocals c) (separating s) h = reset-Inv host.byteorder s.segmented
  reset-Holds (convtasnet_lyrics c) (separating_lyrics s) h = reset-Inv host.byteorder s.segmented
  reset-Holds (mdx23c_vocals c) (windowed s) h = Mdx23cInvariant.reset-Inv host.byteorder s.buffers
  reset-Holds passthrough stateless h = tt
  reset-Holds null_processor stateless h = tt
  reset-Holds (delay_passthrough _) stateless h = tt
  reset-Holds (stereo_centre_reduction _) stateless h = tt
  reset-Holds _ _ h = absurd h

  stop-Holds :
      (config : ProcessorConfig host.Float) (memory : Memory host torch)
      → Holds config memory
      → Holds config (stop host torch loaders config memory).1
  unfolding stop Htdemucs.stop Convtasnet.stop Mdx23cInference.stop
  stop-Holds (htdemucs_vocals c) (separating s) h = reset-Inv host.byteorder s.segmented
  stop-Holds (convtasnet_lyrics c) (separating_lyrics s) h = reset-Inv host.byteorder s.segmented
  stop-Holds (mdx23c_vocals c) (windowed s) h = Mdx23cInvariant.reset-Inv host.byteorder s.buffers
  stop-Holds passthrough stateless h = tt
  stop-Holds null_processor stateless h = tt
  stop-Holds (delay_passthrough _) stateless h = tt
  stop-Holds (stereo_centre_reduction _) stateless h = tt
  stop-Holds _ _ h = absurd h

  -- the loading of a model changes no buffer
  start-Holds :
      (config : ProcessorConfig host.Float) (memory : Memory host torch)
      → Holds config memory
      → Holds config (start host torch loaders config memory).1
  unfolding start Htdemucs.load_separator Convtasnet.load_model Mdx23cInference.start
  start-Holds (htdemucs_vocals c) (separating s) h =
      subst (Inv host.byteorder)
        (sym (
          load_separator-segmented host torch loaders.demucs_installed (loaders.load_separator c) c
            s))
        h
  start-Holds (convtasnet_lyrics c) (separating_lyrics s) h =
      subst (Inv host.byteorder)
        (sym (load_model-segmented host torch loaders.tasnet_installed (loaders.load_model c) c s))
        h
  start-Holds (mdx23c_vocals c) (windowed s) h = elim (Result-cases (loaders.load_adapter c)) [
    | inl (adapter, e) ↦ rw e h
    | inr (x, e) ↦ rw e h
  ]
  start-Holds passthrough stateless h = tt
  start-Holds null_processor stateless h = tt
  start-Holds (delay_passthrough _) stateless h = tt
  start-Holds (stereo_centre_reduction _) stateless h = tt
  start-Holds _ _ h = absurd h

  module _ (stores : (x : host.Float) → IsWord (host.store x)) where
    yields-Kept :
        (config : ProcessorConfig host.Float) (r : Result (List ProcessedPacket))
        (memory : Memory host torch)
        → Holds config memory
        → Sends config (yielded r)
        → Kept config (yields host torch loaders r memory)
    yields-Kept config (ok outs) memory h k = (h, k)
    yields-Kept config (err e) memory h k = (h, k)

    process-Kept :
        (config : ProcessorConfig host.Float) (packet : MediaPacket host.Float)
        (memory : Memory host torch)
        → All IsByte packet.payload
        → Holds config memory
        → Kept config (process host torch loaders config packet memory)
    unfolding process
    process-Kept (htdemucs_vocals c) packet (separating s) hb h =
        let model = htdemucs host.byteorder in
        let (v, outs) = yielded-IsOutput host model c.segment_seconds _ (
          process-Keeps host model c.segment_seconds (htdemucs-Lawful host.byteorder) packet
            s.segmented hb h) in
        let (r, t) = Segmented.process host model c.segment_seconds packet s.segmented in
        yields-Kept (htdemucs_vocals c) r (separating (record s { segmented = t })) v outs
    process-Kept (convtasnet_lyrics c) packet (separating_lyrics s) hb h =
        let model = convtasnet host.byteorder in
        let (v, outs) = yielded-IsOutput host model c.segment_seconds _ (
          process-Keeps host model c.segment_seconds (convtasnet-Lawful host.byteorder) packet
            s.segmented hb h) in
        let (r, t) = Segmented.process host model c.segment_seconds packet s.segmented in
        yields-Kept (convtasnet_lyrics c) r (separating_lyrics (record s { segmented = t })) v outs
    process-Kept (mdx23c_vocals c) packet (windowed s) hb h =
        let ((v, _), outs) =
          process-Yields host (window_of host torch loaders c) stores packet s.buffers hb h in
        let (r, t) = Mdx23c.process host (window_of host torch loaders c) packet s.buffers in
        yields-Kept (mdx23c_vocals c) r (windowed (record s { buffers = t })) v outs
    process-Kept passthrough packet stateless hb h = (tt, tt)
    process-Kept null_processor packet stateless hb h = (tt, tt)
    process-Kept (delay_passthrough _) packet stateless hb h = (tt, tt)
    process-Kept (stereo_centre_reduction r) packet stateless hb h =
        yields-Kept (stereo_centre_reduction r) (process_stereo host r packet) stateless tt tt
    process-Kept _ packet _ hb h = absurd h

    flush-Kept :
        (config : ProcessorConfig host.Float) (memory : Memory host torch)
        → Holds config memory
        → Kept config (flush host torch loaders config memory)
    unfolding flush
    flush-Kept (htdemucs_vocals c) (separating s) h =
        let model = htdemucs host.byteorder in
        let (v, outs) =
          yielded-IsOutput host model c.segment_seconds _
            (flush-Keeps host model c.segment_seconds s.segmented h) in
        let (r, t) = Segmented.flush host model c.segment_seconds s.segmented in
        yields-Kept (htdemucs_vocals c) r (separating (record s { segmented = t })) v outs
    flush-Kept (convtasnet_lyrics c) (separating_lyrics s) h =
        let model = convtasnet host.byteorder in
        let (v, outs) =
          yielded-IsOutput host model c.segment_seconds _
            (flush-Keeps host model c.segment_seconds s.segmented h) in
        let (r, t) = Segmented.flush host model c.segment_seconds s.segmented in
        yields-Kept (convtasnet_lyrics c) r (separating_lyrics (record s { segmented = t })) v outs
    flush-Kept (mdx23c_vocals c) (windowed s) h =
        let ((v, _), outs) =
          flush-Yields host (window_of host torch loaders c) stores s.buffers h in
        let (r, t) = Mdx23c.flush host (window_of host torch loaders c) s.buffers in
        yields-Kept (mdx23c_vocals c) r (windowed (record s { buffers = t })) v outs
    flush-Kept passthrough stateless h = (tt, tt)
    flush-Kept null_processor stateless h = (tt, tt)
    flush-Kept (delay_passthrough _) stateless h = (tt, tt)
    flush-Kept (stereo_centre_reduction _) stateless h = (tt, tt)
    flush-Kept _ _ h = absurd h

    -- Every class of the registry, if a stored float is a 32-bit pattern: a new object has its fields, and they satisfy their invariant;
    -- `start`, `stop`, `reset`, `process` on any datagram and `flush` keep that, whether they return or
    -- raise; and what a buffering processor yields is accepted by `decode`.
    pub library-Holds :
        (config : ProcessorConfig host.Float)
        → Holds config ((library host torch loaders).init config)
          × ((memory : Memory host torch)
              → Holds config memory
              → Holds config ((library host torch loaders).start config memory).1
                × Holds config ((library host torch loaders).stop config memory).1
                × Holds config ((library host torch loaders).reset config memory).1
                × Kept config ((library host torch loaders).flush config memory)
                × ((packet : MediaPacket host.Float)
                    → All IsByte packet.payload
                    → Kept config ((library host torch loaders).process config packet memory)))
    library-Holds config = (
      init-Holds config,
      λ memory h. (
        start-Holds config memory h,
        stop-Holds config memory h,
        reset-Holds config memory h,
        flush-Kept config memory h,
        λ packet hb. process-Kept config packet memory hb h,
      ),
    )
