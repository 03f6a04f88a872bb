-- ===== src/Service/Library.antt =====
-- app/audio_trombone/processors: every class of the registry as the interface that the service takes
-- (passthrough.py, delay.py, null.py, base.py, and the models of the other processors).
use karaoke_anything.Prelude.{String, Bool, false, none, List, [], ◌∷◌}
use karaoke_anything.Prelude.Int.{ℤ, pos}
use karaoke_anything.Prelude.Exec.{Exec}
use karaoke_anything.Errors.{Result, ok, err}
use karaoke_anything.Host.{Host}
use karaoke_anything.Models.{MediaPacket, ProcessedPacket, processed}
use karaoke_anything.Registry.{
  ProcessorConfig, passthrough, null_processor, delay_passthrough, stereo_centre_reduction,
  htdemucs_vocals, convtasnet_lyrics, mdx23c_vocals, HtDemucsConfig, ConvTasNetLyricsConfig,
  Mdx23CVocalsConfig,
}
use karaoke_anything.Service.State.{Yields, AudioProcessor}
use karaoke_anything.Processors.Torch.{Torch}
use karaoke_anything.Processors.Segmented
use karaoke_anything.Processors.Htdemucs.{htdemucs}
use karaoke_anything.Processors.Htdemucs.Inference as Htdemucs
use karaoke_anything.Processors.Htdemucs.Inference.{HtDemucs, Separator}
use karaoke_anything.Processors.Convtasnet.{convtasnet}
use karaoke_anything.Processors.Convtasnet.Inference as Convtasnet
use karaoke_anything.Processors.Convtasnet.Inference.{ConvTasNet, Model}
use karaoke_anything.Processors.Centre.{process_stereo}
use karaoke_anything.Processors.Mdx23c
use karaoke_anything.Processors.Mdx23c.{Window}
use karaoke_anything.Processors.Mdx23c.Adapter.{Adapter}
use karaoke_anything.Processors.Mdx23c.Inference as Mdx23cInference
use karaoke_anything.Processors.Mdx23c.Inference.{Loaded}

-- The fields of an object that its methods change, by its class.
pub data Memory (host : Host) (torch : Torch host) : Type 0 where
  stateless : Memory host torch
  separating : HtDemucs host torch → Memory host torch
  separating_lyrics : ConvTasNet host torch → Memory host torch
  windowed : Loaded host torch → Memory host torch

-- The constructors of the models, which the libraries supply.
pub record Loaders (host : Host) (torch : Torch host) : Type 0 where
  pub demucs_installed : Bool
  pub load_separator : HtDemucsConfig host.Float → String → Result (Separator host torch)
  pub tasnet_installed : Bool
  pub load_model : ConvTasNetLyricsConfig host.Float → String → Result (Model host torch)
  pub load_adapter : Mdx23CVocalsConfig host.Float → Result (Adapter host torch)
  pub warm_up : Adapter host torch → ℤ → Result (Unit {0})
  pub to_float : ℤ → host.Float

module _ (host : Host) (torch : Torch host) (loaders : Loaders host torch) where
  abbrev pub yields : Result (List ProcessedPacket) → Memory host torch → Yields (Memory host torch)
  yields (ok outs) memory = record { outputs = outs; ended = ok tt; memory = memory }
  yields (err e) memory = record { outputs = []; ended = err e; memory = memory }

  -- `max_buffered_segments` and `warm_up` are not in the settings: they have their defaults
  abbrev pub window_of : Mdx23CVocalsConfig host.Float → Window host.Float
  window_of c = record {
    segment_seconds = c.segment_seconds;
    overlap = c.overlap;
    max_buffered_segments = 3;
  }

  -- the fields behind `__init__`
  unfoldable pub init : ProcessorConfig host.Float → Memory host torch
  unfolding Segmented.initial Mdx23c.initial
  init (htdemucs_vocals c) =
      separating (record { segmented = Segmented.initial; separator = none; device = c.device })
  init (convtasnet_lyrics c) = separating_lyrics (record {
    segmented = Segmented.initial;
    model = none;
    device = c.device;
    model_sample_rate = pos 44100;
  })
  init (mdx23c_vocals c) =
      windowed (record {
        buffers = Mdx23c.initial;
        adapter = none;
        device = c.device;
        model_loaded = false;
      })
  init _ = stateless

  abbrev lifted :
      {S : Type 0}
      → (S → Memory host torch)
      → Result (Unit {0}) × S
      → Result (Unit {0}) × Memory host torch
  lifted wrap (r, s) = (r, wrap s)

  unfoldable pub start : ProcessorConfig host.Float → Exec (Memory host torch) (Unit {0})
  unfolding Htdemucs.load_separator Convtasnet.load_model Mdx23cInference.start
  start (htdemucs_vocals c) (separating s) =
      lifted separating
        (Htdemucs.load_separator host torch loaders.demucs_installed (loaders.load_separator c) c s)
  start (convtasnet_lyrics c) (separating_lyrics s) =
      lifted separating_lyrics
        (Convtasnet.load_model host torch loaders.tasnet_installed (loaders.load_model c) c s)
  start (mdx23c_vocals c) (windowed s) = lifted windowed (
      Mdx23cInference.start host torch (loaders.load_adapter c) false c.segment_seconds
        loaders.warm_up loaders.to_float s)
  start _ memory = (ok tt, memory)

  unfoldable pub stop : ProcessorConfig host.Float → Exec (Memory host torch) (Unit {0})
  unfolding Htdemucs.stop Convtasnet.stop Mdx23cInference.stop
  stop config (separating s) = (ok tt, separating (Htdemucs.stop host torch s))
  stop config (separating_lyrics s) = (ok tt, separating_lyrics (Convtasnet.stop host torch s))
  stop config (windowed s) = (ok tt, windowed (Mdx23cInference.stop host torch s))
  stop config stateless = (ok tt, stateless)

  unfoldable pub reset : ProcessorConfig host.Float → Exec (Memory host torch) (Unit {0})
  unfolding Segmented.reset Mdx23c.reset
  reset config (separating s) =
      (ok tt, separating (record s { segmented = Segmented.reset s.segmented }))
  reset config (separating_lyrics s) =
      (ok tt, separating_lyrics (record s { segmented = Segmented.reset s.segmented }))
  reset config (windowed s) = (ok tt, windowed (record s { buffers = Mdx23c.reset s.buffers }))
  reset config stateless = (ok tt, stateless)

  -- passthrough.py
  abbrev pub process_passthrough : MediaPacket host.Float → Result (List ProcessedPacket)
  process_passthrough packet = ok (processed packet.payload ∷ [])

  -- delay.py, behind the sleep
  abbrev pub process_delay : MediaPacket host.Float → Result (List ProcessedPacket)
  process_delay packet = ok (processed packet.payload ∷ [])

  -- null.py
  abbrev pub process_null : MediaPacket host.Float → Result (List ProcessedPacket)
  process_null packet = ok []

  unfoldable pub process :
      ProcessorConfig host.Float
      → MediaPacket host.Float
      → Memory host torch
      → Yields (Memory host torch)
  unfolding Segmented.process Mdx23c.process process_stereo
  process passthrough packet memory = yields (process_passthrough packet) memory
  process (delay_passthrough seconds) packet memory = yields (process_delay packet) memory
  process (stereo_centre_reduction reduction) packet memory =
      yields (process_stereo host reduction packet) memory
  process (htdemucs_vocals c) packet (separating s) =
      let (r, t) =
        Segmented.process host (htdemucs host.byteorder) c.segment_seconds packet s.segmented in
      yields r (separating (record s { segmented = t }))
  process (convtasnet_lyrics c) packet (separating_lyrics s) =
      let (r, t) =
        Segmented.process host (convtasnet host.byteorder) c.segment_seconds packet s.segmented in
      yields r (separating_lyrics (record s { segmented = t }))
  process (mdx23c_vocals c) packet (windowed s) =
      let (r, t) = Mdx23c.process host (window_of c) packet s.buffers in
      yields r (windowed (record s { buffers = t }))
  -- an object never has the fields of another class
  process null_processor packet memory = yields (process_null packet) memory
  process _ packet memory = yields (ok []) memory

  unfoldable pub flush : ProcessorConfig host.Float → Memory host torch → Yields (Memory host torch)
  unfolding Segmented.flush Mdx23c.flush
  flush (htdemucs_vocals c) (separating s) =
      let (r, t) = Segmented.flush host (htdemucs host.byteorder) c.segment_seconds s.segmented in
      yields r (separating (record s { segmented = t }))
  flush (convtasnet_lyrics c) (separating_lyrics s) =
      let (r, t) = Segmented.flush host (convtasnet host.byteorder) c.segment_seconds s.segmented in
      yields r (separating_lyrics (record s { segmented = t }))
  flush (mdx23c_vocals c) (windowed s) =
      let (r, t) = Mdx23c.flush host (window_of c) s.buffers in
      yields r (windowed (record s { buffers = t }))
  flush _ memory = yields (ok []) memory

  abbrev pub library : AudioProcessor host.Float (Memory host torch)
  library = record {
    init = init;
    start = start;
    stop = stop;
    reset = reset;
    process = process;
    flush = flush;
  }
