-- ===== src/Service/Fixtures.antt =====
-- service.py: what the tests share, the default settings and a service with a processor that passes
-- packets on.
use karaoke_anything.Prelude.{ℕ, ◌+◌, false, none, List, [], ◌∷◌}
use karaoke_anything.Prelude.Int.{pos}
use karaoke_anything.Errors.{Result, ok}
use karaoke_anything.Models.{ProcessedPacket, processed, Metrics}
use karaoke_anything.Config.{Settings}
use karaoke_anything.Registry.{ProcessorConfig, stereo_centre_reduction}
use karaoke_anything.Service.State.{Yields, AudioProcessor, Network, TromboneService, absent}

abbrev pub defaults : Settings ℕ
defaults = record {
  listen_host = "0.0.0.0";
  input_port = pos 5004;
  output_port = pos 5006;
  return_host = none;
  http_host = "0.0.0.0";
  http_port = pos 8080;
  log_level = "INFO";
  processor = "stereo-centre-reduction";
  input_queue_size = pos 512;
  max_packet_size = pos 65535;
  demucs_model = "htdemucs";
  demucs_device = "auto";
  demucs_segment_seconds = 6000;
  demucs_overlap = 250;
  demucs_shifts = pos 0;
  demucs_vocal_reduction = 1000;
  convtasnet_model_path = "/models/convtasnet-lyrics-causal";
  convtasnet_device = "auto";
  convtasnet_segment_seconds = 1000;
  convtasnet_vocal_reduction = 1000;
  convtasnet_vocal_source_index = pos 0;
  convtasnet_accompaniment_source_index = pos 1;
  mdx23c_config_path = "/models/mdx23c/model_2_stem_full_band_8k.yaml";
  mdx23c_checkpoint_path = "/models/mdx23c/MDX23C-8KFFT-InstVoc_HQ.ckpt";
  mdx23c_device = "auto";
  mdx23c_segment_seconds = 1000;
  mdx23c_overlap = 250;
  mdx23c_batch_size = pos 1;
  mdx23c_vocal_reduction = 1000;
  mdx23c_precision = "float32";
  centre_reduction = 700;
}

abbrev pub reduces : ℕ → ProcessorConfig ℕ
reduces = stereo_centre_reduction

abbrev pub yields : List ProcessedPacket → Result (Unit {0}) → ℕ → Yields ℕ
yields outputs end memory = record { outputs = outputs; ended = end; memory = memory }

-- every packet passes; `flushed` is how `flush` ends
abbrev pub passes : Result (Unit {0}) → AudioProcessor ℕ ℕ
passes flushed = record {
  init = λ config. 0;
  start = λ config memory. (ok tt, memory);
  stop = λ config memory. (ok tt, memory);
  reset = λ config memory. (ok tt, 0);
  process = λ config packet memory. yields (processed packet.payload ∷ []) (ok tt) (memory + 1);
  flush = λ config memory. yields [] flushed memory;
}

abbrev pub sends : Network
sends n payload host port = ok tt

abbrev pub no_metrics : Metrics ℕ
no_metrics = record {
  started_at = 0;
  packets_received = 0;
  packets_enqueued = 0;
  packets_dropped = 0;
  packets_processed = 0;
  packets_emitted = 0;
  packets_forwarded = 0;
  bytes_received = 0;
  bytes_forwarded = 0;
  processor_errors = 0;
  forwarding_errors = 0;
  queue_high_watermark = 0;
  last_packet_at = none;
  last_sender_host = none;
  last_sender_port = none;
}

abbrev pub service : TromboneService ℕ ℕ
service = record {
  startup_settings = defaults;
  settings = defaults;
  metrics = no_metrics;
  input_queue = record { maxsize = pos 512; items = [] };
  registry_settings = defaults;
  processor = reduces 700;
  memory = 0;
  transport = none;
  worker_task = absent;
  running = false;
}
