-- ===== src/Config.antt =====
-- app/audio_trombone/config.py: `Settings` and its defaults from the environment.
use karaoke_anything.Prelude.{String, Option, none, some, texts_equal, if◌then◌else◌}
use karaoke_anything.Prelude.Int.{ℤ}
use karaoke_anything.Errors.{Result, ok, ◌>>=◌}
use karaoke_anything.Host.{Host}

-- `F` is the host's type of floats.
pub record Settings (F : Type 0) : Type 0 where
  pub listen_host : String
  pub input_port : ℤ
  pub output_port : ℤ
  pub return_host : Option String
  pub http_host : String
  pub http_port : ℤ
  pub log_level : String
  pub processor : String
  pub input_queue_size : ℤ
  pub max_packet_size : ℤ
  pub demucs_model : String
  pub demucs_device : String
  pub demucs_segment_seconds : F
  pub demucs_overlap : F
  pub demucs_shifts : ℤ
  pub demucs_vocal_reduction : F
  pub convtasnet_model_path : String
  pub convtasnet_device : String
  pub convtasnet_segment_seconds : F
  pub convtasnet_vocal_reduction : F
  pub convtasnet_vocal_source_index : ℤ
  pub convtasnet_accompaniment_source_index : ℤ
  pub mdx23c_config_path : String
  pub mdx23c_checkpoint_path : String
  pub mdx23c_device : String
  pub mdx23c_segment_seconds : F
  pub mdx23c_overlap : F
  pub mdx23c_batch_size : ℤ
  pub mdx23c_vocal_reduction : F
  pub mdx23c_precision : String
  pub centre_reduction : F

-- `os.getenv(name, default)`, for the environment `env`
abbrev pub getenv : (String → Option String) → String → String → String
getenv env name default = elim (env name) [ none ↦ default | some value ↦ value ]

-- `os.getenv(name) or None`
abbrev pub getenv_or_none : (String → Option String) → String → Option String
getenv_or_none env name = elim (env name) [
  | none ↦ none
  | some value ↦ if texts_equal value "" then none else some value
]

module _ (host : Host) (env : String → Option String) where
  abbrev int_of : String → String → Result ℤ
  int_of name default = host.parse_int (getenv env name default)

  abbrev float_of : String → String → Result host.Float
  float_of name default = host.parse_float (getenv env name default)

  unfoldable pub from_environment : Result (Settings host.Float)
  from_environment = do
    input_port ← int_of "INPUT_PORT" "5004"
    output_port ← int_of "OUTPUT_PORT" "5006"
    http_port ← int_of "HTTP_PORT" "8080"
    input_queue_size ← int_of "INPUT_QUEUE_SIZE" "512"
    max_packet_size ← int_of "MAX_PACKET_SIZE" "65535"
    demucs_segment_seconds ← float_of "DEMUCS_SEGMENT_SECONDS" "6.0"
    demucs_overlap ← float_of "DEMUCS_OVERLAP" "0.25"
    demucs_shifts ← int_of "DEMUCS_SHIFTS" "0"
    demucs_vocal_reduction ← float_of "DEMUCS_VOCAL_REDUCTION" "1.0"
    convtasnet_segment_seconds ← float_of "CONVTASNET_SEGMENT_SECONDS" "1.0"
    convtasnet_vocal_reduction ← float_of "CONVTASNET_VOCAL_REDUCTION" "1.0"
    convtasnet_vocal_source_index ← int_of "CONVTASNET_VOCAL_SOURCE_INDEX" "0"
    convtasnet_accompaniment_source_index ← int_of "CONVTASNET_ACCOMPANIMENT_SOURCE_INDEX" "1"
    mdx23c_segment_seconds ← float_of "MDX23C_SEGMENT_SECONDS" "1.0"
    mdx23c_overlap ← float_of "MDX23C_OVERLAP" "0.25"
    mdx23c_batch_size ← int_of "MDX23C_BATCH_SIZE" "1"
    mdx23c_vocal_reduction ← float_of "MDX23C_VOCAL_REDUCTION" "1.0"
    centre_reduction ← float_of "CENTRE_REDUCTION" "0.7"
    ok (record {
      listen_host = getenv env "LISTEN_HOST" "0.0.0.0";
      input_port = input_port;
      output_port = output_port;
      return_host = getenv_or_none env "RETURN_HOST";
      http_host = getenv env "HTTP_HOST" "0.0.0.0";
      http_port = http_port;
      log_level = getenv env "LOG_LEVEL" "INFO";
      processor = getenv env "PROCESSOR" "passthrough";
      input_queue_size = input_queue_size;
      max_packet_size = max_packet_size;
      demucs_model = getenv env "DEMUCS_MODEL" "htdemucs";
      demucs_device = getenv env "DEMUCS_DEVICE" "auto";
      demucs_segment_seconds = demucs_segment_seconds;
      demucs_overlap = demucs_overlap;
      demucs_shifts = demucs_shifts;
      demucs_vocal_reduction = demucs_vocal_reduction;
      convtasnet_model_path = getenv env "CONVTASNET_MODEL_PATH" "/models/convtasnet-lyrics-causal";
      convtasnet_device = getenv env "CONVTASNET_DEVICE" "auto";
      convtasnet_segment_seconds = convtasnet_segment_seconds;
      convtasnet_vocal_reduction = convtasnet_vocal_reduction;
      convtasnet_vocal_source_index = convtasnet_vocal_source_index;
      convtasnet_accompaniment_source_index = convtasnet_accompaniment_source_index;
      mdx23c_config_path =
          getenv env "MDX23C_CONFIG_PATH" "/models/mdx23c/model_2_stem_full_band_8k.yaml";
      mdx23c_checkpoint_path =
          getenv env "MDX23C_CHECKPOINT_PATH" "/models/mdx23c/MDX23C-8KFFT-InstVoc_HQ.ckpt";
      mdx23c_device = getenv env "MDX23C_DEVICE" "auto";
      mdx23c_segment_seconds = mdx23c_segment_seconds;
      mdx23c_overlap = mdx23c_overlap;
      mdx23c_batch_size = mdx23c_batch_size;
      mdx23c_vocal_reduction = mdx23c_vocal_reduction;
      mdx23c_precision = getenv env "MDX23C_PRECISION" "float32";
      centre_reduction = centre_reduction;
    })
