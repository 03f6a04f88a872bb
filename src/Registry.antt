-- ===== src/Registry.antt =====
-- app/audio_trombone/processors/registry.py: the table of processors, with the arguments that each
-- constructor takes from the settings and the checks that it makes (`__post_init__` of the
-- configurations in htdemucs.py, convtasnet_lyrics.py and mdx23c_vocals.py, and `__init__` of
-- centre_reduction.py and delay.py).
use karaoke_anything.Prelude.{
  ℕ, String, Bool, true, false, not, ◌&&◌, ◌||◌, Option, none, some, List, [], ◌∷◌, if◌then◌else◌,
  texts_equal,
}
pub mod Created
use karaoke_anything.Prelude.Int.{ℤ, pos, nonneg, same_int}
use karaoke_anything.Errors.{Result, ok, err, value_error, unknown_processor, ◌>>=◌, ◌>>◌, raise_if}
use karaoke_anything.Host.{Host}
use karaoke_anything.Config.{Settings}

pub record HtDemucsConfig (F : Type 0) : Type 0 where
  pub model_name : String
  pub device : String
  pub segment_seconds : F
  pub overlap : F
  pub shifts : ℤ
  pub vocal_reduction : F

pub record ConvTasNetLyricsConfig (F : Type 0) : Type 0 where
  pub model_path : String
  pub device : String
  pub segment_seconds : F
  pub vocal_reduction : F
  pub vocal_source_index : ℤ
  pub accompaniment_source_index : ℤ

pub record Mdx23CVocalsConfig (F : Type 0) : Type 0 where
  pub config_path : String
  pub checkpoint_path : String
  pub device : String
  pub segment_seconds : F
  pub overlap : F
  pub batch_size : ℤ
  pub vocal_reduction : F
  pub precision : String

-- A processor's class, with the attributes that its constructor sets from its arguments.
pub data ProcessorConfig (F : Type 0) : Type 0 where
  passthrough null_processor : ProcessorConfig F
  delay_passthrough : F → ProcessorConfig F
  stereo_centre_reduction : F → ProcessorConfig F
  htdemucs_vocals : HtDemucsConfig F → ProcessorConfig F
  convtasnet_lyrics : ConvTasNetLyricsConfig F → ProcessorConfig F
  mdx23c_vocals : Mdx23CVocalsConfig F → ProcessorConfig F

-- the class attribute `name`
abbrev pub name_of : {F : Type 0} → ProcessorConfig F → String
name_of passthrough = "passthrough"
name_of null_processor = "null"
name_of (delay_passthrough _) = "delay-passthrough"
name_of (stereo_centre_reduction _) = "stereo-centre-reduction"
name_of (htdemucs_vocals _) = "htdemucs-vocals"
name_of (convtasnet_lyrics _) = "convtasnet-lyrics-causal"
name_of (mdx23c_vocals _) = "mdx23c-vocals"

-- `if not passed: raise ValueError(message)` for each check
abbrev pub raise_first_failure : List (Bool × String) → Result (Unit {0})
raise_first_failure [] = ok tt
raise_first_failure ((passed, message) ∷ checks) =
    let rest = raise_first_failure checks in if passed then rest else err (value_error message)

module _ (host : Host) where
  abbrev pub float : ℕ → ℕ → host.Float
  float n d = host.ratio n d

  -- `low <= x <= high`
  abbrev pub between : host.Float → host.Float → host.Float → Bool
  between low x high = host.le low x && host.le x high

  -- `low <= x < high`
  abbrev pub below : host.Float → host.Float → host.Float → Bool
  below low x high = host.le low x && host.lt x high

  -- `value in SUPPORTED_SEGMENTS`
  abbrev pub supported_segment : host.Float → Bool
  supported_segment x =
      host.eq x (float 1 4)
      || (host.eq x (float 1 2)
          || (host.eq x (float 3 4)
              || (host.eq x (float 1 1) || (host.eq x (float 3 2) || host.eq x (float 2 1)))))

  abbrev pub known_precision : String → Bool
  known_precision p =
      texts_equal p "float32" || (texts_equal p "float16" || texts_equal p "bfloat16")

  unfoldable pub check_htdemucs : HtDemucsConfig host.Float → Result (Unit {0})
  check_htdemucs c = do
    raise_if (host.le c.segment_seconds (float 0 1))
        (value_error "segment_seconds must be greater than zero")
    raise_if (not (below (float 0 1) c.overlap (float 1 1)))
        (value_error "overlap must be between zero and one")
    raise_if (not (between (float 0 1) c.vocal_reduction (float 1 1)))
        (value_error "vocal_reduction must be between 0.0 and 1.0")

  unfoldable pub check_convtasnet : ConvTasNetLyricsConfig host.Float → Result (Unit {0})
  check_convtasnet c = do
    raise_if (host.le c.segment_seconds (float 0 1))
        (value_error "segment_seconds must be greater than zero")
    raise_if (not (between (float 0 1) c.vocal_reduction (float 1 1)))
        (value_error "vocal_reduction must be between 0.0 and 1.0")
    raise_if (not (nonneg c.vocal_source_index) || not (nonneg c.accompaniment_source_index))
        (value_error "source indexes must be zero or greater")

  unfoldable pub check_mdx23c : Mdx23CVocalsConfig host.Float → Result (Unit {0})
  check_mdx23c c = raise_first_failure (
      (
        supported_segment c.segment_seconds,
        "segment_seconds must be one of (0.25, 0.5, 0.75, 1.0, 1.5, 2.0)",
      )
      ∷ (below (float 0 1) c.overlap (float 1 2), "overlap must be between 0.0 and less than 0.5")
      ∷ (same_int c.batch_size (pos 1), "batch_size must be 1 for paced interactive processing")
      ∷ (
        between (float 0 1) c.vocal_reduction (float 1 1),
        "vocal_reduction must be between 0.0 and 1.0",
      )
      ∷ (known_precision c.precision, "precision must be float32, float16, or bfloat16")
      ∷ [])

  -- the settings that each factory closes over
  abbrev pub htdemucs_config : Settings host.Float → HtDemucsConfig host.Float
  htdemucs_config s = record {
    model_name = s.demucs_model;
    device = s.demucs_device;
    segment_seconds = s.demucs_segment_seconds;
    overlap = s.demucs_overlap;
    shifts = s.demucs_shifts;
    vocal_reduction = s.demucs_vocal_reduction;
  }

  abbrev pub convtasnet_config : Settings host.Float → ConvTasNetLyricsConfig host.Float
  convtasnet_config s = record {
    model_path = s.convtasnet_model_path;
    device = s.convtasnet_device;
    segment_seconds = s.convtasnet_segment_seconds;
    vocal_reduction = s.convtasnet_vocal_reduction;
    vocal_source_index = s.convtasnet_vocal_source_index;
    accompaniment_source_index = s.convtasnet_accompaniment_source_index;
  }

  abbrev pub mdx23c_config : Settings host.Float → Mdx23CVocalsConfig host.Float
  mdx23c_config s = record {
    config_path = s.mdx23c_config_path;
    checkpoint_path = s.mdx23c_checkpoint_path;
    device = s.mdx23c_device;
    segment_seconds = s.mdx23c_segment_seconds;
    overlap = s.mdx23c_overlap;
    batch_size = s.mdx23c_batch_size;
    vocal_reduction = s.mdx23c_vocal_reduction;
    precision = s.mdx23c_precision;
  }

  abbrev delay_factory : Result (ProcessorConfig host.Float)
  delay_factory = host.div (float 5 1) (float 1000 1) >>= λ seconds. ok (delay_passthrough seconds)

  abbrev centre_factory : Settings host.Float → Result (ProcessorConfig host.Float)
  centre_factory s =
      raise_if (not (between (float 0 1) s.centre_reduction (float 1 1)))
        (value_error "centre_reduction must be between 0.0 and 1.0")
      >> ok (stereo_centre_reduction s.centre_reduction)

  -- `_factories.get(name)`, called
  unfoldable pub factory :
      Settings host.Float → String → Option (Result (ProcessorConfig host.Float))
  unfolding check_htdemucs check_convtasnet check_mdx23c
  factory s name =
      if texts_equal name "passthrough"
      then some (ok passthrough)
      else if texts_equal name "delay-passthrough"
      then some delay_factory
      else if texts_equal name "null"
      then some (ok null_processor)
      else if texts_equal name "stereo-centre-reduction"
      then some (centre_factory s)
      else if texts_equal name "htdemucs-vocals"
      then some (check_htdemucs (htdemucs_config s) >> ok (htdemucs_vocals (htdemucs_config s)))
      else if texts_equal name "convtasnet-lyrics-causal"
      then some
          (check_convtasnet (convtasnet_config s) >> ok (convtasnet_lyrics (convtasnet_config s)))
      else if texts_equal name "mdx23c-vocals"
      then some (check_mdx23c (mdx23c_config s) >> ok (mdx23c_vocals (mdx23c_config s)))
      else none

  -- `ProcessorRegistry(settings).create(name)`
  unfoldable pub create : Settings host.Float → String → Result (ProcessorConfig host.Float)
  unfolding factory
  create s name = elim (factory s name) [ none ↦ err (unknown_processor name) | some made ↦ made ]
