-- ===== src/Service/Settings.antt =====
-- app/audio_trombone/service.py: the settings that a client may change, their validation, and the
-- rules for those that are changed while the processor runs.
use Prim.Native.Char.{code}
use karaoke_anything.Prelude.{
  ℕ, String, Bool, false, not, ◌&&◌, ◌||◌, ◌==◌, leb, List, [], ◌∷◌, texts_equal,
}
use karaoke_anything.Prelude.Int.{ℤ, pos, nonneg, same_int}
use karaoke_anything.Errors.{Result, value_error, ◌>>◌, raise_if}
use karaoke_anything.Host.{Host}
use karaoke_anything.Config.{Settings}
use karaoke_anything.Registry.{
  raise_first_failure, float, between, below, supported_segment, known_precision,
}

-- One item of the dictionary `updates`: a `Settings` attribute of `RUNTIME_SETTING_GROUPS` with a
-- value of the attribute's type, or a key that is not one.
pub data Update (F : Type 0) : Type 0 where
  processor demucs_model demucs_device convtasnet_model_path convtasnet_device : String → Update F
  mdx23c_device mdx23c_precision : String → Update F
  demucs_segment_seconds demucs_overlap demucs_vocal_reduction : F → Update F
  convtasnet_segment_seconds convtasnet_vocal_reduction : F → Update F
  mdx23c_segment_seconds mdx23c_overlap mdx23c_vocal_reduction centre_reduction : F → Update F
  demucs_shifts convtasnet_vocal_source_index : ℤ → Update F
  convtasnet_accompaniment_source_index mdx23c_batch_size : ℤ → Update F
  unknown : String → Update F

module _ {F : Type 0} where
  -- `_ALL_SETTING_FIELDS`
  abbrev pub unknown_keys : List (Update F) → List String
  unknown_keys [] = []
  unknown_keys (unknown key ∷ updates) = key ∷ unknown_keys updates
  unknown_keys (_ ∷ updates) = unknown_keys updates

  -- `replace(settings, key=value)`
  unfoldable pub apply : Update F → Settings F → Settings F
  apply (processor v) s = record s { processor = v }
  apply (demucs_model v) s = record s { demucs_model = v }
  apply (demucs_device v) s = record s { demucs_device = v }
  apply (demucs_segment_seconds v) s = record s { demucs_segment_seconds = v }
  apply (demucs_overlap v) s = record s { demucs_overlap = v }
  apply (demucs_shifts v) s = record s { demucs_shifts = v }
  apply (demucs_vocal_reduction v) s = record s { demucs_vocal_reduction = v }
  apply (convtasnet_model_path v) s = record s { convtasnet_model_path = v }
  apply (convtasnet_device v) s = record s { convtasnet_device = v }
  apply (convtasnet_segment_seconds v) s = record s { convtasnet_segment_seconds = v }
  apply (convtasnet_vocal_reduction v) s = record s { convtasnet_vocal_reduction = v }
  apply (convtasnet_vocal_source_index v) s = record s { convtasnet_vocal_source_index = v }
  apply (convtasnet_accompaniment_source_index v) s = record s {
    convtasnet_accompaniment_source_index = v;
  }
  apply (mdx23c_device v) s = record s { mdx23c_device = v }
  apply (mdx23c_segment_seconds v) s = record s { mdx23c_segment_seconds = v }
  apply (mdx23c_overlap v) s = record s { mdx23c_overlap = v }
  apply (mdx23c_batch_size v) s = record s { mdx23c_batch_size = v }
  apply (mdx23c_vocal_reduction v) s = record s { mdx23c_vocal_reduction = v }
  apply (mdx23c_precision v) s = record s { mdx23c_precision = v }
  apply (centre_reduction v) s = record s { centre_reduction = v }
  apply (unknown key) s = s

  -- `replace(settings, **updates)`
  unfoldable pub replace : List (Update F) → Settings F → Settings F
  replace [] s = s
  replace (u ∷ updates) s = replace updates (apply u s)

  -- the updates of `restore_startup_settings`
  unfoldable pub all_fields : Settings F → List (Update F)
  all_fields s =
      processor s.processor
      ∷ demucs_model s.demucs_model
      ∷ demucs_device s.demucs_device
      ∷ demucs_segment_seconds s.demucs_segment_seconds
      ∷ demucs_overlap s.demucs_overlap
      ∷ demucs_shifts s.demucs_shifts
      ∷ demucs_vocal_reduction s.demucs_vocal_reduction
      ∷ convtasnet_model_path s.convtasnet_model_path
      ∷ convtasnet_device s.convtasnet_device
      ∷ convtasnet_segment_seconds s.convtasnet_segment_seconds
      ∷ convtasnet_vocal_reduction s.convtasnet_vocal_reduction
      ∷ convtasnet_vocal_source_index s.convtasnet_vocal_source_index
      ∷ convtasnet_accompaniment_source_index s.convtasnet_accompaniment_source_index
      ∷ mdx23c_device s.mdx23c_device
      ∷ mdx23c_segment_seconds s.mdx23c_segment_seconds
      ∷ mdx23c_overlap s.mdx23c_overlap
      ∷ mdx23c_batch_size s.mdx23c_batch_size
      ∷ mdx23c_vocal_reduction s.mdx23c_vocal_reduction
      ∷ mdx23c_precision s.mdx23c_precision
      ∷ centre_reduction s.centre_reduction
      ∷ []

-- the code points that `str.strip` removes
abbrev is_space : ℕ → Bool
is_space c =
    (leb 9 c && leb c 13)
    || ((leb 28 c && leb c 32)
        || (c == 133
            || (c == 160
                || (c == 5760
                    || ((leb 8192 c && leb c 8202)
                        || (c == 8232
                            || (c == 8233 || (c == 8239 || (c == 8287 || c == 12288)))))))))

-- `bool(text.strip())`
abbrev pub has_text : String → Bool
has_text String.[] = false
has_text (String.◌∷◌ c rest) = not (is_space (code c)) || has_text rest

module _ (host : Host) where
  abbrev positive : host.Float → Bool
  positive x = host.lt (float host 0 1) x

  abbrev unit_interval : host.Float → Bool
  unit_interval x = between host (float host 0 1) x (float host 1 1)

  abbrev pub demucs_checks : Settings host.Float → List (Bool × String)
  demucs_checks s =
      (has_text s.demucs_model, "demucs model must not be empty")
      ∷ (positive s.demucs_segment_seconds, "Demucs segment_seconds must be greater than zero")
      ∷ (
        below host (float host 0 1) s.demucs_overlap (float host 1 1),
        "Demucs overlap must be between 0.0 and less than 1.0",
      )
      ∷ (nonneg s.demucs_shifts, "Demucs shifts must be zero or greater")
      ∷ (
        unit_interval s.demucs_vocal_reduction,
        "Demucs vocal_reduction must be between 0.0 and 1.0",
      )
      ∷ []

  unfoldable pub validate_demucs_settings : Settings host.Float → Result (Unit {0})
  validate_demucs_settings s = raise_first_failure (demucs_checks s)

  abbrev pub convtasnet_checks : Settings host.Float → List (Bool × String)
  convtasnet_checks s =
      (has_text s.convtasnet_model_path, "ConvTasNet model_path must not be empty")
      ∷ (
        positive s.convtasnet_segment_seconds,
        "ConvTasNet segment_seconds must be greater than zero",
      )
      ∷ (
        unit_interval s.convtasnet_vocal_reduction,
        "ConvTasNet vocal_reduction must be between 0.0 and 1.0",
      )
      ∷ (
        nonneg s.convtasnet_vocal_source_index,
        "ConvTasNet vocal_source_index must be zero or greater",
      )
      ∷ (
        nonneg s.convtasnet_accompaniment_source_index,
        "ConvTasNet accompaniment_source_index must be zero or greater",
      )
      ∷ (
        not (same_int s.convtasnet_vocal_source_index s.convtasnet_accompaniment_source_index),
        "ConvTasNet vocal and accompaniment source indexes must differ",
      )
      ∷ []

  unfoldable pub validate_convtasnet_settings : Settings host.Float → Result (Unit {0})
  validate_convtasnet_settings s = raise_first_failure (convtasnet_checks s)

  abbrev pub mdx23c_checks : Settings host.Float → List (Bool × String)
  mdx23c_checks s =
      (
        supported_segment host s.mdx23c_segment_seconds,
        "MDX23C segment_seconds must be one of 0.25, 0.5, 0.75, 1.0, 1.5, 2.0",
      )
      ∷ (
        below host (float host 0 1) s.mdx23c_overlap (float host 1 2),
        "MDX23C overlap must be between 0.0 and less than 0.5",
      )
      ∷ (same_int s.mdx23c_batch_size (pos 1), "MDX23C batch_size must be 1")
      ∷ (
        unit_interval s.mdx23c_vocal_reduction,
        "MDX23C vocal_reduction must be between 0.0 and 1.0",
      )
      ∷ (
        known_precision host s.mdx23c_precision,
        "MDX23C precision must be float32, float16, or bfloat16",
      )
      ∷ []

  unfoldable pub validate_mdx23c_settings : Settings host.Float → Result (Unit {0})
  validate_mdx23c_settings s = raise_first_failure (mdx23c_checks s)

  unfoldable pub validate_runtime_settings : Settings host.Float → Result (Unit {0})
  unfolding validate_demucs_settings validate_convtasnet_settings validate_mdx23c_settings
  validate_runtime_settings s = do
    raise_if (texts_equal s.processor "") (value_error "processor must not be empty")
    validate_demucs_settings s
    validate_convtasnet_settings s
    validate_mdx23c_settings s
    raise_if (not (unit_interval s.centre_reduction))
        (value_error "centre_reduction must be between 0.0 and 1.0")
