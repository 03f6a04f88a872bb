-- ===== src/Service/Live.antt =====
-- app/audio_trombone/service.py: `_LiveApplyRule`, the settings that reach the running processor
-- without a new one.
use karaoke_anything.Prelude.{
  String, Bool, false, ◌&&◌, Option, none, some, List, [], ◌∷◌, if◌then◌else◌, texts_equal,
}
use karaoke_anything.Config.{Settings}
use karaoke_anything.Registry.{
  ProcessorConfig, htdemucs_vocals, convtasnet_lyrics, mdx23c_vocals, stereo_centre_reduction,
  name_of,
}
use karaoke_anything.Service.Settings.{Update}

pub record LiveApplyRule : Type 0 where
  pub setting_key : String
  pub processor_name : String
  pub attribute : String
  pub applies_from : String

abbrev pub live_apply_rules : List LiveApplyRule
live_apply_rules =
    record {
      setting_key = "demucs_vocal_reduction";
      processor_name = "htdemucs-vocals";
      attribute = "vocal_reduction";
      applies_from = "next segment";
    }
    ∷ record {
      setting_key = "mdx23c_vocal_reduction";
      processor_name = "mdx23c-vocals";
      attribute = "vocal_reduction";
      applies_from = "next segment";
    }
    ∷ record {
      setting_key = "convtasnet_vocal_reduction";
      processor_name = "convtasnet-lyrics-causal";
      attribute = "vocal_reduction";
      applies_from = "next segment";
    }
    ∷ record {
      setting_key = "centre_reduction";
      processor_name = "stereo-centre-reduction";
      attribute = "centre_reduction";
      applies_from = "next packet";
    }
    ∷ []

module _ {F : Type 0} where
  -- the key of an update
  abbrev pub key_of : Update F → String
  key_of (Update.processor _) = "processor"
  key_of (Update.demucs_model _) = "demucs_model"
  key_of (Update.demucs_device _) = "demucs_device"
  key_of (Update.demucs_segment_seconds _) = "demucs_segment_seconds"
  key_of (Update.demucs_overlap _) = "demucs_overlap"
  key_of (Update.demucs_shifts _) = "demucs_shifts"
  key_of (Update.demucs_vocal_reduction _) = "demucs_vocal_reduction"
  key_of (Update.convtasnet_model_path _) = "convtasnet_model_path"
  key_of (Update.convtasnet_device _) = "convtasnet_device"
  key_of (Update.convtasnet_segment_seconds _) = "convtasnet_segment_seconds"
  key_of (Update.convtasnet_vocal_reduction _) = "convtasnet_vocal_reduction"
  key_of (Update.convtasnet_vocal_source_index _) = "convtasnet_vocal_source_index"
  key_of (Update.convtasnet_accompaniment_source_index _) = "convtasnet_accompaniment_source_index"
  key_of (Update.mdx23c_device _) = "mdx23c_device"
  key_of (Update.mdx23c_segment_seconds _) = "mdx23c_segment_seconds"
  key_of (Update.mdx23c_overlap _) = "mdx23c_overlap"
  key_of (Update.mdx23c_batch_size _) = "mdx23c_batch_size"
  key_of (Update.mdx23c_vocal_reduction _) = "mdx23c_vocal_reduction"
  key_of (Update.mdx23c_precision _) = "mdx23c_precision"
  key_of (Update.centre_reduction _) = "centre_reduction"
  key_of (Update.unknown key) = key

  -- `hasattr(processor, attribute)`, for the attributes of the rules
  unfoldable pub has_attribute : ProcessorConfig F → String → Bool
  has_attribute (htdemucs_vocals _) a = texts_equal a "vocal_reduction"
  has_attribute (convtasnet_lyrics _) a = texts_equal a "vocal_reduction"
  has_attribute (mdx23c_vocals _) a = texts_equal a "vocal_reduction"
  has_attribute (stereo_centre_reduction _) a = texts_equal a "centre_reduction"
  has_attribute _ a = false

  -- `setattr(processor, attribute, value)`, for an attribute that the processor has
  unfoldable pub set_attribute : String → F → ProcessorConfig F → ProcessorConfig F
  set_attribute a v (htdemucs_vocals c) = htdemucs_vocals (record c { vocal_reduction = v })
  set_attribute a v (convtasnet_lyrics c) = convtasnet_lyrics (record c { vocal_reduction = v })
  set_attribute a v (mdx23c_vocals c) = mdx23c_vocals (record c { vocal_reduction = v })
  set_attribute a v (stereo_centre_reduction c) = stereo_centre_reduction v
  set_attribute a v c = c

  -- `getattr(candidate, rule.setting_key)`, for the keys of the rules
  unfoldable pub setting : String → Settings F → F
  setting key s =
      if texts_equal key "demucs_vocal_reduction"
      then s.demucs_vocal_reduction
      else if texts_equal key "mdx23c_vocal_reduction"
      then s.mdx23c_vocal_reduction
      else if texts_equal key "convtasnet_vocal_reduction"
      then s.convtasnet_vocal_reduction
      else s.centre_reduction

  unfoldable pub matches : LiveApplyRule → String → ProcessorConfig F → Bool
  unfolding has_attribute
  matches rule key processor =
      texts_equal key rule.setting_key
      && (texts_equal (name_of processor) rule.processor_name
          && has_attribute processor rule.attribute)

  unfoldable pub first_match :
      List LiveApplyRule → String → ProcessorConfig F → Option LiveApplyRule
  unfolding matches
  first_match [] key processor = none
  first_match (rule ∷ rules) key processor =
      let rest = first_match rules key processor in
      if matches rule key processor then some rule else rest

  unfoldable pub find_live_apply_rule : List (Update F) → ProcessorConfig F → Option LiveApplyRule
  unfolding first_match
  find_live_apply_rule (update ∷ []) processor =
      first_match live_apply_rules (key_of update) processor
  find_live_apply_rule _ processor = none
