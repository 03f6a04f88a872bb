-- ===== src/Tools/Checkpoint/Tests.antt =====
-- app/audio_trombone/tools/validate_mdx23c.py: small checkpoints.
use karaoke_anything.Prelude.{◌≡◌, refl, true, [], ◌∷◌, All}
use karaoke_anything.Errors.{ok, err, value_error}
use karaoke_anything.Tools.Checkpoint.{
  name_key, mapping, tensor, nil, entry, StateDict, find, unwrap_checkpoint, text_keys,
  validate_state_mapping, any_prefixed, any_plain, strip_module_prefix, normalise_state_dict,
}
use karaoke_anything.Tools.Checkpoint.RoundTrip.{
  in_model, saved, IsPlain, normalise_state_dict-saved,
}

abbrev state : StateDict
state = ("conv.weight", tensor 1) ∷ ("conv.bias", tensor 2) ∷ []

state-IsPlain : All IsPlain state
state-IsPlain = ((refl, refl, refl), ((refl, refl, refl), tt))

normalise_state_dict-saved_example : normalise_state_dict (saved in_model true state) ≡ ok state
normalise_state_dict-saved_example =
    normalise_state_dict-saved in_model true state (λ e. cc e) state-IsPlain

refuses_mixed :
    normalise_state_dict
      (mapping (entry (name_key "module.a") (tensor 1) (entry (name_key "b") (tensor 2) nil)))
    ≡ err (value_error "mixed 'module.' prefixes are not supported")
unfolding find unwrap_checkpoint text_keys validate_state_mapping any_prefixed any_plain
    strip_module_prefix normalise_state_dict
refuses_mixed = refl

refuses_two_wrappers :
    normalise_state_dict
      (mapping (entry (name_key "model") (tensor 1) (entry (name_key "state_dict") (tensor 2) nil)))
    ≡ err (value_error "ambiguous checkpoint wrappers")
unfolding find unwrap_checkpoint normalise_state_dict
refuses_two_wrappers = refl
