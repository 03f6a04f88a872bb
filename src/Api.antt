-- ===== src/Api.antt =====
-- app/main.py: the requests that change the settings, and how they become updates of the service.
pub mod Flatten
pub mod Routes
mod Tests
use karaoke_anything.Prelude.{
  String, Bool, true, false, Option, none, some, List, [], ◌∷◌, ◌++◌, if◌then◌else◌, texts_equal,
}
use karaoke_anything.Prelude.Int.{ℤ, same_int}
use karaoke_anything.Errors.{
  Exception, Result, ok, err, kany_error, index_error, zero_division, overflow_error,
  cancelled_error, type_error, os_error,
}
use karaoke_anything.Host.{Host}
use karaoke_anything.Config.{Settings}
use karaoke_anything.Service.Settings
use karaoke_anything.Service.Settings.{Update}
use karaoke_anything.Service.State.{AudioProcessor, Network, TromboneService}
use karaoke_anything.Service.Lifecycle.{Applied, update_runtime_settings}

-- The bodies of the requests. The bounds that pydantic checks on single fields are not repeated here.
pub record DemucsSettingsUpdate (F : Type 0) : Type 0 where
  pub model : Option String
  pub device : Option String
  pub segment_seconds : Option F
  pub overlap : Option F
  pub shifts : Option ℤ
  pub vocal_reduction : Option F

pub record ConvTasNetSettingsUpdate (F : Type 0) : Type 0 where
  pub model_path : Option String
  pub device : Option String
  pub segment_seconds : Option F
  pub vocal_reduction : Option F
  pub vocal_source_index : Option ℤ
  pub accompaniment_source_index : Option ℤ

pub record CentreReductionSettingsUpdate (F : Type 0) : Type 0 where
  pub reduction : Option F

pub record Mdx23CSettingsUpdate (F : Type 0) : Type 0 where
  pub device : Option String
  pub segment_seconds : Option F
  pub overlap : Option F
  pub batch_size : Option ℤ
  pub vocal_reduction : Option F
  pub precision : Option String

pub record RuntimeSettingsUpdate (F : Type 0) : Type 0 where
  pub processor : Option String
  pub demucs : Option (DemucsSettingsUpdate F)
  pub convtasnet : Option (ConvTasNetSettingsUpdate F)
  pub mdx23c : Option (Mdx23CSettingsUpdate F)
  pub centre_reduction : Option (CentreReductionSettingsUpdate F)

-- `if value is not None and value != current: updates[name] = value`
abbrev pub flatten_field :
    {F A : Type 0} → (A → A → Bool) → (A → Update F) → Option A → A → List (Update F)
flatten_field equal update none current = []
flatten_field equal update (some value) current =
    if equal value current then [] else update value ∷ []

-- `if group_payload is None: return`
abbrev pub flatten_group : {F G : Type 0} → (G → List (Update F)) → Option G → List (Update F)
flatten_group fields none = []
flatten_group fields (some group) = fields group

-- `except (ValueError, RuntimeError)`
abbrev pub is_client_error : Exception → Bool
is_client_error index_error = false
is_client_error zero_division = false
is_client_error overflow_error = false
is_client_error cancelled_error = false
is_client_error (type_error _) = false
is_client_error (os_error _) = false
is_client_error _ = true

-- what the request is answered with
pub data Response : Type 0 where
  unchanged : Response
  applied : Applied → Response
  -- status 400, and an exception that the route does not catch
  bad_request uncaught : Exception → Response

module _ (host : Host) (current : Settings host.Float) where
  abbrev pub text : (String → Update host.Float) → Option String → String → List (Update host.Float)
  text = flatten_field texts_equal

  abbrev pub number :
      (host.Float → Update host.Float) → Option host.Float → host.Float → List (Update host.Float)
  number = flatten_field host.eq

  abbrev pub integer : (ℤ → Update host.Float) → Option ℤ → ℤ → List (Update host.Float)
  integer = flatten_field same_int

  abbrev pub demucs_fields : DemucsSettingsUpdate host.Float → List (Update host.Float)
  demucs_fields g =
      text Update.demucs_model g.model current.demucs_model
      ++ (text Update.demucs_device g.device current.demucs_device
          ++ (number Update.demucs_segment_seconds g.segment_seconds current.demucs_segment_seconds
              ++ (number Update.demucs_overlap g.overlap current.demucs_overlap
                  ++ (integer Update.demucs_shifts g.shifts current.demucs_shifts
                      ++ number Update.demucs_vocal_reduction g.vocal_reduction
                          current.demucs_vocal_reduction))))

  abbrev pub convtasnet_fields : ConvTasNetSettingsUpdate host.Float → List (Update host.Float)
  convtasnet_fields g =
      text Update.convtasnet_model_path g.model_path current.convtasnet_model_path
      ++ (text Update.convtasnet_device g.device current.convtasnet_device
          ++ (number Update.convtasnet_segment_seconds g.segment_seconds
                current.convtasnet_segment_seconds
              ++ (number Update.convtasnet_vocal_reduction g.vocal_reduction
                    current.convtasnet_vocal_reduction
                  ++ (integer Update.convtasnet_vocal_source_index g.vocal_source_index
                        current.convtasnet_vocal_source_index
                      ++ integer Update.convtasnet_accompaniment_source_index
                          g.accompaniment_source_index
                          current.convtasnet_accompaniment_source_index))))

  abbrev pub mdx23c_fields : Mdx23CSettingsUpdate host.Float → List (Update host.Float)
  mdx23c_fields g =
      text Update.mdx23c_device g.device current.mdx23c_device
      ++ (number Update.mdx23c_segment_seconds g.segment_seconds current.mdx23c_segment_seconds
          ++ (number Update.mdx23c_overlap g.overlap current.mdx23c_overlap
              ++ (integer Update.mdx23c_batch_size g.batch_size current.mdx23c_batch_size
                  ++ (number Update.mdx23c_vocal_reduction g.vocal_reduction
                        current.mdx23c_vocal_reduction
                      ++ text Update.mdx23c_precision g.precision current.mdx23c_precision))))

  abbrev pub centre_fields : CentreReductionSettingsUpdate host.Float → List (Update host.Float)
  centre_fields g = number Update.centre_reduction g.reduction current.centre_reduction

  -- `_flatten_updates`
  unfoldable pub flatten_updates : RuntimeSettingsUpdate host.Float → List (Update host.Float)
  flatten_updates payload =
      text Update.processor payload.processor current.processor
      ++ (flatten_group demucs_fields payload.demucs
          ++ (flatten_group convtasnet_fields payload.convtasnet
              ++ (flatten_group mdx23c_fields payload.mdx23c
                  ++ flatten_group centre_fields payload.centre_reduction)))

module _ {Memory : Type 0} (host : Host) (audio : AudioProcessor host.Float Memory)
    (sendto : Network) where
  abbrev pub respond : Result Applied → Response
  respond (ok result) = applied result
  respond (err e) = if is_client_error e then bad_request e else uncaught e

  abbrev pub apply_updates :
      List (Update host.Float)
      → TromboneService host.Float Memory
      → Response × TromboneService host.Float Memory
  apply_updates [] s = (unchanged, s)
  apply_updates (u ∷ updates) s =
      let done = update_runtime_settings host audio sendto (u ∷ updates) s in
      (respond done.0, done.1)

  -- `_apply_settings`
  unfoldable pub apply_settings :
      RuntimeSettingsUpdate host.Float
      → TromboneService host.Float Memory
      → Response × TromboneService host.Float Memory
  unfolding flatten_updates
  apply_settings payload s = apply_updates (flatten_updates host s.settings payload) s
