-- ===== src/Service/Validated.antt =====
-- app/audio_trombone/service.py and processors/registry.py: settings that pass the validation are
-- settings that every processor can be built from.
use karaoke_anything.Prelude.{
  subst, ◌≡◌, refl, sym, inl, inr, ◌⊎◌, String, Bool, true, false, not, List, [], ◌∷◌, All,
  texts_equal,
}
use karaoke_anything.Errors.{ok, err, value_error, unknown_processor, >>=-eq-ok, raise_if}
use karaoke_anything.Host.{Host}
use karaoke_anything.Config.{Settings}
use karaoke_anything.Registry.{
  ProcessorConfig, passthrough, delay_passthrough, null_processor, stereo_centre_reduction,
  htdemucs_vocals, convtasnet_lyrics, mdx23c_vocals, name_of, raise_first_failure, float,
  check_htdemucs, check_convtasnet, check_mdx23c, htdemucs_config, convtasnet_config, mdx23c_config,
  factory, create, between,
}
use karaoke_anything.Registry.Created.{
  names, Named, Named-cases, created, configured, unlisted_refused,
}
use karaoke_anything.Service.Settings.{
  validate_runtime_settings, validate_demucs_settings, validate_convtasnet_settings,
  validate_mdx23c_settings, demucs_checks, convtasnet_checks, mdx23c_checks,
}

-- What the validation relies on: a float above zero is not below or equal to it, and 5.0 can be
-- divided by 1000.0.
pub record Ordered (host : Host) : Type 0 where
  pub above_zero :
      (x : host.Float) → host.lt (float host 0 1) x ≡ true → host.le x (float host 0 1) ≡ false
  pub delay : (seconds : host.Float) × (host.div (float host 5 1) (float host 1000 1) ≡ ok seconds)

abbrev Passed : Bool × String → Type 0
Passed check = check.0 ≡ true

checks_pass :
    (checks : List (Bool × String)) → raise_first_failure checks ≡ ok tt → All Passed checks
checks_pass [] h = tt
checks_pass ((true, message) ∷ checks) h = (refl, checks_pass checks h)
checks_pass ((false, message) ∷ checks) h = cc

raise_if_passes :
    (b : Bool) (message : String) → raise_if b (value_error message) ≡ ok tt → b ≡ false
raise_if_passes true message h = cc
raise_if_passes false message h = refl

not-false : (b : Bool) → not b ≡ false → b ≡ true
not-false true h = refl
not-false false h = cc

module _ (host : Host) (ordered : Ordered host) (s : Settings host.Float) where
  htdemucs_passes :
      validate_demucs_settings host s ≡ ok tt → check_htdemucs host (htdemucs_config host s) ≡ ok tt
  unfolding validate_demucs_settings check_htdemucs
  htdemucs_passes h =
      let (_, (seconds, (overlap, (_, (vocal, _))))) = checks_pass (demucs_checks host s) h in
      rw (ordered.above_zero _ seconds, overlap, vocal) refl

  convtasnet_passes :
      validate_convtasnet_settings host s ≡ ok tt
      → check_convtasnet host (convtasnet_config host s) ≡ ok tt
  unfolding validate_convtasnet_settings check_convtasnet
  convtasnet_passes h =
      let (_, (seconds, (vocal, (first, (second, _))))) =
        checks_pass (convtasnet_checks host s) h in
      rw (ordered.above_zero _ seconds, vocal, first, second) refl

  mdx23c_passes :
      validate_mdx23c_settings host s ≡ ok tt → check_mdx23c host (mdx23c_config host s) ≡ ok tt
  unfolding validate_mdx23c_settings check_mdx23c
  mdx23c_passes h =
      let (seconds, (overlap, (batch, (vocal, (precision, _))))) =
        checks_pass (mdx23c_checks host s) h in
      rw (seconds, overlap, batch, vocal, precision) refl

  -- the parts of a successful validation
  validated :
      validate_runtime_settings host s ≡ ok tt
      → (validate_demucs_settings host s ≡ ok tt)
        × (validate_convtasnet_settings host s ≡ ok tt)
        × (validate_mdx23c_settings host s ≡ ok tt)
        × (between host (float host 0 1) s.centre_reduction (float host 1 1) ≡ true)
  unfolding validate_runtime_settings
  validated h =
      let (_, _, h1) =
        >>=-eq-ok
          (raise_if (texts_equal s.processor "") (value_error "processor must not be empty")) _ h in
      let (_, demucs, h2) = >>=-eq-ok (validate_demucs_settings host s) _ h1 in
      let (_, convtasnet, h3) = >>=-eq-ok (validate_convtasnet_settings host s) _ h2 in
      let (_, mdx23c, h4) = >>=-eq-ok (validate_mdx23c_settings host s) _ h3 in
      (
        demucs,
        convtasnet,
        mdx23c,
        not-false _ (raise_if_passes _ "centre_reduction must be between 0.0 and 1.0" h4),
      )

  abbrev pub Built : String → Type 0
  Built name =
      ((config : ProcessorConfig host.Float) × (create host s name ≡ ok config)
        × (name_of config ≡ name))
      ⊎ ((create host s name ≡ err (unknown_processor name))
          × All (λ key. texts_equal name key ≡ false) names)

  -- Settings that pass the validation build a processor of every class: the constructor succeeds for
  -- the name of the class, with the attributes that the settings describe.
  recreate :
      validate_runtime_settings host s ≡ ok tt
      → (before : Settings host.Float) (config : ProcessorConfig host.Float)
      → create host before (name_of config) ≡ ok config
      → create host s (name_of config) ≡ ok (configured host s config)
  unfolding create factory
  recreate valid before passthrough h = refl
  recreate valid before null_processor h = refl
  recreate valid before (delay_passthrough _) h = h
  recreate valid before (stereo_centre_reduction _) h =
      let (_, _, _, centre) = validated valid in rw centre refl
  recreate valid before (htdemucs_vocals _) h =
      let (checked, _, _, _) = validated valid in rw (htdemucs_passes checked) refl
  recreate valid before (convtasnet_lyrics _) h =
      let (_, checked, _, _) = validated valid in rw (convtasnet_passes checked) refl
  recreate valid before (mdx23c_vocals _) h =
      let (_, _, checked, _) = validated valid in rw (mdx23c_passes checked) refl

  -- A processor that could be built from some settings can be built from any valid ones.
  pub recreated :
      validate_runtime_settings host s ≡ ok tt
      → (before : Settings host.Float) (name : String) (config : ProcessorConfig host.Float)
      → create host before name ≡ ok config
      → create host s name ≡ ok (configured host s config)
  recreated valid before name config h =
      let (same, _) = created host before name config h in
      subst (λ key. create host s key ≡ ok (configured host s config)) same
        (recreate valid before config
          (subst (λ key. create host before key ≡ ok config) (sym same) h))

  -- Settings that pass the validation build every processor: for a name of the table the
  -- constructor succeeds, and the new processor has that name; any other name is refused as unknown.
  pub validated-create : validate_runtime_settings host s ≡ ok tt → (name : String) → Built name
  unfolding create factory
  validated-create valid name =
      let (demucs, convtasnet, mdx23c, centre) = validated valid in
      elim (Named-cases name) [
        | Named.is_passthrough e ↦ built passthrough (sym e) refl
        | Named.is_delay e ↦
            built (delay_passthrough ordered.delay.0) (sym e) (rw ordered.delay.1 refl)
        | Named.is_null e ↦ built null_processor (sym e) refl
        | Named.is_centre e ↦
            built (stereo_centre_reduction s.centre_reduction) (sym e) (rw centre refl)
        | Named.is_htdemucs e ↦
            built (htdemucs_vocals (htdemucs_config host s)) (sym e)
              (rw (htdemucs_passes demucs) refl)
        | Named.is_convtasnet e ↦
            built (convtasnet_lyrics (convtasnet_config host s)) (sym e)
              (rw (convtasnet_passes convtasnet) refl)
        | Named.is_mdx23c e ↦
            built (mdx23c_vocals (mdx23c_config host s)) (sym e) (rw (mdx23c_passes mdx23c) refl)
        | Named.is_unlisted others ↦ inr (unlisted_refused host s name others, others)
      ]
    where
      built :
          (config : ProcessorConfig host.Float)
          → name_of config ≡ name
          → create host s (name_of config) ≡ ok config
          → Built name
      built config same made =
          inl (config, subst (λ key. create host s key ≡ ok config) same made, same)
