-- ===== src/Service/Coherence.antt =====
-- app/audio_trombone/service.py: whether the active processor is the one that the settings describe.
use karaoke_anything.Prelude.{◌≡◌, refl, sym, ap, ◌∙◌, subst, some, List, [], ◌∷◌}
use karaoke_anything.Errors.{Result, ok}
use karaoke_anything.Host.{Host}
use karaoke_anything.Config.{Settings}
use karaoke_anything.Registry.{
  ProcessorConfig, passthrough, delay_passthrough, null_processor, stereo_centre_reduction,
  htdemucs_vocals, convtasnet_lyrics, mdx23c_vocals, create,
}
use karaoke_anything.Registry.Created.{configured, created}
use karaoke_anything.Service.Settings.{
  Update, replace, apply, unknown_keys, validate_runtime_settings,
}
use karaoke_anything.Service.Validated.{Ordered, recreated}
use karaoke_anything.Service.Live.{
  LiveApplyRule, find_live_apply_rule, first_match, matches, has_attribute, set_attribute, setting,
}
use karaoke_anything.Service.State.{AudioProcessor, Network, TromboneService}
use karaoke_anything.Service.Sends.{Sends}
use karaoke_anything.Service.Lifecycle.{
  Applied, install, adopt, apply_live, update_runtime_settings,
}
use karaoke_anything.Service.Cases.{Updates, Updates-cases}

some_injective : {A : Type 0} {a b : A} → some a ≡ some b → a ≡ b
some_injective h = cc

module _ (host : Host) where
  abbrev Matched :
      Update host.Float → Settings host.Float → ProcessorConfig host.Float → LiveApplyRule → Type 0
  Matched u s config rule =
      (configured host (apply u s) (configured host s config)
        ≡ set_attribute rule.attribute (setting rule.setting_key (apply u s))
            (configured host s config))
      × ((apply u s).processor ≡ s.processor)

  -- A live rule sets the one attribute that the new settings describe differently.
  live_matches :
      (u : Update host.Float) (s : Settings host.Float) (config : ProcessorConfig host.Float)
      (rule : LiveApplyRule)
      → unknown_keys (u ∷ []) ≡ []
      → find_live_apply_rule (u ∷ []) (configured host s config) ≡ some rule
      → Matched u s config rule
  unfolding apply find_live_apply_rule first_match matches has_attribute set_attribute setting
  live_matches (Update.unknown key) s config rule known h = cc
  live_matches (Update.demucs_vocal_reduction v) s (htdemucs_vocals c) rule known h =
      subst (Matched (Update.demucs_vocal_reduction v) s (htdemucs_vocals c)) (some_injective h)
        (refl, refl)
  live_matches (Update.convtasnet_vocal_reduction v) s (convtasnet_lyrics c) rule known h =
      subst (Matched (Update.convtasnet_vocal_reduction v) s (convtasnet_lyrics c))
        (some_injective h) (refl, refl)
  live_matches (Update.mdx23c_vocal_reduction v) s (mdx23c_vocals c) rule known h =
      subst (Matched (Update.mdx23c_vocal_reduction v) s (mdx23c_vocals c)) (some_injective h)
        (refl, refl)
  live_matches (Update.centre_reduction v) s (stereo_centre_reduction c) rule known h =
      subst (Matched (Update.centre_reduction v) s (stereo_centre_reduction c)) (some_injective h)
        (refl, refl)
  live_matches _ s passthrough rule known h = cc
  live_matches _ s null_processor rule known h = cc
  live_matches _ s (delay_passthrough _) rule known h = cc
  live_matches _ s (stereo_centre_reduction _) rule known h = cc
  live_matches _ s (htdemucs_vocals _) rule known h = cc
  live_matches _ s (convtasnet_lyrics _) rule known h = cc
  live_matches _ s (mdx23c_vocals _) rule known h = cc

  single :
      (updates : List (Update host.Float)) (config : ProcessorConfig host.Float)
      (rule : LiveApplyRule)
      → find_live_apply_rule updates config ≡ some rule
      → (u : Update host.Float) × (updates ≡ u ∷ [])
  unfolding find_live_apply_rule
  single [] config rule h = cc
  single (u ∷ []) config rule h = (u, refl)
  single (u ∷ v ∷ us) config rule h = cc

module _ {Memory : Type 0} (host : Host) (audio : AudioProcessor host.Float Memory) where
  -- The active processor is the one that the registry builds from the settings: its class is that of
  -- `settings.processor`, and its attributes are those that the settings describe.
  abbrev pub Coherent : TromboneService host.Float Memory → Type 0
  Coherent s = create host s.settings s.settings.processor ≡ ok s.processor

  Sends-Coherent : {s t : TromboneService host.Float Memory} → Sends s t → Coherent s → Coherent t
  Sends-Coherent {s} {t} sends h =
      subst (λ (z : Settings host.Float). create host z z.processor ≡ ok t.processor)
        (sym sends.settings_same) (h ∙ ap ok (sym sends.processor_same))

  -- the settings and the processor behind a live update
  pub live-built :
      Ordered host
      → (updates : List (Update host.Float)) (s : TromboneService host.Float Memory)
        (rule : LiveApplyRule)
      → Coherent s
      → unknown_keys updates ≡ []
      → validate_runtime_settings host (replace updates s.settings) ≡ ok tt
      → find_live_apply_rule updates s.processor ≡ some rule
      → Coherent (apply_live host audio rule (replace updates s.settings) s).1
        × ((replace updates s.settings).processor ≡ s.settings.processor)
  unfolding replace
  live-built ordered updates s rule h known valid found =
      let (u, one) = single host updates s.processor rule found in
      let (_, described) = created host s.settings s.settings.processor s.processor h in
      let known_one : unknown_keys (u ∷ []) ≡ [] = subst (λ us. unknown_keys us ≡ []) one known in
      let found_one : find_live_apply_rule (u ∷ []) (configured host s.settings s.processor)
          ≡ some rule =
        subst (λ c. find_live_apply_rule (u ∷ []) c ≡ some rule) (sym described)
          (subst (λ us. find_live_apply_rule us s.processor ≡ some rule) one found) in
      let (attribute, kept) = live_matches host u s.settings s.processor rule known_one found_one in
      let attribute_set : configured host (apply u s.settings) s.processor
          ≡ set_attribute rule.attribute (setting rule.setting_key (apply u s.settings))
              s.processor =
        subst
          (λ c.
            configured host (apply u s.settings) c
            ≡ set_attribute rule.attribute (setting rule.setting_key (apply u s.settings)) c)
          described attribute in
      let valid_one : validate_runtime_settings host (apply u s.settings) ≡ ok tt =
        subst (λ us. validate_runtime_settings host (replace us s.settings) ≡ ok tt) one valid in
      let made =
        recreated host ordered (apply u s.settings) valid_one s.settings s.settings.processor
          s.processor h in
      subst
        (λ us.
          Coherent (apply_live host audio rule (replace us s.settings) s).1
          × ((replace us s.settings).processor ≡ s.settings.processor))
        (sym one)
        (
          subst
              (λ key.
                create host (apply u s.settings) key
                ≡ ok (
                    set_attribute rule.attribute (setting rule.setting_key (apply u s.settings))
                      s.processor))
              (sym kept) (made ∙ ap ok attribute_set),
          kept,
        )

  -- Whatever `update_runtime_settings` is asked, and whether it returns or raises, if the active
  -- processor was the one that the settings describe, it is so behind the call.
  pub update-Coherent :
      Ordered host
      → (sendto : Network) (updates : List (Update host.Float))
        (s : TromboneService host.Float Memory)
      → Coherent s
      → Coherent (update_runtime_settings host audio sendto updates s).1
  update-Coherent ordered sendto updates s h = elim (Updates-cases host audio sendto updates s) [
    | Updates.refused e q ↦ by q h
    | Updates.live rule known valid found q ↦
        by q (live-built ordered updates s rule h known valid found).0
    | Updates.unflushed t e sends q ↦ by q (Sends-Coherent sends h)
    | Updates.unstopped config memory t e made sends q ↦ by q (adopted config memory t made)
    | Updates.restarted config memory t made sends q ↦ by q (adopted config memory t made)
  ]
    where
      by :
          {z y : Result Applied × TromboneService host.Float Memory}
          → z ≡ y
          → Coherent y.1
          → Coherent z.1
      by q k =
          subst (λ (z : Result Applied × TromboneService host.Float Memory). Coherent z.1) (sym q) k

      adopted :
          (config : ProcessorConfig host.Float) (memory : Memory)
          (t : TromboneService host.Float Memory)
          → create host (replace updates s.settings) (replace updates s.settings).processor
            ≡ ok config
          → Coherent (adopt (replace updates s.settings) (install config memory t))
      adopted config memory t made = made
