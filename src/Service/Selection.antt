-- ===== src/Service/Selection.antt =====
-- app/audio_trombone/service.py: `select_processor`, and what it builds after a live update.
use karaoke_anything.Prelude.{◌≡◌, refl, sym, ap, ap₂, ◌∙◌, subst, String, true, false, List}
use karaoke_anything.Errors.{ok, ok-injective}
use karaoke_anything.Host.{Host}
use karaoke_anything.Config.{Settings}
use karaoke_anything.Registry.{ProcessorConfig, create, factory}
use karaoke_anything.Service.Settings.{Update, replace}
use karaoke_anything.Service.Validated.{Ordered}
use karaoke_anything.Service.State.{AudioProcessor, Network, TromboneService}
use karaoke_anything.Service.Lifecycle.{
  Applied, install, rename, apply_live, update_runtime_settings, select_processor,
}
use karaoke_anything.Service.Cases.{Updates, Updates-cases, Select, Select-cases}
use karaoke_anything.Service.Coherence.{Coherent, live-built}

module _ {Memory : Type 0} (host : Host) (audio : AudioProcessor host.Float Memory) where
  -- `select_processor`, when it returns, leaves the processor that the settings describe, if the
  -- registry was made from the current settings.
  pub select-Coherent :
      (sendto : Network) (name : String) (s t : TromboneService host.Float Memory)
      → s.registry_settings ≡ s.settings
      → select_processor host audio sendto name s ≡ (ok tt, t)
      → Coherent host audio t × (t.settings.processor ≡ name)
  unfolding create factory
  select-Coherent sendto name s t fresh h = elim (Select-cases host audio sendto name s) [
    | Select.refused e q ↦ cc (h, q)
    | Select.unflushed config w e _ _ q ↦ cc (h, q)
    | Select.unstopped config memory w e _ _ q ↦ cc (h, q)
    | Select.selected config memory w made sends q ↦
        let same : rename name (install config memory w) ≡ t = cc (h, q) in
        let built : create host w.settings name ≡ ok config =
          subst (λ z. create host z name ≡ ok config) (fresh ∙ sym sends.settings_same) made in
        subst
          (λ (z : TromboneService host.Float Memory).
            Coherent host audio z × (z.settings.processor ≡ name))
          same (built, refl)
  ]

  selected_again :
      (sendto : Network) (t u : TromboneService host.Float Memory)
      → select_processor host audio sendto t.settings.processor t ≡ (ok tt, u)
      → (config : ProcessorConfig host.Float)
      → create host t.registry_settings t.settings.processor ≡ ok config
      → (u.processor ≡ config) × (u.settings ≡ t.settings)
  selected_again sendto t u h config before =
      elim (Select-cases host audio sendto t.settings.processor t) [
        | Select.refused e q ↦ cc (h, q)
        | Select.unflushed new w e _ _ q ↦ cc (h, q)
        | Select.unstopped new memory w e _ _ q ↦ cc (h, q)
        | Select.selected new memory w made sends q ↦
            let same : rename t.settings.processor (install new memory w) ≡ u = cc (h, q) in
            (
              ap (λ z. z.processor) (sym same) ∙ ok-injective (sym made ∙ before),
              ap (λ z. z.settings) (sym same)
                  ∙ ap (λ (z : Settings host.Float). record z { processor = t.settings.processor })
                      sends.settings_same,
            )
      ]

  -- A setting that was changed while the processor runs is not kept by the registry: if the same
  -- processor is selected again, the new one has the attributes from before the change, although the
  -- settings still show the change.
  pub select_after_live :
      (sendto : Network) (updates : List (Update host.Float))
      (s t u : TromboneService host.Float Memory) (applied : Applied)
      → Ordered host
      → Coherent host audio s
      → s.registry_settings ≡ s.settings
      → update_runtime_settings host audio sendto updates s ≡ (ok applied, t)
      → applied.processor_restarted ≡ false
      → select_processor host audio sendto t.settings.processor t ≡ (ok tt, u)
      → (u.processor ≡ s.processor) × (u.settings ≡ replace updates s.settings)
  select_after_live sendto updates s t u applied ordered coherent fresh h live again =
      elim (Updates-cases host audio sendto updates s) [
        | Updates.refused e q ↦ cc (h, q)
        | Updates.unflushed w e _ q ↦ cc (h, q)
        | Updates.unstopped config memory w e _ _ q ↦ cc (h, q)
        | Updates.restarted config memory w _ _ q ↦
            let restarted : applied.processor_restarted ≡ true = cc (h, q) in cc (restarted, live)
        | Updates.live rule known valid found q ↦
            let same : (apply_live host audio rule (replace updates s.settings) s).1 ≡ t =
              cc (h, q) in
            let kept =
              (live-built host audio ordered updates s rule coherent known valid found).1 in
            let registry : t.registry_settings ≡ s.settings =
              ap (λ z. z.registry_settings) (sym same) ∙ fresh in
            let settings : t.settings ≡ replace updates s.settings =
              ap (λ z. z.settings) (sym same) in
            let name : t.settings.processor ≡ s.settings.processor =
              ap (λ z. z.processor) settings ∙ kept in
            let before = ap₂ (create host) registry name ∙ coherent in
            let (processor, unchanged) = selected_again sendto t u again s.processor before in
            (processor, unchanged ∙ settings)
      ]
