-- ===== src/Service/Atomic.antt =====
-- app/audio_trombone/service.py: what an `update_runtime_settings` that raises leaves behind.
use karaoke_anything.Prelude.{◌≡◌, refl, subst, inl, inr, ◌⊎◌, List}
use karaoke_anything.Errors.{Exception, ok, err}
use karaoke_anything.Host.{Host}
use karaoke_anything.Registry.{create}
use karaoke_anything.Service.Settings.{Update, replace}
use karaoke_anything.Service.State.{AudioProcessor, Network, TromboneService}
use karaoke_anything.Service.Lifecycle.{install, adopt, update_runtime_settings}
use karaoke_anything.Service.Cases.{Updates, Updates-cases}

module _ {Memory : Type 0} (host : Host) (audio : AudioProcessor host.Float Memory) where
  -- the settings, the registry and the attributes of the processor are the same
  pub record Untouched (s t : TromboneService host.Float Memory) : Type 0 where
    pub settings_same : t.settings ≡ s.settings
    pub registry_same : t.registry_settings ≡ s.registry_settings
    pub processor_same : t.processor ≡ s.processor

  -- all three are those of the settings that the client asked for
  pub record Replaced (updates : List (Update host.Float)) (s t : TromboneService host.Float Memory)
      : Type 0 where
    pub settings_new : t.settings ≡ replace updates s.settings
    pub registry_new : t.registry_settings ≡ replace updates s.settings
    pub processor_new : create host t.settings t.settings.processor ≡ ok t.processor

  -- When `update_runtime_settings` raises, the settings, the registry and the processor's attributes
  -- are either all untouched or all those of the new settings.
  pub update_raises :
      (sendto : Network) (updates : List (Update host.Float))
      (s t : TromboneService host.Float Memory) (e : Exception)
      → update_runtime_settings host audio sendto updates s ≡ (err e, t)
      → Untouched s t ⊎ Replaced updates s t
  update_raises sendto updates s t e h = elim (Updates-cases host audio sendto updates s) [
    | Updates.refused x q ↦
        let same : s ≡ t = cc (h, q) in
        inl (
          subst (Untouched s) same
            (record { settings_same = refl; registry_same = refl; processor_same = refl }))
    | Updates.live rule _ _ _ q ↦ cc (h, q)
    | Updates.unflushed w x sends q ↦
        let same : w ≡ t = cc (h, q) in
        inl (
          subst (Untouched s) same (record {
            settings_same = sends.settings_same;
            registry_same = sends.registry_same;
            processor_same = sends.processor_same;
          }))
    | Updates.unstopped config memory w x made sends q ↦
        let same : adopt (replace updates s.settings) (install config memory w) ≡ t = cc (h, q) in
        inr (
          subst (Replaced updates s) same
            (record { settings_new = refl; registry_new = refl; processor_new = made }))
    | Updates.restarted config memory w _ _ q ↦ cc (h, q)
  ]
