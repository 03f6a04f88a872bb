-- ===== src/Service/Cases.antt =====
-- app/audio_trombone/service.py: every way that `select_processor` and `update_runtime_settings` end.
use karaoke_anything.Prelude.{
  ◌≡◌, refl, ◌∙◌, inl, inr, String, true, some, Option-cases, List, [], ◌∷◌,
}
use karaoke_anything.Errors.{Exception, Result, ok, err, Result-cases}
use karaoke_anything.Host.{Host}
use karaoke_anything.Config.{Settings}
use karaoke_anything.Registry.{ProcessorConfig, create}
use karaoke_anything.Service.Settings.{Update, replace, unknown_keys, validate_runtime_settings}
use karaoke_anything.Service.Live.{LiveApplyRule, find_live_apply_rule}
use karaoke_anything.Service.State.{AudioProcessor, Network, TromboneService}
use karaoke_anything.Service.Egress.{flush_processor}
use karaoke_anything.Service.Sends.{Sends, flush-Sends}
use karaoke_anything.Service.Lifecycle.{
  Applied, install, adopt, rename, started, swap, select_processor, apply_live, restart_with,
  update_runtime_settings, reject_unknown,
}

module _ {F Memory : Type 0} (audio : AudioProcessor F Memory) (sendto : Network)
    (change : TromboneService F Memory → TromboneService F Memory) (config : ProcessorConfig F)
    (memory : Memory) (s : TromboneService F Memory) where
  -- the flush raises and the new processor is left aside, or it is in place and stopping the old one
  -- may raise
  pub data Swap (z : Result (Unit {0}) × TromboneService F Memory) : Type 0 where
    unflushed : (t : TromboneService F Memory) (e : Exception) → Sends s t → z ≡ (err e, t) → Swap z
    swapped :
        (t : TromboneService F Memory) (r : Result (Unit {0}))
        → Sends s t
        → z ≡ (r, change (install config memory t))
        → Swap z

  pub Swap-cases : Swap (swap audio sendto change config memory s)
  unfolding swap
  Swap-cases = elim (Result-cases (flush_processor audio sendto s).0) [
    | inl (_, flushed) ↦
        let t = (flush_processor audio sendto s).1 in
        swapped t (audio.stop t.processor t.memory).0 (flush-Sends audio sendto s) (rw flushed refl)
    | inr (e, raised) ↦
        unflushed (flush_processor audio sendto s).1 e (flush-Sends audio sendto s) (rw raised refl)
  ]

module _ {Memory : Type 0} (host : Host) (audio : AudioProcessor host.Float Memory)
    (sendto : Network) (name : String) (s : TromboneService host.Float Memory) where
  pub data Select (z : Result (Unit {0}) × TromboneService host.Float Memory) : Type 0 where
    -- the processor is unknown, cannot be built or does not start
    refused : (e : Exception) → z ≡ (err e, s) → Select z
    -- the output of the old processor cannot be flushed
    unflushed :
        (config : ProcessorConfig host.Float) (t : TromboneService host.Float Memory)
        (e : Exception)
        → create host s.registry_settings name ≡ ok config
        → Sends s t
        → z ≡ (err e, t)
        → Select z
    -- the new processor is in place, and the old one does not stop
    unstopped :
        (config : ProcessorConfig host.Float) (memory : Memory)
        (t : TromboneService host.Float Memory) (e : Exception)
        → create host s.registry_settings name ≡ ok config
        → Sends s t
        → z ≡ (err e, install config memory t)
        → Select z
    selected :
        (config : ProcessorConfig host.Float) (memory : Memory)
        (t : TromboneService host.Float Memory)
        → create host s.registry_settings name ≡ ok config
        → Sends s t
        → z ≡ (ok tt, rename name (install config memory t))
        → Select z

  pub Select-cases : Select (select_processor host audio sendto name s)
  unfolding select_processor
  Select-cases = elim (Result-cases (create host s.registry_settings name)) [
    | inr (e, failed) ↦ refused e (rw failed refl)
    | inl (config, made) ↦ elim (Result-cases (started audio config)) [
      | inr (e, failed) ↦ refused e (rw (made, failed) refl)
      | inl (memory, ready) ↦ elim (Swap-cases audio sendto (λ t. t) config memory s) [
        | Swap.unflushed t e sends q ↦ unflushed config t e made sends (rw (made, ready, q) refl)
        | swapped t (ok _) sends q ↦ selected config memory t made sends (rw (made, ready, q) refl)
        | swapped t (err e) sends q ↦
            unstopped config memory t e made sends (rw (made, ready, q) refl)
      ]
    ]
  ]

module _ {Memory : Type 0} (host : Host) (audio : AudioProcessor host.Float Memory)
    (sendto : Network) (updates : List (Update host.Float))
    (s : TromboneService host.Float Memory) where
  -- the settings that the client asks for
  abbrev pub candidate : Settings host.Float
  candidate = replace updates s.settings

  pub data Updates (z : Result Applied × TromboneService host.Float Memory) : Type 0 where
    refused : (e : Exception) → z ≡ (err e, s) → Updates z
    live :
        (rule : LiveApplyRule)
        → unknown_keys updates ≡ []
        → validate_runtime_settings host candidate ≡ ok tt
        → find_live_apply_rule updates s.processor ≡ some rule
        → z ≡ apply_live host audio rule candidate s
        → Updates z
    unflushed :
        (t : TromboneService host.Float Memory) (e : Exception)
        → Sends s t
        → z ≡ (err e, t)
        → Updates z
    unstopped :
        (config : ProcessorConfig host.Float) (memory : Memory)
        (t : TromboneService host.Float Memory) (e : Exception)
        → create host candidate candidate.processor ≡ ok config
        → Sends s t
        → z ≡ (err e, adopt candidate (install config memory t))
        → Updates z
    restarted :
        (config : ProcessorConfig host.Float) (memory : Memory)
        (t : TromboneService host.Float Memory)
        → create host candidate candidate.processor ≡ ok config
        → Sends s t
        → z ≡ (
          ok (record { processor_restarted = true; applies_from = "immediately" }),
          adopt candidate (install config memory t),
        )
        → Updates z

  restart-Updates :
      (z : Result Applied × TromboneService host.Float Memory)
      → z ≡ restart_with host audio sendto candidate s
      → Updates z
  unfolding restart_with
  restart-Updates z same = elim (Result-cases (create host candidate candidate.processor)) [
    | inr (e, failed) ↦ refused e (same ∙ rw failed refl)
    | inl (config, made) ↦ elim (Result-cases (started audio config)) [
      | inr (e, failed) ↦ refused e (same ∙ rw (made, failed) refl)
      | inl (memory, ready) ↦ elim (Swap-cases audio sendto (adopt candidate) config memory s) [
        | Swap.unflushed t e sends q ↦ unflushed t e sends (same ∙ rw (made, ready, q) refl)
        | swapped t (ok _) sends q ↦
            restarted config memory t made sends (same ∙ rw (made, ready, q) refl)
        | swapped t (err e) sends q ↦
            unstopped config memory t e made sends (same ∙ rw (made, ready, q) refl)
      ]
    ]
  ]

  no_unknown : (keys : List String) → reject_unknown keys ≡ ok tt → keys ≡ []
  no_unknown [] h = refl
  no_unknown (key ∷ keys) h = cc

  pub Updates-cases : Updates (update_runtime_settings host audio sendto updates s)
  unfolding update_runtime_settings
  Updates-cases = elim (Result-cases (reject_unknown (unknown_keys updates))) [
    | inr (e, failed) ↦ refused e (rw failed refl)
    | inl (_, known) ↦ elim (Result-cases (validate_runtime_settings host candidate)) [
      | inr (e, failed) ↦ refused e (rw (known, failed) refl)
      | inl (_, valid) ↦ elim (Option-cases (find_live_apply_rule updates s.processor)) [
        | inl e ↦ restart-Updates _ (rw (known, valid, e) refl)
        | inr (rule, e) ↦ live rule (no_unknown _ known) valid e (rw (known, valid, e) refl)
      ]
    ]
  ]
