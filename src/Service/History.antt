-- ===== src/Service/History.antt =====
-- app/audio_trombone/service.py: any sequence of datagrams, steps of the worker and requests.
use karaoke_anything.Prelude.{ℕ, ◌≡◌, refl, sym, subst, String, List, [], ◌∷◌}
use karaoke_anything.Errors.{Result}
use karaoke_anything.Host.{Host}
use karaoke_anything.Kany.{Bytes}
use karaoke_anything.Service.Settings.{Update}
use karaoke_anything.Service.State.{AudioProcessor, Network, TromboneService}
use karaoke_anything.Service.Sends.{Sends}
use karaoke_anything.Service.Lifecycle.{
  Applied, install, rename, ingress, start, stop, worker_step, reset_processor, select_processor,
  update_runtime_settings, restore_startup_settings,
}
use karaoke_anything.Service.Cases.{Updates, Updates-cases, Select, Select-cases}

-- what may happen to the service
pub data Event (F : Type 0) : Type 0 where
  arrives : Bytes → String → ℕ → F → Event F
  works stops restores : Network → Event F
  starts : Result (Unit {0}) → Event F
  selects : Network → String → Event F
  updates : Network → List (Update F) → Event F
  resets : Event F

module _ {Memory : Type 0} (host : Host) (audio : AudioProcessor host.Float Memory) where
  abbrev State : Type 0
  State = TromboneService host.Float Memory

  -- The caller of a request catches what it raises.
  unfoldable pub step : Event host.Float → State → State
  step (arrives payload address port now) s = ingress payload address port now s
  step (works sendto) s = worker_step audio sendto s
  step (starts endpoint) s = (start audio endpoint s).1
  step (stops sendto) s = (stop audio sendto s).1
  step (selects sendto name) s = (select_processor host audio sendto name s).1
  step (updates sendto us) s = (update_runtime_settings host audio sendto us s).1
  step (restores sendto) s = (restore_startup_settings host audio sendto s).1
  step resets s = (reset_processor audio s).1

  unfoldable pub run : List (Event host.Float) → State → State
  unfolding step
  run [] s = s
  run (e ∷ events) s = run events (step e s)

  -- an invariant that each step keeps
  pub run-keeps :
      (P : State → Type 0)
      → ((e : Event host.Float) (s : State) → P s → P (step e s))
      → (events : List (Event host.Float)) (s : State) → P s
      → P (run events s)
  unfolding run
  run-keeps P keeps [] s h = h
  run-keeps P keeps (e ∷ events) s h = run-keeps P keeps events (step e s) (keeps e s h)

  -- What sends outputs, and changes no more than the settings and the processor.
  module _ (P : State → Type 0) (sent : (s t : State) → Sends s t → P s → P t)
      (moved : (s t : State)
        → t.metrics ≡ s.metrics
        → t.input_queue ≡ s.input_queue
        → t.transport ≡ s.transport
        → t.worker_task ≡ s.worker_task
        → t.running ≡ s.running
        → P s
        → P t) where
    pub select-keeps :
        (sendto : Network) (name : String) (s : State)
        → P s
        → P (select_processor host audio sendto name s).1
    select-keeps sendto name s h = elim (Select-cases host audio sendto name s) [
      | Select.refused e q ↦ subst (λ (z : Result (Unit {0}) × State). P z.1) (sym q) h
      | Select.unflushed config t e _ sends q ↦
          subst (λ (z : Result (Unit {0}) × State). P z.1) (sym q) (sent s t sends h)
      | Select.unstopped config memory t e _ sends q ↦
          subst (λ (z : Result (Unit {0}) × State). P z.1) (sym q)
            (moved t (install config memory t) refl refl refl refl refl (sent s t sends h))
      | Select.selected config memory t _ sends q ↦
          subst (λ (z : Result (Unit {0}) × State). P z.1) (sym q)
            (moved t (rename name (install config memory t)) refl refl refl refl refl
              (sent s t sends h))
    ]

    pub update-keeps :
        (sendto : Network) (us : List (Update host.Float)) (s : State)
        → P s
        → P (update_runtime_settings host audio sendto us s).1
    update-keeps sendto us s h = elim (Updates-cases host audio sendto us s) [
      | Updates.refused e q ↦ subst (λ (z : Result Applied × State). P z.1) (sym q) h
      | Updates.live rule _ _ _ q ↦
          subst (λ (z : Result Applied × State). P z.1) (sym q)
            (moved s _ refl refl refl refl refl h)
      | Updates.unflushed t e sends q ↦
          subst (λ (z : Result Applied × State). P z.1) (sym q) (sent s t sends h)
      | Updates.unstopped config memory t e _ sends q ↦
          subst (λ (z : Result Applied × State). P z.1) (sym q)
            (moved t _ refl refl refl refl refl (sent s t sends h))
      | Updates.restarted config memory t _ sends q ↦
          subst (λ (z : Result Applied × State). P z.1) (sym q)
            (moved t _ refl refl refl refl refl (sent s t sends h))
    ]
