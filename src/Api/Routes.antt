-- ===== src/Api/Routes.antt =====
-- app/main.py: the other routes that change the service.
use karaoke_anything.Prelude.{
  ◌≡◌, refl, ◌⊎◌, inl, inr, String, Bool, true, false, if◌then◌else◌, Bool-cases,
}
use karaoke_anything.Errors.{
  Exception, ok, err, kany_error, value_error, unknown_processor, unknown_settings, requires_kany,
  requires_stereo, format_changed,
}
use karaoke_anything.Host.{Host}
use karaoke_anything.Config.{Settings}
use karaoke_anything.Registry.{name_of}
use karaoke_anything.Service.Settings.{replace, apply, all_fields}
use karaoke_anything.Service.State.{AudioProcessor, Network, TromboneService}
use karaoke_anything.Service.Lifecycle.{restore_startup_settings, reset_processor, select_processor}
use karaoke_anything.Service.Cases.{Updates, Updates-cases}
use karaoke_anything.Service.Atomic.{Untouched, Replaced, update_raises}
use karaoke_anything.Api.{
  Response, unchanged, applied, bad_request, uncaught, is_client_error, respond,
}
use karaoke_anything.Api.Flatten.{snapshot}

-- what the routes of the processor answer: its name, a status 400, or an exception that is not caught
pub data Answer : Type 0 where
  named : String → Answer
  not_selected : Exception → Answer
  raised : Exception → Answer

-- `except ValueError`: the `ValueError`s with a constructor of their own are among them, and
-- `KanyProtocolError` is a subclass
abbrev pub is_value_error : Exception → Bool
is_value_error (value_error _) = true
is_value_error (kany_error _) = true
is_value_error (unknown_processor _) = true
is_value_error (unknown_settings _) = true
is_value_error (requires_kany _ _) = true
is_value_error (requires_stereo _ _) = true
is_value_error (format_changed _ _ _ _) = true
is_value_error _ = false

module _ {Memory : Type 0} (host : Host) (audio : AudioProcessor host.Float Memory)
    (sendto : Network) where
  abbrev State : Type 0
  State = TromboneService host.Float Memory

  -- `delete_runtime_settings`
  unfoldable pub delete_runtime_settings : State → Response × State
  delete_runtime_settings s =
      let done = restore_startup_settings host audio sendto s in
      (respond host audio sendto done.0, done.1)

  -- `reset_processor`
  unfoldable pub reset_processor_route : State → Answer × State
  reset_processor_route s =
      let (r, t) = reset_processor audio s in
      elim r [ ok _ ↦ (named (name_of t.processor), t) | err e ↦ (raised e, t) ]

  -- `select_processor`
  unfoldable pub select_processor_route : String → State → Answer × State
  select_processor_route name s =
      let (r, t) = select_processor host audio sendto name s in
      elim r [
        | ok _ ↦ (named (name_of t.processor), t)
        | err e ↦ (if is_value_error e then not_selected e else raised e, t)
      ]

  -- what a request to restore leaves behind, by its answer
  abbrev pub Restored : State → Response × State → Type 0
  Restored s (unchanged, t) = ⊥
  Restored s (applied result, t) = snapshot t.settings ≡ snapshot s.startup_settings
  Restored s (bad_request e, t) =
      Untouched host audio s t ⊎ Replaced host audio (all_fields s.startup_settings) s t
  Restored s (uncaught e, t) =
      Untouched host audio s t ⊎ Replaced host audio (all_fields s.startup_settings) s t

  replaced-snapshot :
      (new old : Settings host.Float) → snapshot (replace (all_fields new) old) ≡ snapshot new
  unfolding replace apply all_fields
  replaced-snapshot new old = refl

  failed :
      (s t : State) (e : Exception)
      → restore_startup_settings host audio sendto s ≡ (err e, t)
      → Restored s (respond host audio sendto (err e), t)
  unfolding restore_startup_settings
  failed s t e h =
      let kept = update_raises host audio sendto (all_fields s.startup_settings) s t e h in
      elim (Bool-cases (is_client_error e)) [
        | inl client ↦ rw client kept
        | inr other ↦ rw other kept
      ]

  -- DELETE of the settings: it answers "restored" only when each setting that a client may change is
  -- the one from the start again; otherwise the settings, the registry and the processor are all
  -- untouched, or all those of the start.
  pub delete_runtime_settings-Restored : (s : State) → Restored s (delete_runtime_settings s)
  unfolding delete_runtime_settings restore_startup_settings
  delete_runtime_settings-Restored s =
      let fields = all_fields s.startup_settings in
      let same = replaced-snapshot s.startup_settings s.settings in
      elim (Updates-cases host audio sendto fields s) [
        | Updates.refused e q ↦ rw q (failed s s e q)
        | Updates.unflushed t e sends q ↦ rw q (failed s t e q)
        | Updates.unstopped config memory t e made sends q ↦ rw q (failed s _ e q)
        | Updates.live rule _ _ _ q ↦ rw q same
        | Updates.restarted config memory t _ _ q ↦ rw q same
      ]
