-- ===== src/Api/Tests.antt =====
-- app/main.py: the theorem at the default settings.
use karaoke_anything.Prelude.{ℕ, ◌≡◌, refl, ==_refl}
use karaoke_anything.Errors.{ok, unknown_processor}
use karaoke_anything.Registry.{create}
use karaoke_anything.Service.Lifecycle.{select_processor}
use karaoke_anything.Service.State.{TromboneService}
use karaoke_anything.Fixtures.{toy_host}
use karaoke_anything.Service.Fixtures.{passes, sends, service}
use karaoke_anything.Api.{apply_settings, unchanged}
use karaoke_anything.Api.Routes.{
  not_selected, select_processor_route, delete_runtime_settings, Restored,
  delete_runtime_settings-Restored,
}
use karaoke_anything.Api.Flatten.{snapshot, apply_settings-snapshot}

apply_settings-snapshot_example :
    apply_settings toy_host (passes (ok tt)) sends (snapshot service.settings) service
    ≡ (unchanged, service)
apply_settings-snapshot_example =
    apply_settings-snapshot toy_host (passes (ok tt)) sends service ==_refl

-- the reduction was changed since the start
abbrev changed : TromboneService ℕ ℕ
changed = record service { settings = record (service.settings) { centre_reduction = 300 } }

delete_runtime_settings-Restored_example :
    Restored toy_host
      (passes (ok tt))
      sends
      changed
      (delete_runtime_settings toy_host (passes (ok tt)) sends changed)
delete_runtime_settings-Restored_example =
    delete_runtime_settings-Restored toy_host (passes (ok tt)) sends changed

-- an unknown name is refused with status 400
select_unknown :
    select_processor_route toy_host (passes (ok tt)) sends "karaoke" service
    ≡ (not_selected (unknown_processor "karaoke"), service)
unfolding select_processor_route select_processor create
select_unknown = refl
