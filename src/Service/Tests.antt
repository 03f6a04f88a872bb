-- ===== src/Service/Tests.antt =====
-- service.py: the theorems at a service with the default settings, whose processor passes packets on.
use karaoke_anything.Prelude.{ℕ, ◌≡◌, refl, ◌⊎◌, true, false, some, List, [], ◌∷◌, arith}
use karaoke_anything.Prelude.Int.{pos}
use karaoke_anything.Errors.{ok, err, runtime_error, value_error}
use karaoke_anything.Models.{MediaPacket, received}
use karaoke_anything.Fixtures.{toy_host, stereo_payload}
use karaoke_anything.Service.Fixtures.{defaults, reduces, passes, sends, service}
use karaoke_anything.Registry.{
  ProcessorConfig, create, factory, check_htdemucs, check_convtasnet, check_mdx23c,
}
use karaoke_anything.Service.Settings.{
  Update, replace, apply, validate_runtime_settings, validate_demucs_settings,
  validate_convtasnet_settings, validate_mdx23c_settings,
}
use karaoke_anything.Service.Live.{
  find_live_apply_rule, first_match, matches, has_attribute, set_attribute, setting,
}
use karaoke_anything.Service.State.{TromboneService, absent, alive}
use karaoke_anything.Service.Egress.{flush_processor, emit_flushed, emit, send_output, handle}
use karaoke_anything.Service.Lifecycle.{
  update_runtime_settings, restart_with, swap, select_processor, worker_step, work, stop, start,
}
use karaoke_anything.Service.Validated.{Ordered, validated-create, Built}
use karaoke_anything.Service.Coherence.{Coherent, update-Coherent}
use karaoke_anything.Service.Selection.{select-Coherent, select_after_live}
use karaoke_anything.Service.Atomic.{Untouched, Replaced, update_raises}
use karaoke_anything.Service.Life.{Sound, stop_raises}
use karaoke_anything.Service.Drain.{Drained, turns, turns-Drained}
use karaoke_anything.Service.Counters.{Balanced}
use karaoke_anything.Service.History.{Event, arrives, works, starts, stops, selects, updates, run}
use karaoke_anything.Service.Invariant.{run-Balanced, run-Sound}

abbrev open_service : TromboneService ℕ ℕ
open_service = record service { transport = some (pos 65535); worker_task = alive; running = true }

abbrev stereo : MediaPacket ℕ
stereo = received stereo_payload "sender" 5006 1

abbrev waiting : TromboneService ℕ ℕ
waiting = record open_service { input_queue = record { maxsize = pos 512; items = stereo ∷ [] } }

abbrev nulled : TromboneService ℕ ℕ
nulled = record service {
  processor = ProcessorConfig.null_processor;
  settings = record defaults { processor = "null" };
}

abbrev softer : List (Update ℕ)
softer = Update.centre_reduction 500 ∷ []

abbrev softened : TromboneService ℕ ℕ
softened = record service {
  settings = record defaults { centre_reduction = 500 };
  processor = reduces 500;
}

abbrev events : List (Event ℕ)
events =
    starts (ok tt)
    ∷ arrives stereo_payload "sender" 5006 1
    ∷ works sends
    ∷ updates sends softer
    ∷ selects sends "null"
    ∷ stops sends
    ∷ []

toy-Ordered : Ordered toy_host
toy-Ordered = record { above_zero = λ x h. ground arith; delay = (5, refl) }

coherent : Coherent toy_host (passes (ok tt)) service
unfolding update_runtime_settings restart_with swap select_processor replace apply
    validate_runtime_settings validate_demucs_settings validate_convtasnet_settings
    validate_mdx23c_settings find_live_apply_rule first_match matches has_attribute set_attribute
    setting create factory check_htdemucs check_convtasnet check_mdx23c flush_processor emit_flushed
    emit send_output handle worker_step work stop start
coherent = refl

valid : validate_runtime_settings toy_host defaults ≡ ok tt
unfolding update_runtime_settings restart_with swap select_processor replace apply
    validate_runtime_settings validate_demucs_settings validate_convtasnet_settings
    validate_mdx23c_settings find_live_apply_rule first_match matches has_attribute set_attribute
    setting create factory check_htdemucs check_convtasnet check_mdx23c flush_processor emit_flushed
    emit send_output handle worker_step work stop start
valid = refl

softens :
    update_runtime_settings toy_host (passes (ok tt)) sends softer service
    ≡ (ok (record { processor_restarted = false; applies_from = "next packet" }), softened)
unfolding update_runtime_settings restart_with swap select_processor replace apply
    validate_runtime_settings validate_demucs_settings validate_convtasnet_settings
    validate_mdx23c_settings find_live_apply_rule first_match matches has_attribute set_attribute
    setting create factory check_htdemucs check_convtasnet check_mdx23c flush_processor emit_flushed
    emit send_output handle worker_step work stop start
softens = refl

selects_again :
    select_processor toy_host (passes (ok tt)) sends "stereo-centre-reduction" softened
    ≡ (ok tt, record softened { processor = reduces 700 })
unfolding update_runtime_settings restart_with swap select_processor replace apply
    validate_runtime_settings validate_demucs_settings validate_convtasnet_settings
    validate_mdx23c_settings find_live_apply_rule first_match matches has_attribute set_attribute
    setting create factory check_htdemucs check_convtasnet check_mdx23c flush_processor emit_flushed
    emit send_output handle worker_step work stop start
selects_again = refl

selects_null : select_processor toy_host (passes (ok tt)) sends "null" service ≡ (ok tt, nulled)
unfolding update_runtime_settings restart_with swap select_processor replace apply
    validate_runtime_settings validate_demucs_settings validate_convtasnet_settings
    validate_mdx23c_settings find_live_apply_rule first_match matches has_attribute set_attribute
    setting create factory check_htdemucs check_convtasnet check_mdx23c flush_processor emit_flushed
    emit send_output handle worker_step work stop start
selects_null = refl

refuses :
    update_runtime_settings toy_host
      (passes (ok tt))
      sends
      (Update.centre_reduction 1500 ∷ [])
      service
    ≡ (err (value_error "centre_reduction must be between 0.0 and 1.0"), service)
unfolding update_runtime_settings restart_with swap select_processor replace apply
    validate_runtime_settings validate_demucs_settings validate_convtasnet_settings
    validate_mdx23c_settings find_live_apply_rule first_match matches has_attribute set_attribute
    setting create factory check_htdemucs check_convtasnet check_mdx23c flush_processor emit_flushed
    emit send_output handle worker_step work stop start
refuses = refl

stop_fails :
    stop (passes (err (runtime_error "inference failed"))) sends waiting
    ≡ (err (runtime_error "inference failed"), record waiting { worker_task = absent })
unfolding update_runtime_settings restart_with swap select_processor replace apply
    validate_runtime_settings validate_demucs_settings validate_convtasnet_settings
    validate_mdx23c_settings find_live_apply_rule first_match matches has_attribute set_attribute
    setting create factory check_htdemucs check_convtasnet check_mdx23c flush_processor emit_flushed
    emit send_output handle worker_step work stop start
stop_fails = refl

validated-create_example : Built toy_host toy-Ordered defaults "mdx23c-vocals"
validated-create_example = validated-create toy_host toy-Ordered defaults valid "mdx23c-vocals"

update-Coherent_example :
    Coherent toy_host
      (passes (ok tt))
      (update_runtime_settings toy_host (passes (ok tt)) sends softer service).1
update-Coherent_example =
    update-Coherent toy_host (passes (ok tt)) toy-Ordered sends softer service coherent

select-Coherent_example :
    Coherent toy_host (passes (ok tt)) nulled × (nulled.settings.processor ≡ "null")
select-Coherent_example =
    select-Coherent toy_host (passes (ok tt)) sends "null" service nulled refl selects_null

select_after_live_example :
    (reduces 700 ≡ reduces 700)
    × (record defaults { centre_reduction = 500 } ≡ replace softer defaults)
select_after_live_example =
    select_after_live toy_host (passes (ok tt)) sends softer service softened
      (record softened { processor = reduces 700 })
      (record { processor_restarted = false; applies_from = "next packet" }) toy-Ordered coherent
      refl softens refl selects_again

update_raises_example :
    Untouched toy_host (passes (ok tt)) service service
    ⊎ Replaced toy_host (passes (ok tt)) (Update.centre_reduction 1500 ∷ []) service service
update_raises_example =
    update_raises toy_host (passes (ok tt)) sends (Update.centre_reduction 1500 ∷ []) service
      service (value_error "centre_reduction must be between 0.0 and 1.0") refuses

run-Balanced_example : Balanced 0 (run toy_host (passes (ok tt)) events service)
run-Balanced_example =
    run-Balanced toy_host (passes (ok tt)) events service
      (record { emitted_all = refl; handled = omega arith })

run-Sound_example : Sound (run toy_host (passes (ok tt)) events service)
run-Sound_example =
    run-Sound toy_host (passes (ok tt)) events service
      (record { shut = λ h. (refl, refl); open_socket = λ h. cc })

stop_raises_example :
    let t : TromboneService ℕ ℕ = record waiting { worker_task = absent } in
    let audio = passes (err (runtime_error "inference failed")) in
    (t.running ≡ true)
    × (t.transport ≡ waiting.transport)
    × (worker_step audio sends t ≡ t)
    × (start audio (ok tt) t ≡ (ok tt, t))
stop_raises_example =
    stop_raises (passes (err (runtime_error "inference failed"))) sends sends (ok tt) waiting
      (record waiting { worker_task = absent }) (runtime_error "inference failed") stop_fails

turns-Drained_example :
    Drained (passes (ok tt)) waiting (turns (passes (ok tt)) (sends ∷ []) waiting)
turns-Drained_example = turns-Drained (passes (ok tt)) (sends ∷ []) waiting refl refl
