-- ===== src/Service/Healthy/Steps.antt =====
-- app/audio_trombone/service.py: the invariant of a processor's fields, through every operation.
use karaoke_anything.Prelude.{
  ◌≡◌, subst, String, Bool, true, false, not, Option, none, some, List, ◌∷◌, All, if◌then◌else◌,
}
use karaoke_anything.Prelude.Exec.{Exec, lift, modify, pure, ◌>>=◌, ◌>>◌}
use karaoke_anything.Errors.{Result, ok, >>=-eq-ok, ok-injective}
use karaoke_anything.Host.{Host}
use karaoke_anything.Config.{Settings}
use karaoke_anything.Kany.{IsByte}
use karaoke_anything.Models.{MediaPacket}
use karaoke_anything.Registry.{ProcessorConfig, create}
use karaoke_anything.Service.Settings.{
  Update, unknown_keys, replace, all_fields, validate_runtime_settings,
}
use karaoke_anything.Service.Live.{LiveApplyRule, find_live_apply_rule, setting}
use karaoke_anything.Service.State.{AudioProcessor, Network, TromboneService, Worker, alive}
use karaoke_anything.Service.Egress.{with_memory, handle, flush_processor}
use karaoke_anything.Service.Lifecycle.{
  Applied, reject_unknown, dequeue, ingress, on_memory, started, start, reset_processor, work,
  worker_step, stop, swap, drop_worker, closed, opened, rename, install, adopt, apply_live,
  select_processor, restart_with, update_runtime_settings, restore_startup_settings,
}
use karaoke_anything.Service.History.{
  Event, arrives, works, stops, restores, starts, selects, updates, resets, step,
}
use karaoke_anything.Service.Healthy.{
  Lawful, Delivers, OfBytes, Healthy, Keeps, continue-Keeps, bind-Keeps, emit-Healthy,
  emit_flushed-Healthy, count_end-Keeps, settle-Healthy, deliver-Healthy,
}

module _ {Memory : Type 0} (host : Host) (audio : AudioProcessor host.Float Memory)
    (Holds : ProcessorConfig host.Float → Memory → Type 0) (lawful : Lawful audio Holds) where
  abbrev State : Type 0
  State = TromboneService host.Float Memory

  flush-Keeps : (sendto : Network) → Keeps host audio Holds (flush_processor audio sendto)
  unfolding flush_processor
  flush-Keeps sendto s h =
      let y = audio.flush s.processor s.memory in
      emit_flushed-Healthy host audio Holds sendto 0 y.outputs (with_memory y.memory s)
        (lawful.flushes s.processor s.memory h.0, h.1)

  handle-Keeps :
      (sendto : Network) (packet : MediaPacket host.Float)
      → All IsByte packet.payload
      → Keeps host audio Holds (handle audio sendto packet)
  unfolding handle
  handle-Keeps sendto packet hb s h =
      let y = audio.process s.processor packet s.memory in
      count_end-Keeps host audio Holds y.ended _ (
        emit-Healthy host audio Holds sendto 0 y.outputs packet.sender_host (with_memory y.memory s)
          (lawful.processes s.processor packet s.memory hb h.0, h.1))

  work-Healthy :
      (sendto : Network) (worker : Worker) (items : List (MediaPacket host.Float)) (s : State)
      → All OfBytes items
      → Healthy host audio Holds s
      → Healthy host audio Holds (work audio sendto worker items s)
  unfolding work
  work-Healthy sendto alive (packet ∷ rest) s hb h =
      settle-Healthy host audio Holds (handle audio sendto packet (dequeue rest s))
        (handle-Keeps sendto packet hb.0 (dequeue rest s) (h.0, hb.1))
  work-Healthy sendto _ _ s hb h = h

  abbrev start_body : Result (Unit {0}) → Exec State (Unit {0})
  start_body endpoint = on_memory audio audio.start >> (lift endpoint >> modify opened)

  start-Keeps : (endpoint : Result (Unit {0})) → Keeps host audio Holds (start audio endpoint)
  unfolding start
  start-Keeps endpoint s h = by_running s.running
    where
      opens : Keeps host audio Holds (start_body endpoint)
      opens =
          bind-Keeps host audio Holds (on_memory audio audio.start)
            (λ _. lift endpoint >> modify opened)
            (λ t k. (lawful.starts t.processor t.memory k.0, k.1))
            (λ _. continue-Keeps host audio Holds endpoint (λ _. modify opened) (λ _ _ u l. l))

      by_running :
          (b : Bool) → Healthy host audio Holds (if b then (ok tt, s) else start_body endpoint s).1
      by_running true = h
      by_running false = opens s h

  abbrev stop_body : Network → Exec State (Unit {0})
  stop_body sendto = flush_processor audio sendto >> (on_memory audio audio.stop >> modify closed)

  stop-Keeps : (sendto : Network) → Keeps host audio Holds (stop audio sendto)
  unfolding stop
  stop-Keeps sendto s h = by_running s.running
    where
      closes : Keeps host audio Holds (stop_body sendto)
      closes =
          bind-Keeps host audio Holds (flush_processor audio sendto)
            (λ _. on_memory audio audio.stop >> modify closed) (flush-Keeps sendto)
            (λ _.
              bind-Keeps host audio Holds (on_memory audio audio.stop) (λ _. modify closed)
                (λ t k. (lawful.stops t.processor t.memory k.0, k.1)) (λ _ t k. k))

      by_running :
          (b : Bool)
          → Healthy host audio Holds
              (if not b then (ok tt, s) else stop_body sendto (drop_worker s)).1
      by_running false = h
      by_running true = closes (drop_worker s) h

  started-Holds :
      (config : ProcessorConfig host.Float) (memory : Memory)
      → started audio config ≡ ok memory
      → Holds config memory
  started-Holds config memory e =
      let first = audio.start config (audio.init config) in
      let (_, _, same) = >>=-eq-ok first.0 (λ _. ok first.1) e in
      subst (Holds config) (ok-injective same)
        (lawful.starts config (audio.init config) (lawful.init config))

  -- a new object in the place of the old one, and the settings that go with it
  replace_with-Keeps {ℓ} :
      {A : Type ℓ} (sendto : Network) (made : Result (ProcessorConfig host.Float))
      (change : State → State) (finish : Exec State A)
      → ((s : State) → Healthy host audio Holds s → Healthy host audio Holds (change s))
      → Keeps host audio Holds finish
      → Keeps host audio Holds (
          lift made >>= λ config. lift (started audio config) >>= λ memory.
          swap audio sendto change config memory >> finish)
  unfolding swap
  replace_with-Keeps sendto made change finish changes finishes =
      continue-Keeps host audio Holds made
        (λ config. lift (started audio config) >>= λ memory.
          swap audio sendto change config memory >> finish)
        λ config _.
          continue-Keeps host audio Holds (started audio config)
            (λ memory. swap audio sendto change config memory >> finish)
            λ memory e.
              bind-Keeps host audio Holds (swap audio sendto change config memory) (λ _. finish)
                (swapped config memory (started-Holds config memory e)) (λ _. finishes)
    where
      swapped :
          (config : ProcessorConfig host.Float) (memory : Memory)
          → Holds config memory
          → Keeps host audio Holds (swap audio sendto change config memory)
      swapped config memory new =
          bind-Keeps host audio Holds (flush_processor audio sendto)
            (λ _ t. ((audio.stop t.processor t.memory).0, change (install config memory t)))
            (flush-Keeps sendto) (λ _ t k. changes (install config memory t) (new, k.1))

  select-Keeps :
      (sendto : Network) (name : String)
      → Keeps host audio Holds (select_processor host audio sendto name)
  unfolding select_processor
  select-Keeps sendto name s h =
      replace_with-Keeps sendto (create host s.registry_settings name) (λ t. t)
        (modify (rename name)) (λ t k. k) (λ t k. k) s h

  live-Keeps :
      (rule : LiveApplyRule) (candidate : Settings host.Float)
      → Keeps host audio Holds (apply_live host audio rule candidate)
  live-Keeps rule candidate s h = (
    lawful.attributes rule.attribute (setting rule.setting_key candidate) s.processor s.memory h.0,
    h.1,
  )

  restart-Keeps :
      (sendto : Network) (candidate : Settings host.Float)
      → Keeps host audio Holds (restart_with host audio sendto candidate)
  unfolding restart_with
  restart-Keeps sendto candidate =
      replace_with-Keeps sendto (create host candidate candidate.processor) (adopt candidate)
        (pure (record { processor_restarted = true; applies_from = "immediately" })) (λ t k. k)
        (λ t k. k)

  update-Keeps :
      (sendto : Network) (us : List (Update host.Float))
      → Keeps host audio Holds (update_runtime_settings host audio sendto us)
  unfolding update_runtime_settings
  update-Keeps sendto us s h =
      let candidate = replace us s.settings in
      continue-Keeps host audio Holds (reject_unknown (unknown_keys us))
        (λ _.
          lift (validate_runtime_settings host candidate)
          >> by_rule (find_live_apply_rule us s.processor))
        (λ _ _.
          continue-Keeps host audio Holds (validate_runtime_settings host candidate)
            (λ _. by_rule (find_live_apply_rule us s.processor))
            (λ _ _. by_rule-Keeps (find_live_apply_rule us s.processor)))
        s h
    where
      by_rule : Option LiveApplyRule → Exec State Applied
      by_rule r = elim r [
        | some rule ↦ apply_live host audio rule (replace us s.settings)
        | none ↦ restart_with host audio sendto (replace us s.settings)
      ]

      by_rule-Keeps : (r : Option LiveApplyRule) → Keeps host audio Holds (by_rule r)
      by_rule-Keeps none = restart-Keeps sendto (replace us s.settings)
      by_rule-Keeps (some rule) = live-Keeps rule (replace us s.settings)

  pub step-Healthy :
      (e : Event host.Float) (s : State)
      → Delivers e
      → Healthy host audio Holds s
      → Healthy host audio Holds (step host audio e s)
  unfolding step ingress worker_step reset_processor restore_startup_settings
  step-Healthy (arrives payload sender port now) s d h =
      deliver-Healthy host audio Holds s.transport payload sender port now s d h
  step-Healthy (works sendto) s d h = work-Healthy sendto s.worker_task s.input_queue.items s h.1 h
  step-Healthy (starts endpoint) s d h = start-Keeps endpoint s h
  step-Healthy (stops sendto) s d h = stop-Keeps sendto s h
  step-Healthy (selects sendto name) s d h = select-Keeps sendto name s h
  step-Healthy (updates sendto us) s d h = update-Keeps sendto us s h
  step-Healthy (restores sendto) s d h = update-Keeps sendto (all_fields s.startup_settings) s h
  step-Healthy resets s d h = (lawful.resets s.processor s.memory h.0, h.1)
