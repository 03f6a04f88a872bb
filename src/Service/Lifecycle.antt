-- ===== src/Service/Lifecycle.antt =====
-- app/audio_trombone/service.py: the life of the service and of its processor.
use karaoke_anything.Prelude.{
  ℕ, String, Bool, true, false, not, Option, none, some, List, [], ◌∷◌, if◌then◌else◌,
}
use karaoke_anything.Prelude.Int.{ℤ}
use karaoke_anything.Prelude.Exec.{Exec, pure, lift, modify, ◌>>=◌, ◌>>◌}
use karaoke_anything.Errors
use karaoke_anything.Errors.{Result, ok, err, unknown_settings}
use karaoke_anything.Host.{Host}
use karaoke_anything.Models.{MediaPacket, Metrics}
use karaoke_anything.Kany.{Bytes}
use karaoke_anything.Transport.{datagram_received}
use karaoke_anything.Config.{Settings}
use karaoke_anything.Registry.{ProcessorConfig, create}
use karaoke_anything.Service.Settings.{
  Update, unknown_keys, replace, all_fields, validate_runtime_settings,
}
use karaoke_anything.Service.Live.{LiveApplyRule, find_live_apply_rule, set_attribute, setting}
use karaoke_anything.Service.State.{
  AudioProcessor, Network, TromboneService, Worker, absent, alive, ended,
}
use karaoke_anything.Service.Egress.{with_memory, handle, flush_processor}

-- what `update_runtime_settings` returns
pub record Applied : Type 0 where
  pub processor_restarted : Bool
  pub applies_from : String

-- `if unknown: raise …`
abbrev pub reject_unknown : List String → Result (Unit {0})
reject_unknown [] = ok tt
reject_unknown (key ∷ keys) = err (unknown_settings (key ∷ keys))

abbrev no_metrics : {F : Type 0} → F → Metrics F
no_metrics now = record {
  started_at = now;
  packets_received = 0;
  packets_enqueued = 0;
  packets_dropped = 0;
  packets_processed = 0;
  packets_emitted = 0;
  packets_forwarded = 0;
  bytes_received = 0;
  bytes_forwarded = 0;
  processor_errors = 0;
  forwarding_errors = 0;
  queue_high_watermark = 0;
  last_packet_at = none;
  last_sender_host = none;
  last_sender_port = none;
}

module _ {F Memory : Type 0} where
  -- a packet leaves the queue
  abbrev pub dequeue : List (MediaPacket F) → TromboneService F Memory → TromboneService F Memory
  dequeue rest s = record s { input_queue = record (s.input_queue) { items = rest } }

  -- an exception that leaves the loop ends the worker
  abbrev pub settle : Result (Unit {0}) × TromboneService F Memory → TromboneService F Memory
  settle (ok _, t) = t
  settle (err _, t) = record t { worker_task = ended }

  abbrev pub opened : TromboneService F Memory → TromboneService F Memory
  opened s = record s {
    transport = some s.settings.max_packet_size;
    worker_task = alive;
    running = true;
  }

  abbrev pub closed : TromboneService F Memory → TromboneService F Memory
  closed s = record s { transport = none; running = false }

  abbrev pub drop_worker : TromboneService F Memory → TromboneService F Memory
  drop_worker s = record s { worker_task = absent }

  abbrev pub rename : String → TromboneService F Memory → TromboneService F Memory
  rename name s = record s { settings = record (s.settings) { processor = name } }

  abbrev pub install :
      ProcessorConfig F → Memory → TromboneService F Memory → TromboneService F Memory
  install config memory s = record s { processor = config; memory = memory }

  abbrev pub adopt : Settings F → TromboneService F Memory → TromboneService F Memory
  adopt candidate s = record s { registry_settings = candidate; settings = candidate }

  -- a datagram arrives at a transport
  unfoldable pub deliver :
      Option ℤ → Bytes → String → ℕ → F → TromboneService F Memory → TromboneService F Memory
  deliver none payload host port now s = s
  deliver (some max_packet_size) payload host port now s =
      let t = datagram_received payload host port now (record {
        queue = s.input_queue;
        metrics = s.metrics;
        max_packet_size = max_packet_size;
      }) in
      record s { input_queue = t.queue; metrics = t.metrics }

  unfoldable pub ingress :
      Bytes → String → ℕ → F → TromboneService F Memory → TromboneService F Memory
  unfolding deliver
  ingress payload host port now s = deliver s.transport payload host port now s

  module _ (audio : AudioProcessor F Memory) where
    -- a method of the active processor
    abbrev pub on_memory :
        (ProcessorConfig F → Exec Memory (Unit {0})) → Exec (TromboneService F Memory) (Unit {0})
    on_memory method s = let done = method s.processor s.memory in (done.0, with_memory done.1 s)

    -- `await replacement.start()`
    abbrev pub started : ProcessorConfig F → Result Memory
    started config =
        let done = audio.start config (audio.init config) in Errors.◌>>=◌ done.0 λ _. ok done.1

    unfoldable pub start : Result (Unit {0}) → Exec (TromboneService F Memory) (Unit {0})
    start endpoint s =
        if s.running then (ok tt, s) else (do on_memory audio.start; lift endpoint; modify opened) s

    unfoldable pub reset_processor : Exec (TromboneService F Memory) (Unit {0})
    reset_processor = on_memory audio.reset

    module _ (sendto : Network) where
      -- a packet that is at the front of the queue, if the worker runs
      unfoldable pub work :
          Worker → List (MediaPacket F) → TromboneService F Memory → TromboneService F Memory
      work alive (packet ∷ rest) s = settle (handle audio sendto packet (dequeue rest s))
      work _ _ s = s

      -- `_processing_loop`, up to the next time that it waits for a packet
      unfoldable pub worker_step : TromboneService F Memory → TromboneService F Memory
      unfolding work
      worker_step s = work s.worker_task s.input_queue.items s

      unfoldable pub stop : Exec (TromboneService F Memory) (Unit {0})
      stop s =
          if not s.running
          then (ok tt, s)
          else (do
            modify drop_worker
            flush_processor audio sendto
            on_memory audio.stop
            modify closed)
              s

      -- under the lock: flush the old processor, put the new one in its place, stop the old one
      unfoldable pub swap :
          (TromboneService F Memory → TromboneService F Memory)
          → ProcessorConfig F
          → Memory
          → Exec (TromboneService F Memory) (Unit {0})
      swap change config memory = do
        flush_processor audio sendto
        λ s. ((audio.stop s.processor s.memory).0, change (install config memory s))

module _ {Memory : Type 0} (host : Host) (audio : AudioProcessor host.Float Memory) where
  abbrev pub State : Type 0
  State = TromboneService host.Float Memory

  -- `__init__`, with the value of `time.time()`
  unfoldable pub initial_service : Settings host.Float → host.Float → Result State
  initial_service settings now = Errors.◌>>=◌ (create host settings settings.processor) λ config.
      ok (record {
        startup_settings = settings;
        settings = settings;
        metrics = no_metrics now;
        input_queue = record { maxsize = settings.input_queue_size; items = [] };
        registry_settings = settings;
        processor = config;
        memory = audio.init config;
        transport = none;
        worker_task = absent;
        running = false;
      })

  unfoldable pub select_processor : Network → String → Exec State (Unit {0})
  unfolding swap
  select_processor sendto name s =
      (do
        config ← lift (create host s.registry_settings name)
        memory ← lift (started audio config)
        swap audio sendto (λ t. t) config memory
        modify (rename name))
        s

  -- the branch of `update_runtime_settings` behind `if rule is not None`
  abbrev pub apply_live : LiveApplyRule → Settings host.Float → Exec State Applied
  apply_live rule candidate s = (
    ok (record { processor_restarted = false; applies_from = rule.applies_from }),
    record s {
      processor = set_attribute rule.attribute (setting rule.setting_key candidate) s.processor;
      settings = candidate;
    },
  )

  -- the rest of `update_runtime_settings`
  unfoldable pub restart_with : Network → Settings host.Float → Exec State Applied
  unfolding swap
  restart_with sendto candidate = do
    config ← lift (create host candidate candidate.processor)
    memory ← lift (started audio config)
    swap audio sendto (adopt candidate) config memory
    pure (record { processor_restarted = true; applies_from = "immediately" })

  unfoldable pub update_runtime_settings : Network → List (Update host.Float) → Exec State Applied
  unfolding restart_with
  update_runtime_settings sendto updates s =
      (do
        lift (reject_unknown (unknown_keys updates))
        let candidate = replace updates s.settings
        lift (validate_runtime_settings host candidate)
        elim (find_live_apply_rule updates s.processor) [
          | some rule ↦ apply_live rule candidate
          | none ↦ restart_with sendto candidate
        ])
        s

  unfoldable pub restore_startup_settings : Network → Exec State Applied
  unfolding update_runtime_settings
  restore_startup_settings sendto s =
      update_runtime_settings sendto (all_fields s.startup_settings) s
