-- ===== src/Service/Invariant.antt =====
-- app/audio_trombone/service.py: what holds behind any sequence of events.
use karaoke_anything.Prelude.{ℕ, ◌≡◌, refl, sym, ◌∙◌, subst, String, Option, none, some, List}
use karaoke_anything.Prelude.Int.{ℤ}
use karaoke_anything.Errors.{Result}
use karaoke_anything.Host.{Host}
use karaoke_anything.Kany.{Bytes}
use karaoke_anything.Service.Settings.{all_fields}
use karaoke_anything.Service.State.{AudioProcessor, Network, TromboneService}
use karaoke_anything.Service.Lifecycle.{
  deliver, dequeue, ingress, worker_step, reset_processor, restore_startup_settings,
}
use karaoke_anything.Service.Life.{
  Start, Start-cases, Stop, Stop-cases, Sound, Sends-Sound, start-Sound, stop-Sound,
}
use karaoke_anything.Service.Work.{Work-cases, idle, goes_on, ends}
use karaoke_anything.Service.Once.{handle-Handled}
use karaoke_anything.Service.Counters.{
  Balanced, Sends-Balanced, worker-Balanced, ingress-Balanced, same_counts, drop_worker-Sends,
}
use karaoke_anything.Service.History.{
  Event, arrives, works, starts, stops, selects, updates, restores, resets, step, run, run-keeps,
  select-keeps, update-keeps,
}

module _ {Memory : Type 0} (host : Host) (audio : AudioProcessor host.Float Memory) where
  abbrev State : Type 0
  State = TromboneService host.Float Memory

  moved-Balanced :
      (s t : State)
      → t.metrics ≡ s.metrics
      → t.input_queue ≡ s.input_queue
      → t.transport ≡ s.transport
      → t.worker_task ≡ s.worker_task
      → t.running ≡ s.running
      → Balanced 0 s
      → Balanced 0 t
  moved-Balanced s t metrics queue _ _ _ b = same_counts metrics queue b

  step-Balanced :
      (e : Event host.Float) (s : State) → Balanced 0 s → Balanced 0 (step host audio e s)
  unfolding step restore_startup_settings reset_processor
  step-Balanced (arrives payload address port now) s b =
      ingress-Balanced payload address port now s b
  step-Balanced (works sendto) s b = worker-Balanced audio sendto s b
  step-Balanced (starts endpoint) s b = elim (Start-cases audio endpoint s) [
    | Start.already _ q ↦ subst (λ (z : Result (Unit {0}) × State). Balanced 0 z.1) (sym q) b
    | Start.fails memory x q ↦
        subst (λ (z : Result (Unit {0}) × State). Balanced 0 z.1) (sym q) (same_counts refl refl b)
    | Start.opens memory _ q ↦
        subst (λ (z : Result (Unit {0}) × State). Balanced 0 z.1) (sym q) (same_counts refl refl b)
  ]
  step-Balanced (stops sendto) s b = elim (Stop-cases audio sendto s) [
    | Stop.already _ q ↦ subst (λ (z : Result (Unit {0}) × State). Balanced 0 z.1) (sym q) b
    | Stop.fails t x _ sends q ↦
        subst (λ (z : Result (Unit {0}) × State). Balanced 0 z.1) (sym q)
          (drop_worker-Sends sends b)
    | Stop.closes t _ sends q ↦
        subst (λ (z : Result (Unit {0}) × State). Balanced 0 z.1) (sym q)
          (same_counts {s = t} refl refl (drop_worker-Sends sends b))
  ]
  step-Balanced (selects sendto name) s b =
      select-keeps host audio (Balanced 0) (λ s t sends. Sends-Balanced 0 sends) moved-Balanced
        sendto name s b
  step-Balanced (updates sendto us) s b =
      update-keeps host audio (Balanced 0) (λ s t sends. Sends-Balanced 0 sends) moved-Balanced
        sendto us s b
  step-Balanced (restores sendto) s b =
      update-keeps host audio (Balanced 0) (λ s t sends. Sends-Balanced 0 sends) moved-Balanced
        sendto (all_fields s.startup_settings) s b
  step-Balanced resets s b = same_counts refl refl b

  -- Over any datagrams, steps of the worker and requests, whatever they raise: every output that was
  -- emitted was forwarded or is counted as a forwarding error, and the packets processed, those that
  -- failed and those that wait are no more than those that were enqueued.
  pub run-Balanced :
      (events : List (Event host.Float)) (s : State)
      → Balanced 0 s
      → Balanced 0 (run host audio events s)
  run-Balanced = run-keeps host audio (Balanced 0) step-Balanced

  moved-Sound :
      (s t : State)
      → t.metrics ≡ s.metrics
      → t.input_queue ≡ s.input_queue
      → t.transport ≡ s.transport
      → t.worker_task ≡ s.worker_task
      → t.running ≡ s.running
      → Sound s
      → Sound t
  moved-Sound s t _ _ transport worker running v = record {
    shut = λ h. let (a, b) = v.shut (sym running ∙ h) in (transport ∙ a, worker ∙ b);
    open_socket = λ h. let (limit, a) = v.open_socket (sym running ∙ h) in (limit, transport ∙ a);
  }

  deliver-Sound :
      (transport : Option ℤ) (payload : Bytes) (address : String) (port : ℕ) (now : host.Float)
      (s : State)
      → Sound s
      → Sound (deliver transport payload address port now s)
  unfolding deliver
  deliver-Sound none payload address port now s v = v
  deliver-Sound (some limit) payload address port now s v = record {
    shut = v.shut;
    open_socket = v.open_socket;
  }

  worker-Sound : (sendto : Network) (s : State) → Sound s → Sound (worker_step audio sendto s)
  worker-Sound sendto s v = elim (Work-cases audio sendto s) [
    | idle e ↦ subst Sound (sym e) v
    | goes_on packet rest _ _ _ e ↦
        let (_, _, worker, running, transport) =
          handle-Handled audio sendto packet (dequeue rest s) in
        subst Sound (sym e) (record {
          shut = λ h. let (a, b) = v.shut (sym running ∙ h) in (transport ∙ a, worker ∙ b);
          open_socket =
              λ h. let (limit, a) = v.open_socket (sym running ∙ h) in (limit, transport ∙ a);
        })
    | ends packet rest x w _ _ e ↦
        let (_, _, _, running, transport) = handle-Handled audio sendto packet (dequeue rest s) in
        subst Sound (sym e) (record {
          shut = λ h. let (_, b) = v.shut (sym running ∙ h) in cc (b, w);
          open_socket =
              λ h. let (limit, a) = v.open_socket (sym running ∙ h) in (limit, transport ∙ a);
        })
  ]

  step-Sound : (e : Event host.Float) (s : State) → Sound s → Sound (step host audio e s)
  unfolding step restore_startup_settings reset_processor ingress
  step-Sound (arrives payload address port now) s v =
      deliver-Sound s.transport payload address port now s v
  step-Sound (works sendto) s v = worker-Sound sendto s v
  step-Sound (starts endpoint) s v = start-Sound audio endpoint s v
  step-Sound (stops sendto) s v = stop-Sound audio sendto s v
  step-Sound (selects sendto name) s v =
      select-keeps host audio Sound (λ s t sends. Sends-Sound sends) moved-Sound sendto name s v
  step-Sound (updates sendto us) s v =
      update-keeps host audio Sound (λ s t sends. Sends-Sound sends) moved-Sound sendto us s v
  step-Sound (restores sendto) s v =
      update-keeps host audio Sound (λ s t sends. Sends-Sound sends) moved-Sound sendto
        (all_fields s.startup_settings) s v
  step-Sound resets s v = moved-Sound s _ refl refl refl refl refl v

  -- Over any events, whatever they raise: while the service does not run it has neither a socket nor a
  -- worker, and while it runs its socket is open.
  pub run-Sound :
      (events : List (Event host.Float)) (s : State) → Sound s → Sound (run host audio events s)
  run-Sound = run-keeps host audio Sound step-Sound
