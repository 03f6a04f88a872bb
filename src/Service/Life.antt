-- ===== src/Service/Life.antt =====
-- app/audio_trombone/service.py: `start` and `stop`, and when the service is open.
use karaoke_anything.Prelude.{
  ◌≡◌, refl, sym, ap, ◌∙◌, subst, inl, inr, Bool, true, false, not, none, some, if◌then◌else◌,
}
use karaoke_anything.Prelude.Int.{ℤ}
use karaoke_anything.Prelude.Exec.{lift, modify, ◌>>◌, continue}
use karaoke_anything.Errors.{Exception, Result, ok, err, Result-cases}
use karaoke_anything.Service.State.{AudioProcessor, Network, TromboneService, absent}
use karaoke_anything.Service.Egress.{flush_processor, with_memory}
use karaoke_anything.Service.Sends.{Sends, Sends-refl, Sends-trans, flush-Sends}
use karaoke_anything.Service.Lifecycle.{
  drop_worker, opened, closed, on_memory, start, stop, work, worker_step,
}

module _ {F Memory : Type 0} (audio : AudioProcessor F Memory) (endpoint : Result (Unit {0}))
    (s : TromboneService F Memory) where
  pub data Start (z : Result (Unit {0}) × TromboneService F Memory) : Type 0 where
    already : s.running ≡ true → z ≡ (ok tt, s) → Start z
    -- the processor does not start, or the socket cannot be bound
    fails : (memory : Memory) (e : Exception) → z ≡ (err e, with_memory memory s) → Start z
    opens :
        (memory : Memory) → s.running ≡ false → z ≡ (ok tt, opened (with_memory memory s)) → Start z

  pub Start-cases : Start (start audio endpoint s)
  unfolding start
  Start-cases = by_flag s.running refl refl
    where
      by_flag :
          (running : Bool)
          → s.running ≡ running
          → start audio endpoint s ≡ (
              if running
              then (ok tt, s)
              else continue
                  (audio.start s.processor s.memory).0
                  (λ _. lift endpoint >> modify opened)
                  (with_memory (audio.start s.processor s.memory).1 s))
          → Start (start audio endpoint s)
      by_flag true r e = already r e
      by_flag false r e = elim (Result-cases (audio.start s.processor s.memory).0) [
        | inr (x, bad) ↦ fails (audio.start s.processor s.memory).1 x (e ∙ rw bad refl)
        | inl (_, good) ↦ elim (Result-cases endpoint) [
          | inr (x, bad) ↦ fails (audio.start s.processor s.memory).1 x (e ∙ rw (good, bad) refl)
          | inl (_, bound) ↦
              opens (audio.start s.processor s.memory).1 r (e ∙ rw (good, bound) refl)
        ]
      ]

module _ {F Memory : Type 0} (audio : AudioProcessor F Memory) (sendto : Network)
    (s : TromboneService F Memory) where
  pub data Stop (z : Result (Unit {0}) × TromboneService F Memory) : Type 0 where
    already : s.running ≡ false → z ≡ (ok tt, s) → Stop z
    -- the output of the processor cannot be flushed, or the processor does not stop
    fails :
        (t : TromboneService F Memory) (e : Exception)
        → s.running ≡ true
        → Sends (drop_worker s) t
        → z ≡ (err e, t)
        → Stop z
    closes :
        (t : TromboneService F Memory)
        → s.running ≡ true
        → Sends (drop_worker s) t
        → z ≡ (ok tt, closed t)
        → Stop z

  pub Stop-cases : Stop (stop audio sendto s)
  unfolding stop
  Stop-cases = by_flag s.running refl refl
    where
      t : TromboneService F Memory
      t = (flush_processor audio sendto (drop_worker s)).1

      u : TromboneService F Memory
      u = with_memory (audio.stop t.processor t.memory).1 t

      flushed : Sends (drop_worker s) t
      flushed = flush-Sends audio sendto (drop_worker s)

      by_flag :
          (running : Bool)
          → s.running ≡ running
          → stop audio sendto s ≡ (
              if not running
              then (ok tt, s)
              else continue
                  (flush_processor audio sendto (drop_worker s)).0
                  (λ _. on_memory audio audio.stop >> modify closed)
                  t)
          → Stop (stop audio sendto s)
      by_flag false r e = already r e
      by_flag true r e = elim (Result-cases (flush_processor audio sendto (drop_worker s)).0) [
        | inr (x, bad) ↦ fails t x r flushed (e ∙ rw bad refl)
        | inl (_, good) ↦ elim (Result-cases (audio.stop t.processor t.memory).0) [
          | inr (x, bad) ↦
              fails u x r (Sends-trans flushed (Sends-refl t _)) (e ∙ rw (good, bad) refl)
          | inl (_, done) ↦
              closes u r (Sends-trans flushed (Sends-refl t _)) (e ∙ rw (good, done) refl)
        ]
      ]

-- While the service does not run there is neither a transport nor a worker, and while it runs there
-- is a transport.
pub record Sound {F Memory : Type 0} (s : TromboneService F Memory) : Type 0 where
  pub shut : s.running ≡ false → (s.transport ≡ none) × (s.worker_task ≡ absent)
  pub open_socket : s.running ≡ true → (limit : ℤ) × (s.transport ≡ some limit)

module _ {F Memory : Type 0} where
  pub Sends-Sound : {s t : TromboneService F Memory} → Sends s t → Sound s → Sound t
  Sends-Sound sends v = record {
    shut = λ h.
        let (transport, worker) = v.shut (sym sends.running_same ∙ h) in
        (sends.transport_same ∙ transport, sends.worker_same ∙ worker);
    open_socket = λ h.
        let (limit, transport) = v.open_socket (sym sends.running_same ∙ h) in
        (limit, sends.transport_same ∙ transport);
  }

  module _ (audio : AudioProcessor F Memory) where
    pub start-Sound :
        (endpoint : Result (Unit {0})) (s : TromboneService F Memory)
        → Sound s
        → Sound (start audio endpoint s).1
    start-Sound endpoint s v = elim (Start-cases audio endpoint s) [
      | Start.already _ e ↦ by e v
      | Start.fails memory x e ↦ by e (record { shut = v.shut; open_socket = v.open_socket })
      | Start.opens memory _ e ↦
          by e (record { shut = λ h. cc; open_socket = λ _. (s.settings.max_packet_size, refl) })
    ]
      where
        by : {z y : Result (Unit {0}) × TromboneService F Memory} → z ≡ y → Sound y.1 → Sound z.1
        by e w = subst (λ (z : Result (Unit {0}) × TromboneService F Memory). Sound z.1) (sym e) w

    pub stop-Sound :
        (sendto : Network) (s : TromboneService F Memory) → Sound s → Sound (stop audio sendto s).1
    stop-Sound sendto s v = elim (Stop-cases audio sendto s) [
      | Stop.already _ e ↦ by e v
      | Stop.fails t x r sends e ↦ by e (Sends-Sound sends (dropped r))
      | Stop.closes t r sends e ↦
          by e (record { shut = λ _. (refl, sends.worker_same); open_socket = λ h. cc })
    ]
      where
        by : {z y : Result (Unit {0}) × TromboneService F Memory} → z ≡ y → Sound y.1 → Sound z.1
        by e w = subst (λ (z : Result (Unit {0}) × TromboneService F Memory). Sound z.1) (sym e) w

        dropped : s.running ≡ true → Sound (drop_worker s)
        dropped r = record { shut = λ h. cc (r, h); open_socket = v.open_socket }

    started_again :
        (endpoint : Result (Unit {0})) (s : TromboneService F Memory)
        → s.running ≡ true
        → start audio endpoint s ≡ (ok tt, s)
    unfolding start
    started_again endpoint s r =
        ap
          (λ running.
            if running
            then (ok tt, s)
            else continue (audio.start s.processor s.memory).0 (λ _. lift endpoint >> modify opened)
                (with_memory (audio.start s.processor s.memory).1 s))
          r

    -- If `stop` raises, the service is left running with its socket open but without a worker: no
    -- queued packet is handled, and `start` does nothing.
    pub stop_raises :
        (sendto later : Network) (endpoint : Result (Unit {0})) (s t : TromboneService F Memory)
        (e : Exception)
        → stop audio sendto s ≡ (err e, t)
        → (t.running ≡ true)
          × (t.transport ≡ s.transport)
          × (worker_step audio later t ≡ t)
          × (start audio endpoint t ≡ (ok tt, t))
    unfolding worker_step work start
    stop_raises sendto later endpoint s t e h = elim (Stop-cases audio sendto s) [
      | Stop.already _ q ↦ cc (h, q)
      | Stop.closes u _ _ q ↦ cc (h, q)
      | Stop.fails u x r sends q ↦
          let same : u ≡ t = cc (h, q) in
          subst
            (λ (z : TromboneService F Memory).
              (z.running ≡ true)
              × (z.transport ≡ s.transport)
              × (worker_step audio later z ≡ z)
              × (start audio endpoint z ≡ (ok tt, z)))
            same
            (
              sends.running_same ∙ r,
              sends.transport_same,
              ap (λ w. work audio later w u.input_queue.items u) sends.worker_same,
              started_again endpoint u (sends.running_same ∙ r),
            )
    ]
