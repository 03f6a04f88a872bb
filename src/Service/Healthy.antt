-- ===== src/Service/Healthy.antt =====
-- app/audio_trombone/service.py: an invariant of the fields of a processor, and the parts of the service
-- that change no field.
pub mod Steps
use karaoke_anything.Prelude.{
  ℕ, ◌+◌, ◌≡◌, refl, sym, subst, inl, inr, String, Bool, true, false, not, Option, none, some,
  Option-cases, List, [], ◌∷◌, length, All, All-append, Bool-cases, if◌then◌else◌,
}
use karaoke_anything.Prelude.Int.{ℤ, above}
use karaoke_anything.Prelude.Exec.{Exec, lift, modify, pure, continue, ◌>>=◌, ◌>>◌}
use karaoke_anything.Errors.{Result, ok, err, cancelled_error, >>=-eq-ok, ok-injective}
use karaoke_anything.Host.{Host}
use karaoke_anything.Config.{Settings}
use karaoke_anything.Kany.{Bytes, IsByte}
use karaoke_anything.Models.{MediaPacket, ProcessedPacket, received}
use karaoke_anything.Transport.{full, datagram_received}
use karaoke_anything.Registry.{ProcessorConfig, create}
use karaoke_anything.Service.Settings.{
  Update, unknown_keys, replace, all_fields, validate_runtime_settings,
}
use karaoke_anything.Service.Live.{LiveApplyRule, find_live_apply_rule, set_attribute, setting}
use karaoke_anything.Service.State.{AudioProcessor, Network, TromboneService, Worker, alive}
use karaoke_anything.Service.Egress.{
  or_maybe, send_output, emit, emit_flushed, count_emitted, count_end, with_memory, handle,
  flush_processor,
}
use karaoke_anything.Service.Sends.{send_cases}
use karaoke_anything.Service.Lifecycle.{
  Applied, reject_unknown, dequeue, settle, deliver, ingress, on_memory, started, start,
  reset_processor, work, worker_step, stop, swap, drop_worker, closed, opened, rename, install,
  adopt, apply_live, select_processor, restart_with, update_runtime_settings,
  restore_startup_settings,
}
use karaoke_anything.Service.History.{
  Event, arrives, works, stops, restores, starts, selects, updates, resets, step,
}

-- What each method of a processor keeps, by the processor's class and attributes.
pub record Lawful {F Memory : Type 0} (audio : AudioProcessor F Memory)
    (Holds : ProcessorConfig F → Memory → Type 0) : Type 0 where
  pub init : (config : ProcessorConfig F) → Holds config (audio.init config)
  pub starts :
      (config : ProcessorConfig F) (m : Memory)
      → Holds config m
      → Holds config (audio.start config m).1
  pub stops :
      (config : ProcessorConfig F) (m : Memory)
      → Holds config m
      → Holds config (audio.stop config m).1
  pub resets :
      (config : ProcessorConfig F) (m : Memory)
      → Holds config m
      → Holds config (audio.reset config m).1
  pub flushes :
      (config : ProcessorConfig F) (m : Memory)
      → Holds config m
      → Holds config (audio.flush config m).memory
  pub processes :
      (config : ProcessorConfig F) (packet : MediaPacket F) (m : Memory)
      → All IsByte packet.payload
      → Holds config m
      → Holds config (audio.process config packet m).memory
  pub attributes :
      (name : String) (value : F) (config : ProcessorConfig F) (m : Memory)
      → Holds config m
      → Holds (set_attribute name value config) m

abbrev pub OfBytes : {F : Type 0} → MediaPacket F → Type 0
OfBytes packet = All IsByte packet.payload

-- the datagrams that arrive are bytes
abbrev pub Delivers : {F : Type 0} → Event F → Type 0
Delivers (arrives payload _ _ _) = All IsByte payload
Delivers _ = Unit

module _ {Memory : Type 0} (host : Host) (audio : AudioProcessor host.Float Memory)
    (Holds : ProcessorConfig host.Float → Memory → Type 0) where
  abbrev State : Type 0
  State = TromboneService host.Float Memory

  -- the fields of the active processor satisfy their invariant, and the packets that wait are bytes
  abbrev pub Healthy : State → Type 0
  Healthy s = Holds s.processor s.memory × All OfBytes s.input_queue.items

  abbrev pub Keeps {ℓ} : {A : Type ℓ} → Exec State A → Type 0
  Keeps m = (s : State) → Healthy s → Healthy (m s).1

  pub continue-Keeps {ℓ κ} :
      {A : Type ℓ} {B : Type κ} (r : Result A) (f : A → Exec State B)
      → ((a : A) → r ≡ ok a → Keeps (f a))
      → Keeps (continue r f)
  continue-Keeps (ok a) f k s h = k a refl s h
  continue-Keeps (err e) f k s h = h

  pub bind-Keeps {ℓ κ} :
      {A : Type ℓ} {B : Type κ} (m : Exec State A) (f : A → Exec State B)
      → Keeps m
      → ((a : A) → Keeps (f a))
      → Keeps (m >>= f)
  bind-Keeps m f first rest s h = continue-Keeps (m s).0 f (λ a _. rest a) (m s).1 (first s h)

  send_output-Healthy :
      (sendto : Network) (n : ℕ) (output : ProcessedPacket) (fallback : String)
      → (s : State) → Healthy s
      → Healthy (send_output sendto n output fallback s)
  send_output-Healthy sendto n output fallback s h = elim (send_cases sendto n output fallback s) [
    | inl sent ↦ subst Healthy (sym sent) h
    | inr lost ↦ subst Healthy (sym lost) h
  ]

  pub emit-Healthy :
      (sendto : Network) (n : ℕ) (outputs : List ProcessedPacket) (sender : String) (s : State)
      → Healthy s
      → Healthy (emit sendto n outputs sender s)
  unfolding emit
  emit-Healthy sendto n [] sender s h = h
  emit-Healthy sendto n (output ∷ outputs) sender s h =
      emit-Healthy sendto (n + 1) outputs sender
        (send_output sendto n output sender (count_emitted s))
        (send_output-Healthy sendto n output sender (count_emitted s) h)

  pub emit_flushed-Healthy :
      (sendto : Network) (n : ℕ) (outputs : List ProcessedPacket) (s : State)
      → Healthy s
      → Healthy (emit_flushed sendto n outputs s)
  unfolding emit_flushed
  emit_flushed-Healthy sendto n [] s h = h
  emit_flushed-Healthy sendto n (output ∷ outputs) s h =
      elim (Option-cases (or_maybe s.settings.return_host s.metrics.last_sender_host)) [
        | inl e ↦ rw (e, emit_flushed) (emit_flushed-Healthy sendto (n + 1) outputs s h)
        | inr (fallback, e) ↦
            rw (e, emit_flushed)
              (emit_flushed-Healthy sendto (n + 1) outputs
                (send_output sendto n output fallback (count_emitted s))
                (send_output-Healthy sendto n output fallback (count_emitted s) h))
      ]

  pub count_end-Keeps : (r : Result (Unit {0})) → Keeps (count_end r)
  count_end-Keeps (ok _) s h = h
  count_end-Keeps (err cancelled_error) s h = h
  count_end-Keeps (err _) s h = h

  pub settle-Healthy : (z : Result (Unit {0}) × State) → Healthy z.1 → Healthy (settle z)
  settle-Healthy (ok _, t) h = h
  settle-Healthy (err _, t) h = h

  pub deliver-Healthy :
      (transport : Option ℤ) (payload : Bytes) (sender : String) (port : ℕ) (now : host.Float)
      (s : State)
      → All IsByte payload
      → Healthy s
      → Healthy (deliver transport payload sender port now s)
  unfolding deliver datagram_received
  deliver-Healthy none payload sender port now s hb h = h
  deliver-Healthy (some limit) payload sender port now s hb h =
      elim (Bool-cases (above (length payload) limit)) [
        | inl large ↦ rw (large, deliver, datagram_received) h
        | inr small ↦ elim (Bool-cases (full s.input_queue)) [
          | inl no_room ↦ rw (small, no_room, deliver, datagram_received) h
          | inr room ↦
              rw (small, room, deliver, datagram_received)
                (
                  h.0,
                  All-append OfBytes s.input_queue.items (received payload sender port now ∷ []) h.1
                      (hb, tt),
                )
        ]
      ]
