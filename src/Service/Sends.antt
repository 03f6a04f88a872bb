-- ===== src/Service/Sends.antt =====
-- app/audio_trombone/service.py: what sending outputs changes, and what it leaves.
use karaoke_anything.Prelude.{
  ℕ, ◌+◌, ◌≡◌, refl, sym, ◌∙◌, subst, inl, inr, ◌⊎◌, String, Option-cases, List, [], ◌∷◌, length,
  arith,
}
use karaoke_anything.Errors.{Result-cases}
use karaoke_anything.Models.{ProcessedPacket, Metrics}
use karaoke_anything.Service.State.{AudioProcessor, Network, TromboneService}
use karaoke_anything.Service.Egress.{
  or_host, or_maybe, or_port, send_output, emit, emit_flushed, flush_processor, with_memory,
  count_emitted, count_forwarded, count_forwarding_error,
}

module _ {F Memory : Type 0} where
  -- Between `s` and `t` outputs were sent: each that was emitted was forwarded or failed. The other
  -- counters of packets, the queue, the settings, the processor and the tasks are the same.
  pub record Sends (s t : TromboneService F Memory) : Type 0 where
    pub balance :
        t.metrics.packets_emitted + (s.metrics.packets_forwarded + s.metrics.forwarding_errors)
        ≡ s.metrics.packets_emitted + (t.metrics.packets_forwarded + t.metrics.forwarding_errors)
    pub processed_same : t.metrics.packets_processed ≡ s.metrics.packets_processed
    pub errors_same : t.metrics.processor_errors ≡ s.metrics.processor_errors
    pub enqueued_same : t.metrics.packets_enqueued ≡ s.metrics.packets_enqueued
    pub queue_same : t.input_queue ≡ s.input_queue
    pub startup_same : t.startup_settings ≡ s.startup_settings
    pub settings_same : t.settings ≡ s.settings
    pub registry_same : t.registry_settings ≡ s.registry_settings
    pub processor_same : t.processor ≡ s.processor
    pub transport_same : t.transport ≡ s.transport
    pub worker_same : t.worker_task ≡ s.worker_task
    pub running_same : t.running ≡ s.running

  changed-Sends :
      (s : TromboneService F Memory) (memory : Memory) (m : Metrics F)
      → m.packets_emitted + (s.metrics.packets_forwarded + s.metrics.forwarding_errors)
        ≡ s.metrics.packets_emitted + (m.packets_forwarded + m.forwarding_errors)
      → m.packets_processed ≡ s.metrics.packets_processed
      → m.processor_errors ≡ s.metrics.processor_errors
      → m.packets_enqueued ≡ s.metrics.packets_enqueued
      → Sends s (record s { memory = memory; metrics = m })
  changed-Sends s memory m balance processed errors enqueued = record {
    balance = balance;
    processed_same = processed;
    errors_same = errors;
    enqueued_same = enqueued;
    queue_same = refl;
    startup_same = refl;
    settings_same = refl;
    registry_same = refl;
    processor_same = refl;
    transport_same = refl;
    worker_same = refl;
    running_same = refl;
  }

  pub Sends-refl : (s : TromboneService F Memory) (memory : Memory) → Sends s (with_memory memory s)
  Sends-refl s memory = changed-Sends s memory s.metrics refl refl refl refl

  pub Sends-trans : {s t u : TromboneService F Memory} → Sends s t → Sends t u → Sends s u
  Sends-trans h k = record {
    balance = omega (arith, h.balance, k.balance);
    processed_same = k.processed_same ∙ h.processed_same;
    errors_same = k.errors_same ∙ h.errors_same;
    enqueued_same = k.enqueued_same ∙ h.enqueued_same;
    queue_same = k.queue_same ∙ h.queue_same;
    startup_same = k.startup_same ∙ h.startup_same;
    settings_same = k.settings_same ∙ h.settings_same;
    registry_same = k.registry_same ∙ h.registry_same;
    processor_same = k.processor_same ∙ h.processor_same;
    transport_same = k.transport_same ∙ h.transport_same;
    worker_same = k.worker_same ∙ h.worker_same;
    running_same = k.running_same ∙ h.running_same;
  }

  -- an output is forwarded, or it is a forwarding error
  pub send_cases :
      (sendto : Network) (n : ℕ) (output : ProcessedPacket) (fallback : String)
      (s : TromboneService F Memory)
      → (send_output sendto n output fallback s ≡ count_forwarded (length output.payload) s)
        ⊎ (send_output sendto n output fallback s ≡ count_forwarding_error s)
  unfolding send_output
  send_cases sendto n output fallback s = elim (Option-cases s.transport) [
    | inl e ↦ inr (rw e refl)
    | inr (_, e) ↦
        let host = or_host output.destination_host (or_host s.settings.return_host fallback) in
        let port = or_port output.destination_port s.settings.output_port in
        elim (Result-cases (sendto n output.payload host port)) [
          | inl (_, sent) ↦ inl (simp (e, sent, send_output))
          | inr (_, failed) ↦ inr (simp (e, failed, send_output))
        ]
  ]

  forwarded-Sends :
      (size : ℕ) (s : TromboneService F Memory) → Sends s (count_forwarded size (count_emitted s))
  forwarded-Sends size s =
      changed-Sends s s.memory (count_forwarded size (count_emitted s)).metrics (omega arith) refl
        refl refl

  failed-Sends : (s : TromboneService F Memory) → Sends s (count_forwarding_error (count_emitted s))
  failed-Sends s =
      changed-Sends s s.memory (count_forwarding_error (count_emitted s)).metrics (omega arith) refl
        refl refl

  sent-Sends :
      (sendto : Network) (n : ℕ) (output : ProcessedPacket) (fallback : String)
      (s : TromboneService F Memory)
      → Sends s (send_output sendto n output fallback (count_emitted s))
  sent-Sends sendto n output fallback s =
      elim (send_cases sendto n output fallback (count_emitted s)) [
        | inl e ↦ subst (Sends s) (sym e) (forwarded-Sends (length output.payload) s)
        | inr e ↦ subst (Sends s) (sym e) (failed-Sends s)
      ]

  pub emit-Sends :
      (sendto : Network) (n : ℕ) (outputs : List ProcessedPacket) (sender : String)
      (s : TromboneService F Memory)
      → Sends s (emit sendto n outputs sender s)
  unfolding emit
  emit-Sends sendto n [] sender s = Sends-refl s s.memory
  emit-Sends sendto n (output ∷ outputs) sender s =
      Sends-trans (sent-Sends sendto n output sender s) (emit-Sends sendto (n + 1) outputs sender _)

  pub emit_flushed-Sends :
      (sendto : Network) (n : ℕ) (outputs : List ProcessedPacket) (s : TromboneService F Memory)
      → Sends s (emit_flushed sendto n outputs s)
  unfolding emit_flushed
  emit_flushed-Sends sendto n [] s = Sends-refl s s.memory
  emit_flushed-Sends sendto n (output ∷ outputs) s =
      elim (Option-cases (or_maybe s.settings.return_host s.metrics.last_sender_host)) [
        | inl e ↦ rw e (emit_flushed-Sends sendto (n + 1) outputs s)
        | inr (fallback, e) ↦ rw e (
            Sends-trans (sent-Sends sendto n output fallback s)
              (emit_flushed-Sends sendto (n + 1) outputs _))
      ]

  module _ (audio : AudioProcessor F Memory) (sendto : Network) where
    pub flush-Sends : (s : TromboneService F Memory) → Sends s (flush_processor audio sendto s).1
    unfolding flush_processor
    flush-Sends s =
        let yields = audio.flush s.processor s.memory in
        Sends-trans (Sends-refl s yields.memory)
          (emit_flushed-Sends sendto 0 yields.outputs (with_memory yields.memory s))
