-- ===== src/Service/Once.antt =====
-- app/audio_trombone/service.py, `_processing_loop`: each packet that the worker takes is counted once.
use karaoke_anything.Prelude.{
  ℕ, ◌+◌, ◌≡◌, refl, sym, ap, ap₂, ◌∙◌, subst, inl, inr, ◌⊎◌, List, ◌∷◌, arith,
}
use karaoke_anything.Errors.{Result, ok, err, cancelled_error}
use karaoke_anything.Models.{MediaPacket}
use karaoke_anything.Service.State.{AudioProcessor, Network, TromboneService, alive, ended}
use karaoke_anything.Service.Egress.{handle, with_memory, count_end}
use karaoke_anything.Service.Sends.{Sends, Sends-refl, Sends-trans, emit-Sends}
use karaoke_anything.Service.Lifecycle.{dequeue, settle, work, worker_step}

module _ {F Memory : Type 0} where
  abbrev pub counted : TromboneService F Memory → ℕ
  counted s = s.metrics.packets_processed + s.metrics.processor_errors

  -- how a call of `handle` ends, from `s` to `z`
  abbrev pub Handled :
      TromboneService F Memory → Result (Unit {0}) × TromboneService F Memory → Type 0
  Handled s z =
      (((z.0 ≡ ok tt) × (counted z.1 ≡ counted s + 1))
        ⊎ ((z.0 ≡ err cancelled_error) × (counted z.1 ≡ counted s)))
      × (z.1.input_queue ≡ s.input_queue)
      × (z.1.worker_task ≡ s.worker_task)
      × (z.1.running ≡ s.running)
      × (z.1.transport ≡ s.transport)

  ended-Handled :
      (r : Result (Unit {0})) (s t : TromboneService F Memory)
      → Sends s t
      → Handled s (count_end r t)
  ended-Handled (ok _) s t sends = (
    inl (refl, omega (arith, sends.processed_same, sends.errors_same)),
    sends.queue_same,
    sends.worker_same,
    sends.running_same,
    sends.transport_same,
  )
  ended-Handled (err cancelled_error) s t sends = (
    inr (refl, omega (arith, sends.processed_same, sends.errors_same)),
    sends.queue_same,
    sends.worker_same,
    sends.running_same,
    sends.transport_same,
  )
  ended-Handled (err _) s t sends = (
    inl (refl, omega (arith, sends.processed_same, sends.errors_same)),
    sends.queue_same,
    sends.worker_same,
    sends.running_same,
    sends.transport_same,
  )

  -- what a step of the worker leaves of the queue and the counters
  abbrev pub TakenOnce :
      List (MediaPacket F) → TromboneService F Memory → TromboneService F Memory → Type 0
  TakenOnce rest s t =
      (t.input_queue.items ≡ rest)
      × (((t.worker_task ≡ alive) × (counted t ≡ counted s + 1))
          ⊎ ((t.worker_task ≡ ended) × (counted t ≡ counted s)))

  settle-TakenOnce :
      (rest : List (MediaPacket F)) (s : TromboneService F Memory)
      (z : Result (Unit {0}) × TromboneService F Memory)
      → s.worker_task ≡ alive
      → Handled (dequeue rest s) z
      → TakenOnce rest s (settle z)
  settle-TakenOnce rest s (ok _, t) w (inl (_, one), queue, worker, _, _) =
      (ap (λ q. q.items) queue, inl (worker ∙ w, one))
  settle-TakenOnce rest s (ok _, t) w (inr (e, _), _, _, _, _) = cc
  settle-TakenOnce rest s (err _, t) w (inl (e, _), _, _, _, _) = cc
  settle-TakenOnce rest s (err _, t) w (inr (_, none_counted), queue, _, _, _) =
      (ap (λ q. q.items) queue, inr (refl, none_counted))

  module _ (audio : AudioProcessor F Memory) (sendto : Network) where
    pub handle-Handled :
        (packet : MediaPacket F) (s : TromboneService F Memory)
        → Handled s (handle audio sendto packet s)
    unfolding handle
    handle-Handled packet s =
        let yields = audio.process s.processor packet s.memory in
        ended-Handled yields.ended s _ (
          Sends-trans (Sends-refl s yields.memory)
            (emit-Sends sendto 0 yields.outputs packet.sender_host (with_memory yields.memory s)))

    -- When the worker runs and a packet waits, the oldest packet leaves the queue, and either the worker
    -- goes on and the packet is counted once, as processed or as a processor error, or the worker was
    -- cancelled, has ended, and the packet is not counted.
    pub worker_step-once :
        (packet : MediaPacket F) (rest : List (MediaPacket F)) (s : TromboneService F Memory)
        → s.worker_task ≡ alive
        → s.input_queue.items ≡ packet ∷ rest
        → TakenOnce rest s (worker_step audio sendto s)
    unfolding worker_step work
    worker_step-once packet rest s w queued =
        subst (TakenOnce rest s)
          (sym (ap₂ (λ worker items. work audio sendto worker items s) w queued))
          (settle-TakenOnce rest s (handle audio sendto packet (dequeue rest s)) w
            (handle-Handled packet (dequeue rest s)))
