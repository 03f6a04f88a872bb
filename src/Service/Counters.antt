-- ===== src/Service/Counters.antt =====
-- app/audio_trombone/service.py: the balance of the counters, and the steps that keep it.
use karaoke_anything.Prelude.{
  ℕ, ◌+◌, ◌≤◌, ◌≡◌, sym, ap, subst, String, Option, none, some, List, [], ◌∷◌, length,
  length-append, arith,
}
use karaoke_anything.Prelude.Int.{ℤ}
use karaoke_anything.Errors.{Result, ok, err, cancelled_error}
use karaoke_anything.Models.{received, MediaPacket}
use karaoke_anything.Kany.{Bytes}
use karaoke_anything.Transport.{datagram_received}
use karaoke_anything.Service.State.{AudioProcessor, Network, TromboneService}
use karaoke_anything.Service.Egress.{handle, with_memory, count_end}
use karaoke_anything.Service.Sends.{Sends, emit-Sends}
use karaoke_anything.Service.Lifecycle.{drop_worker, dequeue, ingress, deliver, worker_step}
use karaoke_anything.Service.Work.{Work-cases, idle, goes_on, ends}

-- Every output that was emitted was forwarded or failed; and the packets that were processed, that
-- failed, that wait in the queue, and `k` more, were all put on the queue.
pub record Balanced {F Memory : Type 0} (k : ℕ) (s : TromboneService F Memory) : Type 0 where
  pub emitted_all :
      s.metrics.packets_emitted ≡ s.metrics.packets_forwarded + s.metrics.forwarding_errors
  pub handled :
      s.metrics.packets_processed + s.metrics.processor_errors + (k + length s.input_queue.items)
      ≤ s.metrics.packets_enqueued

module _ {F Memory : Type 0} where
  pub Sends-Balanced :
      (k : ℕ) {s t : TromboneService F Memory} → Sends s t → Balanced k s → Balanced k t
  Sends-Balanced k sends b =
      let queue = ap (λ q. length q.items) sends.queue_same in
      record {
        emitted_all = omega (arith, sends.balance, b.emitted_all);
        handled =
            omega (
              arith, b.handled, sends.processed_same, sends.errors_same, sends.enqueued_same, queue,
            );
      }

  ended-Balanced :
      (r : Result (Unit {0})) (s : TromboneService F Memory)
      → Balanced 1 s
      → Balanced 0 (count_end r s).1
  ended-Balanced (ok _) s b = record {
    emitted_all = b.emitted_all;
    handled = omega (arith, b.handled);
  }
  ended-Balanced (err cancelled_error) s b = record {
    emitted_all = b.emitted_all;
    handled = omega (arith, b.handled);
  }
  ended-Balanced (err _) s b = record {
    emitted_all = b.emitted_all;
    handled = omega (arith, b.handled);
  }

  module _ (audio : AudioProcessor F Memory) (sendto : Network) where
    handle-Balanced :
        (packet : MediaPacket F) (s : TromboneService F Memory)
        → Balanced 1 s
        → Balanced 0 (handle audio sendto packet s).1
    unfolding handle
    handle-Balanced packet s b =
        let yields = audio.process s.processor packet s.memory in
        ended-Balanced yields.ended _ (
          Sends-Balanced 1
            (emit-Sends sendto 0 yields.outputs packet.sender_host (with_memory yields.memory s))
            (record { emitted_all = b.emitted_all; handled = b.handled }))

    taken :
        (s : TromboneService F Memory) (packet : MediaPacket F) (rest : List (MediaPacket F))
        → s.input_queue.items ≡ packet ∷ rest
        → Balanced 0 s
        → Balanced 0 (handle audio sendto packet (dequeue rest s)).1
    taken s packet rest queued b = handle-Balanced packet (dequeue rest s) (record {
      emitted_all = b.emitted_all;
      handled = omega (arith, b.handled, ap length queued);
    })

    pub worker-Balanced :
        (s : TromboneService F Memory) → Balanced 0 s → Balanced 0 (worker_step audio sendto s)
    worker-Balanced s b = elim (Work-cases audio sendto s) [
      | idle e ↦ subst (Balanced 0) (sym e) b
      | goes_on packet rest _ queued _ e ↦ subst (Balanced 0) (sym e) (taken s packet rest queued b)
      | ends packet rest x _ queued _ e ↦
          let t = taken s packet rest queued b in
          subst (Balanced 0) (sym e) (record { emitted_all = t.emitted_all; handled = t.handled })
    ]

  deliver-Balanced :
      (transport : Option ℤ) (payload : Bytes) (host : String) (port : ℕ) (now : F)
      (s : TromboneService F Memory)
      → Balanced 0 s
      → Balanced 0 (deliver transport payload host port now s)
  unfolding deliver datagram_received
  deliver-Balanced none payload host port now s b = b
  deliver-Balanced (some limit) payload host port now s b = ground (
    arith,
    b.emitted_all,
    b.handled,
    length-append s.input_queue.items (received payload host port now ∷ []),
  )

  pub ingress-Balanced :
      (payload : Bytes) (host : String) (port : ℕ) (now : F) (s : TromboneService F Memory)
      → Balanced 0 s
      → Balanced 0 (ingress payload host port now s)
  unfolding ingress
  ingress-Balanced payload host port now s b =
      deliver-Balanced s.transport payload host port now s b

module _ {F Memory : Type 0} where
  pub same_counts :
      {s t : TromboneService F Memory}
      → t.metrics ≡ s.metrics
      → t.input_queue ≡ s.input_queue
      → Balanced 0 s
      → Balanced 0 t
  same_counts metrics queue b = record {
    emitted_all =
        subst (λ m. m.packets_emitted ≡ m.packets_forwarded + m.forwarding_errors) (sym metrics)
          b.emitted_all;
    handled = omega (
      arith,
      b.handled,
      ap (λ m. m.packets_processed) metrics,
      ap (λ m. m.processor_errors) metrics,
      ap (λ m. m.packets_enqueued) metrics,
      ap (λ q. length q.items) queue,
    );
  }

  pub drop_worker-Sends :
      {s t : TromboneService F Memory} → Sends (drop_worker s) t → Balanced 0 s → Balanced 0 t
  drop_worker-Sends sends b =
      Sends-Balanced 0 sends (record { emitted_all = b.emitted_all; handled = b.handled })
