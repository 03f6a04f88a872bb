-- ===== src/Service/Work.antt =====
-- app/audio_trombone/service.py, `_processing_loop`: every way that a step of the worker ends.
use karaoke_anything.Prelude.{◌≡◌, refl, ap, ◌∙◌, inl, inr, List, [], ◌∷◌}
use karaoke_anything.Errors.{Exception, ok, err, Result-cases}
use karaoke_anything.Models.{MediaPacket}
use karaoke_anything.Service.State.{
  AudioProcessor, Network, TromboneService, Worker, absent, alive, ended,
}
use karaoke_anything.Service.Egress.{handle}
use karaoke_anything.Service.Lifecycle.{dequeue, settle, work, worker_step}

module _ {F Memory : Type 0} (audio : AudioProcessor F Memory) (sendto : Network)
    (s : TromboneService F Memory) where
  pub data Work : Type 0 where
    -- there is no worker, or no packet
    idle : worker_step audio sendto s ≡ s → Work
    goes_on :
        (packet : MediaPacket F) (rest : List (MediaPacket F))
        → s.worker_task ≡ alive
        → s.input_queue.items ≡ packet ∷ rest
        → (handle audio sendto packet (dequeue rest s)).0 ≡ ok tt
        → worker_step audio sendto s ≡ (handle audio sendto packet (dequeue rest s)).1
        → Work
    ends :
        (packet : MediaPacket F) (rest : List (MediaPacket F)) (e : Exception)
        → s.worker_task ≡ alive
        → s.input_queue.items ≡ packet ∷ rest
        → (handle audio sendto packet (dequeue rest s)).0 ≡ err e
        → worker_step audio sendto s
          ≡ record ((handle audio sendto packet (dequeue rest s)).1) { worker_task = ended }
        → Work

  by_state :
      (w : Worker) (items : List (MediaPacket F))
      → s.worker_task ≡ w
      → s.input_queue.items ≡ items
      → worker_step audio sendto s ≡ work audio sendto w items s
      → Work
  unfolding work
  by_state absent items w queued e = idle e
  by_state ended items w queued e = idle e
  by_state alive [] w queued e = idle e
  by_state alive (packet ∷ rest) w queued e =
      elim (Result-cases (handle audio sendto packet (dequeue rest s)).0) [
        | inl (_, good) ↦
            goes_on packet rest w queued good
              (e ∙ ap (λ r. settle (r, (handle audio sendto packet (dequeue rest s)).1)) good)
        | inr (x, bad) ↦
            ends packet rest x w queued bad
              (e ∙ ap (λ r. settle (r, (handle audio sendto packet (dequeue rest s)).1)) bad)
      ]

  pub Work-cases : Work
  unfolding worker_step
  Work-cases = by_state s.worker_task s.input_queue.items refl refl refl
