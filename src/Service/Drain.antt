-- ===== src/Service/Drain.antt =====
-- app/audio_trombone/service.py, `_processing_loop`: the loop empties the queue.
use karaoke_anything.Prelude.{
  suc, ◌+◌, ◌≡◌, refl, sym, ap, ◌∙◌, subst, inl, inr, ◌⊎◌, List, [], ◌∷◌, length, arith,
}
use karaoke_anything.Models.{MediaPacket}
use karaoke_anything.Service.State.{AudioProcessor, Network, TromboneService, alive, ended}
use karaoke_anything.Service.Lifecycle.{work, worker_step}
use karaoke_anything.Service.Once.{counted, worker_step-once}

module _ {F Memory : Type 0} (audio : AudioProcessor F Memory) where
  -- the turns of the loop, each with what the network does in it
  unfoldable pub turns : List Network → TromboneService F Memory → TromboneService F Memory
  turns [] s = s
  turns (sendto ∷ more) s = turns more (worker_step audio sendto s)

  -- The queue is empty and every packet is counted, or a cancellation ended the worker: then one
  -- packet is not counted, and those behind it wait.
  abbrev pub Drained : TromboneService F Memory → TromboneService F Memory → Type 0
  Drained s t =
      ((t.worker_task ≡ alive)
        × (t.input_queue.items ≡ [])
        × (counted t ≡ counted s + length s.input_queue.items))
      ⊎ ((t.worker_task ≡ ended)
          × (counted t + length t.input_queue.items + 1 ≡ counted s + length s.input_queue.items))

  turns_ended :
      (sends : List Network) (s : TromboneService F Memory)
      → s.worker_task ≡ ended
      → turns sends s ≡ s
  unfolding turns worker_step work
  turns_ended [] s w = refl
  turns_ended (sendto ∷ more) s w =
      let still : worker_step audio sendto s ≡ s =
        ap (λ worker. work audio sendto worker s.input_queue.items s) w in
      ap (turns more) still ∙ turns_ended more s w

  drained :
      (sends : List Network) (items : List (MediaPacket F)) (s : TromboneService F Memory)
      → s.worker_task ≡ alive
      → s.input_queue.items ≡ items
      → length sends ≡ length items
      → Drained s (turns sends s)
  unfolding turns
  drained [] [] s w queued h = inl (w, queued, omega (arith, ap length queued))
  drained [] (packet ∷ rest) s w queued h = absurd (omega arith)
  drained (sendto ∷ more) [] s w queued h = absurd (omega arith)
  drained (sendto ∷ more) (packet ∷ rest) s w queued h =
      let t = worker_step audio sendto s in
      let whole : length s.input_queue.items ≡ suc (length rest) = ap length queued in
      let (left, either) = worker_step-once audio sendto packet rest s w queued in
      elim either [
        | inl (still, one) ↦ elim (drained more rest t still left (omega arith)) [
          | inl (w', empty, all) ↦ inl (w', empty, omega (arith, all, one, whole, ap length left))
          | inr (w', all) ↦ inr (w', omega (arith, all, one, whole, ap length left))
        ]
        | inr (over, none_counted) ↦
            subst (Drained s) (sym (turns_ended more t over))
              (inr (over, omega (arith, none_counted, whole, ap length left)))
      ]

  -- If the worker runs, as many turns as packets wait are enough: the loop empties the queue and counts
  -- every packet once, as processed or as a processor error, unless the worker is cancelled on the way.
  -- Then it has ended, the packet it held is not counted, and the packets behind that one wait.
  pub turns-Drained :
      (sends : List Network) (s : TromboneService F Memory)
      → s.worker_task ≡ alive
      → length sends ≡ length s.input_queue.items
      → Drained s (turns sends s)
  turns-Drained sends s w h = drained sends s.input_queue.items s w refl h
