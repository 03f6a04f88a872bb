-- ===== src/Processors/Segmented/Harvest.antt =====
-- segmented_inference.py, `_harvest_inference`: every way that it can end.
use karaoke_anything.Prelude.{
  ℕ, ◌+◌, ◌≡◌, ◌≢◌, refl, inl, inr, Bool-cases, false, Option, none, some, List, [], ◌++◌, map,
  length, ◌==◌, ==_iff, arith,
}
use karaoke_anything.Errors.{
  Exception, Result, ok, err, cancelled_error, inference_failed, wrong_sample_count,
}
use karaoke_anything.Host.{Host}
use karaoke_anything.Kany.{ByteOrder}
use karaoke_anything.Processors.Segmented.Defs.{
  Segmented, Subclass, Task, running, finished, await_segment_result, distribute_segment_output,
  finish_segment, harvest_inference, expected_samples,
}
use karaoke_anything.Processors.Segmented.Distribute.{resliced, written, distribute_loop_lem}

module _ {F : Type 0} where
  -- the task is gone, and so are its packets
  abbrev pub abandoned : Segmented F → Segmented F
  abandoned s = record s { inference_task = none; active_packets = [] }

  -- the result is cut up, behind what is already waiting
  abbrev pub delivered : ByteOrder → List ℕ → Segmented F → Segmented F
  delivered order ws s = record s {
    inference_task = none;
    active_packets = [];
    ready_output = s.ready_output ++ map (written order) (resliced s.active_packets ws);
    segments_completed = s.segments_completed + 1;
    last_error = none;
  }

abbrev pub IsUnfinished : Option Task → Type 0
IsUnfinished none = Unit
IsUnfinished (some (running job)) = Unit
IsUnfinished (some (finished r)) = ⊥

-- how `_await_segment_result` reports an exception of the task
abbrev pub failure : Subclass → Exception → Exception
failure subclass cancelled_error = cancelled_error
failure subclass x = inference_failed subclass.model_label x

pub failure-other :
    (subclass : Subclass) (x : Exception)
    → x ≢ cancelled_error
    → failure subclass x ≡ inference_failed subclass.model_label x
failure-other subclass cancelled_error h = absurd (h refl)
failure-other subclass other h = refl

pub finished-injective : {a b : Result (List ℕ)} → some (finished a) ≡ some (finished b) → a ≡ b
finished-injective h = cc h

pub err-injective : {a b : Exception} → Path (Result (List ℕ)) (err a) (err b) → a ≡ b
err-injective h = cc h

module _ (host : Host) (subclass : Subclass) (segment_seconds : host.Float) where
  pub data Harvest (s : Segmented host.Float) (r : Result (Unit {0}) × Segmented host.Float)
      : Type 0 where
    waits : IsUnfinished s.inference_task → r ≡ (ok tt, s) → Harvest s r
    delivers :
        (ws : List ℕ)
        → s.inference_task ≡ some (finished (ok ws))
        → length ws ≡ expected_samples s.active_packets
        → r ≡ (ok tt, delivered host.byteorder ws s)
        → Harvest s r
    mismatches :
        (ws : List ℕ)
        → s.inference_task ≡ some (finished (ok ws))
        → length ws ≢ expected_samples s.active_packets
        → r ≡ (
          err (
              wrong_sample_count subclass.model_label
                (length ws)
                (expected_samples s.active_packets)),
          abandoned s,
        )
        → Harvest s r
    cancelled :
        s.inference_task ≡ some (finished (err cancelled_error))
        → r ≡ (err cancelled_error, abandoned s)
        → Harvest s r
    fails :
        (e : Exception)
        → s.inference_task ≡ some (finished (err e))
        → e ≢ cancelled_error
        → r ≡ (
          err (inference_failed subclass.model_label e),
          record (abandoned s) { last_error = some e },
        )
        → Harvest s r

  pub distribute_fits :
      (ws : List ℕ) (s : Segmented host.Float)
      → length ws ≡ expected_samples s.active_packets
      → distribute_segment_output host subclass segment_seconds ws s ≡ (
        ok tt,
        record s {
          ready_output =
              s.ready_output ++ map (written host.byteorder) (resliced s.active_packets ws);
        },
      )
  unfolding distribute_segment_output
  distribute_fits ws s h =
      rw ((==_iff _ _).1 h, distribute_segment_output)
        (distribute_loop_lem host.byteorder ws s.active_packets 0 s (omega (arith, h)))

  distribute_differs :
      (ws : List ℕ) (s : Segmented host.Float)
      → (length ws == expected_samples s.active_packets) ≡ false
      → distribute_segment_output host subclass segment_seconds ws s ≡ (
        err (
            wrong_sample_count subclass.model_label
              (length ws)
              (expected_samples s.active_packets)),
        record s { active_packets = [] },
      )
  unfolding distribute_segment_output
  distribute_differs ws s h = rw (h, distribute_segment_output) refl

  Harvest-ok :
      (ws : List ℕ) (s : Segmented host.Float)
      → s.inference_task ≡ some (finished (ok ws))
      → Harvest s (harvest_inference host subclass segment_seconds s)
  unfolding harvest_inference await_segment_result finish_segment
  Harvest-ok ws s e = elim (Bool-cases (length ws == expected_samples s.active_packets)) [
    | inl same ↦
        let fits = (==_iff _ _).0 same in
        delivers ws e fits (
          rw (e, harvest_inference, distribute_fits ws (record s { inference_task = none }) fits)
            refl)
    | inr other ↦
        mismatches ws e (λ h. cc (other, (==_iff _ _).1 h))
          (rw
            (e, harvest_inference, distribute_differs ws (record s { inference_task = none }) other)
            refl)
  ]

  Harvest-err :
      (x : Exception) (s : Segmented host.Float)
      → s.inference_task ≡ some (finished (err x))
      → Harvest s (harvest_inference host subclass segment_seconds s)
  unfolding harvest_inference await_segment_result
  Harvest-err cancelled_error s e = cancelled e (rw (e, harvest_inference) refl)
  Harvest-err other s e = fails other e (λ p. cc) (rw (e, harvest_inference) refl)

  -- every way that `_harvest_inference` ends, for every state of the processor
  pub Harvest-cases :
      (s : Segmented host.Float) → Harvest s (harvest_inference host subclass segment_seconds s)
  unfolding harvest_inference
  Harvest-cases s = by_task s.inference_task refl
    where
      by_task :
          (t : Option Task)
          → s.inference_task ≡ t
          → Harvest s (harvest_inference host subclass segment_seconds s)
      by_task none e = waits (rw e tt) (simp (e, harvest_inference))
      by_task (some (running job)) e = waits (rw e tt) (simp (e, harvest_inference))
      by_task (some (finished (ok ws))) e = Harvest-ok ws s e
      by_task (some (finished (err x))) e = Harvest-err x s e
