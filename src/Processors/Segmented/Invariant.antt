-- ===== src/Processors/Segmented/Invariant.antt =====
-- segmented_inference.py: what holds of the processor's state between any two calls.
use karaoke_anything.Prelude.{
  ℕ, ◌*◌, ◌≡◌, ◌≢◌, refl, Option, none, some, List, [], ◌∷◌, map, length, take, drop, length-take,
  length-drop, All, All-append, All-take, All-drop, arith,
}
use karaoke_anything.Errors.{ok, err}
use karaoke_anything.Models.{ProcessedPacket}
use karaoke_anything.Kany.{ByteOrder, Bytes, IsWord, KanyPacket, floats, decode}
use karaoke_anything.Kany.RoundTrip.{IsPacket, decode_written, with_samples-IsPacket}
use karaoke_anything.Processors.Segmented.Defs.{
  Segmented, Subclass, Task, running, finished, initial, sum_frames, concat_samples,
  expected_samples, append_input, reset,
}
use karaoke_anything.Processors.Segmented.Launch.{sum_frames-append}
use karaoke_anything.Processors.Segmented.Distribute.{resliced, written}
use karaoke_anything.Processors.Segmented.Harvest.{delivered, abandoned}

-- What the subclass promises: it accepts datagrams that `decode` accepts, as `decode` reads them.
pub record Lawful (order : ByteOrder) (subclass : Subclass) : Type 0 where
  pub decodes :
      (payload : Bytes) (p : KanyPacket)
      → subclass.decode_and_validate payload ≡ ok p
      → decode order payload ≡ ok p

-- a payload that a receiver accepts
abbrev pub IsOutput : ByteOrder → ProcessedPacket → Type 0
IsOutput order out = (p : KanyPacket) × IsPacket p × (decode order out.payload ≡ ok p)

-- The running task works on the active packets, and a result consists of float32 items.
abbrev pub TaskFits : List KanyPacket → Option Task → Type 0
TaskFits active none = active ≡ []
TaskFits active (some (running job)) =
    (job.packets ≡ active)
    × (job.samples ≡ concat_samples active)
    × (job.frames ≡ sum_frames active)
    × (active ≢ [])
TaskFits active (some (finished (ok ws))) = All IsWord ws
TaskFits active (some (finished (err e))) = Unit

-- the samples for one packet, cut off the front of the result
module _ (p : KanyPacket) (ps : List KanyPacket) (ws : List ℕ)
    (h : length ws ≡ expected_samples (p ∷ ps)) where
  pub length_front : length (take (p.frames * p.channels) ws) ≡ p.channels * p.frames
  length_front = omega (arith, length-take (p.frames * p.channels) ws)

  pub length_back : length (drop (p.frames * p.channels) ws) ≡ expected_samples ps
  length_back = omega (arith, length-drop (p.frames * p.channels) ws)

pub written-IsOutput :
    (order : ByteOrder) (ps : List KanyPacket) (ws : List ℕ)
    → All IsPacket ps
    → All IsWord ws
    → length ws ≡ expected_samples ps
    → All (IsOutput order) (map (written order) (resliced ps ws))
written-IsOutput order [] ws hp hw h = tt
written-IsOutput order (p ∷ ps) ws hp hw h =
    let part = take (p.frames * p.channels) ws in
    let words : All IsWord part = All-take IsWord (p.frames * p.channels) ws hw in
    let fits = length_front p ps ws h in
    (
      (
        record p { samples = floats part },
        with_samples-IsPacket p part hp.0 words fits,
        decode_written order order p part hp.0 words fits,
      ),
      written-IsOutput order ps (drop (p.frames * p.channels) ws) hp.1
          (All-drop IsWord (p.frames * p.channels) ws hw) (length_back p ps ws h),
    )

module _ {F : Type 0} (order : ByteOrder) where
  pub record Inv (s : Segmented F) : Type 0 where
    pub counted : s.input_frames ≡ sum_frames s.input_packets
    pub inputs : All IsPacket s.input_packets
    pub actives : All IsPacket s.active_packets
    pub outputs : All (IsOutput order) s.ready_output
    pub task : TaskFits s.active_packets s.inference_task

  pub initial-Inv : Inv initial
  unfolding initial
  initial-Inv = record { counted = refl; inputs = tt; actives = tt; outputs = tt; task = refl }

  pub reset-Inv : (s : Segmented F) → Inv (reset s)
  unfolding reset
  reset-Inv s = record { counted = refl; inputs = tt; actives = tt; outputs = tt; task = refl }

  pub abandoned-Inv : (s : Segmented F) → Inv s → Inv (abandoned s)
  abandoned-Inv s v = record {
    counted = v.counted;
    inputs = v.inputs;
    actives = tt;
    outputs = v.outputs;
    task = refl;
  }

  pub delivered-Inv :
      (ws : List ℕ) (s : Segmented F)
      → All IsWord ws
      → length ws ≡ expected_samples s.active_packets
      → Inv s
      → Inv (delivered order ws s)
  delivered-Inv ws s words fits v = record {
    counted = v.counted;
    inputs = v.inputs;
    actives = tt;
    outputs =
        All-append (IsOutput order) s.ready_output _ v.outputs
          (written-IsOutput order s.active_packets ws v.actives words fits);
    task = refl;
  }

  pub append_input-Inv :
      (p : KanyPacket) (s : Segmented F) → IsPacket p → Inv s → Inv (append_input p s)
  append_input-Inv p s hp v = record {
    counted = omega (arith, v.counted, sum_frames-append s.input_packets (p ∷ []));
    inputs = All-append IsPacket s.input_packets (p ∷ []) v.inputs (hp, tt);
    actives = v.actives;
    outputs = v.outputs;
    task = v.task;
  }
