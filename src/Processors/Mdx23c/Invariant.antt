-- ===== src/Processors/Mdx23c/Invariant.antt =====
-- mdx23c_vocals.py: what holds of the processor's state between any two calls.
use karaoke_anything.Prelude.{◌≡◌, refl, Option, none, some, List, [], ◌∷◌, All, All-append, arith}
use karaoke_anything.Errors.{ok, err}
use karaoke_anything.Kany.{ByteOrder, IsWord, KanyPacket}
use karaoke_anything.Kany.RoundTrip.{IsPacket}
use karaoke_anything.Processors.Segmented.{Task, running, finished, concat_samples, sum_frames}
use karaoke_anything.Processors.Segmented.Launch.{sum_frames-append}
use karaoke_anything.Processors.Segmented.Invariant.{IsOutput}
use karaoke_anything.Processors.Mdx23c.Defs.{Mdx23c, initial, append_input, reset}
use karaoke_anything.Processors.Mdx23c.Faded.{TailFits}
use karaoke_anything.Processors.Mdx23c.Harvest.{IsStereo}

-- The running task works on the active packets, and a result consists of float32 items.
abbrev pub TaskFits : List KanyPacket → Option Task → Type 0
TaskFits active none = Unit
TaskFits active (some (running job)) =
    (job.packets ≡ active)
    × (job.samples ≡ concat_samples active)
    × (job.frames ≡ sum_frames active)
TaskFits active (some (finished (ok ws))) = All IsWord ws
TaskFits active (some (finished (err e))) = Unit

module _ {F : Type 0} (order : ByteOrder) where
  pub record Inv (s : Mdx23c F) : Type 0 where
    pub counted : s.input_frames ≡ sum_frames s.input_packets
    pub inputs : All IsStereo s.input_packets
    pub actives : All IsStereo s.active_packets
    pub outputs : All (IsOutput order) s.ready_output
    pub task : TaskFits s.active_packets s.inference_task
    pub tail : TailFits s.previous_tail

  pub initial-Inv : Inv initial
  unfolding initial
  initial-Inv = record {
    counted = refl;
    inputs = tt;
    actives = tt;
    outputs = tt;
    task = tt;
    tail = tt;
  }

  pub reset-Inv : (s : Mdx23c F) → Inv (reset s)
  unfolding reset
  reset-Inv s = record {
    counted = refl;
    inputs = tt;
    actives = tt;
    outputs = tt;
    task = tt;
    tail = tt;
  }

  pub append_input-Inv :
      (p : KanyPacket) (s : Mdx23c F) → IsStereo p → Inv s → Inv (append_input p s)
  append_input-Inv p s hp v = record {
    counted = omega (arith, v.counted, sum_frames-append s.input_packets (p ∷ []));
    inputs = All-append IsStereo s.input_packets (p ∷ []) v.inputs (hp, tt);
    actives = v.actives;
    outputs = v.outputs;
    task = v.task;
    tail = v.tail;
  }

pub stereo-IsPacket : (ps : List KanyPacket) → All IsStereo ps → All IsPacket ps
stereo-IsPacket [] h = tt
stereo-IsPacket (p ∷ ps) h = (h.0.0, stereo-IsPacket ps h.1)
