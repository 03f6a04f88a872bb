-- ===== src/Service/State.antt =====
-- app/audio_trombone/service.py: the state of `TromboneService`, and what it takes from its processor
-- and the network.
use karaoke_anything.Prelude.{ℕ, String, Bool, Option, List}
use karaoke_anything.Prelude.Int.{ℤ}
use karaoke_anything.Prelude.Exec.{Exec}
use karaoke_anything.Errors.{Result}
use karaoke_anything.Models.{MediaPacket, ProcessedPacket, Metrics}
use karaoke_anything.Kany.{Bytes}
use karaoke_anything.Transport.{Queue}
use karaoke_anything.Config.{Settings}
use karaoke_anything.Registry.{ProcessorConfig}

-- The outputs that an async generator yields, how it ends, and what it leaves of its object.
pub record Yields (Memory : Type 0) : Type 0 where
  pub outputs : List ProcessedPacket
  pub ended : Result (Unit {0})
  pub memory : Memory

-- `AudioProcessor`: the methods of every processor. `Memory` is what they change: the buffers, the
-- loaded model, the counters. No method changes the attributes of `ProcessorConfig`.
pub record AudioProcessor (F Memory : Type 0) : Type 0 where
  pub init : ProcessorConfig F → Memory
  pub start : ProcessorConfig F → Exec Memory (Unit {0})
  pub stop : ProcessorConfig F → Exec Memory (Unit {0})
  pub reset : ProcessorConfig F → Exec Memory (Unit {0})
  pub process : ProcessorConfig F → MediaPacket F → Memory → Yields Memory
  pub flush : ProcessorConfig F → Memory → Yields Memory

-- `transport.sendto(payload, (host, port))` for the n-th output of one call
abbrev pub Network : Type 0
Network = ℕ → Bytes → String → ℤ → Result (Unit {0})

-- `worker_task`: `None`, a task that runs, or one that has ended with an exception
pub data Worker : Type 0 where
  absent alive ended : Worker

pub record TromboneService (F Memory : Type 0) : Type 0 where
  pub startup_settings : Settings F
  pub settings : Settings F
  pub metrics : Metrics F
  pub input_queue : Queue F
  -- the settings that the factories of `processor_registry` close over
  pub registry_settings : Settings F
  -- `processor`: the attributes that its constructor set, and the others
  pub processor : ProcessorConfig F
  pub memory : Memory
  -- `transport`, with the `max_packet_size` of its protocol
  pub transport : Option ℤ
  pub worker_task : Worker
  pub running : Bool
