-- ===== src/Processors/Pipeline/Held.antt =====
-- segmented_inference.py and mdx23c_vocals.py: the fields of a processor, seen as a pipeline.
use karaoke_anything.Prelude.{
  ◌≡◌, ap, ◌∙◌, Option, none, some, List, [], ◌++◌, map, map-append, ℕ, All,
}
use karaoke_anything.Models.{ProcessedPacket}
use karaoke_anything.Kany.{Bytes, ByteOrder, KanyPacket}
use karaoke_anything.Kany.RoundTrip.{IsPacket}
use karaoke_anything.Processors.Segmented.{Task}
use karaoke_anything.Processors.Segmented.Distribute.{resliced, written}
use karaoke_anything.Processors.Segmented.Fifo.{
  header, output_headers, packet_headers, written_headers,
}
use karaoke_anything.Processors.Pipeline.{Pipeline}

-- the active packets, while a task works on them
abbrev pub in_task : Option Task → List KanyPacket → List Bytes
in_task none active = []
in_task (some task) active = packet_headers active

abbrev pub held : List ProcessedPacket → Option Task → List KanyPacket → List KanyPacket → Pipeline
held ready task active input = record {
  done = output_headers ready;
  busy = in_task task active;
  waiting = packet_headers input;
}

-- a segment that was cut up stands behind the finished packets
pub output_headers-written :
    (order : ByteOrder) (ready : List ProcessedPacket) (active : List KanyPacket) (ws : List ℕ)
    → All IsPacket active
    → output_headers (ready ++ map (written order) (resliced active ws))
      ≡ output_headers ready ++ packet_headers active
output_headers-written order ready active ws h =
    map-append (λ (out : ProcessedPacket). header out.payload) ready _
    ∙ ap (λ l. output_headers ready ++ l) (written_headers order active ws h)

pub packet_headers-append :
    (ps qs : List KanyPacket) → packet_headers (ps ++ qs) ≡ packet_headers ps ++ packet_headers qs
packet_headers-append ps qs = map-append (λ (p : KanyPacket). p.raw_header) ps qs
