-- ===== src/Transport.antt =====
-- app/audio_trombone/transport.py: `UdpIngressProtocol`, which counts the datagrams that arrive and
-- puts them on the bounded queue (`asyncio.Queue`).
pub mod Laws
mod Tests
use karaoke_anything.Prelude.{
  ℕ, ◌+◌, String, Bool, ◌&&◌, some, List, [], ◌∷◌, ◌++◌, length, ltb, leb, if◌then◌else◌, max,
}
use karaoke_anything.Prelude.Int.{ℤ, max_ℕ, above}
use karaoke_anything.Models.{MediaPacket, received, Metrics}
use karaoke_anything.Kany.{Bytes}

-- `asyncio.Queue(maxsize)`: a maximum of 0, or a negative one, is no limit.
pub record Queue (F : Type 0) : Type 0 where
  pub maxsize : ℤ
  pub items : List (MediaPacket F)

abbrev pub limit : {F : Type 0} → Queue F → ℕ
limit q = max_ℕ 0 q.maxsize

abbrev pub full : {F : Type 0} → Queue F → Bool
full q = ltb 0 (limit q) && leb (limit q) (length q.items)

-- The queue and the metrics are the service's, which shares them with the protocol.
pub record Ingress (F : Type 0) : Type 0 where
  pub queue : Queue F
  pub metrics : Metrics F
  pub max_packet_size : ℤ

module _ {F : Type 0} where
  -- the counters of a datagram that is taken in, before the queue is tried
  abbrev pub count_received : MediaPacket F → ℕ → Metrics F → Metrics F
  count_received packet size m = record m {
    packets_received = m.packets_received + 1;
    bytes_received = m.bytes_received + size;
    last_packet_at = some packet.received_at;
    last_sender_host = some packet.sender_host;
    last_sender_port = some packet.sender_port;
  }

  abbrev pub count_dropped : Metrics F → Metrics F
  count_dropped m = record m { packets_dropped = m.packets_dropped + 1 }

  -- `qsize` is the size of the queue behind the put
  abbrev pub count_enqueued : ℕ → Metrics F → Metrics F
  count_enqueued qsize m = record m {
    packets_enqueued = m.packets_enqueued + 1;
    queue_high_watermark = max m.queue_high_watermark qsize;
  }

  abbrev pub put : MediaPacket F → Queue F → Queue F
  put packet q = record q { items = q.items ++ packet ∷ [] }

  -- `now` is the value of `time.time()` in `MediaPacket.received`
  unfoldable pub datagram_received : Bytes → String → ℕ → F → Ingress F → Ingress F
  datagram_received payload host port now s =
      if above (length payload) s.max_packet_size
      then record s { metrics = count_dropped s.metrics }
      else (let packet = received payload host port now in
          let counted = count_received packet (length payload) s.metrics in
          if full s.queue then record s { metrics = count_dropped counted } else record s {
            queue = put packet s.queue;
            metrics = count_enqueued (length (put packet s.queue).items) counted;
          })
