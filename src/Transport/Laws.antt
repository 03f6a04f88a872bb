-- ===== src/Transport/Laws.antt =====
-- transport.py: the queue stays within its limit, and every datagram is counted once.
use karaoke_anything.Prelude.{
  refl, ℕ, ◌+◌, ◌≤◌, ◌<◌, ◌≡◌, ap, ◌∙◌, List, [], ◌∷◌, length, length-append, arith, String,
  if◌then◌else◌, Bool, not,
}
use karaoke_anything.Prelude.Int.{ℤ, above}
use karaoke_anything.Models.{received}
use karaoke_anything.Kany.{Bytes}
use karaoke_anything.Transport.{limit, Ingress, datagram_received}

-- One call of `datagram_received`.
pub record Datagram (F : Type 0) : Type 0 where
  pub payload : Bytes
  pub host : String
  pub port : ℕ
  pub now : F

module _ {F : Type 0} where
  abbrev pub receive : Datagram F → Ingress F → Ingress F
  receive d s = datagram_received d.payload d.host d.port d.now s

  abbrev pub receive_all : List (Datagram F) → Ingress F → Ingress F
  receive_all [] s = s
  receive_all (d ∷ ds) s = receive_all ds (receive d s)

  -- The queue is within its limit, and the high-watermark between its size and its limit.
  pub record IsBounded (s : Ingress F) : Type 0 where
    pub within : 0 < limit s.queue → length s.queue.items ≤ limit s.queue
    pub watermark : length s.queue.items ≤ s.metrics.queue_high_watermark
    pub mark_within : 0 < limit s.queue → s.metrics.queue_high_watermark ≤ limit s.queue

  receive-IsBounded : (d : Datagram F) (s : Ingress F) → IsBounded s → IsBounded (receive d s)
  unfolding datagram_received
  receive-IsBounded d s v =
      ground (arith, length-append s.queue.items (received d.payload d.host d.port d.now ∷ []))

  -- Whatever arrives, the input queue never holds more than its limit, nor does the high-watermark
  -- claim more, and the high-watermark is never below the size of the queue.
  pub receive_all-IsBounded :
      (ds : List (Datagram F)) (s : Ingress F) → IsBounded s → IsBounded (receive_all ds s)
  receive_all-IsBounded [] s v = v
  receive_all-IsBounded (d ∷ ds) s v =
      receive_all-IsBounded ds (receive d s) (receive-IsBounded d s v)

  abbrev fits : ℤ → Datagram F → Bool
  fits size_limit d = not (above (length d.payload) size_limit)

  -- how many, and how many bytes, of datagrams are not oversized
  abbrev pub accepted_count : ℤ → List (Datagram F) → ℕ
  accepted_count size_limit [] = 0
  accepted_count size_limit (d ∷ ds) =
      (if fits size_limit d then 1 else 0) + accepted_count size_limit ds

  abbrev pub accepted_bytes : ℤ → List (Datagram F) → ℕ
  accepted_bytes size_limit [] = 0
  accepted_bytes size_limit (d ∷ ds) =
      (if fits size_limit d then length d.payload else 0) + accepted_bytes size_limit ds

  -- what the counters say, before and after
  pub record Counts (total number size : ℕ) (s t : Ingress F) : Type 0 where
    pub once :
        t.metrics.packets_enqueued + t.metrics.packets_dropped
        ≡ s.metrics.packets_enqueued + s.metrics.packets_dropped + total
    pub received : t.metrics.packets_received ≡ s.metrics.packets_received + number
    pub bytes : t.metrics.bytes_received ≡ s.metrics.bytes_received + size
    pub queued :
        t.metrics.packets_enqueued + length s.queue.items
        ≡ s.metrics.packets_enqueued + length t.queue.items
    pub size_limit : t.max_packet_size ≡ s.max_packet_size

  receive-Counts :
      (d : Datagram F) (s : Ingress F)
      → Counts 1
          (if fits s.max_packet_size d then 1 else 0)
          (if fits s.max_packet_size d then length d.payload else 0)
          s
          (receive d s)
  unfolding datagram_received
  receive-Counts d s =
      ground (arith, length-append s.queue.items (received d.payload d.host d.port d.now ∷ []))

  chain :
      (d : Datagram F) (ds : List (Datagram F)) {s t u : Ingress F}
      → Counts 1
          (if fits s.max_packet_size d then 1 else 0)
          (if fits s.max_packet_size d then length d.payload else 0)
          s
          t
      → Counts
          (length ds)
          (accepted_count t.max_packet_size ds)
          (accepted_bytes t.max_packet_size ds)
          t
          u
      → Counts
          (length (d ∷ ds))
          (accepted_count s.max_packet_size (d ∷ ds))
          (accepted_bytes s.max_packet_size (d ∷ ds))
          s
          u
  chain d ds {s} {t} h k =
      let number = ap (λ z. accepted_count z ds) h.size_limit in
      let size = ap (λ z. accepted_bytes z ds) h.size_limit in
      record {
        once = omega (arith, h.once, k.once);
        received = omega (arith, h.received, k.received, number);
        bytes = omega (arith, h.bytes, k.bytes, size);
        queued = omega (arith, h.queued, k.queued);
        size_limit = k.size_limit ∙ h.size_limit;
      }

  -- Over any datagrams: each is counted exactly once, as enqueued or as dropped; those that are not
  -- oversized are counted as received, with their bytes; and the number enqueued is the number by
  -- which the queue has grown.
  pub receive_all-Counts :
      (ds : List (Datagram F)) (s : Ingress F)
      → Counts
          (length ds)
          (accepted_count s.max_packet_size ds)
          (accepted_bytes s.max_packet_size ds)
          s
          (receive_all ds s)
  receive_all-Counts [] s = record {
    once = omega arith;
    received = omega arith;
    bytes = omega arith;
    queued = refl;
    size_limit = refl;
  }
  receive_all-Counts (d ∷ ds) s =
      chain d ds (receive-Counts d s) (receive_all-Counts ds (receive d s))
