-- ===== src/Transport/Tests.antt =====
-- transport.py: the theorems at a queue of at most one packet, datagrams of at most two bytes, and
-- four that arrive.
use karaoke_anything.Prelude.{ℕ, none, List, [], ◌∷◌, arith}
use karaoke_anything.Prelude.Int.{pos}
use karaoke_anything.Models.{Metrics}
use karaoke_anything.Transport.{Ingress}
use karaoke_anything.Transport.Laws.{
  Datagram, IsBounded, receive_all, receive_all-IsBounded, Counts, receive_all-Counts,
}

abbrev no_metrics : Metrics ℕ
no_metrics = record {
  started_at = 0;
  packets_received = 0;
  packets_enqueued = 0;
  packets_dropped = 0;
  packets_processed = 0;
  packets_emitted = 0;
  packets_forwarded = 0;
  bytes_received = 0;
  bytes_forwarded = 0;
  processor_errors = 0;
  forwarding_errors = 0;
  queue_high_watermark = 0;
  last_packet_at = none;
  last_sender_host = none;
  last_sender_port = none;
}

abbrev empty : Ingress ℕ
empty = record {
  queue = record { maxsize = pos 1; items = [] };
  metrics = no_metrics;
  max_packet_size = pos 2;
}

abbrev of_size_two : ℕ → Datagram ℕ
of_size_two now = record { payload = 1 ∷ 2 ∷ []; host = "sender"; port = 5006; now = now }

-- oversized, queued, and two that find the queue full
abbrev arriving : List (Datagram ℕ)
arriving =
    record (of_size_two 1) { payload = 1 ∷ 2 ∷ 3 ∷ [] }
    ∷ of_size_two 2
    ∷ of_size_two 3
    ∷ of_size_two 4
    ∷ []

receive_all-IsBounded_example : IsBounded (receive_all arriving empty)
receive_all-IsBounded_example = receive_all-IsBounded arriving empty (omega arith)

receive_all-Counts_example : Counts 4 3 6 empty (receive_all arriving empty)
receive_all-Counts_example = receive_all-Counts arriving empty
