-- ===== src/Service/Forwards.antt =====
-- app/audio_trombone/service.py with processors/passthrough.py and processors/delay.py: a datagram on
-- its way from the socket to the network.
use karaoke_anything.Prelude.{
  ℕ, max, ◌+◌, ◌≡◌, refl, ◌⊎◌, inl, inr, String, false, some, [], ◌∷◌, length,
}
use karaoke_anything.Prelude.Int.{ℤ, above}
use karaoke_anything.Errors.{Result, ok, err}
use karaoke_anything.Host.{Host}
use karaoke_anything.Kany.{Bytes}
use karaoke_anything.Transport.{full, datagram_received}
use karaoke_anything.Registry.{ProcessorConfig, passthrough, delay_passthrough}
use karaoke_anything.Processors.Torch.{Torch}
use karaoke_anything.Service.State.{Network, TromboneService, alive}
use karaoke_anything.Service.Egress.{or_host, send_output, emit, handle}
use karaoke_anything.Service.Lifecycle.{deliver, ingress, work, worker_step}
use karaoke_anything.Models.{received, processed, Metrics}
use karaoke_anything.Service.Library.{Memory, Loaders, yields, process, library}

-- the two processors that return each payload
abbrev pub PassesOn : {F : Type 0} → ProcessorConfig F → Type 0
PassesOn config = (config ≡ passthrough) ⊎ ((seconds : _) × (config ≡ delay_passthrough seconds))

module _ (host : Host) (torch : Torch host) (loaders : Loaders host torch) (sendto : Network)
    (payload : Bytes) (sender : String) (port : ℕ) (now : host.Float) where
  abbrev State : Type 0
  State = TromboneService host.Float (Memory host torch)

  -- an idle service with such a processor, behind a socket with this limit
  abbrev pub waiting_for : ProcessorConfig host.Float → ℤ → State → State
  waiting_for config max_packet_size s = record s {
    processor = config;
    worker_task = alive;
    transport = some max_packet_size;
    input_queue = record (s.input_queue) { items = [] };
  }

  abbrev pub next_turn : State → State
  next_turn s = worker_step (library host torch loaders) sendto (ingress payload sender port now s)

  -- what the network is asked, as `_send_output` asks it for the only output
  abbrev pub answer : State → Result (Unit {0})
  answer s = sendto 0 payload (or_host s.settings.return_host sender) s.settings.output_port

  -- the counters of forwarding, when the network took the payload or refused it
  abbrev pub count_answer : Result (Unit {0}) → Metrics host.Float → Metrics host.Float
  count_answer (ok _) m = record m {
    packets_forwarded = m.packets_forwarded + 1;
    bytes_forwarded = m.bytes_forwarded + length payload;
  }
  count_answer (err e) m = record m { forwarding_errors = m.forwarding_errors + 1 }

  -- all counters behind the turn
  abbrev pub counted : Result (Unit {0}) → Metrics host.Float → Metrics host.Float
  counted r m = count_answer r (record m {
    packets_received = m.packets_received + 1;
    bytes_received = m.bytes_received + length payload;
    packets_enqueued = m.packets_enqueued + 1;
    packets_emitted = m.packets_emitted + 1;
    packets_processed = m.packets_processed + 1;
    queue_high_watermark = max m.queue_high_watermark 1;
    last_packet_at = some now;
    last_sender_host = some sender;
    last_sender_port = some port;
  })

  -- only the counters change: the queue is as empty as before
  abbrev pub Passed : State → State → Type 0
  Passed s t = t ≡ record s { metrics = counted (answer s) s.metrics }

  passes :
      (config : ProcessorConfig host.Float) (max_packet_size : ℤ) (s : State)
      → process host torch loaders config (received payload sender port now) s.memory
        ≡ yields host torch loaders (ok (processed payload ∷ [])) s.memory
      → above (length payload) max_packet_size ≡ false
      → full (waiting_for config max_packet_size s).input_queue ≡ false
      → (r : Result (Unit {0})) → answer s ≡ r
      → Passed
          (waiting_for config max_packet_size s)
          (next_turn (waiting_for config max_packet_size s))
  unfolding ingress deliver datagram_received worker_step work handle emit send_output
  passes config max_packet_size s same small room (ok _) q = rw (small, room, same, q) refl
  passes config max_packet_size s same small room (err e) q = rw (small, room, same, q) refl

  -- With a processor that passes payloads on, a running worker, an open socket and room in the empty queue,
  -- a datagram that is not too large is handled in the next turn: the network is asked to send the same
  -- payload to the return host or else to the sender, and nothing but the metrics changes. One more packet
  -- and its bytes are received, one more is enqueued, emitted and processed, none is dropped, the
  -- high-watermark is at least 1, and the time and the sender are noted. If the network takes the packet,
  -- it and its bytes count as forwarded, and if not, a forwarding error is counted.
  pub turn_passes :
      (config : ProcessorConfig host.Float) (max_packet_size : ℤ) (s : State)
      → PassesOn config
      → above (length payload) max_packet_size ≡ false
      → full (waiting_for config max_packet_size s).input_queue ≡ false
      → Passed
          (waiting_for config max_packet_size s)
          (next_turn (waiting_for config max_packet_size s))
  unfolding process
  turn_passes passthrough max_packet_size s c small room =
      passes passthrough max_packet_size s refl small room (answer s) refl
  turn_passes (delay_passthrough seconds) max_packet_size s c small room =
      passes (delay_passthrough seconds) max_packet_size s refl small room (answer s) refl
  turn_passes _ max_packet_size s (inl e) small room = cc
  turn_passes _ max_packet_size s (inr (seconds, e)) small room = cc
