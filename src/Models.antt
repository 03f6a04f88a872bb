-- ===== src/Models.antt =====
-- app/audio_trombone/models.py
use karaoke_anything.Prelude.{ℕ, String, Option, none}
use karaoke_anything.Kany.{Bytes}

-- A time stamp is a float; `F` is the host's type of floats.
pub record MediaPacket (F : Type 0) : Type 0 where
  pub payload : Bytes
  pub sender_host : String
  pub sender_port : ℕ
  pub received_at : F

-- `MediaPacket.received`, with the value of `time.time()`
abbrev pub received : {F : Type 0} → Bytes → String → ℕ → F → MediaPacket F
received payload sender_host sender_port now = record {
  payload = payload;
  sender_host = sender_host;
  sender_port = sender_port;
  received_at = now;
}

pub record ProcessedPacket : Type 0 where
  pub payload : Bytes
  pub destination_host : Option String
  pub destination_port : Option ℕ

abbrev pub processed : Bytes → ProcessedPacket
processed payload = record { payload = payload; destination_host = none; destination_port = none }

pub record Metrics (F : Type 0) : Type 0 where
  pub started_at : F
  pub packets_received : ℕ
  pub packets_enqueued : ℕ
  pub packets_dropped : ℕ
  pub packets_processed : ℕ
  pub packets_emitted : ℕ
  pub packets_forwarded : ℕ
  pub bytes_received : ℕ
  pub bytes_forwarded : ℕ
  pub processor_errors : ℕ
  pub forwarding_errors : ℕ
  pub queue_high_watermark : ℕ
  pub last_packet_at : Option F
  pub last_sender_host : Option String
  pub last_sender_port : Option ℕ
