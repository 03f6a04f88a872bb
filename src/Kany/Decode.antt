-- ===== src/Kany/Decode.antt =====
-- kany.py: `KanyPacket`, `decode` with its checks, and `encode_samples`.
use karaoke_anything.Prelude.{
  ℕ, ◌+◌, ◌*◌, Bool, not, ◌||◌, ◌∷◌, [], ◌++◌, ltb, ◌==◌, length, take, drop, same_bytes,
}
use karaoke_anything.Errors.{
  KanyProtocolError, Result, ok, kany_error, short_packet, bad_magic, zero_field, bad_typecode,
  bad_version, bad_format, length_mismatch, sample_count_mismatch, ◌>>=◌, ◌>>◌, raise_if,
}
use karaoke_anything.Kany.Buffers.{
  Bytes, slice, item, from_bytes, ByteOrder, Array, floats, frombytes, tobytes, to_little,
}

abbrev pub magic : Bytes
magic = b'K' ∷ b'A' ∷ b'N' ∷ b'Y' ∷ []

abbrev pub version : ℕ
version = 1

abbrev pub header_size : ℕ
header_size = 28

abbrev pub sample_format_f32_le : ℕ
sample_format_f32_le = 1

pub record KanyPacket : Type 0 where
  pub raw_header : Bytes
  pub channels : ℕ
  pub sample_rate : ℕ
  pub sequence : ℕ
  pub timestamp_us : ℕ
  pub frames : ℕ
  pub samples : Array

pub record HeaderFields : Type 0 where
  pub channels : ℕ
  pub sample_rate : ℕ
  pub sequence : ℕ
  pub timestamp_us : ℕ
  pub frames : ℕ

abbrev pub reject_if : Bool → KanyProtocolError → Result (Unit {0})
reject_if failed e = raise_if failed (kany_error e)

unfoldable pub validate_preamble : Bytes → Result (Unit {0})
validate_preamble payload = do
  reject_if (ltb (length payload) header_size) short_packet
  reject_if (not (same_bytes (slice payload 0 4) magic)) bad_magic

unfoldable pub validate_version_and_format : Bytes → Result (Unit {0})
validate_version_and_format payload = do
  v ← item payload 4
  reject_if (not (v == version)) (bad_version v)
  f ← item payload 7
  reject_if (not (f == sample_format_f32_le)) (bad_format f)

unfoldable pub validate_header : Bytes → Result (Unit {0})
unfolding validate_preamble validate_version_and_format
validate_header payload = do validate_preamble payload; validate_version_and_format payload

unfoldable pub parse_header_fields : Bytes → Result HeaderFields
parse_header_fields payload = do
  channels ← item payload 6
  let sample_rate = from_bytes (slice payload 8 12)
  let sequence = from_bytes (slice payload 12 16)
  let timestamp_us = from_bytes (slice payload 16 24)
  let frames = from_bytes (slice payload 24 26)
  reject_if (channels == 0 || (sample_rate == 0 || frames == 0)) zero_field
  ok (record {
    channels = channels;
    sample_rate = sample_rate;
    sequence = sequence;
    timestamp_us = timestamp_us;
    frames = frames;
  })

unfoldable pub validate_body_length : Bytes → ℕ → ℕ → Result (Unit {0})
validate_body_length payload channels frames =
    let expected_size = header_size + channels * frames * 4 in
    reject_if (not (length payload == expected_size))
      (length_mismatch expected_size (length payload))

unfoldable pub read_samples : ByteOrder → Bytes → Result Array
read_samples order payload = do
  words ← frombytes order (drop header_size payload)
  ok (floats (to_little order words))

unfoldable pub decode : ByteOrder → Bytes → Result KanyPacket
decode order payload = do
  validate_header payload
  fields ← parse_header_fields payload
  validate_body_length payload fields.channels fields.frames
  samples ← read_samples order payload
  ok (record {
    raw_header = take header_size payload;
    channels = fields.channels;
    sample_rate = fields.sample_rate;
    sequence = fields.sequence;
    timestamp_us = fields.timestamp_us;
    frames = fields.frames;
    samples = samples;
  })

unfoldable pub encode_samples : ByteOrder → KanyPacket → Array → Result Bytes
encode_samples order packet samples =
    let expected_samples = packet.channels * packet.frames in
    do
      reject_if (not (samples.typecode == b'f')) bad_typecode
      reject_if (not (length samples.items == expected_samples))
          (sample_count_mismatch expected_samples (length samples.items))
      ok (packet.raw_header ++ tobytes order (to_little order samples.items))
