-- ===== src/Kany/Datagram.antt =====
-- docs/protocol.md, the datagram layout, written independently of kany.py: `decode` accepts every
-- datagram of that layout and reads back what it was made from.
use karaoke_anything.Prelude.{
  ℕ, ◌*◌, ◌/◌, ◌%◌, ◌^◌, ◌<◌, ◌≡◌, refl, List, [], ◌∷◌, ◌++◌, length, arith, All, All-append, ◌∙◌,
}
use karaoke_anything.Errors.{ok}
use karaoke_anything.Kany.Buffers.{
  Bytes, IsByte, IsWord, from_bytes, ByteOrder, little, floats, tobytes,
}
use karaoke_anything.Kany.Decode.{HeaderFields, decode}
use karaoke_anything.Kany.Words.{length-tobytes, tobytes-IsByte, frombytes-tobytes}
use karaoke_anything.Kany.Header.{Header, decode_complete}
use karaoke_anything.Kany.RoundTrip.{read_samples_little}

-- network byte order
abbrev be16 : ℕ → Bytes → Bytes
be16 v rest = (v / 256 % 256) ∷ (v % 256) ∷ rest

abbrev be32 : ℕ → Bytes → Bytes
be32 v rest = be16 (v / 65536) (be16 v rest)

abbrev be64 : ℕ → Bytes → Bytes
be64 v rest = be32 (v / 4294967296) (be32 v rest)

-- the fields that the layout leaves to the sender and `decode` does not read
pub record Reserved : Type 0 where
  pub flags : ℕ
  pub high : ℕ
  pub low : ℕ

abbrev pub header_bytes : HeaderFields → Reserved → Bytes
header_bytes f r =
    b'K'
    ∷ b'A'
    ∷ b'N'
    ∷ b'Y'
    ∷ 1
    ∷ r.flags
    ∷ f.channels
    ∷ 1
    ∷ be32 f.sample_rate
        (be32 f.sequence (be64 f.timestamp_us (be16 f.frames (r.high ∷ r.low ∷ []))))

-- The whole datagram: the header, then the interleaved samples in little-endian order.
abbrev pub datagram : HeaderFields → Reserved → List ℕ → Bytes
datagram f r ws = header_bytes f r ++ tobytes little ws

pub record Fits (f : HeaderFields) (r : Reserved) (ws : List ℕ) : Type 0 where
  pub channels : (0 < f.channels) × (f.channels < 256)
  pub sample_rate : (0 < f.sample_rate) × (f.sample_rate < 2 ^ 32)
  pub sequence : f.sequence < 2 ^ 32
  pub timestamp_us : f.timestamp_us < 2 ^ 64
  pub frames : (0 < f.frames) × (f.frames < 2 ^ 16)
  pub reserved : (r.flags < 256) × (r.high < 256) × (r.low < 256)
  pub samples : length ws ≡ f.channels * f.frames
  pub words : All IsWord ws

be16-from_bytes : (v : ℕ) → v < 2 ^ 16 → v ≡ from_bytes (be16 v [])
be16-from_bytes v h = omega arith

be32-from_bytes : (v : ℕ) → v < 2 ^ 32 → v ≡ from_bytes (be32 v [])
be32-from_bytes v h = omega arith

be64-from_bytes : (v : ℕ) → v < 2 ^ 64 → v ≡ from_bytes (be64 v [])
be64-from_bytes v h = omega arith

module _ (f : HeaderFields) (r : Reserved) (ws : List ℕ) (fits : Fits f r ws) where
  datagram-Header : Header (datagram f r ws) f
  datagram-Header = record {
    long = omega arith;
    magic_at = refl;
    version_at = refl;
    format_at = refl;
    channels_at = refl;
    sample_rate_at = be32-from_bytes f.sample_rate fits.sample_rate.1;
    sequence_at = be32-from_bytes f.sequence fits.sequence;
    timestamp_at = be64-from_bytes f.timestamp_us fits.timestamp_us;
    frames_at = be16-from_bytes f.frames fits.frames.1;
    channels_pos = fits.channels.0;
    sample_rate_pos = fits.sample_rate.0;
    frames_pos = fits.frames.0;
    sized = omega (arith, length-tobytes little ws, fits.samples);
  }

  header_bytes-IsByte : All IsByte (header_bytes f r)
  header_bytes-IsByte =
      omega (arith, fits.channels.1, fits.reserved.0, fits.reserved.1, fits.reserved.2)

-- Every datagram of the documented layout, with field values in range and as many samples as
-- channels times frames, is accepted, and decodes to those field values and samples.
pub decode-datagram :
    (order : ByteOrder) (f : HeaderFields) (r : Reserved) (ws : List ℕ)
    → Fits f r ws
    → decode order (datagram f r ws)
      ≡ ok (record {
        raw_header = header_bytes f r;
        channels = f.channels;
        sample_rate = f.sample_rate;
        sequence = f.sequence;
        timestamp_us = f.timestamp_us;
        frames = f.frames;
        samples = floats ws;
      })
decode-datagram order f r ws fits =
    let bytes =
      All-append IsByte (header_bytes f r) (tobytes little ws) (header_bytes-IsByte f r ws fits)
        (tobytes-IsByte ws) in
    decode_complete (datagram f r ws) f (datagram-Header f r ws fits) order
    ∙ rw (read_samples_little order (datagram f r ws) bytes, frombytes-tobytes ws fits.words) refl
