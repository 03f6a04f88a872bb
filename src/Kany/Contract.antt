-- ===== src/Kany/Contract.antt =====
-- kany.py: what a caller of `decode` and `encode_samples` relies on.
use karaoke_anything.Prelude.{
  ℕ, zero, suc, ◌+◌, ◌*◌, ◌^◌, ◌≤◌, ◌<◌, ◌≡◌, ap, ◌∙◌, List, [], ◌∷◌, length, take, drop, arith,
  All, All-take, All-drop, All-get_elem?, length-drop, length-take,
}
use native.Mathlib.Nat.{pow-suc}
use karaoke_anything.Errors.{ok, ◌>>=◌}
use karaoke_anything.Kany.Buffers.{
  Bytes, IsByte, IsWord, from_digits, from_bytes, ByteOrder, little, big, floats,
}
use karaoke_anything.Kany.Decode.{KanyPacket, decode, encode_samples}
use karaoke_anything.Kany.Header.{decode_sound}
use karaoke_anything.Kany.RoundTrip.{
  decode-IsPacket, decode_with_samples, encode_lem, read_samples_little,
}

-- Encoding a decoded packet's own samples gives the datagram back byte for byte, whatever the byte
-- orders of the machine that decodes and of the machine that encodes.
pub encode-decode :
    (reader writer : ByteOrder) (payload : Bytes) (p : KanyPacket)
    → All IsByte payload
    → decode reader payload ≡ ok p
    → encode_samples writer p p.samples ≡ ok payload
encode-decode reader writer payload p hb h =
    let (v, whole) = decode-IsPacket reader payload p hb h in
    ap (encode_samples writer p) v.is_floats
    ∙ encode_lem writer p p.samples.items v.sample_words v.sample_count
    ∙ ap ok whole

-- Encoding any other samples, one 32-bit pattern for each channel of each frame, gives a datagram
-- which decodes to the same packet with those samples: every other field is kept.
pub decode-encode :
    (reader writer : ByteOrder) (payload : Bytes) (p : KanyPacket) (ws : List ℕ)
    → All IsByte payload
    → decode reader payload ≡ ok p
    → All IsWord ws
    → length ws ≡ p.channels * p.frames
    → (encode_samples writer p (floats ws) >>= decode reader)
      ≡ ok (record p { samples = floats ws })
decode-encode reader writer payload p ws hb h words fits =
    let (v, _) = decode-IsPacket reader payload p hb h in
    ap (λ r. r >>= decode reader) (encode_lem writer p ws words fits)
    ∙ decode_with_samples reader p ws v words fits

-- The decoded packet, or the error, does not depend on the machine's byte order.
pub decode_byteorder :
    (payload : Bytes) → All IsByte payload → decode big payload ≡ decode little payload
unfolding decode
decode_byteorder payload hb =
    simp (read_samples_little big payload hb, read_samples_little little payload hb)

-- Every field lies in the range that its bytes allow, the sample count is channels times frames,
-- and neither the channels, the sample rate nor the frames are zero.
pub record InRange (p : KanyPacket) : Type 0 where
  pub channels : (0 < p.channels) × (p.channels < 2 ^ 8)
  pub sample_rate : (0 < p.sample_rate) × (p.sample_rate < 2 ^ 32)
  pub sequence : p.sequence < 2 ^ 32
  pub timestamp_us : p.timestamp_us < 2 ^ 64
  pub frames : (0 < p.frames) × (p.frames < 2 ^ 16)
  pub samples : length p.samples.items ≡ p.channels * p.frames
  pub words : All IsWord p.samples.items
  pub header : length p.raw_header ≡ 28

from_digits_bound :
    (n : ℕ) (bs : Bytes) (acc bound : ℕ)
    → length bs ≡ n
    → All IsByte bs
    → acc < bound
    → from_digits acc bs < bound * 256 ^ n
from_digits_bound zero [] acc bound len h b = omega arith
from_digits_bound zero (x ∷ bs) acc bound len h b = absurd (omega arith)
from_digits_bound (suc n) [] acc bound len h b = absurd (omega arith)
from_digits_bound (suc n) (x ∷ bs) acc bound len h b =
    let rest =
      from_digits_bound n bs (acc * 256 + x) (bound * 256) (omega arith) h.1 (omega (arith, h.0)) in
    rw pow-suc (grind (arith, rest))

slice_bound :
    (n : ℕ) (payload : Bytes) (a : ℕ)
    → All IsByte payload
    → a + n ≤ length payload
    → from_bytes (take n (drop a payload)) < 256 ^ n
slice_bound n payload a h long = omega (
  arith,
  from_digits_bound n (take n (drop a payload)) 0 1
      (omega (arith, length-take n (drop a payload), length-drop a payload))
      (All-take IsByte n (drop a payload) (All-drop IsByte a payload h)) (omega arith),
)

pub decode-InRange :
    (order : ByteOrder) (payload : Bytes) (p : KanyPacket)
    → All IsByte payload
    → decode order payload ≡ ok p
    → InRange p
decode-InRange order payload p hb h =
    let (v, _) = decode-IsPacket order payload p hb h in
    let (hd, _) = decode_sound order payload p h in
    let long = hd.long in
    record {
      channels = (hd.channels_pos, All-get_elem? IsByte 6 payload hb hd.channels_at);
      sample_rate =
          (hd.sample_rate_pos, rw hd.sample_rate_at (slice_bound 4 payload 8 hb (omega arith)));
      sequence = rw hd.sequence_at (slice_bound 4 payload 12 hb (omega arith));
      timestamp_us = rw hd.timestamp_at (slice_bound 8 payload 16 hb (omega arith));
      frames = (hd.frames_pos, rw hd.frames_at (slice_bound 2 payload 24 hb (omega arith)));
      samples = v.sample_count;
      words = v.sample_words;
      header = v.header_length;
    }
