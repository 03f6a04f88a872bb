-- ===== src/Kany/Header.antt =====
-- kany.py: what `decode` asks of a datagram, as facts about its bytes.
use karaoke_anything.Prelude.{
  ℕ, ◌+◌, ◌*◌, ◌≤◌, ◌<◌, ◌≡◌, refl, subst, some, length, get_elem?, take, same_bytes-eq,
  same_bytes_refl, arith,
}
use karaoke_anything.Errors.{Result, ok, ◌>>=◌, >>=-eq-ok}
use karaoke_anything.Kany.Buffers.{Bytes, slice, item, from_bytes, ByteOrder}
use karaoke_anything.Kany.Decode.{
  KanyPacket, HeaderFields, magic, validate_preamble, validate_version_and_format, validate_header,
  parse_header_fields, validate_body_length, read_samples, decode,
}

pub record Header (payload : Bytes) (f : HeaderFields) : Type 0 where
  pub long : 28 ≤ length payload
  pub magic_at : slice payload 0 4 ≡ magic
  pub version_at : get_elem? payload 4 ≡ some 1
  pub format_at : get_elem? payload 7 ≡ some 1
  pub channels_at : get_elem? payload 6 ≡ some f.channels
  pub sample_rate_at : f.sample_rate ≡ from_bytes (slice payload 8 12)
  pub sequence_at : f.sequence ≡ from_bytes (slice payload 12 16)
  pub timestamp_at : f.timestamp_us ≡ from_bytes (slice payload 16 24)
  pub frames_at : f.frames ≡ from_bytes (slice payload 24 26)
  pub channels_pos : 0 < f.channels
  pub sample_rate_pos : 0 < f.sample_rate
  pub frames_pos : 0 < f.frames
  pub sized : length payload ≡ 28 + f.channels * f.frames * 4

abbrev pub fields_of : KanyPacket → HeaderFields
fields_of p = record {
  channels = p.channels;
  sample_rate = p.sample_rate;
  sequence = p.sequence;
  timestamp_us = p.timestamp_us;
  frames = p.frames;
}

abbrev pub packet : Bytes → HeaderFields → ByteOrder → Result KanyPacket
packet payload f order = do
  samples ← read_samples order payload
  ok (record {
    raw_header = take 28 payload;
    channels = f.channels;
    sample_rate = f.sample_rate;
    sequence = f.sequence;
    timestamp_us = f.timestamp_us;
    frames = f.frames;
    samples = samples;
  })

item-eq-ok : (payload : Bytes) (i v : ℕ) → item payload i ≡ ok v → get_elem? payload i ≡ some v
item-eq-ok payload i v h = ground arith

pub preamble_sound :
    (payload : Bytes)
    → validate_preamble payload ≡ ok tt
    → (28 ≤ length payload) × (slice payload 0 4 ≡ magic)
unfolding validate_preamble
preamble_sound payload h = ground (arith, same_bytes-eq (slice payload 0 4) magic)

version_sound :
    (payload : Bytes)
    → validate_version_and_format payload ≡ ok tt
    → (get_elem? payload 4 ≡ some 1) × (get_elem? payload 7 ≡ some 1)
unfolding validate_version_and_format
version_sound payload h = ground arith

fields_sound :
    (payload : Bytes) (f : HeaderFields)
    → parse_header_fields payload ≡ ok f
    → (get_elem? payload 6 ≡ some f.channels)
      × (f.sample_rate ≡ from_bytes (slice payload 8 12))
      × (f.sequence ≡ from_bytes (slice payload 12 16))
      × (f.timestamp_us ≡ from_bytes (slice payload 16 24))
      × (f.frames ≡ from_bytes (slice payload 24 26))
      × (0 < f.channels)
      × (0 < f.sample_rate)
      × (0 < f.frames)
unfolding parse_header_fields
fields_sound payload f h = ground arith

pub body_sound :
    (payload : Bytes) (c n : ℕ)
    → validate_body_length payload c n ≡ ok tt
    → length payload ≡ 28 + c * n * 4
unfolding validate_body_length
body_sound payload c n h = ground arith

-- what a datagram that passes every check looks like
pub decode_sound :
    (order : ByteOrder) (payload : Bytes) (p : KanyPacket)
    → decode order payload ≡ ok p
    → Header payload (fields_of p) × (packet payload (fields_of p) order ≡ ok p)
unfolding decode validate_header
decode_sound order payload p h =
    let (_, checked, h1) = >>=-eq-ok (validate_header payload) _ h in
    let (f, parsed, h2) = >>=-eq-ok (parse_header_fields payload) _ h1 in
    let (_, fits, h3) = >>=-eq-ok (validate_body_length payload f.channels f.frames) _ h2 in
    let (samples, read, h4) = >>=-eq-ok (read_samples order payload) _ h3 in
    let (_, pre, ver) = >>=-eq-ok (validate_preamble payload) _ checked in
    let (long, magic_at) = preamble_sound payload pre in
    let (version_at, format_at) = version_sound payload ver in
    let (c, r, s, t, n, pc, pr, pn) = fields_sound payload f parsed in
    let same : f ≡ fields_of p = cc h4 in
    (
      subst (Header payload) same (record {
        long = long;
        magic_at = magic_at;
        version_at = version_at;
        format_at = format_at;
        channels_at = c;
        sample_rate_at = r;
        sequence_at = s;
        timestamp_at = t;
        frames_at = n;
        channels_pos = pc;
        sample_rate_pos = pr;
        frames_pos = pn;
        sized = body_sound payload f.channels f.frames fits;
      }),
      subst (λ g. packet payload g order ≡ ok p) same (rw read h4),
    )

module _ (payload : Bytes) (f : HeaderFields) (h : Header payload f) where
  preamble_complete : validate_preamble payload ≡ ok tt
  unfolding validate_preamble
  preamble_complete = ground (arith, same_bytes_refl magic)

  version_complete : validate_version_and_format payload ≡ ok tt
  unfolding validate_version_and_format
  version_complete = ground arith

  fields_complete : parse_header_fields payload ≡ ok f
  unfolding parse_header_fields
  fields_complete = ground arith

  body_complete : validate_body_length payload f.channels f.frames ≡ ok tt
  unfolding validate_body_length
  body_complete = ground arith

  -- a datagram with such a header is decoded to the fields that the header has
  pub decode_complete : (order : ByteOrder) → decode order payload ≡ packet payload f order
  unfolding decode validate_header
  decode_complete order =
      rw (preamble_complete, version_complete, fields_complete, body_complete) refl
