-- ===== src/Fixtures.antt =====
-- What the tests share: a datagram and its packet (kany.py), and a host whose floats are natural
-- numbers of thousandths.
use karaoke_anything.Prelude.{
  ℕ, same_bytes, ◌+◌, ◌-◌, ◌*◌, ◌/◌, ◌%◌, ◌≡◌, refl, List, [], ◌∷◌, ◌++◌, All, arith, ltb, leb,
  ◌==◌, if◌then◌else◌,
}
use karaoke_anything.Prelude.Int.{pos}
use karaoke_anything.Errors.{Result, ok, err, zero_division}
use karaoke_anything.Host.{Host}
use karaoke_anything.Kany.{
  Bytes, IsByte, ByteOrder, little, big, floats, frombytes, byteswap, KanyPacket, HeaderFields,
  read_samples, decode, validate_header, validate_preamble, validate_version_and_format,
  parse_header_fields, validate_body_length,
}

-- stereo, 2 frames a second, one frame
abbrev pub stereo_header : Bytes
stereo_header =
    75 ∷ 65 ∷ 78 ∷ 89 ∷ 1 ∷ 0 ∷ 2 ∷ 1 ∷ 0 ∷ 0 ∷ 0 ∷ 2 ∷ 0 ∷ 0 ∷ 0 ∷ 7 ∷ 0 ∷ 0 ∷ 0 ∷ 0 ∷ 0 ∷ 0 ∷ 0
    ∷ 9 ∷ 0 ∷ 1 ∷ 0 ∷ 0 ∷ []

abbrev pub stereo_payload : Bytes
stereo_payload = stereo_header ++ 0 ∷ 0 ∷ 128 ∷ 63 ∷ 1 ∷ 2 ∷ 3 ∷ 4 ∷ []

abbrev pub stereo_fields : HeaderFields
stereo_fields = record { channels = 2; sample_rate = 2; sequence = 7; timestamp_us = 9; frames = 1 }

abbrev pub stereo_words : List ℕ
stereo_words = 1065353216 ∷ 67305985 ∷ []

abbrev pub stereo_packet : KanyPacket
stereo_packet = record {
  raw_header = stereo_header;
  channels = 2;
  sample_rate = 2;
  sequence = 7;
  timestamp_us = 9;
  frames = 1;
  samples = floats stereo_words;
}

pub stereo-IsByte : All IsByte stereo_payload
stereo-IsByte = omega arith

pub stereo_decodes : (order : ByteOrder) → decode order stereo_payload ≡ ok stereo_packet
unfolding same_bytes decode validate_header validate_preamble validate_version_and_format
    parse_header_fields validate_body_length read_samples frombytes byteswap
stereo_decodes little = refl
stereo_decodes big = refl

abbrev divide : ℕ → ℕ → Result ℕ
divide a b = if b == 0 then err zero_division else ok (a * 1000 / b)

-- floats in thousandths
abbrev pub toy_host : Host
toy_host = record {
  byteorder = little;
  Float = ℕ;
  ratio = λ n d. n * 1000 / d;
  lt = ltb;
  le = leb;
  eq = ◌==◌;
  add = ◌+◌;
  sub = ◌-◌;
  mul = λ a b. a * b / 1000;
  div = divide;
  round = λ n. ok (pos (n / 1000));
  load = λ w. w;
  store = λ n. n % 4294967296;
  parse_int = λ text. ok (pos 1);
  parse_float = λ text. ok 1000;
}
