-- ===== src/Kany/Tests.antt =====
-- kany.py: the datagrams that the tests use, and the theorems at those datagrams.
use karaoke_anything.Prelude.{◌≡◌, refl, [], ◌∷◌, arith}
use karaoke_anything.Errors.{ok, ◌>>=◌}
use karaoke_anything.Kany.Buffers.{little, big, floats}
use karaoke_anything.Kany.Decode.{decode, encode_samples}
use karaoke_anything.Fixtures.{
  stereo_payload, stereo_fields, stereo_words, stereo_packet, stereo-IsByte, stereo_decodes,
}
use karaoke_anything.Kany.Contract.{
  encode-decode, decode-encode, decode_byteorder, InRange, decode-InRange,
}
use karaoke_anything.Kany.Rejects.{OnlyKany, decode-OnlyKany}
use karaoke_anything.Kany.Datagram.{Reserved, Fits, datagram, decode-datagram}

encode-decode_example : encode_samples big stereo_packet (floats stereo_words) ≡ ok stereo_payload
encode-decode_example =
    encode-decode little big stereo_payload stereo_packet stereo-IsByte (stereo_decodes little)

decode-encode_example :
    (encode_samples little stereo_packet (floats (5 ∷ 6 ∷ [])) >>= decode big)
    ≡ ok (record stereo_packet { samples = floats (5 ∷ 6 ∷ []) })
decode-encode_example =
    decode-encode big little stereo_payload stereo_packet (5 ∷ 6 ∷ []) stereo-IsByte
      (stereo_decodes big) (omega arith) refl

decode_byteorder_example : decode big stereo_payload ≡ decode little stereo_payload
decode_byteorder_example = decode_byteorder stereo_payload stereo-IsByte

decode-InRange_example : InRange stereo_packet
decode-InRange_example =
    decode-InRange little stereo_payload stereo_packet stereo-IsByte (stereo_decodes little)

decode-OnlyKany_example : OnlyKany (decode little (75 ∷ 65 ∷ []))
decode-OnlyKany_example = decode-OnlyKany little (75 ∷ 65 ∷ [])

abbrev reserved : Reserved
reserved = record { flags = 0; high = 0; low = 0 }

stereo-Fits : Fits stereo_fields reserved stereo_words
stereo-Fits = record {
  channels = omega arith;
  sample_rate = omega arith;
  sequence = omega arith;
  timestamp_us = omega arith;
  frames = omega arith;
  reserved = omega arith;
  samples = refl;
  words = omega arith;
}

decode-datagram_example :
    decode big (datagram stereo_fields reserved stereo_words) ≡ ok stereo_packet
decode-datagram_example = decode-datagram big stereo_fields reserved stereo_words stereo-Fits
