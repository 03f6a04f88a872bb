-- ===== src/Processors/Convtasnet.antt =====
-- app/audio_trombone/processors/convtasnet_lyrics.py: what ConvTasNet adds to the segmented processor.
pub mod Inference
use karaoke_anything.Prelude.{◌≡◌, ◌==◌, if◌then◌else◌, arith, String}
use karaoke_anything.Errors.{Result, ok, err, kany_error, requires_kany, requires_stereo}
use karaoke_anything.Kany.{Bytes, ByteOrder, KanyPacket, decode}
use karaoke_anything.Processors.Segmented.{Subclass}
use karaoke_anything.Processors.Segmented.Invariant.{Lawful}

abbrev pub model_label : String
model_label = "ConvTasNet"

-- the handler of `KanyProtocolError`, and the check of the channels behind it
unfoldable pub validate_stereo : Result KanyPacket → Result KanyPacket
validate_stereo (ok decoded) =
    if decoded.channels == 2
    then ok decoded
    else err (requires_stereo "ConvTasNet lyrics processor" decoded.channels)
validate_stereo (err (kany_error e)) = err (requires_kany "ConvTasNet" e)
validate_stereo (err e) = err e

unfoldable pub decode_and_validate : ByteOrder → Bytes → Result KanyPacket
unfolding validate_stereo
decode_and_validate order payload = validate_stereo (decode order payload)

abbrev pub convtasnet : ByteOrder → Subclass
convtasnet order = record {
  model_label = model_label;
  decode_and_validate = decode_and_validate order;
}

validate_stereo-eq_ok :
    (r : Result KanyPacket) (p : KanyPacket) → validate_stereo r ≡ ok p → r ≡ ok p
unfolding validate_stereo
validate_stereo-eq_ok (ok q) p h = ground arith
validate_stereo-eq_ok (err (kany_error e)) p h = cc
validate_stereo-eq_ok (err _) p h = cc

pub convtasnet-Lawful : (order : ByteOrder) → Lawful order (convtasnet order)
unfolding decode_and_validate
convtasnet-Lawful order = record {
  decodes = λ payload p h. validate_stereo-eq_ok (decode order payload) p h;
}
