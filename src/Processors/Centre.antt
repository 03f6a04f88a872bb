-- ===== src/Processors/Centre.antt =====
-- app/audio_trombone/processors/centre_reduction.py: `process` of the stereo centre reduction.
pub mod Output
use karaoke_anything.Prelude.{ℕ, Bool, not, ◌==◌, List, [], ◌∷◌, if◌then◌else◌}
use karaoke_anything.Errors.{
  Result, ok, err, index_error, kany_error, requires_kany, requires_stereo, ◌>>=◌, ◌>>◌, raise_if,
}
use karaoke_anything.Host.{Host}
use karaoke_anything.Models.{MediaPacket, ProcessedPacket, processed}
use karaoke_anything.Kany.{KanyPacket, floats, decode, encode_samples}

-- the handler of `KanyProtocolError`
unfoldable pub read_packet : Result KanyPacket → Result KanyPacket
read_packet (ok decoded) = ok decoded
read_packet (err (kany_error e)) = err (requires_kany "Stereo centre reduction" e)
read_packet (err e) = err e

module _ (host : Host) (reduction : host.Float) where
  -- `max(-1.0, min(1.0, x))`
  abbrev pub clamp : host.Float → host.Float
  clamp x =
      let one = host.ratio 1 1 in
      let least = host.sub (host.ratio 0 1) one in
      let upper = if host.lt x one then x else one in if host.lt least upper then upper else least

  -- `x - reduction * centre`, clamped and stored
  abbrev pub reduced : host.Float → host.Float → ℕ
  reduced x centre = host.store (clamp (host.sub x (host.mul reduction centre)))

  -- the loop, two items at a time
  unfoldable pub reduce : List ℕ → Result (List ℕ)
  reduce [] = ok []
  reduce (_ ∷ []) = err index_error
  reduce (l ∷ r ∷ samples) = do
    rest ← reduce samples
    let centre = host.mul (host.add (host.load l) (host.load r)) (host.ratio 1 2)
    ok (reduced (host.load l) centre ∷ reduced (host.load r) centre ∷ rest)

  unfoldable pub process_stereo : MediaPacket host.Float → Result (List ProcessedPacket)
  unfolding reduce read_packet
  process_stereo packet = do
    decoded ← read_packet (decode host.byteorder packet.payload)
    raise_if (not (decoded.channels == 2))
        (requires_stereo "Stereo centre reduction" decoded.channels)
    output ← reduce decoded.samples.items
    payload ← encode_samples host.byteorder decoded (floats output)
    ok (processed payload ∷ [])
