-- ===== src/Processors/Centre/Output.antt =====
-- app/audio_trombone/processors/centre_reduction.py: what the stereo centre reduction sends.
use karaoke_anything.Prelude.{
  ℕ, zero, suc, ◌*◌, ◌≡◌, refl, ◌∙◌, ap, sym, List, [], ◌∷◌, length, All, arith, ◌==◌, ==_iff, true,
}
use karaoke_anything.Errors.{ok, >>=-eq-ok}
use karaoke_anything.Host.{Host}
use karaoke_anything.Models.{MediaPacket, processed}
use karaoke_anything.Kany.{
  Bytes, IsByte, IsWord, ByteOrder, little, big, KanyPacket, floats, decode, encode_samples,
}
use karaoke_anything.Kany.Contract.{decode_byteorder, decode-encode, decode-InRange}
use karaoke_anything.Processors.Centre.{reduced, read_packet, reduce, process_stereo}

decode_anywhere :
    (a b : ByteOrder) (payload : Bytes) → All IsByte payload → decode a payload ≡ decode b payload
decode_anywhere little little payload h = refl
decode_anywhere little big payload h = sym (decode_byteorder payload h)
decode_anywhere big little payload h = decode_byteorder payload h
decode_anywhere big big payload h = refl

module _ (host : Host) (reduction : host.Float)
    (stored : (x : host.Float) → IsWord (host.store x)) where
  reduce_total :
      (n : ℕ) (ws : List ℕ)
      → length ws ≡ 2 * n
      → (out : List ℕ) × (reduce host reduction ws ≡ ok out)
        × (length out ≡ length ws)
        × All IsWord out
  unfolding reduce
  reduce_total n [] h = ([], refl, refl, tt)
  reduce_total n (l ∷ []) h = absurd (omega arith)
  reduce_total zero (l ∷ r ∷ ws) h = absurd (omega arith)
  reduce_total (suc n) (l ∷ r ∷ ws) h =
      let (out, done, size, words) = reduce_total n ws (omega arith) in
      let centre = host.mul (host.add (host.load l) (host.load r)) (host.ratio 1 2) in
      (
        reduced host reduction (host.load l) centre
            ∷ reduced host reduction (host.load r) centre
            ∷ out,
        rw done refl,
        omega (arith, size),
        (stored _, (stored _, words)),
      )

  sends :
      (packet : MediaPacket host.Float) (p : KanyPacket) (ws : List ℕ) (out : Bytes)
      → decode host.byteorder packet.payload ≡ ok p
      → (p.channels == 2) ≡ true
      → reduce host reduction p.samples.items ≡ ok ws
      → encode_samples host.byteorder p (floats ws) ≡ ok out
      → process_stereo host reduction packet ≡ ok (processed out ∷ [])
  unfolding process_stereo read_packet
  sends packet p ws out h stereo done sent = rw (h, stereo, done, sent) refl

  -- For a stereo datagram that `decode` accepts, exactly one packet is sent; on any machine it decodes
  -- to the same packet with as many other samples, if a stored float is a 32-bit pattern.
  pub process_stereo_lem :
      (reader : ByteOrder) (packet : MediaPacket host.Float) (p : KanyPacket)
      → All IsByte packet.payload
      → decode host.byteorder packet.payload ≡ ok p
      → p.channels ≡ 2
      → (out : Bytes) × (ws : List ℕ) × (process_stereo host reduction packet
          ≡ ok (processed out ∷ []))
        × (decode reader out ≡ ok (record p { samples = floats ws }))
        × (length ws ≡ length p.samples.items)
  process_stereo_lem reader packet p hb h stereo =
      let range = decode-InRange host.byteorder packet.payload p hb h in
      let (ws, done, size, words) =
        reduce_total p.frames p.samples.items (range.samples ∙ ap (λ c. c * p.frames) stereo) in
      let (out, sent, back) =
        >>=-eq-ok (encode_samples host.byteorder p (floats ws)) (decode reader) (
          decode-encode reader host.byteorder packet.payload p ws hb
            (decode_anywhere reader host.byteorder packet.payload hb ∙ h) words
            (size ∙ range.samples)) in
      (out, ws, sends packet p ws out h ((==_iff p.channels 2).1 stereo) done sent, back, size)
