-- ===== src/Kany/RoundTrip.antt =====
-- kany.py: `decode` and `encode_samples` are inverse, and neither depends on the machine's byte order.
use karaoke_anything.Prelude.{
  ℕ, ◌-◌, ◌*◌, ◌≤◌, ◌<◌, ◌≡◌, refl, sym, ap, ◌∙◌, inl, inr, List, ◌++◌, length, get_elem?, take,
  drop, arith, All, All-take, All-drop, All-append, length-take, length-drop, length-append,
  take-append_left, drop-append_left, get_elem?-append_left, take-append-drop, take-append_exact,
  drop-append_exact, ==_refl,
}
use karaoke_anything.Errors.{ok, ◌>>=◌, >>=-eq-ok, Result-cases}
use karaoke_anything.Kany.Buffers.{
  Bytes, IsByte, IsWord, slice, ByteOrder, little, big, Array, floats, frombytes, tobytes,
  to_little,
}
use karaoke_anything.Kany.Decode.{KanyPacket, HeaderFields, read_samples, decode, encode_samples}
use karaoke_anything.Kany.Words.{
  frombytes-order, tobytes-order, frombytes-tobytes, tobytes-frombytes, frombytes-IsWord,
  length-tobytes, tobytes-IsByte,
}
use karaoke_anything.Kany.Header.{Header, fields_of, decode_sound, decode_complete}

slice-append :
    (a b : ℕ) (xs ys : Bytes) → a ≤ b → b ≤ length xs → slice (xs ++ ys) a b ≡ slice xs a b
slice-append a b xs ys h k =
    ap (take (b - a)) (drop-append_left a xs ys (omega arith))
    ∙ take-append_left (b - a) (drop a xs) ys (omega (arith, length-drop a xs))

-- the header alone decides the fields, and they the length of the rest
Header-body :
    (hd x y : Bytes) (f : HeaderFields)
    → length hd ≡ 28
    → Header (hd ++ x) f
    → length y ≡ f.channels * f.frames * 4
    → Header (hd ++ y) f
Header-body hd x y f len h fits = record {
  long = omega (arith, length-append hd y);
  magic_at = move 0 4 (omega arith) (omega arith) ∙ h.magic_at;
  version_at = at 4 (omega arith) ∙ h.version_at;
  format_at = at 7 (omega arith) ∙ h.format_at;
  channels_at = at 6 (omega arith) ∙ h.channels_at;
  sample_rate_at = rw (move 8 12 (omega arith) (omega arith)) h.sample_rate_at;
  sequence_at = rw (move 12 16 (omega arith) (omega arith)) h.sequence_at;
  timestamp_at = rw (move 16 24 (omega arith) (omega arith)) h.timestamp_at;
  frames_at = rw (move 24 26 (omega arith) (omega arith)) h.frames_at;
  channels_pos = h.channels_pos;
  sample_rate_pos = h.sample_rate_pos;
  frames_pos = h.frames_pos;
  sized = omega (arith, length-append hd y);
}
  where
    move : (a b : ℕ) → a ≤ b → b ≤ 28 → slice (hd ++ y) a b ≡ slice (hd ++ x) a b
    move a b p q =
        slice-append a b hd y p (omega arith) ∙ sym (slice-append a b hd x p (omega arith))

    at : (i : ℕ) → i < 28 → get_elem? (hd ++ y) i ≡ get_elem? (hd ++ x) i
    at i p =
        get_elem?-append_left i hd y (omega arith)
        ∙ sym (get_elem?-append_left i hd x (omega arith))

pub read_samples_little :
    (order : ByteOrder) (payload : Bytes)
    → All IsByte payload
    → read_samples order payload ≡ (frombytes little (drop 28 payload) >>= λ ws. ok (floats ws))
unfolding read_samples
read_samples_little little payload h = refl
read_samples_little big payload h =
    let same = frombytes-order (drop 28 payload) (All-drop IsByte 28 payload h) in
    elim (Result-cases (frombytes big (drop 28 payload))) [
      | inl (ws, e) ↦ rw (e, ← (rw e at same)) refl
      | inr (x, e) ↦ rw (e, ← (rw e at same)) refl
    ]

pub tobytes-to_little :
    (order : ByteOrder) (ws : List ℕ)
    → All IsWord ws
    → tobytes order (to_little order ws) ≡ tobytes little ws
tobytes-to_little little ws h = refl
tobytes-to_little big ws h = tobytes-order ws h

-- the count of the samples is all that `encode_samples` asks of an `array("f")`
pub encode_total :
    (order : ByteOrder) (p : KanyPacket) (ws : List ℕ)
    → length ws ≡ p.channels * p.frames
    → encode_samples order p (floats ws) ≡ ok (p.raw_header ++ tobytes order (to_little order ws))
unfolding encode_samples
encode_total order p ws fits = rw (fits, ==_refl (p.channels * p.frames)) refl

pub encode_lem :
    (order : ByteOrder) (p : KanyPacket) (ws : List ℕ)
    → All IsWord ws
    → length ws ≡ p.channels * p.frames
    → encode_samples order p (floats ws) ≡ ok (p.raw_header ++ tobytes little ws)
encode_lem order p ws words fits =
    encode_total order p ws fits
    ∙ ap (λ b. ok (p.raw_header ++ b)) (tobytes-to_little order ws words)

-- The packets that `decode` returns.
pub record IsPacket (p : KanyPacket) : Type 0 where
  pub header_bytes : All IsByte p.raw_header
  pub header_length : length p.raw_header ≡ 28
  pub is_floats : p.samples ≡ floats p.samples.items
  pub sample_words : All IsWord p.samples.items
  pub sample_count : length p.samples.items ≡ p.channels * p.frames
  pub header : Header (p.raw_header ++ tobytes little p.samples.items) (fields_of p)

pub decode-IsPacket :
    (order : ByteOrder) (payload : Bytes) (p : KanyPacket)
    → All IsByte payload
    → decode order payload ≡ ok p
    → IsPacket p × (p.raw_header ++ tobytes little p.samples.items ≡ payload)
decode-IsPacket order payload p hb h =
    let (hd, pk) = decode_sound order payload p h in
    let (samples, read, built) = >>=-eq-ok (read_samples order payload) _ pk in
    let (ws, e, k) =
      >>=-eq-ok (frombytes little (drop 28 payload)) _
        (rw (read_samples_little order payload hb) at read) in
    let body : tobytes little ws ≡ drop 28 payload =
      tobytes-frombytes (drop 28 payload) ws (All-drop IsByte 28 payload hb) e in
    let raw : p.raw_header ≡ take 28 payload = cc built in
    let fl : p.samples ≡ floats ws = cc (built, k) in
    let its : p.samples.items ≡ ws = ap (λ (a : Array). a.items) fl in
    let whole : p.raw_header ++ tobytes little p.samples.items ≡ payload =
      rw (raw, its, body) (take-append-drop 28 payload) in
    (
      record {
        header_bytes = rw raw (All-take IsByte 28 payload hb);
        header_length = rw raw (omega (arith, length-take 28 payload, hd.long));
        is_floats = cc (fl, its);
        sample_words =
            rw its (frombytes-IsWord (drop 28 payload) ws (All-drop IsByte 28 payload hb) e);
        sample_count = omega (
          arith,
          ap length its,
          ap length body,
          length-tobytes little ws,
          length-drop 28 payload,
          hd.sized,
        );
        header = rw whole hd;
      },
      whole,
    )

-- Decoding the bytes of a decoded packet with other samples gives that packet with those samples.
pub decode_with_samples :
    (order : ByteOrder) (p : KanyPacket) (ws : List ℕ)
    → IsPacket p
    → All IsWord ws
    → length ws ≡ p.channels * p.frames
    → decode order (p.raw_header ++ tobytes little ws) ≡ ok (record p { samples = floats ws })
decode_with_samples order p ws v words fits =
    let bytes =
      All-append IsByte p.raw_header (tobytes little ws) v.header_bytes (tobytes-IsByte ws) in
    let hd =
      Header-body p.raw_header (tobytes little p.samples.items) (tobytes little ws) (fields_of p)
        v.header_length v.header (omega (arith, length-tobytes little ws)) in
    decode_complete _ (fields_of p) hd order
    ∙ rw
        (
          read_samples_little order (p.raw_header ++ tobytes little ws) bytes,
          drop-append_exact 28 p.raw_header (tobytes little ws) v.header_length,
          frombytes-tobytes ws words,
          take-append_exact 28 p.raw_header (tobytes little ws) v.header_length,
        )
        refl

-- A decoded packet stays one when its samples are replaced by as many others.
pub with_samples-IsPacket :
    (p : KanyPacket) (ws : List ℕ)
    → IsPacket p
    → All IsWord ws
    → length ws ≡ p.channels * p.frames
    → IsPacket (record p { samples = floats ws })
with_samples-IsPacket p ws v words fits = record {
  header_bytes = v.header_bytes;
  header_length = v.header_length;
  is_floats = refl;
  sample_words = words;
  sample_count = fits;
  header =
      Header-body p.raw_header (tobytes little p.samples.items) (tobytes little ws) (fields_of p)
        v.header_length v.header (omega (arith, length-tobytes little ws));
}

-- What `encode_samples` writes on one machine is read on any machine.
pub decode_written :
    (reader writer : ByteOrder) (p : KanyPacket) (ws : List ℕ)
    → IsPacket p
    → All IsWord ws
    → length ws ≡ p.channels * p.frames
    → decode reader (p.raw_header ++ tobytes writer (to_little writer ws))
      ≡ ok (record p { samples = floats ws })
decode_written reader writer p ws v words fits =
    rw (tobytes-to_little writer ws words) (decode_with_samples reader p ws v words fits)
