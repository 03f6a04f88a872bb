-- ===== src/Kany/Rejects.antt =====
-- kany.py: the errors of `decode`. The processors catch `KanyProtocolError` alone.
use karaoke_anything.Prelude.{
  ℕ, ◌+◌, ◌*◌, ◌≤◌, ◌<◌, ◌≡◌, refl, Bool, true, false, length, drop, arith, get_elem?-total,
  length-drop,
}
use karaoke_anything.Errors.{
  Exception, KanyProtocolError, kany_error, Result, ok, err, ◌>>=◌, >>=-eq-ok,
}
use karaoke_anything.Kany.Buffers.{Bytes, item, ByteOrder}
use karaoke_anything.Kany.Decode.{
  reject_if, read_samples, decode, validate_header, validate_preamble, validate_version_and_format,
  parse_header_fields, validate_body_length,
}
use karaoke_anything.Kany.Words.{frombytes-total}
use karaoke_anything.Kany.Header.{preamble_sound, body_sound}

-- `r` returns, or raises a `KanyProtocolError`
pub record OnlyKany {ℓ} {A : Type ℓ} (r : Result A) : Type ℓ where
  pub raised : (e : Exception) → r ≡ err e → (k : KanyProtocolError) × (e ≡ kany_error k)

OnlyKany-ok {ℓ} : {A : Type ℓ} (a : A) → OnlyKany (ok a)
OnlyKany-ok a = record { raised = λ e h. cc }

OnlyKany-reject_if : (b : Bool) (k : KanyProtocolError) → OnlyKany (reject_if b k)
OnlyKany-reject_if true k = record { raised = λ e h. (k, cc) }
OnlyKany-reject_if false k = record { raised = λ e h. cc }

-- a later step may use that the earlier ones returned
OnlyKany-bind {ℓ κ} :
    {A : Type ℓ} {B : Type κ} (r : Result A) (f : A → Result B)
    → OnlyKany r
    → ((a : A) → r ≡ ok a → OnlyKany (f a))
    → OnlyKany (r >>= f)
OnlyKany-bind (ok a) f h k = k a refl
OnlyKany-bind (err x) f h k = record { raised = λ e q. h.raised e (cc) }

OnlyKany-eq_ok {ℓ} : {A : Type ℓ} (r : Result A) (a : A) → r ≡ ok a → OnlyKany r
OnlyKany-eq_ok r a h = rw h (OnlyKany-ok a)

OnlyKany-item : (payload : Bytes) (i : ℕ) → i < length payload → OnlyKany (item payload i)
OnlyKany-item payload i h =
    let (v, e) = get_elem?-total i payload h in
    OnlyKany-eq_ok (item payload i) v (rw (e, item) refl)

ruleset kany_rules = (OnlyKany-ok, OnlyKany-reject_if, OnlyKany-bind, OnlyKany-item)

validate_preamble-OnlyKany : (payload : Bytes) → OnlyKany (validate_preamble payload)
unfolding validate_preamble
validate_preamble-OnlyKany payload = search kany_rules

module _ (payload : Bytes) (long : 28 ≤ length payload) where
  byte_4 : 4 < length payload
  byte_4 = omega arith

  byte_6 : 6 < length payload
  byte_6 = omega arith

  byte_7 : 7 < length payload
  byte_7 = omega arith

  version-OnlyKany : OnlyKany (validate_version_and_format payload)
  unfolding validate_version_and_format
  version-OnlyKany = search (kany_rules, byte_4, byte_7)

  fields-OnlyKany : OnlyKany (parse_header_fields payload)
  unfolding parse_header_fields
  fields-OnlyKany = search (kany_rules, byte_6)

body-OnlyKany : (payload : Bytes) (c n : ℕ) → OnlyKany (validate_body_length payload c n)
unfolding validate_body_length
body-OnlyKany payload c n = search kany_rules

read_samples-OnlyKany :
    (order : ByteOrder) (payload : Bytes) (c n : ℕ)
    → length payload ≡ 28 + c * n * 4
    → OnlyKany (read_samples order payload)
unfolding read_samples
read_samples-OnlyKany order payload c n fits =
    let (ws, e, _) =
      frombytes-total order (c * n) (drop 28 payload) (omega (arith, length-drop 28 payload)) in
    rw e (search kany_rules)

validate_header-OnlyKany : (payload : Bytes) → OnlyKany (validate_header payload)
unfolding validate_header
validate_header-OnlyKany payload =
    OnlyKany-bind (validate_preamble payload) _ (validate_preamble-OnlyKany payload)
      λ _ pre. version-OnlyKany payload (preamble_sound payload pre).0

validate_header_long : (payload : Bytes) → validate_header payload ≡ ok tt → 28 ≤ length payload
unfolding validate_header
validate_header_long payload h =
    let (_, pre, _) = >>=-eq-ok (validate_preamble payload) _ h in (preamble_sound payload pre).0

-- For every sequence of bytes, `decode` returns a packet or raises a `KanyProtocolError`: never an
-- `IndexError`, and never the `ValueError` of `frombytes`.
pub decode-OnlyKany : (order : ByteOrder) (payload : Bytes) → OnlyKany (decode order payload)
unfolding decode
decode-OnlyKany order payload =
    OnlyKany-bind (validate_header payload) _ (validate_header-OnlyKany payload) λ _ checked.
      OnlyKany-bind (parse_header_fields payload) _
        (fields-OnlyKany payload (validate_header_long payload checked))
        λ f _.
          OnlyKany-bind (validate_body_length payload f.channels f.frames) _
            (body-OnlyKany payload f.channels f.frames)
            λ _ fits.
              OnlyKany-bind (read_samples order payload) _
                (read_samples-OnlyKany order payload f.channels f.frames
                  (body_sound payload f.channels f.frames fits))
                λ _ _. OnlyKany-ok _
