-- ===== src/Errors.antt =====
-- The exceptions that the Python code raises, with the values that their messages are formatted
-- from, and the result of code that may raise (kany.py, processors/*.py, service.py).
use karaoke_anything.Prelude.{List, ℕ, String, ◌≡◌, refl, ◌⊎◌, inl, inr, Bool, true, false, Option}

-- kany.py, `KanyProtocolError`: one constructor for each message.
pub data KanyProtocolError : Type 0 where
  short_packet bad_magic zero_field bad_typecode : KanyProtocolError
  bad_version bad_format : ℕ → KanyProtocolError
  length_mismatch sample_count_mismatch : ℕ → ℕ → KanyProtocolError

pub data Exception : Type 0 where
  kany_error : KanyProtocolError → Exception
  -- raised by the language and its library
  index_error zero_division overflow_error cancelled_error : Exception
  value_error type_error os_error : String → Exception
  runtime_error : String → Exception
  -- `ValueError`s of the registry, the service and the processors
  unknown_processor : String → Exception
  unknown_settings : List String → Exception
  requires_kany : String → KanyProtocolError → Exception
  requires_stereo : String → ℕ → Exception
  format_changed : ℕ → Option ℕ → ℕ → ℕ → Exception
  -- `RuntimeError`s of the processors
  inference_failed : String → Exception → Exception
  wrong_sample_count : String → ℕ → ℕ → Exception

pub data Result {ℓ} (A : Type ℓ) : Type ℓ where
  ok : A → Result A
  err : Exception → Result A

module _ {ℓ κ} {A : Type ℓ} {B : Type κ} where
  -- the rest of a block, unless an exception left it
  infixl 5 ◌>>=◌
  abbrev pub ◌>>=◌ : Result A → (A → Result B) → Result B
  err e >>= rest = err e
  ok value >>= rest = rest value

infixl 5 ◌>>◌
abbrev pub ◌>>◌ {κ} : {B : Type κ} → Result (Unit {0}) → Result B → Result B
check >> rest = check >>= λ _. rest

-- `if failed: raise e`
abbrev pub raise_if : Bool → Exception → Result (Unit {0})
raise_if true e = err e
raise_if false e = ok tt

-- a block that returned: its first step returned, and so did the rest
pub >>=-eq-ok {ℓ κ} :
    {A : Type ℓ} {B : Type κ} (step : Result A) (rest : A → Result B) {result : B}
    → (step >>= rest) ≡ ok result
    → (value : A) × (step ≡ ok value) × (rest value ≡ ok result)
>>=-eq-ok (err e) rest returned = cc
>>=-eq-ok (ok value) rest returned = (value, refl, returned)

pub >>-eq-ok {κ} :
    {B : Type κ} (check : Result (Unit {0})) (rest : Result B) {result : B}
    → (check >> rest) ≡ ok result
    → rest ≡ ok result
>>-eq-ok (err e) rest returned = cc
>>-eq-ok (ok _) rest returned = returned

pub Result-cases {ℓ} :
    {A : Type ℓ} (r : Result A) → ((a : A) × (r ≡ ok a)) ⊎ ((e : Exception) × (r ≡ err e))
Result-cases (ok a) = inl (a, refl)
Result-cases (err e) = inr (e, refl)

pub ok-injective {ℓ} : {A : Type ℓ} {a b : A} → ok a ≡ ok b → a ≡ b
ok-injective h = cc
