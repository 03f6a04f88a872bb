-- ===== src/Host.antt =====
-- What the Python code takes from the machine and the interpreter: floats and the byte order.
-- The type theory has no floats, so a Python `float` is a value of the field `Float`, and the
-- operations that the code applies are fields. Laws that a theorem needs are its hypotheses.
use karaoke_anything.Prelude.{String, ℕ, Bool}
use karaoke_anything.Prelude.Int.{ℤ}
use karaoke_anything.Errors.{Result}
use karaoke_anything.Kany.{ByteOrder}

pub record Host : Type 1 where
  pub byteorder : ByteOrder
  pub Float : Type 0
  -- the float nearest to n / d, for a decimal literal or an int
  pub ratio : ℕ → ℕ → Float
  pub lt : Float → Float → Bool
  pub le : Float → Float → Bool
  pub eq : Float → Float → Bool
  pub add : Float → Float → Float
  pub sub : Float → Float → Float
  pub mul : Float → Float → Float
  -- raises `ZeroDivisionError`
  pub div : Float → Float → Result Float
  -- `round(x)` raises `OverflowError` at an infinity and `ValueError` at a NaN
  pub round : Float → Result ℤ
  -- an item of an `array("f")` as a float, and a float rounded to such an item
  pub load : ℕ → Float
  pub store : Float → ℕ
  -- `int(text)` and `float(text)`
  pub parse_int : String → Result ℤ
  pub parse_float : String → Result Float
