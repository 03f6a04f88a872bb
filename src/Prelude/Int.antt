-- ===== src/Prelude/Int.antt =====
-- Python's integers, where a value may be negative: a rounded float, or a number from a setting.
use karaoke_anything.Prelude.Tests.{leb, ltb, ◌==◌}
use Prim.Native.Nat.{ℕ, ◌≤◌, max}
use mathlib.Core.Path.{◌≡◌}
use mathlib.Core.Bool.{Bool, true, false}
use native.Mathlib.Omega.{arith}

-- `negsuc n` is -(n + 1).
pub data ℤ : Type 0 where
  pos : ℕ → ℤ
  negsuc : ℕ → ℤ

-- `n >= z`, for a count n
abbrev pub at_least : ℕ → ℤ → Bool
at_least n (pos m) = leb m n
at_least n (negsuc m) = true

-- `n > z`
abbrev pub above : ℕ → ℤ → Bool
above n (pos m) = ltb m n
above n (negsuc m) = true

-- `max(n, z)`
abbrev pub max_ℕ : ℕ → ℤ → ℕ
max_ℕ n (pos m) = max n m
max_ℕ n (negsuc m) = n

-- `z >= 0`
abbrev pub nonneg : ℤ → Bool
nonneg (pos n) = true
nonneg (negsuc n) = false

abbrev pub same_int : ℤ → ℤ → Bool
same_int (pos a) (pos b) = a == b
same_int (negsuc a) (negsuc b) = a == b
same_int _ _ = false

pub above-le : (n : ℕ) (m : ℕ) → above n (pos m) ≡ false → n ≤ m
above-le n m h = ground arith
