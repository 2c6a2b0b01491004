-- ===== src/Base/Int.antt =====
-- Signed numbers of the source that can be negative, and the wrap-around of an `i64`.
use Prim.Native.Nat.{ℕ, ◌-◌, ◌%◌}
use mathlib.Core.Bool.{Bool, false}
use notespace.Base.Tests.{ltb, if◌then◌else◌}

-- `negsuc n` is -(n + 1).
pub data ℤ : Type 0 where
  pos : ℕ → ℤ
  negsuc : ℕ → ℤ

-- `z.max(0)`.
abbrev pub pos_part : ℤ → ℕ
pos_part (pos n) = n
pos_part (negsuc n) = 0

abbrev pub is_pos : ℤ → Bool
is_pos (pos n) = ltb 0 n
is_pos (negsuc n) = false

abbrev pub two_63 : ℕ
two_63 = 9223372036854775808

abbrev pub two_64 : ℕ
two_64 = 18446744073709551616

-- A product of the source kept in an `i64`, which wraps in a release build.
unfoldable pub wrap_i64 : ℕ → ℤ
wrap_i64 n = let m = n % two_64 in if ltb m two_63 then pos m else negsuc (two_64 - 1 - m)
