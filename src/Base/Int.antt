-- ===== src/Base/Int.antt =====
-- Signed integers over the native numbers, as far as the programs read them: `i128` from its
-- bytes.
use sol_yield.Base.Tests.{ltb, if◌then◌else◌}
use sol_yield.Base.Bytes.{from_le_bytes}
use Prim.Native.Nat.{ℕ, ◌-◌, ◌^◌}
use mathlib.Core.Bool.{Bool, true, false}
use mathlib.Core.List.{List}

-- `negsuc n` is -(n + 1).
pub data ℤ : Type 0 where
  pos : ℕ → ℤ
  negsuc : ℕ → ℤ

-- the two's complement reading of a 128-bit pattern
abbrev pub signed_128 : ℕ → ℤ
signed_128 n = if ltb n (2 ^ 127) then pos n else negsuc (2 ^ 128 - n - 1)

-- `i128::from_le_bytes`
abbrev pub i128_from_le_bytes : List ℕ → ℤ
i128_from_le_bytes bytes = signed_128 (from_le_bytes bytes)

-- `value > 0` and `value >= 0`
abbrev pub is_positive : ℤ → Bool
is_positive (pos n) = ltb 0 n
is_positive (negsuc _) = false

abbrev pub is_nonnegative : ℤ → Bool
is_nonnegative (pos _) = true
is_nonnegative (negsuc _) = false

-- `value as u128`
abbrev pub as_u128 : ℤ → ℕ
as_u128 (pos n) = n
as_u128 (negsuc n) = 2 ^ 128 - n - 1
