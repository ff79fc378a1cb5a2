-- ===== src/Base/Word.antt =====
-- The checked operations of Rust's unsigned integers, at a width in bits.
use sol_yield.Base.Tests.{ltb, leb, ◌==◌, if◌then◌else◌}
use Prim.Native.Nat.{ℕ, ◌+◌, ◌-◌, ◌*◌, ◌/◌, ◌%◌, ◌^◌, ◌<◌}
use mathlib.Core.Option.{Option, none, some}

-- a value if it fits the width
abbrev pub fit : ℕ → ℕ → Option ℕ
fit width n = if ltb n (2 ^ width) then some n else none

abbrev pub checked_add : ℕ → ℕ → ℕ → Option ℕ
checked_add width a b = fit width (a + b)

abbrev pub checked_mul : ℕ → ℕ → ℕ → Option ℕ
checked_mul width a b = fit width (a * b)

abbrev pub checked_sub : ℕ → ℕ → Option ℕ
checked_sub a b = if leb b a then some (a - b) else none

abbrev pub checked_div : ℕ → ℕ → Option ℕ
checked_div a b = if b == 0 then none else some (a / b)

abbrev pub checked_rem : ℕ → ℕ → Option ℕ
checked_rem a b = if b == 0 then none else some (a % b)

abbrev pub checked_pow : ℕ → ℕ → ℕ → Option ℕ
checked_pow width b e = fit width (b ^ e)

-- `option.and_then(f)`, and `option?` inside a function that returns an option
abbrev pub and_then {ℓ κ} : {A : Type ℓ} {B : Type κ} → Option A → (A → Option B) → Option B
and_then none f = none
and_then (some a) f = f a

-- `-` on ℕ stops at 0
abbrev pub saturating_sub : ℕ → ℕ → ℕ
saturating_sub a b = a - b

-- What holds of a value of an unsigned type.
abbrev pub IsU16 : ℕ → Type 0
IsU16 n = n < 2 ^ 16

abbrev pub IsU64 : ℕ → Type 0
IsU64 n = n < 2 ^ 64
