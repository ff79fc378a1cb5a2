-- ===== src/Base/Division.antt =====
-- Bounds of a quotient, for the rates of the adapters.
use Prim.Native.Nat.{ℕ, ◌+◌, ◌*◌, ◌/◌, ◌≤◌, ◌<◌}
use native.Mathlib.Nat.{le-div_iff_mul-le, div-lt_iff_lt-mul}
use native.Mathlib.Omega.{arith}

-- A quotient is the greatest number whose product stays within.
pub quotient_bounds : (n d : ℕ) → 0 < d → (n / d * d ≤ n) × (n < (n / d + 1) * d)
quotient_bounds n d pos =
    let low = le-div_iff_mul-le {x = n / d} {y = n} pos in
    let high = div-lt_iff_lt-mul {x = n} {y = n / d + 1} pos in
    (low.0 (omega arith), high.0 (omega arith))
