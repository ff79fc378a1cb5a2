-- ===== src/Jupiter/Quote.antt =====
-- The conversions between amounts of the mint and LP tokens, and the bounds on what a call may
-- give or take (programs/adapters/jupiter-lp/src/lib.rs, `lp_to_usdc_floor`, `usdc_to_lp_*`,
-- `apply_bps_*`).
use sol_yield.Base.{ℕ, ◌-◌, ◌^◌, leb, ◌==◌, ◌||◌, if◌then◌else◌}
use sol_yield.Base.Data.{or_panic}
use sol_yield.Base.Result.{Result, ok, require, ok_or, ◌>>=◌, ◌>>◌}
use sol_yield.Base.Word.{checked_add, checked_sub, checked_mul, checked_div}
use sol_yield.Jupiter.Types.{JupiterLpError, math_overflow, bps_denominator}

unfoldable pub u128_to_u64 : ℕ → Result JupiterLpError ℕ
u128_to_u64 value = do require (leb value (2 ^ 64 - 1)) math_overflow; ok value

-- The product over the divisor, rounded down, as a u64.
unfoldable pub scale_floor : ℕ → ℕ → ℕ → Result JupiterLpError ℕ
unfolding u128_to_u64
scale_floor amount numerator denominator = do
  product ← ok_or (checked_mul 128 amount numerator) math_overflow
  value ← ok_or (checked_div product denominator) math_overflow
  u128_to_u64 value

-- The product over the divisor, rounded up, as a u64; `denominator - 1` panics at 0, which no
-- caller passes.
unfoldable pub scale_ceil : ℕ → ℕ → ℕ → Result JupiterLpError ℕ
unfolding u128_to_u64
scale_ceil amount numerator denominator = do
  product ← ok_or (checked_mul 128 amount numerator) math_overflow
  last ← or_panic (checked_sub denominator 1)
  raised ← ok_or (checked_add 128 product last) math_overflow
  value ← ok_or (checked_div raised denominator) math_overflow
  u128_to_u64 value

unfoldable pub lp_to_usdc_floor : ℕ → ℕ → ℕ → Result JupiterLpError ℕ
unfolding scale_floor
lp_to_usdc_floor lp_amount pool_aum_usd lp_supply =
    if lp_amount == 0 || lp_supply == 0 || pool_aum_usd == 0
    then ok 0
    else scale_floor lp_amount pool_aum_usd lp_supply

unfoldable pub usdc_to_lp_floor : ℕ → ℕ → ℕ → Result JupiterLpError ℕ
unfolding scale_floor
usdc_to_lp_floor amount pool_aum_usd lp_supply =
    if amount == 0 || lp_supply == 0 || pool_aum_usd == 0
    then ok amount
    else scale_floor amount lp_supply pool_aum_usd

unfoldable pub usdc_to_lp_ceil : ℕ → ℕ → ℕ → Result JupiterLpError ℕ
unfolding scale_ceil
usdc_to_lp_ceil amount pool_aum_usd lp_supply =
    if amount == 0 || lp_supply == 0 || pool_aum_usd == 0
    then ok amount
    else scale_ceil amount lp_supply pool_aum_usd

unfoldable pub apply_bps_floor : ℕ → ℕ → Result JupiterLpError ℕ
unfolding scale_floor
apply_bps_floor value bps = scale_floor value bps bps_denominator

unfoldable pub apply_bps_ceil : ℕ → ℕ → Result JupiterLpError ℕ
unfolding scale_ceil
apply_bps_ceil value bps = scale_ceil value bps bps_denominator
