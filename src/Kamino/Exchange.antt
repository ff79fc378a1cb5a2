-- ===== src/Kamino/Exchange.antt =====
-- The conversions between a reserve's collateral and its liquidity
-- (programs/adapters/kamino-usdc/src/lib.rs, `total_supply`, `collateral_to_liquidity`,
-- `liquidity_to_collateral_ceil`).
use sol_yield.Base.{ℕ, ◌/◌, ◌^◌, ◌==◌, ◌||◌, if◌then◌else◌}
use sol_yield.Base.Data.{or_panic}
use sol_yield.Base.Result.{Result, ok, ok_or, ◌>>=◌}
use sol_yield.Base.Word.{checked_add, checked_sub, checked_mul, checked_div, fit}
use sol_yield.Kamino.Types.{KaminoUsdcError, math_overflow, fractional_bits, KaminoReserveFields}

-- `value >> 60`
unfoldable pub scaled_fraction_floor : ℕ → ℕ
scaled_fraction_floor value = value / 2 ^ fractional_bits

unfoldable pub u128_to_u64 : ℕ → Result KaminoUsdcError ℕ
u128_to_u64 value = ok_or (fit 64 value) math_overflow

unfoldable pub total_supply : KaminoReserveFields → Result KaminoUsdcError ℕ
unfolding scaled_fraction_floor
total_supply fields = do
  let borrowed = scaled_fraction_floor fields.borrowed_amount_sf
  let protocol_fees = scaled_fraction_floor fields.accumulated_protocol_fees_sf
  let referrer_fees = scaled_fraction_floor fields.accumulated_referrer_fees_sf
  let pending_referrer_fees = scaled_fraction_floor fields.pending_referrer_fees_sf
  total ← ok_or (checked_add 128 fields.total_available_amount borrowed) math_overflow
  total' ← ok_or (checked_sub total protocol_fees) math_overflow
  total'' ← ok_or (checked_sub total' referrer_fees) math_overflow
  ok_or (checked_sub total'' pending_referrer_fees) math_overflow

-- The division of the product, once the rate is known.
unfoldable pub scale_floor : ℕ → ℕ → ℕ → Result KaminoUsdcError ℕ
unfolding u128_to_u64
scale_floor amount numerator denominator = do
  scaled ← ok_or (checked_mul 128 amount numerator) math_overflow
  value ← ok_or (checked_div scaled denominator) math_overflow
  u128_to_u64 value

-- `denominator - 1` panics at 0, which no caller passes.
unfoldable pub scale_ceil : ℕ → ℕ → ℕ → Result KaminoUsdcError ℕ
unfolding u128_to_u64
scale_ceil amount numerator denominator = do
  scaled ← ok_or (checked_mul 128 amount numerator) math_overflow
  last ← or_panic (checked_sub denominator 1)
  raised ← ok_or (checked_add 128 scaled last) math_overflow
  rounded ← ok_or (checked_div raised denominator) math_overflow
  u128_to_u64 rounded

unfoldable pub collateral_to_liquidity : ℕ → KaminoReserveFields → Result KaminoUsdcError ℕ
unfolding total_supply scale_floor
collateral_to_liquidity collateral_amount fields = do
  total ← total_supply fields
  let mint_total_supply = fields.collateral_mint_total_supply
  if mint_total_supply == 0 || total == 0
      then ok collateral_amount
      else scale_floor collateral_amount total mint_total_supply

unfoldable pub liquidity_to_collateral_ceil : ℕ → KaminoReserveFields → Result KaminoUsdcError ℕ
unfolding total_supply scale_ceil
liquidity_to_collateral_ceil amount fields = do
  total ← total_supply fields
  let mint_total_supply = fields.collateral_mint_total_supply
  if mint_total_supply == 0 || total == 0
      then ok amount
      else scale_ceil amount mint_total_supply total
