-- ===== src/Kamino/Conversion.antt =====
-- What the conversions of the Kamino adapter promise (programs/adapters/kamino-usdc/src/lib.rs,
-- `collateral_to_liquidity` and `liquidity_to_collateral_ceil`).
use sol_yield.Base.{
  ℕ, suc, ◌+◌, ◌-◌, ◌*◌, ◌/◌, ◌^◌, ◌≤◌, ◌<◌, ◌==◌, ◌||◌, ◌≡◌, ◌↔◌, inl, inr, if◌then◌else◌,
  Bool-cases, arith,
}
use native.Mathlib.Nat.{le-div_iff_mul-le, div-lt_iff_lt-mul}
use sol_yield.Base.Result.{Result, ok, >>=-ok}
use sol_yield.Kamino.Types.{KaminoReserveFields, KaminoUsdcError}
use sol_yield.Kamino.Exchange.{
  total_supply, scale_floor, scale_ceil, collateral_to_liquidity, liquidity_to_collateral_ceil,
}

-- Rounding up stays below a bound exactly when the bound covers the number.
ceil-le_iff : (n d c : ℕ) → 0 < d → ((n + (d - 1)) / d ≤ c) ↔ (n ≤ c * d)
ceil-le_iff n d c pos =
    let below = div-lt_iff_lt-mul {x = n + (d - 1)} {y = suc c} pos in
    (λ h. omega (arith, below.0 (omega arith)), λ h. omega (arith, below.1 (omega arith)))

scale_floor_lem : (a n d v : ℕ) → 0 < d → scale_floor a n d ≡ ok v → v ≡ a * n / d
unfolding scale_floor
scale_floor_lem a n d v pos found = ground arith

scale_ceil_lem : (a n d v : ℕ) → 0 < d → scale_ceil a n d ≡ ok v → v ≡ (a * n + (d - 1)) / d
unfolding scale_ceil
scale_ceil_lem a n d v pos found = ground arith

-- The two roundings of one rate.
scale_galois :
    (amount c c' v' total mint : ℕ)
    → 0 < mint
    → 0 < total
    → scale_ceil amount mint total ≡ ok c
    → scale_floor c' total mint ≡ ok v'
    → (amount ≤ v') ↔ (c ≤ c')
scale_galois amount c c' v' total mint pos pos' up down =
    let floor = le-div_iff_mul-le {x = amount} {y = c' * total} pos in
    let ceil = ceil-le_iff (amount * mint) total c' pos' in
    rw (scale_ceil_lem amount mint total c pos' up, scale_floor_lem c' total mint v' pos down)
      (λ h. ceil.1 (floor.0 h), λ h. floor.1 (ceil.0 h))

-- What each conversion does once the supply is known.
abbrev at_rate_ceil : KaminoReserveFields → ℕ → ℕ → Result KaminoUsdcError ℕ
at_rate_ceil fields amount total =
    if fields.collateral_mint_total_supply == 0 || total == 0
    then ok amount
    else scale_ceil amount fields.collateral_mint_total_supply total

abbrev at_rate_floor : KaminoReserveFields → ℕ → ℕ → Result KaminoUsdcError ℕ
at_rate_floor fields collateral_amount total =
    if fields.collateral_mint_total_supply == 0 || total == 0
    then ok collateral_amount
    else scale_floor collateral_amount total fields.collateral_mint_total_supply

at_rate_galois :
    (fields : KaminoReserveFields) (amount c c' v' total : ℕ)
    → at_rate_ceil fields amount total ≡ ok c
    → at_rate_floor fields c' total ≡ ok v'
    → (amount ≤ v') ↔ (c ≤ c')
at_rate_galois fields amount c c' v' total up down =
    elim (Bool-cases (fields.collateral_mint_total_supply == 0 || total == 0)) [
      | inl unset ↦
          let same : c ≡ amount = ground arith in
          let same' : v' ≡ c' = ground arith in (λ h. omega arith, λ h. omega arith)
      | inr set ↦
          scale_galois amount c c' v' total fields.collateral_mint_total_supply (ground arith)
            (ground arith) (ground arith) (ground arith)
    ]

-- Where both conversions give a result, a collateral is worth at least an amount exactly when it
-- is at least the collateral that a withdrawal of the amount redeems: the least that covers it.
pub redeemed_least :
    (fields : KaminoReserveFields) (amount c c' v' : ℕ)
    → liquidity_to_collateral_ceil amount fields ≡ ok c
    → collateral_to_liquidity c' fields ≡ ok v'
    → (amount ≤ v') ↔ (c ≤ c')
unfolding liquidity_to_collateral_ceil collateral_to_liquidity
redeemed_least fields amount c c' v' up down =
    let (total, found, up') = >>=-ok (total_supply fields) (at_rate_ceil fields amount) up in
    let (total', found', down') = >>=-ok (total_supply fields) (at_rate_floor fields c') down in
    let same : total' ≡ total = cc in
    at_rate_galois fields amount c c' v' total up' (rw same at down')

-- The supply is the liquidity that is available or lent out, less the fees, each rounded down; it
-- is given exactly when the liquidity is a u128 and covers the fees.
total_supply_iff :
    (fields : KaminoReserveFields) (total : ℕ)
    → (total_supply fields ≡ ok total) ↔ (
        (fields.total_available_amount + fields.borrowed_amount_sf / 2 ^ 60 < 2 ^ 128)
        × (total
              + (fields.accumulated_protocol_fees_sf / 2 ^ 60
                  + fields.accumulated_referrer_fees_sf / 2 ^ 60
                  + fields.pending_referrer_fees_sf / 2 ^ 60)
            ≡ fields.total_available_amount + fields.borrowed_amount_sf / 2 ^ 60))
unfolding total_supply
total_supply_iff fields total = (λ found. ground arith, λ spec. ground arith)
