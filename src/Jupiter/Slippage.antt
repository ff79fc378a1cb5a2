-- ===== src/Jupiter/Slippage.antt =====
-- What a deposit accepts and a withdrawal burns, against the pool's rate
-- (programs/adapters/jupiter-lp/src/lib.rs, `usdc_to_lp_*`, `apply_bps_*` and their use in
-- `deposit` and `withdraw`).
use sol_yield.Base.{ℕ, ◌+◌, ◌-◌, ◌*◌, ◌/◌, ◌≤◌, ◌<◌, ◌≡◌, arith}
use sol_yield.Base.Division.{quotient_bounds}
use sol_yield.Base.Result.{ok, >>=-ok}
use sol_yield.Solana.Chain.{Chain}
use sol_yield.Jupiter.Types.{deposit_min_out_bps, withdraw_burn_buffer_bps, JupiterAccounts}
use sol_yield.Jupiter.Quote.{
  scale_floor, scale_ceil, usdc_to_lp_floor, usdc_to_lp_ceil, apply_bps_floor, apply_bps_ceil,
}
use sol_yield.Jupiter.Handlers.{lp_supply, min_lp_amount_out, lp_amount_in}

scale_floor_lem : (a n d v : ℕ) → 0 < d → scale_floor a n d ≡ ok v → v ≡ a * n / d
unfolding scale_floor
scale_floor_lem a n d v pos found = ground arith

scale_ceil_lem : (a n d v : ℕ) → 0 < d → scale_ceil a n d ≡ ok v → v ≡ (a * n + (d - 1)) / d
unfolding scale_ceil
scale_ceil_lem a n d v pos found = ground arith

-- A result rounded down, and one rounded up, between their bounds.
scale_floor_bounds :
    (a n d v : ℕ) → 0 < d → scale_floor a n d ≡ ok v → (v * d ≤ a * n) × (a * n < (v + 1) * d)
scale_floor_bounds a n d v pos found =
    rw (scale_floor_lem a n d v pos found) (quotient_bounds (a * n) d pos)

raised_bounds :
    (m d v : ℕ)
    → 0 < d
    → (v * d ≤ m + (d - 1)) × (m + (d - 1) < (v + 1) * d)
    → (m ≤ v * d) × (v * d < m + d)
raised_bounds m d v pos bounds = (omega arith, omega arith)

scale_ceil_bounds :
    (a n d v : ℕ) → 0 < d → scale_ceil a n d ≡ ok v → (a * n ≤ v * d) × (v * d < a * n + d)
scale_ceil_bounds a n d v pos found =
    raised_bounds (a * n) d v pos
      (rw (scale_ceil_lem a n d v pos found) (quotient_bounds (a * n + (d - 1)) d pos))

quoted_bounds :
    (amount aum supply q : ℕ)
    → 0 < amount
    → 0 < aum
    → 0 < supply
    → usdc_to_lp_floor amount aum supply ≡ ok q
    → (q * aum ≤ amount * supply) × (amount * supply < (q + 1) * aum)
unfolding usdc_to_lp_floor
quoted_bounds amount aum supply q given assets shares found =
    scale_floor_bounds amount supply aum q assets (ground arith)

base_bounds :
    (amount aum supply b : ℕ)
    → 0 < amount
    → 0 < aum
    → 0 < supply
    → usdc_to_lp_ceil amount aum supply ≡ ok b
    → (amount * supply ≤ b * aum) × (b * aum < amount * supply + aum)
unfolding usdc_to_lp_ceil
base_bounds amount aum supply b given assets shares found =
    scale_ceil_bounds amount supply aum b assets (ground arith)

times_le : (a b k : ℕ) → a ≤ b → a * k ≤ b * k
times_le a b k h = grind arith

least_bounds :
    (worth q m aum : ℕ)
    → (q * aum ≤ worth) × (worth < (q + 1) * aum)
    → (m * 10000 ≤ q * 9500) × (q * 9500 < (m + 1) * 10000)
    → (m * aum * 100 ≤ worth * 95) × (worth * 95 < (m + 2) * aum * 100)
least_bounds worth q m aum quoted cut =
    let low = times_le (m * 10000) (q * 9500) aum cut.0 in
    let high = times_le (q * 9500 + 1) ((m + 1) * 10000) aum (omega arith) in
    (omega arith, omega arith)

burned_bounds :
    (worth b l aum : ℕ)
    → (worth ≤ b * aum) × (b * aum < worth + aum)
    → (b * 10100 ≤ l * 10000) × (l * 10000 < b * 10100 + 10000)
    → (worth * 101 ≤ l * aum * 100) × (l * aum * 100 < worth * 101 + 201 * aum)
burned_bounds worth b l aum base raised =
    let low = times_le (b * 10100) (l * 10000) aum raised.0 in
    let high = times_le (l * 10000) (b * 10100 + 10000) aum (omega arith) in
    (omega arith, omega arith)

module _ {ℓ} {S : Type ℓ} (chain : Chain S) (s : S) (ctx : JupiterAccounts) (aum supply amount : ℕ)
    (given : 0 < amount) (assets : 0 < aum) (shares : 0 < supply)
    (known : lp_supply chain s ctx ≡ ok supply) where
  -- The least amount of LP tokens that a deposit accepts is worth at most 95 percent of the amount
  -- at the pool's rate, and less than two tokens below, where amount, assets and supply are not
  -- zero.
  pub min_lp_amount_out_bounds :
      (least : ℕ)
      → min_lp_amount_out chain s ctx aum amount ≡ ok least
      → (least * aum * 100 ≤ amount * supply * 95)
        × (amount * supply * 95 < (least + 2) * aum * 100)
  unfolding min_lp_amount_out apply_bps_floor
  min_lp_amount_out_bounds least found =
      let (supply', read, rest) = >>=-ok (lp_supply chain s ctx) _ found in
      let same : supply' ≡ supply = cc in
      let (q, quoted, cut) = >>=-ok (usdc_to_lp_floor amount aum supply') _ rest in
      least_bounds (amount * supply) q least aum
        (quoted_bounds amount aum supply q given assets shares (rw same at quoted))
        (scale_floor_bounds q deposit_min_out_bps 10000 least (omega arith) cut)

  -- The LP tokens that a withdrawal burns are worth at least 101 percent of the amount at the
  -- pool's rate, and less than 2.01 tokens more, where amount, assets and supply are not zero.
  pub lp_amount_in_bounds :
      (burned : ℕ)
      → lp_amount_in chain s ctx aum amount ≡ ok burned
      → (amount * supply * 101 ≤ burned * aum * 100)
        × (burned * aum * 100 < amount * supply * 101 + 201 * aum)
  unfolding lp_amount_in apply_bps_ceil
  lp_amount_in_bounds burned found =
      let (supply', read, rest) = >>=-ok (lp_supply chain s ctx) _ found in
      let same : supply' ≡ supply = cc in
      let (b, base, raised) = >>=-ok (usdc_to_lp_ceil amount aum supply') _ rest in
      burned_bounds (amount * supply) b burned aum
        (base_bounds amount aum supply b given assets shares (rw same at base))
        (scale_ceil_bounds b withdraw_burn_buffer_bps 10000 burned (omega arith) raised)
