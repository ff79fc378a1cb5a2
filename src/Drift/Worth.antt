-- ===== src/Drift/Worth.antt =====
-- What the value of a stake promises (programs/adapters/drift-insurance-fund/src/lib.rs,
-- `read_drift_if_value` and `shares_to_amount`).
use sol_yield.Base.{ℕ, zero, suc, ◌+◌, ◌-◌, ◌*◌, ◌/◌, ◌^◌, ◌≤◌, ◌<◌, ◌≡◌, ◌↔◌, refl, arith}
use sol_yield.Base.Division.{quotient_bounds}
use sol_yield.Base.Result.{ok}
use sol_yield.Base.Word.{IsU64}
use sol_yield.Drift.Stake.{shares_to_amount, min, stake_value}

-- An amount is given exactly when there are no shares at all and it is 0, or the product fits a
-- u128 and it is the u64 quotient.
shares_to_amount_iff :
    (shares total vault v : ℕ)
    → 0 < total
    → (shares_to_amount shares total vault ≡ ok v)
      ↔ ((shares * vault < 2 ^ 128) × IsU64 v × (v ≡ shares * vault / total))
unfolding shares_to_amount
shares_to_amount_iff shares total vault v pos = (λ found. ground arith, λ spec. ground arith)

-- What a value that is given consists of.
stake_value_parts :
    (shares requested request_value total vault v : ℕ)
    → stake_value shares requested request_value total vault ≡ ok v
    → (requested ≤ shares)
      × ((active pending : ℕ) × (shares_to_amount (shares - requested) total vault ≡ ok active)
          × (shares_to_amount requested total vault ≡ ok pending)
          × (v ≡ active + min pending request_value))
unfolding stake_value
stake_value_parts shares requested request_value total vault v found = ground arith

stake_value_made :
    (shares requested request_value total vault active pending : ℕ)
    → requested ≤ shares
    → shares_to_amount (shares - requested) total vault ≡ ok active
    → shares_to_amount requested total vault ≡ ok pending
    → IsU64 (active + min pending request_value)
    → stake_value shares requested request_value total vault
      ≡ ok (active + min pending request_value)
unfolding stake_value
stake_value_made shares requested request_value total vault active pending less a p fits =
    ground arith

min-le : (a b : ℕ) → min a b ≤ a
min-le a b = ground arith

-- The value times the total, against the shares' part of the vault.
sum_bounds :
    (active requested value pending total vault : ℕ)
    → (value * total ≤ active * vault) × (active * vault < (value + 1) * total)
    → (pending * total ≤ requested * vault) × (requested * vault < (pending + 1) * total)
    → ((value + pending) * total ≤ (active + requested) * vault)
      × ((active + requested) * vault < (value + pending + 2) * total)
sum_bounds active requested value pending total vault low high = (omega arith, omega arith)

-- The shares' quotients, together at most the vault.
quotients_within :
    (shares requested total vault : ℕ)
    → 0 < total
    → requested ≤ shares
    → ((shares - requested) * vault / total + requested * vault / total) * total ≤ shares * vault
quotients_within shares requested total vault pos less =
    let whole : shares - requested + requested ≡ shares = omega arith in
    let (low, _) =
      sum_bounds (shares - requested) requested ((shares - requested) * vault / total)
        (requested * vault / total) total vault
        (quotient_bounds ((shares - requested) * vault) total pos)
        (quotient_bounds (requested * vault) total pos) in
    rw whole at low

product_part : (a b vault bound : ℕ) → a ≤ b → b * vault < bound → a * vault < bound
product_part a b vault bound less fits = grind arith

scaled_down : (v w total bound : ℕ) → v ≤ w → w * total ≤ bound → v * total ≤ bound
scaled_down v w total bound below low = grind arith

still_covered : (q m total n : ℕ) → n < (q + 1) * total → n < (q + m + 1) * total
still_covered q m total n covered = grind arith

cancel_total :
    (v shares total vault : ℕ) → 0 < total → shares ≤ total → v * total ≤ shares * vault → v ≤ vault
cancel_total v shares total vault pos within low = grind arith

-- Without any shares in the fund every stake is worth nothing.
stake_value_none :
    (shares requested request_value vault v : ℕ)
    → stake_value shares requested request_value 0 vault ≡ ok v
    → v ≡ 0
unfolding stake_value shares_to_amount
stake_value_none shares requested request_value vault v found = ground arith

stake_value_within_some :
    (shares requested request_value total vault v : ℕ)
    → 0 < total
    → shares ≤ total
    → stake_value shares requested request_value total vault ≡ ok v
    → (v * total ≤ shares * vault) × (v ≤ vault)
stake_value_within_some shares requested request_value total vault v pos within found =
    let (less, (active, pending, of_active, of_pending, sum)) =
      stake_value_parts shares requested request_value total vault v found in
    let (_, _, a) =
      (shares_to_amount_iff (shares - requested) total vault active pos).0 of_active in
    let (_, _, p) = (shares_to_amount_iff requested total vault pending pos).0 of_pending in
    let below : v ≤ (shares - requested) * vault / total + requested * vault / total =
      omega (arith, min-le pending request_value) in
    let part =
      scaled_down v _ total (shares * vault) below
        (quotients_within shares requested total vault pos less) in
    (part, cancel_total v shares total vault pos within part)

-- Where the shares of a stake are among the total, a value that it has is at most the shares' part
-- of the vault, and at most what the vault holds.
pub stake_value_within :
    (shares requested request_value total vault v : ℕ)
    → shares ≤ total
    → stake_value shares requested request_value total vault ≡ ok v
    → (v * total ≤ shares * vault) × (v ≤ vault)
stake_value_within shares requested request_value zero vault v within found =
    let nothing = stake_value_none shares requested request_value vault v found in
    (omega arith, omega arith)
stake_value_within shares requested request_value (suc total) vault v within found =
    stake_value_within_some shares requested request_value (suc total) vault v (omega arith) within
      found

-- Where there are shares in all, the requested shares are among the stake's and these among the
-- total, the vault's amount is a u64, and the stake's shares times that amount fit a u128, a stake
-- has a value, and it covers the part of its active shares down to one unit.
pub stake_value_total :
    (shares requested request_value total vault : ℕ)
    → 0 < total
    → requested ≤ shares
    → shares ≤ total
    → IsU64 vault
    → shares * vault < 2 ^ 128
    → (v : ℕ) × (stake_value shares requested request_value total vault ≡ ok v)
      × ((shares - requested) * vault < (v + 1) * total)
stake_value_total shares requested request_value total vault pos less within small fits =
    let together = quotients_within shares requested total vault pos less in
    let held = cancel_total _ shares total vault pos within together in
    let a =
      (shares_to_amount_iff (shares - requested) total vault _ pos).1
        (product_part (shares - requested) shares vault _ (omega arith) fits, omega arith, refl) in
    let p =
      (shares_to_amount_iff requested total vault _ pos).1
        (product_part requested shares vault _ less fits, omega arith, refl) in
    let bounded = min-le (requested * vault / total) request_value in
    let made =
      stake_value_made shares requested request_value total vault _ _ less a p
        (omega (arith, bounded)) in
    (_, made, still_covered _ _ total _ (quotient_bounds _ total pos).1)
