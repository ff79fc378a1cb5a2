-- ===== src/Marginfi/Rounding.antt =====
-- What the I80F48 product promises (programs/adapters/marginfi-usdc/src/lib.rs, `fixed_*`).
use sol_yield.Base.{ℕ, ◌+◌, ◌*◌, ◌/◌, ◌%◌, ◌^◌, ◌≤◌, ◌<◌, ◌≡◌, ◌↔◌, refl, arith}
use sol_yield.Base.Result.{ok}
use sol_yield.Base.Word.{IsU64}
use sol_yield.Marginfi.Types.{i80f48_one}
use sol_yield.Marginfi.Fixed.{fixed_mul_floor_to_u64}

-- The cross products of the whole and the fractional parts, in 2^-48ths.
abbrev pub cross_products : ℕ → ℕ → ℕ
cross_products l r = l / i80f48_one * (r % i80f48_one) + r / i80f48_one * (l % i80f48_one)

-- The product of the fractional parts, in 2^-96ths.
abbrev pub frac_product : ℕ → ℕ → ℕ
frac_product l r = l % i80f48_one * (r % i80f48_one)

-- What the parts that the code adds up come to.
abbrev pub summed_parts : ℕ → ℕ → ℕ
summed_parts l r = l / i80f48_one * (r / i80f48_one) + cross_products l r / i80f48_one

frac_lt : (a b : ℕ) → a < 2 ^ 48 → b < 2 ^ 48 → a * b < 2 ^ 96
frac_lt a b h k = grind arith

frac_product_lt : (l r : ℕ) → frac_product l r < 2 ^ 96
frac_product_lt l r =
    let a : l % 2 ^ 48 < 2 ^ 48 = omega arith in
    let b : r % 2 ^ 48 < 2 ^ 48 = omega arith in frac_lt (l % 2 ^ 48) (r % 2 ^ 48) a b

product_parts :
    (lw lf rw rf : ℕ)
    → (lw * 2 ^ 48 + lf) * (rw * 2 ^ 48 + rf)
      ≡ lw * rw * 2 ^ 96 + (lw * rf + rw * lf) * 2 ^ 48 + lf * rf
product_parts lw lf rw rf = omega arith

pub fixed_mul_floor_to_u64_iff :
    (l r v : ℕ) → (fixed_mul_floor_to_u64 l r ≡ ok v) ↔ (IsU64 v × (v ≡ summed_parts l r))
unfolding fixed_mul_floor_to_u64
fixed_mul_floor_to_u64_iff l r v =
    (λ found. ground (arith, frac_product_lt l r), λ spec. ground (arith, frac_product_lt l r))

-- What the fractions of the parts add up to, in whole units: the code leaves it out.
abbrev pub carry : ℕ → ℕ → ℕ
carry l r = (cross_products l r % 2 ^ 48 + frac_product l r / 2 ^ 48) / 2 ^ 48

-- The product rounded down is the summed parts and the carry.
product-carry : (l r : ℕ) → l * r / 2 ^ 96 ≡ summed_parts l r + carry l r
product-carry l r =
    let parts = product_parts (l / 2 ^ 48) (l % 2 ^ 48) (r / 2 ^ 48) (r % 2 ^ 48) in
    let left : l / 2 ^ 48 * 2 ^ 48 + l % 2 ^ 48 ≡ l = omega arith in
    let right : r / 2 ^ 48 * 2 ^ 48 + r % 2 ^ 48 ≡ r = omega arith in
    omega (arith, rw (left, right) at parts)

-- A product that is given is the exact one rounded down or one less; it is the exact one rounded
-- down exactly when the carry is zero.
pub fixed_mul_floor_to_u64_near :
    (l r v : ℕ)
    → fixed_mul_floor_to_u64 l r ≡ ok v
    → (v ≤ l * r / 2 ^ 96) × (l * r / 2 ^ 96 ≤ v + 1) × ((l * r / 2 ^ 96 ≡ v) ↔ (carry l r ≡ 0))
fixed_mul_floor_to_u64_near l r v found =
    let is : v ≡ summed_parts l r = ((fixed_mul_floor_to_u64_iff l r v).0 found).1 in
    let whole = product-carry l r in
    let small : carry l r < 2 = omega (arith, frac_product_lt l r) in
    (
      omega (arith, is, whole),
      omega (arith, is, whole, small),
      (λ same. omega (arith, is, whole), λ none_left. omega (arith, is, whole)),
    )

-- Whenever the exact product rounded down is a u64, a product is given.
pub fixed_mul_floor_to_u64_total :
    (l r : ℕ) → IsU64 (l * r / 2 ^ 96) → (v : ℕ) × (fixed_mul_floor_to_u64 l r ≡ ok v)
fixed_mul_floor_to_u64_total l r h = (
  summed_parts l r,
  (fixed_mul_floor_to_u64_iff l r (summed_parts l r)).1 (omega (arith, product-carry l r), refl),
)
