-- ===== src/Staking/Fractions.antt =====
-- Inequalities between products, for the prices of shares.
use house_of_stake_contracts.Base.{ℕ, ◌+◌, ◌-◌, ◌*◌, ◌≤◌, ◌≡◌, arith}
use native.Mathlib.Nat.{mul-le-mul_left, mul-sub, mul_comm}

-- The price n / t does not fall when d is paid for s shares of less worth.
pub mint-price : (n t d s m : ℕ) → m ≤ t + s → s * n ≤ d * t → n * m ≤ (n + d) * t
mint-price n t d s m le fair =
    let grown : n * m ≤ n * (t + s) = mul-le-mul_left n le in omega (arith, grown, fair)

-- Nor when p is paid out for s of the t shares, of more worth.
pub burn-price : (n t p s : ℕ) → s ≤ t → p * t ≤ s * n → n * (t - s) ≤ (n - p) * t
burn-price n t p s le fair =
    let rest : t * (n - p) ≡ (n - p) * t = mul_comm t (n - p) in
    omega (arith, mul-sub n t s, mul-sub t n p, rest, fair)

-- What is bought and sold again gives back no more than was paid.
pub round-trip : (n t d s m : ℕ) → m ≤ n + d → s * n ≤ d * t → s * m ≤ d * (t + s)
round-trip n t d s m le fair =
    let grown : s * m ≤ s * (n + d) = mul-le-mul_left s le in omega (arith, grown, fair)
