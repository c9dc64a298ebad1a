-- ===== src/Staking/Price.antt =====
-- The price of a share (staking-contract/src/utils.rs, validators.rs): nobody gains by rounding.
use house_of_stake_contracts.Base.{
  ok, u128_max, ℕ, ◌+◌, ◌-◌, ◌*◌, ◌/◌, ◌≤◌, ◌<◌, ◌≡◌, sym, subst, ◌⊎◌, inl, inr, arith,
  u128_saturating_add,
}
use native.Mathlib.Nat.{div-mul-le_self, div-le_of_le-mul}
use house_of_stake_contracts.Staking.Shares.{mint_shares, near_from_shares}
use house_of_stake_contracts.Staking.Types.{
  Validator, net_stake_yocto, gross_stake_yocto, pending_not_in_contract_yocto,
}
use house_of_stake_contracts.Staking.Effects.{staked, unstaked}
use house_of_stake_contracts.Staking.Fractions.{burn-price, mint-price}

mint_shares-eq :
    (total net deposit s : ℕ)
    → 0 < total
    → 0 < net
    → mint_shares total net deposit ≡ ok s
    → s ≡ deposit * total / net
unfolding mint_shares
mint_shares-eq total net deposit s some_total some_net h = ground arith

-- A buyer pays for the shares at least their worth.
pub mint_shares-fair :
    (total net deposit s : ℕ)
    → 0 < total
    → 0 < net
    → mint_shares total net deposit ≡ ok s
    → s * net ≤ deposit * total
mint_shares-fair total net deposit s some_total some_net h =
    subst (λ x. x * net ≤ deposit * total)
      (sym (mint_shares-eq total net deposit s some_total some_net h))
      (div-mul-le_self (deposit * total) net)

near_from_shares-eq :
    (shares net total n : ℕ)
    → 0 < total
    → near_from_shares shares net total ≡ ok n
    → n ≡ shares * net / total
unfolding near_from_shares
near_from_shares-eq shares net total n some_total h = ground arith

-- A seller gets for the shares at most their worth.
pub near_from_shares-fair :
    (shares net total n : ℕ)
    → 0 < total
    → near_from_shares shares net total ≡ ok n
    → n * total ≤ shares * net
near_from_shares-fair shares net total n some_total h =
    subst (λ x. x * total ≤ shares * net)
      (sym (near_from_shares-eq shares net total n some_total h))
      (div-mul-le_self (shares * net) total)

pub near_from_shares-bound :
    (shares net total n k : ℕ)
    → 0 < total
    → shares * net ≤ k * total
    → near_from_shares shares net total ≡ ok n
    → n ≤ k
near_from_shares-bound shares net total n k some_total le h =
    subst (λ x. x ≤ k) (sym (near_from_shares-eq shares net total n some_total h))
      (div-le_of_le-mul total (omega (arith, le)))

-- How the price of a share compares, for validators with shares: no holder of `before` loses.
abbrev pub NoLoss : Validator → Validator → Type 0
NoLoss before after =
    net_stake_yocto before * after.total_shares ≤ net_stake_yocto after * before.total_shares

-- The sums of the buckets fit their type.
abbrev pub IsBounded : Validator → Type 0
IsBounded v =
    (v.total_staked_balance + v.pending_to_stake ≤ u128_max)
    × (v.pending_to_unstake + v.pending_to_withdraw + v.pending_to_claim ≤ u128_max)

pub net_stake-eq :
    (v : Validator)
    → IsBounded v
    → net_stake_yocto v
      ≡ v.total_staked_balance + v.pending_to_stake - (v.pending_to_unstake + v.pending_to_withdraw)
unfolding net_stake_yocto gross_stake_yocto pending_not_in_contract_yocto
net_stake-eq v fits = omega (arith, fits.0, fits.1)

-- The net stake that a deposit leaves.
staked-net :
    (v : Validator) (deposit s : ℕ)
    → IsBounded (staked v deposit s)
    → 0 < net_stake_yocto v
    → net_stake_yocto (staked v deposit s) ≡ net_stake_yocto v + deposit
staked-net v deposit s (gross, liability) some_net = omega (
  arith,
  net_stake-eq v (omega (arith, gross), liability),
  net_stake-eq (staked v deposit s) (gross, liability),
  some_net,
)

pub staked-NoLoss :
    (v : Validator) (deposit s : ℕ)
    → IsBounded (staked v deposit s)
    → 0 < v.total_shares
    → (v.total_shares ≡ 0) ⊎ (0 < net_stake_yocto v)
    → mint_shares v.total_shares (net_stake_yocto v) deposit ≡ ok s
    → NoLoss v (staked v deposit s)
staked-NoLoss v deposit s fits shares (inl empty) minted = absurd (omega (arith, shares, empty))
staked-NoLoss v deposit s fits shares (inr backed) minted =
    subst (λ x. net_stake_yocto v * u128_saturating_add v.total_shares s ≤ x * v.total_shares)
      (sym (staked-net v deposit s fits backed))
      (mint-price (net_stake_yocto v) v.total_shares deposit s _ (omega arith)
        (mint_shares-fair v.total_shares (net_stake_yocto v) deposit s shares backed minted))

pub unstaked-NoLoss :
    (v : Validator) (near s : ℕ)
    → IsBounded (unstaked v near s)
    → s ≤ v.total_shares
    → 0 < s
    → near_from_shares s (net_stake_yocto v) v.total_shares ≡ ok near
    → NoLoss v (unstaked v near s)
unstaked-NoLoss v near s (gross, liability) le some_shares priced =
    let was = net_stake-eq v (gross, omega (arith, liability)) in
    let is = net_stake-eq (unstaked v near s) (gross, liability) in
    let less : net_stake_yocto (unstaked v near s) ≡ net_stake_yocto v - near =
      omega (arith, was, is) in
    subst (λ x. net_stake_yocto v * (v.total_shares - s) ≤ x * v.total_shares) (sym less)
      (burn-price (net_stake_yocto v) v.total_shares near s le
        (near_from_shares-fair s (net_stake_yocto v) v.total_shares near (omega arith) priced))
