-- ===== src/Staking/Solvency/Claims.antt =====
-- Claiming takes out what is owed and no more (staking-contract/src/withdraw.rs).
use house_of_stake_contracts.Base.{
  if◌then◌else◌, leb→le, ok, checked_sub, Ensures, returns, Ensures-require, Ensures-bind,
  Ensures-then, ℕ, ◌+◌, ◌-◌, ◌≤◌, ◌≡◌, refl, ap, ◌∙◌, none, some, List, [], ◌∷◌, arith,
  u128_saturating_add, validator_not_found,
}
use house_of_stake_contracts.Common.Account.{AccountId}
use house_of_stake_contracts.Staking.Withdraw.{
  fold_tranches, payout_user_withdraw, retained_at, claimable_at, claim_from_withdraw_bucket,
  remove_claimable_tranches,
}
use house_of_stake_contracts.Staking.Types.{PendingUnstakeTranche, Env, Contract, Validator, put}
use house_of_stake_contracts.Staking.Solvency.Shares.{
  total_of, owed_in, IsSolvent, measured, same_measure, shares_in,
}
use house_of_stake_contracts.Staking.Validators.{has_any, tranches_of}
use house_of_stake_contracts.Staking.Effects.{expect-eq, set_tranches-eq}
use house_of_stake_contracts.Merkle.Tree.{insert}
use house_of_stake_contracts.Staking.Solvency.{liability_at, issued_at}

fold_tranches-bound :
    (sum : ℕ) (ts : List PendingUnstakeTranche) → fold_tranches sum ts ≤ sum + total_of ts
unfolding fold_tranches
fold_tranches-bound sum [] = omega arith
fold_tranches-bound sum (t ∷ ts) =
    let rest = fold_tranches-bound (u128_saturating_add sum t.amount) ts in omega (arith, rest)

retained-claimable :
    (epoch : ℕ) (ts : List PendingUnstakeTranche)
    → total_of (retained_at epoch ts) + total_of (claimable_at epoch ts) ≡ total_of ts
unfolding retained_at claimable_at
retained-claimable epoch [] = refl
retained-claimable epoch (t ∷ ts) = let rest = retained-claimable epoch ts in ground (arith, rest)

total_of-set :
    (ts : List PendingUnstakeTranche) → owed_in (if has_any ts then some ts else none) ≡ total_of ts
total_of-set [] = refl
total_of-set (t ∷ ts) = refl

pub record Claimed (env : Env) (c : Contract) (account id : AccountId) (r : Contract × ℕ)
    : Type 0 where
  pub before : Validator
  pub found : c.validators id ≡ some before
  pub credit_is : r.1 ≡ fold_tranches 0 (claimable_at env.epoch_height (tranches_of c account id))
  pub covered : r.1 ≤ before.pending_to_claim
  pub validators_are :
      (r.0).validators
      ≡ insert c.validators id (record before { pending_to_claim = before.pending_to_claim - r.1 })
  pub tranches_are :
      (r.0).user_pending_unstake
      ≡ put c.user_pending_unstake account id (
          if has_any (retained_at env.epoch_height (tranches_of c account id))
          then some (retained_at env.epoch_height (tranches_of c account id))
          else none)
  pub shares_are : (r.0).user_validator_shares ≡ c.user_validator_shares

sub-eq : (a b n : ℕ) → checked_sub a b ≡ ok n → n ≡ a - b
sub-eq a b n h = ground arith

pub payout_user_withdraw-Claimed :
    (env : Env) (c : Contract) (account id : AccountId)
    → Ensures (Claimed env c account id) (payout_user_withdraw env c account id)
unfolding payout_user_withdraw claim_from_withdraw_bucket remove_claimable_tranches
payout_user_withdraw-Claimed env c account id =
    Ensures-bind {Q = Claimed env c account id} _ _
      (Ensures-bind _ _ (expect-eq _ validator_not_found) λ v h1 found. Ensures-then _ _ λ _ h2.
        Ensures-bind
          {Q = λ r.
            (r.1 ≡ fold_tranches 0 (claimable_at env.epoch_height (tranches_of c account id)))
            × ((r.0).user_pending_unstake
                ≡ put c.user_pending_unstake account id (
                    if has_any (retained_at env.epoch_height (tranches_of c account id))
                    then some (retained_at env.epoch_height (tranches_of c account id))
                    else none))
            × ((r.0).user_validator_shares ≡ c.user_validator_shares)
            × ((r.0).validators ≡ c.validators)}
          _ _
          (Ensures-bind _ _ (set_tranches-eq account id _ c)
            λ d h3 (ts, ss, vs). returns _ (refl, ts, ss, vs))
          λ r h4 (credit, ts, ss, vs). Ensures-then _ _ λ _ h5. Ensures-require _ _ _ λ h6.
            Ensures-then _ _ λ left h7. returns _ (record {
              before = v;
              found = found;
              credit_is = credit;
              covered = leb→le _ _ h6;
              validators_are =
                  ap (λ n. insert (r.0).validators id (record v { pending_to_claim = n }))
                    (sub-eq v.pending_to_claim (r.1) left h7)
                  ∙ ap (λ m. insert m id (record v { pending_to_claim = v.pending_to_claim - r.1 }))
                      vs;
              tranches_are = ts;
              shares_are = ss;
            }))
      λ r h claimed. Ensures-then _ _ λ _ h8. returns _ claimed

pub Claimed-IsSolvent :
    (env : Env) (c : Contract) (account id : AccountId) (r : Contract × ℕ)
    → IsSolvent c
    → Claimed env c account id r
    → IsSolvent (r.0)
Claimed-IsSolvent env c account id r (owes, holds) s =
    let v = s.before in
    let w : Validator = record v { pending_to_claim = v.pending_to_claim - r.1 } in
    let ts = tranches_of c account id in
    let kept = retained_at env.epoch_height ts in
    let all = retained-claimable env.epoch_height ts in
    let less = fold_tranches-bound 0 (claimable_at env.epoch_height ts) in
    (
      measured owed_in liability_at c.user_pending_unstake (r.0).user_pending_unstake c.validators
          (r.0).validators account id _ v w owes s.tranches_are s.validators_are s.found
          (omega (arith, total_of-set kept, all, less, s.credit_is, s.covered)),
      same_measure shares_in issued_at c.user_validator_shares (r.0).user_validator_shares
          c.validators (r.0).validators id v w holds s.shares_are s.validators_are s.found
          (omega arith),
    )
