-- ===== src/Staking/Withdraw.antt =====
-- Users take out what they have unstaked (staking-contract/src/withdraw.rs).
use house_of_stake_contracts.Base.{
  leb, ltb, if◌then◌else◌, Result, ok, ◌>>=◌, ◌>>◌, require, checked_sub, ℕ, List, [], ◌∷◌,
  balance_short, u128_saturating_add, nothing_claimable, bucket_short,
}
use house_of_stake_contracts.Common.Account.{AccountId}
use house_of_stake_contracts.Staking.Types.{PendingUnstakeTranche, Contract, Env}
use house_of_stake_contracts.Staking.Validators.{
  tranches_of, require_validator, set_user_pending_unstake_tranches, internal_set_validator,
}

-- `fold` with `saturating_add`.
unfoldable pub fold_tranches : ℕ → List PendingUnstakeTranche → ℕ
fold_tranches sum [] = sum
fold_tranches sum (t ∷ ts) = fold_tranches (u128_saturating_add sum t.amount) ts

unfoldable pub sum_user_unstake_tranches_yocto : Contract → AccountId → AccountId → ℕ
sum_user_unstake_tranches_yocto c account id = fold_tranches 0 (tranches_of c account id)

-- The tranches that can be claimed at an epoch, and those that are kept.
unfoldable pub claimable_at : ℕ → List PendingUnstakeTranche → List PendingUnstakeTranche
claimable_at epoch [] = []
claimable_at epoch (t ∷ ts) =
    if leb t.available_epoch_height epoch then t ∷ claimable_at epoch ts else claimable_at epoch ts

unfoldable pub retained_at : ℕ → List PendingUnstakeTranche → List PendingUnstakeTranche
retained_at epoch [] = []
retained_at epoch (t ∷ ts) =
    if ltb epoch t.available_epoch_height then t ∷ retained_at epoch ts else retained_at epoch ts

-- The sum is returned with the contract.
unfoldable pub remove_claimable_tranches :
    AccountId → AccountId → ℕ → Contract → Result (Contract × ℕ)
remove_claimable_tranches account id at_epoch c = do
  let ts = tranches_of c account id
  d ← set_user_pending_unstake_tranches account id (retained_at at_epoch ts) c
  ok (d, fold_tranches 0 (claimable_at at_epoch ts))

unfoldable pub claim_from_withdraw_bucket :
    Env → Contract → AccountId → AccountId → Result (Contract × ℕ)
claim_from_withdraw_bucket env c account id = do
  v ← require_validator c id
  require (ltb 0 v.pending_to_claim) nothing_claimable
  r ← remove_claimable_tranches account id env.epoch_height c
  require (ltb 0 (r.1)) nothing_claimable
  require (leb (r.1) v.pending_to_claim) bucket_short
  left ← checked_sub v.pending_to_claim (r.1)
  ok (internal_set_validator id (record v { pending_to_claim = left }) (r.0), r.1)

-- The amount is transferred to the account.
unfoldable pub payout_user_withdraw : Env → Contract → AccountId → AccountId → Result (Contract × ℕ)
payout_user_withdraw env c account id = do
  r ← claim_from_withdraw_bucket env c account id
  require (leb (r.1) env.account_balance) balance_short
  ok r
