-- ===== src/Staking/Calls.antt =====
-- What can happen to a pool of the staking contract, as one type of calls. What the user has asked for is
-- any type.
use house_of_stake_contracts.Base.{Result, ok, ◌>>=◌, ℕ, Bool, Option}
use house_of_stake_contracts.Common.Account.{AccountId}
use house_of_stake_contracts.Staking.Types.{Env, PoolAccountView, Contract}
use house_of_stake_contracts.Staking.Validators.{
  internal_stake, internal_unstake, add_validator, pause_validator, remove_validator,
}
use house_of_stake_contracts.Staking.Withdraw.{payout_user_withdraw}
use house_of_stake_contracts.Staking.Epoch.{
  start_settlement, on_epoch_settlement_after_pool_account, on_epoch_withdraw_transfer_done,
  on_after_pool_withdraw_maybe_settle, on_deposit_and_stake, on_unstake,
  on_epoch_pipeline_terminal_release,
}

pub data Call (UserAction : Type 0) : Type 0 where
  -- The tails of the users' actions.
  buys_shares : (buyer : AccountId) (deposit : ℕ) → Call UserAction
  sells_shares : (account : AccountId) (shares : ℕ) → Call UserAction
  claims : (account : AccountId) → Call UserAction
  -- The pipeline.
  starts : UserAction → Call UserAction
  reads_account : Option PoolAccountView → UserAction → Call UserAction
  fetched : (withdrawn : ℕ) → Call UserAction
  resumes : Option Bool → UserAction → Call UserAction
  staked_net unstaked_net is_released : Call UserAction
  -- The owner's calls.
  adds pauses removes : Call UserAction

module _ {UserAction : Type 0} (payable_refund : UserAction → Option (AccountId × ℕ)) where
  abbrev state_of {ℓ} : {B : Type ℓ} → Result (Contract × B) → Result Contract
  state_of m = m >>= λ r. ok (r.0)

  -- The state after a call for a pool that returns.
  unfoldable pub perform : Env → Contract → AccountId × Call UserAction → Result Contract
  perform env c (id, buys_shares buyer deposit) = state_of (internal_stake c buyer id deposit)
  perform env c (id, sells_shares account shares) =
      state_of (internal_unstake env c account id shares)
  perform env c (id, claims account) = state_of (payout_user_withdraw env c account id)
  perform env c (id, starts cont) = state_of (start_settlement env c id cont)
  perform env c (id, reads_account answer cont) =
      state_of (on_epoch_settlement_after_pool_account payable_refund env c answer id cont)
  perform env c (id, fetched withdrawn) = on_epoch_withdraw_transfer_done env c id withdrawn
  perform env c (id, resumes answer cont) =
      state_of (on_after_pool_withdraw_maybe_settle env c answer id cont)
  perform env c (id, staked_net) = on_deposit_and_stake env c id
  perform env c (id, unstaked_net) = on_unstake env c id
  perform env c (id, is_released) = on_epoch_pipeline_terminal_release env c id
  perform env c (id, adds) = add_validator env c id
  perform env c (id, pauses) = pause_validator env c id
  perform env c (id, removes) = remove_validator env c id
