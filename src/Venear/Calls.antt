-- ===== src/Venear/Calls.antt =====
-- The entry points of the veNEAR contract as one type of calls, and what each does to the state.
use house_of_stake_contracts.Base.{Result, ok, ◌>>=◌, ℕ, Option, List}
use house_of_stake_contracts.Venear.Contract.{Contract, Env, OnLockupDeployedArgs, LockupCode}
use house_of_stake_contracts.Common.Account.{VAccount, AccountId, DelegationEntry}
use house_of_stake_contracts.Merkle.{CryptoHash}
use house_of_stake_contracts.Venear.Lockup.{
  VLockupUpdate, on_lockup_update, deploy_lockup, on_lockup_deployed, prepare_lockup_code,
}
use house_of_stake_contracts.Venear.Accounts.{storage_deposit}
use house_of_stake_contracts.Venear.Delegations.{set_delegations}
use house_of_stake_contracts.Venear.Governance.{
  Setting, set_lockup_contract, owner_sets, accept_ownership, pause, unpause,
}

pub data Call : Type 0 where
  deposits_storage : Option AccountId → Call
  delegates : List DelegationEntry → Call
  updates_lockup : ℕ → AccountId → VLockupUpdate → Call
  deploys_lockup : Call
  finishes_deployment : OnLockupDeployedArgs → Call
  prepares_lockup_code : LockupCode → Call
  sets_lockup_contract : CryptoHash → ℕ → Call
  configures : Setting → Call
  accepts_ownership pauses unpauses : Call

module _ (hash_value : VAccount → CryptoHash) (hash_pair : CryptoHash → CryptoHash → CryptoHash)
    (get_lockup_account_id : AccountId → AccountId) where
  -- The state after a call that returns.
  unfoldable pub perform : Env → Contract → Call → Result Contract
  perform env c (deposits_storage a) = do ok ((← storage_deposit hash_value hash_pair env c a).0)
  perform env c (delegates entries) = do
    ok ((← set_delegations hash_value hash_pair env c entries).0)
  perform env c (updates_lockup version owner update) =
      on_lockup_update hash_value hash_pair get_lockup_account_id env c version owner update
  perform env c deploys_lockup = do ok ((← deploy_lockup get_lockup_account_id env c).0)
  perform env c (finishes_deployment args) = do
    ok ((← on_lockup_deployed get_lockup_account_id env c args).0)
  perform env c (prepares_lockup_code code) = do ok ((← prepare_lockup_code env c code).0)
  perform env c (sets_lockup_contract hash deposit) = set_lockup_contract env c hash deposit
  perform env c (configures setting) = owner_sets env c setting
  perform env c accepts_ownership = accept_ownership env c
  perform env c pauses = pause env c
  perform env c unpauses = unpause env c
