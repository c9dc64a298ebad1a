-- ===== src/Lockup/Owner.antt =====
-- The owner's methods (lockup-contract/src/owner.rs). Whether an account id is well formed is the
-- runtime's and a parameter.
use house_of_stake_contracts.Base.{
  leb, ltb, ◌==◌, Result, ok, ◌>>=◌, ◌>>◌, require, ℕ, Bool, none, List, [], ◌∷◌,
  amount_not_positive, invalid_account_id, insufficient_balance, deposit_left, locked_left,
  pending_left,
}
use house_of_stake_contracts.Lockup.Contract.{
  LockupContract, Env, StakingInformation, Promise, get_account_balance, unstakes,
  assert_no_staking_or_idle, idle_pool, gets_total_balance, stakes, unstakes_all, PoolCall,
  withdraws, gets_unstaked_balance, get_known_deposited_balance, set_staking_pool_status,
  assert_staking_pool_is_not_selected, is_busy, deposits, checks_whitelist, deposits_and_stakes,
  calls_pool, transfers, deletes_account,
}
use house_of_stake_contracts.Common.Account.{AccountId}
use house_of_stake_contracts.Lockup.Locking.{assert_owner_call, venear_liquid_balance}

-- What the methods that call the staking pool have in common: the pool is idle, and is busy from now on.
unfoldable pub start_pool_call :
    LockupContract → (StakingInformation → Result PoolCall) → Result (LockupContract × List Promise)
start_pool_call c check = do
  info ← idle_pool c
  call ← check info
  d ← set_staking_pool_status is_busy c
  ok (d, calls_pool info.staking_pool_account_id call ∷ [])

abbrev pub assert_positive : ℕ → Result (Unit {0})
assert_positive amount = require (ltb 0 amount) amount_not_positive

module _ (is_valid_account_id : AccountId → Bool) where
  unfoldable pub select_staking_pool :
      Env → LockupContract → AccountId → Result (LockupContract × List Promise)
  select_staking_pool env c pool = do
    assert_owner_call env c
    require (is_valid_account_id pool) invalid_account_id
    assert_staking_pool_is_not_selected c
    ok (c, checks_whitelist c.staking_pool_whitelist_account_id pool ∷ [])

  unfoldable pub transfer :
      Env → LockupContract → ℕ → AccountId → Result (LockupContract × List Promise)
  transfer env c amount receiver = do
    assert_owner_call env c
    assert_positive amount
    require (is_valid_account_id receiver) invalid_account_id
    assert_no_staking_or_idle c
    require (leb amount (get_account_balance env c)) insufficient_balance
    liquid ← venear_liquid_balance env c
    require (leb amount liquid) insufficient_balance
    ok (c, transfers receiver amount ∷ [])

unfoldable pub unselect_staking_pool : Env → LockupContract → Result LockupContract
unselect_staking_pool env c = do
  assert_owner_call env c
  info ← idle_pool c
  require (info.deposit_amount == 0) deposit_left
  ok (record c { staking_information = none })

unfoldable pub deposit_to_staking_pool :
    Env → LockupContract → ℕ → Result (LockupContract × List Promise)
deposit_to_staking_pool env c amount = do
  assert_owner_call env c
  assert_positive amount
  start_pool_call c λ info. do
    require (leb amount (get_account_balance env c)) insufficient_balance
    ok (deposits amount)

unfoldable pub deposit_and_stake : Env → LockupContract → ℕ → Result (LockupContract × List Promise)
deposit_and_stake env c amount = do
  assert_owner_call env c
  assert_positive amount
  start_pool_call c λ info. do
    require (leb amount (get_account_balance env c)) insufficient_balance
    ok (deposits_and_stakes amount)

unfoldable pub refresh_staking_pool_balance :
    Env → LockupContract → Result (LockupContract × List Promise)
refresh_staking_pool_balance env c = do
  assert_owner_call env c
  start_pool_call c λ info. ok gets_total_balance

unfoldable pub withdraw_from_staking_pool :
    Env → LockupContract → ℕ → Result (LockupContract × List Promise)
withdraw_from_staking_pool env c amount = do
  assert_owner_call env c
  assert_positive amount
  start_pool_call c λ info. ok (withdraws amount)

unfoldable pub withdraw_all_from_staking_pool :
    Env → LockupContract → Result (LockupContract × List Promise)
withdraw_all_from_staking_pool env c = do
  assert_owner_call env c
  start_pool_call c λ info. ok gets_unstaked_balance

unfoldable pub stake : Env → LockupContract → ℕ → Result (LockupContract × List Promise)
stake env c amount = do
  assert_owner_call env c
  assert_positive amount
  start_pool_call c λ info. ok (stakes amount)

unfoldable pub unstake : Env → LockupContract → ℕ → Result (LockupContract × List Promise)
unstake env c amount = do
  assert_owner_call env c
  assert_positive amount
  start_pool_call c λ info. ok (unstakes amount)

unfoldable pub unstake_all : Env → LockupContract → Result (LockupContract × List Promise)
unstake_all env c = do assert_owner_call env c; start_pool_call c λ info. ok unstakes_all

unfoldable pub delete_lockup : Env → LockupContract → Result (LockupContract × List Promise)
delete_lockup env c = do
  assert_owner_call env c
  assert_no_staking_or_idle c
  require (get_known_deposited_balance c == 0) deposit_left
  require (c.venear_locked_balance == 0) locked_left
  require (c.venear_pending_balance == 0) pending_left
  ok (c, deletes_account c.owner_account_id ∷ [])
