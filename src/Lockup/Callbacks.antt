-- ===== src/Lockup/Callbacks.antt =====
-- The callbacks (lockup-contract/src/owner_callbacks.rs). A `#[callback]` argument is the value of the
-- promise before it, and the call panics if that promise failed.
use house_of_stake_contracts.Base.{
  ltb, if◌then◌else◌, Result, ok, ◌>>=◌, ◌>>◌, require, expect, u128_add, ℕ, ◌-◌, Bool, Option,
  some, List, [], ◌∷◌, callback_failed, unwrap_none, not_whitelisted,
}
use house_of_stake_contracts.Lockup.Contract.{
  unstakes_all, gets_total_balance, gets_unstaked_balance, deposits_and_stakes, stakes, unstakes,
  LockupContract, Env, set_staking_pool_status, Promise, PoolCall, calls_pool, assert_private, idle,
  withdraws, assert_staking_pool_is_not_selected, deposits,
}
use house_of_stake_contracts.Common.Account.{AccountId}

unfoldable pub on_whitelist_is_whitelisted :
    Env → LockupContract → Option Bool → AccountId → Result LockupContract
on_whitelist_is_whitelisted env c answer pool = do
  assert_private env
  is_whitelisted ← expect answer callback_failed
  require is_whitelisted not_whitelisted
  assert_staking_pool_is_not_selected c
  ok (record c {
    staking_information =
        some (record { staking_pool_account_id = pool; status = idle; deposit_amount = 0 });
  })

-- The deposit that is known, changed.
unfoldable pub set_deposit : (ℕ → Result ℕ) → LockupContract → Result LockupContract
set_deposit change c = do
  info ← expect c.staking_information unwrap_none
  amount ← change info.deposit_amount
  ok (record c { staking_information = some (record info { deposit_amount = amount }) })

-- `on_staking_pool_deposit_inner`, and the body of `on_staking_pool_deposit_and_stake`.
unfoldable pub on_staking_pool_deposit_inner : ℕ → Bool → LockupContract → Result LockupContract
on_staking_pool_deposit_inner amount succeeded c = do
  d ← set_staking_pool_status idle c
  if succeeded then set_deposit (λ known. u128_add known amount) d else ok d

-- `on_staking_pool_stake_inner`, `on_staking_pool_unstake_inner` and `on_staking_pool_unstake_all`
-- only log whether the pool succeeded.
unfoldable pub on_staking_pool_stake_inner : LockupContract → Result LockupContract
on_staking_pool_stake_inner c = set_staking_pool_status idle c

-- `on_staking_pool_withdraw_inner`: with rewards, more than the known deposit may come back.
unfoldable pub on_staking_pool_withdraw_inner : ℕ → Bool → LockupContract → Result LockupContract
on_staking_pool_withdraw_inner amount succeeded c = do
  d ← set_staking_pool_status idle c
  if succeeded then set_deposit (λ known. ok (known - amount)) d else ok d

unfoldable pub on_get_account_total_balance : Option ℕ → LockupContract → Result LockupContract
on_get_account_total_balance answer c = do
  total_balance ← expect answer callback_failed
  d ← set_staking_pool_status idle c
  set_deposit (λ known. ok total_balance) d

-- `on_get_account_unstaked_balance_to_withdraw_by_owner`
unfoldable pub on_get_account_unstaked_balance :
    Option ℕ → LockupContract → Result (LockupContract × List Promise)
on_get_account_unstaked_balance answer c = do
  unstaked_balance ← expect answer callback_failed
  if ltb 0 unstaked_balance
      then (do
        info ← expect c.staking_information unwrap_none
        ok (c, calls_pool info.staking_pool_account_id (withdraws unstaked_balance) ∷ []))
      else (do d ← set_staking_pool_status idle c; ok (d, []))

-- The callback for a method of the pool, given whether it succeeded and the value that it returned.
unfoldable pub pool_callback :
    Env → LockupContract → PoolCall → Option ℕ → Result (LockupContract × List Promise)
pool_callback env c (deposits amount) value =
    on_staking_pool_deposit_inner amount env.promise_succeeded c >>= λ d. ok (d, [])
pool_callback env c (deposits_and_stakes amount) value =
    on_staking_pool_deposit_inner amount env.promise_succeeded c >>= λ d. ok (d, [])
pool_callback env c (withdraws amount) value =
    on_staking_pool_withdraw_inner amount env.promise_succeeded c >>= λ d. ok (d, [])
pool_callback env c (stakes amount) value = on_staking_pool_stake_inner c >>= λ d. ok (d, [])
pool_callback env c (unstakes amount) value = on_staking_pool_stake_inner c >>= λ d. ok (d, [])
pool_callback env c unstakes_all value = on_staking_pool_stake_inner c >>= λ d. ok (d, [])
pool_callback env c gets_total_balance value =
    on_get_account_total_balance value c >>= λ d. ok (d, [])
pool_callback env c gets_unstaked_balance value = on_get_account_unstaked_balance value c

unfoldable pub after_pool_call :
    Env → LockupContract → PoolCall → Option ℕ → Result (LockupContract × List Promise)
after_pool_call env c call value = assert_private env >> pool_callback env c call value
