-- ===== src/Lockup/Calls.antt =====
-- The entry points of a lockup contract as one type of calls, and what each does.
use house_of_stake_contracts.Base.{refl, Result, ok, ◌>>=◌, ℕ, Bool, Option, List, [], ◌≡◌}
use house_of_stake_contracts.Common.Account.{AccountId}
use house_of_stake_contracts.Lockup.Contract.{LockupContract, Promise, Env, PoolCall}
use house_of_stake_contracts.Lockup.Owner.{
  select_staking_pool, unselect_staking_pool, refresh_staking_pool_balance,
  withdraw_all_from_staking_pool, unstake_all, delete_lockup, deposit_to_staking_pool,
  deposit_and_stake, withdraw_from_staking_pool, stake, unstake, transfer,
}
use house_of_stake_contracts.Lockup.Locking.{
  lock_near, begin_unlock_near, end_unlock_near, lock_pending_near,
}
use house_of_stake_contracts.Lockup.Callbacks.{on_whitelist_is_whitelisted, after_pool_call}

-- The four methods of venear.rs.
pub data Locking : Type 0 where
  locks begins_unlock ends_unlock locks_pending : Locking

pub data Call : Type 0 where
  changes_lock : Locking → Option ℕ → Call
  selects : AccountId → Call
  unselects refreshes withdraws_everything unstakes_everything deletes : Call
  deposits_to deposits_to_stake withdraws_from stakes_in unstakes_in : ℕ → Call
  sends : ℕ → AccountId → Call
  -- The callbacks.
  hears_whitelist : Option Bool → AccountId → Call
  hears_pool : PoolCall → Option ℕ → Call

unfoldable pub change_lock :
    Locking → Env → LockupContract → Option ℕ → Result (LockupContract × List Promise)
change_lock locks = lock_near
change_lock begins_unlock = begin_unlock_near
change_lock ends_unlock = end_unlock_near
change_lock locks_pending = lock_pending_near

-- An entry point that creates no promise.
abbrev pub alone : Result LockupContract → Result (LockupContract × List Promise)
alone m = m >>= λ d. ok (d, [])

unfoldable pub perform :
    (AccountId → Bool) → Env → LockupContract → Call → Result (LockupContract × List Promise)
perform is_valid env c (changes_lock method amount) = change_lock method env c amount
perform is_valid env c (selects pool) = select_staking_pool is_valid env c pool
perform is_valid env c unselects = alone (unselect_staking_pool env c)
perform is_valid env c refreshes = refresh_staking_pool_balance env c
perform is_valid env c withdraws_everything = withdraw_all_from_staking_pool env c
perform is_valid env c unstakes_everything = unstake_all env c
perform is_valid env c deletes = delete_lockup env c
perform is_valid env c (deposits_to amount) = deposit_to_staking_pool env c amount
perform is_valid env c (deposits_to_stake amount) = deposit_and_stake env c amount
perform is_valid env c (withdraws_from amount) = withdraw_from_staking_pool env c amount
perform is_valid env c (stakes_in amount) = stake env c amount
perform is_valid env c (unstakes_in amount) = unstake env c amount
perform is_valid env c (sends amount receiver) = transfer is_valid env c amount receiver
perform is_valid env c (hears_whitelist answer pool) =
    alone (on_whitelist_is_whitelisted env c answer pool)
perform is_valid env c (hears_pool call value) = after_pool_call env c call value

-- The state after a call that returns.
abbrev pub new_state : (AccountId → Bool) → Env → LockupContract → Call → Result LockupContract
new_state is_valid env c call = perform is_valid env c call >>= λ r. ok (r.0)

pub perform-change_lock :
    (is_valid : AccountId → Bool) (env : Env) (c : LockupContract) (method : Locking)
    (amount : Option ℕ)
    → change_lock method env c amount ≡ perform is_valid env c (changes_lock method amount)
unfolding perform
perform-change_lock is_valid env c method amount = refl
