-- ===== src/Lockup/Locking.antt =====
-- Locking NEAR for veNEAR, and unlocking it (lockup-contract/src/venear.rs).
use house_of_stake_contracts.Base.{
  leb, Result, ok, ◌>>=◌, ◌>>◌, require, u64_add, u128_add, ℕ, ◌-◌, Option, none, some, List, [],
  ◌∷◌, invalid_amount, unwrap_or, checked_sub_or, illegal_balance, invalid_unlock_time,
}
use house_of_stake_contracts.Lockup.Contract.{
  LockupContract, Env, assert_owner, Promise, get_known_deposited_balance, assert_one_yocto,
  updates_venear,
}
use house_of_stake_contracts.Venear.Lockup.{LockupUpdateV1}

unfoldable pub venear_liquid_balance : Env → LockupContract → Result ℕ
venear_liquid_balance env c = do
  total ← u128_add env.account_balance (get_known_deposited_balance c)
  unlocked ← checked_sub_or illegal_balance total c.venear_locked_balance
  checked_sub_or illegal_balance unlocked c.venear_pending_balance

unfoldable pub set_venear_unlock_timestamp : Env → LockupContract → Result LockupContract
set_venear_unlock_timestamp env c = do
  time ← u64_add env.block_timestamp c.unlock_duration_ns
  ok (record c { venear_unlock_timestamp = time })

unfoldable pub venear_lockup_update : Env → LockupContract → Result (LockupContract × List Promise)
venear_lockup_update env c = do
  nonce ← u64_add c.lockup_update_nonce 1
  let update : LockupUpdateV1 = record {
    locked_near_balance = c.venear_locked_balance;
    timestamp = env.block_timestamp;
    lockup_update_nonce = nonce;
  }
  ok (
    record c { lockup_update_nonce = nonce },
    updates_venear c.venear_account_id c.version c.owner_account_id update ∷ [],
  )

-- The checks that every method here starts with.
abbrev pub assert_owner_call : Env → LockupContract → Result (Unit {0})
assert_owner_call env c = assert_owner env c >> assert_one_yocto env

unfoldable pub lock_near : Env → LockupContract → Option ℕ → Result (LockupContract × List Promise)
lock_near env c requested = do
  assert_owner_call env c
  amount ← elim requested [ none ↦ venear_liquid_balance env c | some a ↦ ok a ]
  liquid ← venear_liquid_balance env c
  require (leb amount liquid) invalid_amount
  locked ← u128_add c.venear_locked_balance amount
  venear_lockup_update env (record c { venear_locked_balance = locked })

unfoldable pub begin_unlock_near :
    Env → LockupContract → Option ℕ → Result (LockupContract × List Promise)
begin_unlock_near env c requested = do
  assert_owner_call env c
  let amount = unwrap_or c.venear_locked_balance requested
  require (leb amount c.venear_locked_balance) invalid_amount
  pending ← u128_add c.venear_pending_balance amount
  d ← set_venear_unlock_timestamp env (record c {
    venear_locked_balance = c.venear_locked_balance - amount;
    venear_pending_balance = pending;
  })
  venear_lockup_update env d

unfoldable pub end_unlock_near :
    Env → LockupContract → Option ℕ → Result (LockupContract × List Promise)
end_unlock_near env c requested = do
  assert_owner_call env c
  let amount = unwrap_or c.venear_pending_balance requested
  require (leb amount c.venear_pending_balance) invalid_amount
  require (leb c.venear_unlock_timestamp env.block_timestamp) invalid_unlock_time
  venear_lockup_update env (record c { venear_pending_balance = c.venear_pending_balance - amount })

unfoldable pub lock_pending_near :
    Env → LockupContract → Option ℕ → Result (LockupContract × List Promise)
lock_pending_near env c requested = do
  assert_owner_call env c
  let amount = unwrap_or c.venear_pending_balance requested
  require (leb amount c.venear_pending_balance) invalid_amount
  locked ← u128_add c.venear_locked_balance amount
  venear_lockup_update env (record c {
    venear_pending_balance = c.venear_pending_balance - amount;
    venear_locked_balance = locked;
  })
