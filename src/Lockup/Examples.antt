-- ===== src/Lockup/Examples.antt =====
-- The theorems about the lockup contract on concrete contracts.
use house_of_stake_contracts.Base.{
  ok, panic, ◌>>=◌, require, expect, ℕ, ◌≤◌, ◌≡◌, refl, inl, Bool, true, none, some, List, [], ◌∷◌,
  arith, callback_failed, run, Ensures, ◌*◌, ◌+◌,
}
use house_of_stake_contracts.Common.Account.{AccountId}
use house_of_stake_contracts.Lockup.Contract.{
  LockupContract, gets_total_balance, TransactionStatus, Promise, Env, idle, is_busy, deposits,
  idle_pool, calls_pool, set_staking_pool_status,
}
use house_of_stake_contracts.Lockup.Calls.{
  Call, refreshes, begins_unlock, perform, change_lock, changes_lock, Locking, new_state,
  deposits_to,
}
use house_of_stake_contracts.Lockup.Ledger.{ledger, Ledger, Move, books}
use house_of_stake_contracts.Lockup.Owner.{
  refresh_staking_pool_balance, start_pool_call, deposit_to_staking_pool,
}
use house_of_stake_contracts.Lockup.Exclusive.{IsExclusive, Steps-IsExclusive}
use house_of_stake_contracts.Lockup.Stuck.{needs_idle, failed_view-IsBusy}
use house_of_stake_contracts.Lockup.World.{pool_calls, World, Steps, further, here, IsBusy, outside}
use house_of_stake_contracts.Lockup.Release.{held, held-run}
use house_of_stake_contracts.Lockup.Effects.{sent}
use house_of_stake_contracts.Lockup.Locking.{
  venear_liquid_balance, begin_unlock_near, set_venear_unlock_timestamp, venear_lockup_update,
}
use house_of_stake_contracts.Lockup.Callbacks.{after_pool_call}
use house_of_stake_contracts.Lockup.Refinement.{change_lock-Move}
use house_of_stake_contracts.Lockup.Progress.{SettlesSoon, Returns, answers-SettlesSoon}
use house_of_stake_contracts.Venear.Examples.{
  call_by, one_near, sample_hash, sample_pair, lockup_of, sample_run, sample_run-IsAccounted,
}
use house_of_stake_contracts.Common.Examples.{day, sample_rate}
use house_of_stake_contracts.Lockup.Delivery.{Agrees, deliver, change_lock-deliver}

abbrev any_id : AccountId → Bool
any_id a = true

-- A contract with the account 5, of the owner 1, with the pool 4 selected.
abbrev with_pool : TransactionStatus → ℕ → LockupContract
with_pool status deposit = record {
  owner_account_id = 1;
  venear_account_id = 2;
  staking_pool_whitelist_account_id = 3;
  staking_information =
      some (record { staking_pool_account_id = 4; status = status; deposit_amount = deposit });
  unlock_duration_ns = 50;
  venear_locked_balance = 30;
  venear_unlock_timestamp = 0;
  venear_pending_balance = 0;
  lockup_update_nonce = 7;
  version = 1;
  min_lockup_deposit = 3;
}

abbrev from_account : AccountId → ℕ → Env
from_account caller now = record {
  predecessor_account_id = caller;
  current_account_id = 5;
  block_timestamp = now;
  attached_deposit = 1;
  account_balance = 1_000;
  promise_succeeded = true;
}

abbrev unlocking : LockupContract × List Promise
unlocking = sent (from_account 1 100) (record (with_pool idle 100) {
  venear_locked_balance = 10;
  venear_pending_balance = 20;
  venear_unlock_timestamp = 150;
})

begin_unlock-runs :
    change_lock begins_unlock (from_account 1 100) (with_pool idle 100) (some 20) ≡ ok unlocking
unfolding change_lock begin_unlock_near set_venear_unlock_timestamp venear_lockup_update ◌>>=◌
    require
begin_unlock-runs = refl

ledger-runs :
    ledger (from_account 1 100) (with_pool idle 100) ≡ ok (books (with_pool idle 100) 1_070)
unfolding ledger venear_liquid_balance ◌>>=◌
ledger-runs = refl

change_lock-Move_example :
    (t : Ledger) × (ledger (from_account 1 100) (unlocking.0) ≡ ok t)
    × Move 100 50 20 (books (with_pool idle 100) 1_070) t begins_unlock
change_lock-Move_example =
    change_lock-Move begins_unlock (from_account 1 100) (with_pool idle 100) (some 20)
      (books (with_pool idle 100) 1_070) unlocking ledger-runs begin_unlock-runs

-- An unlock is begun, and its end is tried too early.
abbrev early_calls : List (Env × Call)
early_calls =
    (from_account 1 100, changes_lock begins_unlock (some 20))
    ∷ (from_account 1 120, changes_lock Locking.ends_unlock none)
    ∷ []

held-run_example :
    held (with_pool idle 100) ≤ held (run (new_state any_id) (with_pool idle 100) early_calls)
held-run_example =
    held-run any_id (with_pool idle 100) 90 early_calls (inl refl) (omega arith, (omega arith, tt))
      (omega arith)

abbrev depositing : LockupContract × List Promise
depositing = (with_pool is_busy 100, calls_pool 4 (deposits 10) ∷ [])

deposit-runs :
    perform any_id (from_account 1 100) (with_pool idle 100) (deposits_to 10) ≡ ok depositing
unfolding perform deposit_to_staking_pool start_pool_call idle_pool set_staking_pool_status ◌>>=◌
    require expect
deposit-runs = refl

abbrev at_rest : World
at_rest = record { contract = with_pool idle 100; in_flight = [] }

abbrev under_way : World
under_way = record { contract = with_pool is_busy 100; in_flight = deposits 10 ∷ [] }

deposit-Steps : Steps any_id at_rest under_way
unfolding pool_calls
deposit-Steps =
    further at_rest under_way here
      (outside (from_account 1 100) (deposits_to 10) depositing refl deposit-runs refl)

Steps-IsExclusive_example : IsExclusive under_way
Steps-IsExclusive_example = Steps-IsExclusive any_id at_rest under_way refl deposit-Steps

answers-SettlesSoon_example :
    (r : LockupContract × List Promise) × (after_pool_call
        (from_account 5 110)
        (with_pool is_busy 100)
        (deposits 10)
        (some 0)
      ≡ ok r)
    × SettlesSoon (from_account 5 120) 0 r
answers-SettlesSoon_example =
    answers-SettlesSoon any_id at_rest under_way (deposits 10) (from_account 5 110)
      (from_account 5 120) 0 0 refl deposit-Steps refl refl refl (omega arith)

abbrev refreshing : LockupContract × List Promise
refreshing = (with_pool is_busy 100, calls_pool 4 gets_total_balance ∷ [])

refresh-runs :
    refresh_staking_pool_balance (from_account 1 100) (with_pool idle 100) ≡ ok refreshing
unfolding refresh_staking_pool_balance start_pool_call idle_pool set_staking_pool_status ◌>>=◌
    require expect
refresh-runs = refl

abbrev stuck : World
stuck = record { contract = with_pool is_busy 100; in_flight = [] }

failed_view-IsBusy_example :
    (pool_calls (refreshing.1) ≡ gets_total_balance ∷ [])
    × (after_pool_call (from_account 5 110) (refreshing.0) gets_total_balance none
        ≡ panic callback_failed)
    × IsBusy stuck.contract
    × ¬ Returns (perform any_id (from_account 1 999) stuck.contract refreshes)
unfolding needs_idle
failed_view-IsBusy_example =
    failed_view-IsBusy any_id (from_account 1 100) (from_account 5 110) (from_account 1 999)
      (with_pool idle 100) refreshing stuck refreshes refresh-runs refl here refl

-- The lockup contract of an account that the veNEAR contract knows.
abbrev known_lockup : LockupContract
known_lockup = record (with_pool idle 100) {
  owner_account_id = 3;
  venear_locked_balance = 5 * one_near;
  lockup_update_nonce = 11;
}

abbrev from_owner : Env
from_owner = record (from_account 3 (6 * day)) { current_account_id = 1_003 }

abbrev less_locked : LockupContract × List Promise
less_locked = sent from_owner (record known_lockup {
  venear_locked_balance = 4 * one_near;
  venear_pending_balance = one_near;
  venear_unlock_timestamp = 6 * day + 50;
})

less_locked-runs :
    change_lock begins_unlock from_owner known_lockup (some one_near) ≡ ok less_locked
unfolding change_lock begin_unlock_near set_venear_unlock_timestamp venear_lockup_update ◌>>=◌
    require
less_locked-runs = refl

change_lock-deliver_example :
    (p : Promise) × ((less_locked.1) ≡ p ∷ [])
    × Ensures
        (Agrees sample_hash sample_pair lockup_of (less_locked.0) sample_run)
        (deliver sample_hash sample_pair lockup_of (call_by 1_003 6 0) sample_run p)
change_lock-deliver_example =
    change_lock-deliver sample_hash sample_pair lockup_of sample_rate refl (call_by 1_003 6 0)
      sample_run sample_run-IsAccounted begins_unlock from_owner known_lockup (some one_near)
      less_locked less_locked-runs
