-- ===== src/Lockup/Frame.antt =====
-- The calls that leave the locked and the pending NEAR alone.
use house_of_stake_contracts.Base.{
  ltb, if◌then◌else◌, Result, ok, ◌>>=◌, Ensures, returns, Ensures-of, Ensures-apply, Ensures-bind,
  Ensures-then, Ensures-if, ℕ, ◌≡◌, refl, ◌∙◌, ◌⊎◌, inl, inr, Bool, Option, List,
}
use house_of_stake_contracts.Lockup.Contract.{
  unstakes_all, gets_total_balance, gets_unstaked_balance, LockupContract, Promise,
  set_staking_pool_status, idle, StakingInformation, TransactionStatus, PoolCall, is_busy, Env,
  deposits, deposits_and_stakes, withdraws, stakes, unstakes,
}
use house_of_stake_contracts.Lockup.Callbacks.{
  after_pool_call, set_deposit, on_staking_pool_deposit_inner, on_staking_pool_stake_inner,
  on_staking_pool_withdraw_inner, on_get_account_total_balance, on_get_account_unstaked_balance,
  on_whitelist_is_whitelisted, pool_callback,
}
use house_of_stake_contracts.Lockup.Calls.{
  unstakes_in, unselects, refreshes, withdraws_everything, unstakes_everything, deletes, perform,
  alone, Call, Locking, changes_lock, selects, deposits_to, deposits_to_stake, withdraws_from,
  stakes_in, sends, hears_whitelist, hears_pool,
}
use house_of_stake_contracts.Lockup.Owner.{
  start_pool_call, select_staking_pool, unselect_staking_pool, deposit_to_staking_pool,
  deposit_and_stake, refresh_staking_pool_balance, withdraw_from_staking_pool,
  withdraw_all_from_staking_pool, stake, unstake, unstake_all, transfer, delete_lockup,
}
use house_of_stake_contracts.Common.Account.{AccountId}

-- The part of the contract that venear.rs writes, and the duration of an unlock.
pub record Lock : Type 0 where
  pub locked : ℕ
  pub pending : ℕ
  pub unlock_at : ℕ
  pub duration : ℕ

abbrev pub lock_of : LockupContract → Lock
lock_of c = record {
  locked = c.venear_locked_balance;
  pending = c.venear_pending_balance;
  unlock_at = c.venear_unlock_timestamp;
  duration = c.unlock_duration_ns;
}

abbrev pub SameLock : LockupContract → LockupContract → Type 0
SameLock c d = lock_of d ≡ lock_of c

set_staking_pool_status-SameLock :
    (status : TransactionStatus) (c : LockupContract)
    → Ensures (SameLock c) (set_staking_pool_status status c)
unfolding set_staking_pool_status
set_staking_pool_status-SameLock status c = Ensures-then _ _ λ info h. returns _ refl

set_deposit-SameLock :
    (change : ℕ → Result ℕ) (c : LockupContract) → Ensures (SameLock c) (set_deposit change c)
unfolding set_deposit
set_deposit-SameLock change c =
    Ensures-then _ _ λ info h1. Ensures-then _ _ λ amount h2. returns _ refl

start_pool_call-SameLock :
    (c : LockupContract) (check : StakingInformation → Result PoolCall)
    → Ensures (λ r. SameLock c (r.0)) (start_pool_call c check)
unfolding start_pool_call
start_pool_call-SameLock c check = Ensures-then _ _ λ info h1. Ensures-then _ _ λ call h2.
    Ensures-bind _ _ (set_staking_pool_status-SameLock is_busy c) λ d h3 same. returns _ same

-- The pool is idle again, and then the known deposit is changed.
then_idle :
    (c : LockupContract) (rest : LockupContract → Result LockupContract)
    → ((d : LockupContract) → Ensures (SameLock d) (rest d))
    → Ensures (SameLock c) (set_staking_pool_status idle c >>= rest)
then_idle c rest keeps =
    Ensures-bind _ _ (set_staking_pool_status-SameLock idle c)
      λ d h same. Ensures-of _ λ e k. Ensures-apply (keeps d) k ∙ same

if_deposited :
    (b : Bool) (change : ℕ → Result ℕ) (d : LockupContract)
    → Ensures (SameLock d) (if b then set_deposit change d else ok d)
if_deposited b change d = Ensures-if b _ _ (λ e. set_deposit-SameLock change d) λ e. returns _ refl

abbrev Kept : LockupContract → LockupContract × List Promise → Type 0
Kept c r = SameLock c (r.0)

alone-Kept :
    (c : LockupContract) (m : Result LockupContract)
    → Ensures (SameLock c) m
    → Ensures (Kept c) (alone m)
alone-Kept c m h = Ensures-bind m _ h λ d e same. returns _ same

pool_callback-Kept :
    (env : Env) (c : LockupContract) (call : PoolCall) (value : Option ℕ)
    → Ensures (Kept c) (pool_callback env c call value)
unfolding pool_callback on_staking_pool_deposit_inner on_staking_pool_stake_inner
    on_staking_pool_withdraw_inner on_get_account_total_balance on_get_account_unstaked_balance
pool_callback-Kept env c (deposits amount) value = alone-Kept c _ (then_idle c _ (if_deposited _ _))
pool_callback-Kept env c (deposits_and_stakes amount) value =
    alone-Kept c _ (then_idle c _ (if_deposited _ _))
pool_callback-Kept env c (withdraws amount) value =
    alone-Kept c _ (then_idle c _ (if_deposited _ _))
pool_callback-Kept env c (stakes amount) value =
    alone-Kept c _ (set_staking_pool_status-SameLock idle c)
pool_callback-Kept env c (unstakes amount) value =
    alone-Kept c _ (set_staking_pool_status-SameLock idle c)
pool_callback-Kept env c unstakes_all value =
    alone-Kept c _ (set_staking_pool_status-SameLock idle c)
pool_callback-Kept env c gets_total_balance value =
    alone-Kept c _ (Ensures-then _ _ λ total e. then_idle c _ (set_deposit-SameLock _))
pool_callback-Kept env c gets_unstaked_balance value = Ensures-then _ _ λ unstaked e.
    Ensures-if (ltb 0 unstaked) _ _ (λ p. Ensures-then _ _ λ info i. returns _ refl)
      λ z. alone-Kept c _ (set_staking_pool_status-SameLock idle c)

-- Every call but those of venear.rs.
pub perform-Kept :
    (is_valid : AccountId → Bool) (env : Env) (c : LockupContract) (call : Call)
    → Ensures (Kept c) (perform is_valid env c call)
      ⊎ ((method : Locking) × (amount : Option ℕ) × (call ≡ changes_lock method amount))
unfolding perform after_pool_call select_staking_pool unselect_staking_pool deposit_to_staking_pool
    deposit_and_stake refresh_staking_pool_balance withdraw_from_staking_pool
    withdraw_all_from_staking_pool stake unstake unstake_all transfer delete_lockup
    on_whitelist_is_whitelisted
perform-Kept is_valid env c (changes_lock method amount) = inr (method, amount, refl)
perform-Kept is_valid env c (selects pool) =
    inl (Ensures-then _ _ λ _ h1. Ensures-then _ _ λ _ h2. Ensures-then _ _ λ _ h3. returns _ refl)
perform-Kept is_valid env c unselects = inl (
    alone-Kept c _ (
      Ensures-then _ _ λ _ h1. Ensures-then _ _ λ info h2. Ensures-then _ _ λ _ h3. returns _ refl))
perform-Kept is_valid env c refreshes = inl (Ensures-then _ _ λ _ h1. start_pool_call-SameLock c _)
perform-Kept is_valid env c withdraws_everything =
    inl (Ensures-then _ _ λ _ h1. start_pool_call-SameLock c _)
perform-Kept is_valid env c unstakes_everything =
    inl (Ensures-then _ _ λ _ h1. start_pool_call-SameLock c _)
perform-Kept is_valid env c deletes = inl (
    Ensures-then _ _ λ _ h1. Ensures-then _ _ λ _ h2.
      Ensures-then _ _ λ _ h3. Ensures-then _ _ λ _ h4. Ensures-then _ _ λ _ h5. returns _ refl)
perform-Kept is_valid env c (deposits_to amount) =
    inl (Ensures-then _ _ λ _ h1. Ensures-then _ _ λ _ h2. start_pool_call-SameLock c _)
perform-Kept is_valid env c (deposits_to_stake amount) =
    inl (Ensures-then _ _ λ _ h1. Ensures-then _ _ λ _ h2. start_pool_call-SameLock c _)
perform-Kept is_valid env c (withdraws_from amount) =
    inl (Ensures-then _ _ λ _ h1. Ensures-then _ _ λ _ h2. start_pool_call-SameLock c _)
perform-Kept is_valid env c (stakes_in amount) =
    inl (Ensures-then _ _ λ _ h1. Ensures-then _ _ λ _ h2. start_pool_call-SameLock c _)
perform-Kept is_valid env c (unstakes_in amount) =
    inl (Ensures-then _ _ λ _ h1. Ensures-then _ _ λ _ h2. start_pool_call-SameLock c _)
perform-Kept is_valid env c (sends amount receiver) = inl (
    Ensures-then _ _ λ _ h1. Ensures-then _ _ λ _ h2. Ensures-then _ _ λ _ h3.
      Ensures-then _ _ λ _ h4.
        Ensures-then _ _
          λ _ h5. Ensures-then _ _ λ liquid h6. Ensures-then _ _ λ _ h7. returns _ refl)
perform-Kept is_valid env c (hears_whitelist answer pool) = inl (
    alone-Kept c _ (
      Ensures-then _ _ λ _ h1.
        Ensures-then _ _
          λ whitelisted h2. Ensures-then _ _ λ _ h3. Ensures-then _ _ λ _ h4. returns _ refl))
perform-Kept is_valid env c (hears_pool call value) =
    inl (Ensures-then _ _ λ _ h. pool_callback-Kept env c call value)
