-- ===== src/Lockup/Busy.antt =====
-- What a call from outside and an answer of the pool do to the status of the pool, and which
-- calls of the pool they make.
use house_of_stake_contracts.Base.{
  Option, ℕ, ◌==◌, Panic, Result, expect, Ensures, returns, panics, Ensures-of, Ensures-apply,
  Ensures-require, Ensures-bind, Ensures-then, ◌≡◌, refl, ap, ◌∙◌, Bool, true, false, Option, none,
  some, List, [], ◌∷◌, arith, pool_not_selected,
}
use house_of_stake_contracts.Lockup.Contract.{
  LockupContract, Promise, idle_pool, set_staking_pool_status, TransactionStatus, idle,
  StakingInformation, PoolCall, is_busy, is_idle, Env,
}
use house_of_stake_contracts.Lockup.Calls.{
  unselects, refreshes, withdraws_everything, unstakes_everything, deletes, Call, Locking, alone,
  perform, changes_lock, selects, deposits_to, deposits_to_stake, withdraws_from, stakes_in,
  unstakes_in, sends, hears_whitelist, hears_pool,
}
use house_of_stake_contracts.Lockup.Owner.{
  start_pool_call, unselect_staking_pool, select_staking_pool, deposit_to_staking_pool,
  deposit_and_stake, refresh_staking_pool_balance, withdraw_from_staking_pool,
  withdraw_all_from_staking_pool, stake, unstake, unstake_all, transfer, delete_lockup,
}
use house_of_stake_contracts.Lockup.World.{pool_calls, IsBusy, IsIdle}
use house_of_stake_contracts.Lockup.Effects.{
  Change, locked, begun, ended, relocked, change_lock-Change,
}
use house_of_stake_contracts.Lockup.Callbacks.{on_whitelist_is_whitelisted, after_pool_call}
use house_of_stake_contracts.Common.Account.{AccountId}

-- A call from outside calls no pool and leaves a busy contract busy; or it calls a pool once, and makes
-- a contract busy that was not.
pub data Outcome (c : LockupContract) (r : LockupContract × List Promise) : Type 0 where
  quiet : pool_calls (r.1) ≡ [] → (IsBusy c → IsBusy (r.0)) → Outcome c r
  starts : (call : PoolCall) → pool_calls (r.1) ≡ call ∷ [] → IsIdle c → IsBusy (r.0) → Outcome c r

pub expect-eq {ℓ} : {A : Type ℓ} (o : Option A) (e : Panic) → Ensures (λ a. o ≡ some a) (expect o e)
unfolding expect
expect-eq none e = panics e
expect-eq (some a) e = returns a refl

pub set_status-eq :
    (status : TransactionStatus) (c : LockupContract)
    → Ensures
        (λ d.
          (info : StakingInformation) × (c.staking_information ≡ some info)
          × (d ≡ record c { staking_information = some (record info { status = status }) }))
        (set_staking_pool_status status c)
unfolding set_staking_pool_status
set_status-eq status c =
    Ensures-bind _ _ (expect-eq _ pool_not_selected) λ info h e. returns _ (info, e, refl)

is_idle-eq : (status : TransactionStatus) → is_idle status ≡ true → status ≡ idle
is_idle-eq idle h = refl
is_idle-eq is_busy h = cc

-- A contract passes the check that starts a pool call when its pool is idle.
pub idle_pool-IsIdle : (c : LockupContract) → Ensures (λ info. IsIdle c) (idle_pool c)
unfolding idle_pool
idle_pool-IsIdle c =
    Ensures-bind _ _ (expect-eq _ pool_not_selected)
      λ info h e. Ensures-require _ _ _ λ i. returns _ (info, e, is_idle-eq info.status i)

pub idle-busy : (c : LockupContract) → IsIdle c → IsBusy c → ⊥
idle-busy c (i, e, idles) (j, f, busies) = cc

start_pool_call-Outcome :
    (c : LockupContract) (check : StakingInformation → Result PoolCall)
    → Ensures (Outcome c) (start_pool_call c check)
unfolding start_pool_call pool_calls
start_pool_call-Outcome c check = Ensures-bind _ _ (idle_pool-IsIdle c) λ info h1 idles.
    Ensures-then _ _ λ call h2. Ensures-bind _ _ (set_status-eq is_busy c) λ d h3 (old, e, written).
      returns _ (starts call refl idles (_, ap (λ x. x.staking_information) written, refl))

Change-Outcome :
    (method : Locking) (env : Env) (c : LockupContract) (requested : Option ℕ)
    (r : LockupContract × List Promise)
    → Change env c requested r method
    → Outcome c r
unfolding pool_calls
Change-Outcome method env c requested r (locked a l e asks le written) =
    quiet (ap (λ x. pool_calls (x.1)) written)
      λ (info, e, b). (info, ap (λ x. (x.0).staking_information) written ∙ e, b)
Change-Outcome method env c requested r (begun a asks le written) =
    quiet (ap (λ x. pool_calls (x.1)) written)
      λ (info, e, b). (info, ap (λ x. (x.0).staking_information) written ∙ e, b)
Change-Outcome method env c requested r (ended a asks le time written) =
    quiet (ap (λ x. pool_calls (x.1)) written)
      λ (info, e, b). (info, ap (λ x. (x.0).staking_information) written ∙ e, b)
Change-Outcome method env c requested r (relocked a asks le written) =
    quiet (ap (λ x. pool_calls (x.1)) written)
      λ (info, e, b). (info, ap (λ x. (x.0).staking_information) written ∙ e, b)

alone-Outcome :
    (c : LockupContract) (m : Result LockupContract)
    → Ensures (λ d. IsBusy c → IsBusy d) m
    → Ensures (Outcome c) (alone m)
unfolding pool_calls
alone-Outcome c m h = Ensures-bind m _ h λ d e keeps. returns _ (quiet refl keeps)

unselect_staking_pool-IsBusy :
    (env : Env) (c : LockupContract)
    → Ensures (λ d. IsBusy c → IsBusy d) (unselect_staking_pool env c)
unfolding unselect_staking_pool
unselect_staking_pool-IsBusy env c = Ensures-then _ _ λ _ h1.
    Ensures-bind _ _ (idle_pool-IsIdle c)
      λ info h2 idles. Ensures-require _ _ _ λ h3. returns _ λ b. absurd (idle-busy c idles b)

pub on_whitelist_is_whitelisted-IsBusy :
    (env : Env) (c : LockupContract) (answer : Option Bool) (pool : AccountId)
    → Ensures (λ d. IsBusy c → IsBusy d) (on_whitelist_is_whitelisted env c answer pool)
unfolding on_whitelist_is_whitelisted
on_whitelist_is_whitelisted-IsBusy env c answer pool = Ensures-then _ _ λ _ h1.
    Ensures-then _ _ λ whitelisted h2.
      Ensures-then _ _
        λ _ h3. Ensures-require _ _ _ λ h4. returns _ λ (info, e, b). absurd (ground arith)

pub perform-Outcome :
    (is_valid : AccountId → Bool) (env : Env) (c : LockupContract) (call : Call)
    → (env.predecessor_account_id == env.current_account_id) ≡ false
    → Ensures (Outcome c) (perform is_valid env c call)
unfolding perform select_staking_pool deposit_to_staking_pool deposit_and_stake
    refresh_staking_pool_balance withdraw_from_staking_pool withdraw_all_from_staking_pool stake
    unstake unstake_all transfer delete_lockup after_pool_call pool_calls
perform-Outcome is_valid env c (changes_lock method amount) other = Ensures-of _ λ r h.
    Change-Outcome method env c amount r (Ensures-apply (change_lock-Change method env c amount) h)
perform-Outcome is_valid env c (selects pool) other =
    Ensures-then _ _
      λ _ h1. Ensures-then _ _ λ _ h2. Ensures-then _ _ λ _ h3. returns _ (quiet refl λ b. b)
perform-Outcome is_valid env c unselects other =
    alone-Outcome c _ (unselect_staking_pool-IsBusy env c)
perform-Outcome is_valid env c refreshes other =
    Ensures-then _ _ λ _ h1. start_pool_call-Outcome c _
perform-Outcome is_valid env c withdraws_everything other =
    Ensures-then _ _ λ _ h1. start_pool_call-Outcome c _
perform-Outcome is_valid env c unstakes_everything other =
    Ensures-then _ _ λ _ h1. start_pool_call-Outcome c _
perform-Outcome is_valid env c deletes other = Ensures-then _ _ λ _ h1. Ensures-then _ _ λ _ h2.
    Ensures-then _ _
      λ _ h3. Ensures-then _ _ λ _ h4. Ensures-then _ _ λ _ h5. returns _ (quiet refl λ b. b)
perform-Outcome is_valid env c (deposits_to amount) other =
    Ensures-then _ _ λ _ h1. Ensures-then _ _ λ _ h2. start_pool_call-Outcome c _
perform-Outcome is_valid env c (deposits_to_stake amount) other =
    Ensures-then _ _ λ _ h1. Ensures-then _ _ λ _ h2. start_pool_call-Outcome c _
perform-Outcome is_valid env c (withdraws_from amount) other =
    Ensures-then _ _ λ _ h1. Ensures-then _ _ λ _ h2. start_pool_call-Outcome c _
perform-Outcome is_valid env c (stakes_in amount) other =
    Ensures-then _ _ λ _ h1. Ensures-then _ _ λ _ h2. start_pool_call-Outcome c _
perform-Outcome is_valid env c (unstakes_in amount) other =
    Ensures-then _ _ λ _ h1. Ensures-then _ _ λ _ h2. start_pool_call-Outcome c _
perform-Outcome is_valid env c (sends amount receiver) other = Ensures-then _ _ λ _ h1.
    Ensures-then _ _ λ _ h2. Ensures-then _ _ λ _ h3. Ensures-then _ _ λ _ h4.
      Ensures-then _ _
        λ _ h5. Ensures-then _ _ λ liquid h6. Ensures-then _ _ λ _ h7. returns _ (quiet refl λ b. b)
perform-Outcome is_valid env c (hears_whitelist answer pool) other =
    alone-Outcome c _ (on_whitelist_is_whitelisted-IsBusy env c answer pool)
perform-Outcome is_valid env c (hears_pool call value) other =
    Ensures-require _ _ _ λ private. absurd (cc)
