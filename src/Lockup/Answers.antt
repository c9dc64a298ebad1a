-- ===== src/Lockup/Answers.antt =====
-- What the callbacks of the pool's calls do to the status of the pool
-- (lockup-contract/src/owner_callbacks.rs).
use house_of_stake_contracts.Base.{
  ltb, if◌then◌else◌, Result, ok, ◌>>=◌, Ensures, returns, Ensures-of, Ensures-apply, Ensures-bind,
  Ensures-then, Ensures-if, ℕ, ◌≡◌, refl, ap, Bool, Option, List, [], ◌∷◌, unwrap_none,
}
use house_of_stake_contracts.Lockup.Contract.{
  LockupContract, unstakes_all, gets_total_balance, gets_unstaked_balance, Promise,
  set_staking_pool_status, withdraws, idle, Env, PoolCall, deposits, deposits_and_stakes, stakes,
  unstakes,
}
use house_of_stake_contracts.Lockup.Callbacks.{
  set_deposit, pool_callback, on_staking_pool_deposit_inner, on_staking_pool_stake_inner,
  on_staking_pool_withdraw_inner, on_get_account_total_balance, on_get_account_unstaked_balance,
  after_pool_call,
}
use house_of_stake_contracts.Lockup.World.{IsIdle, pool_calls}
use house_of_stake_contracts.Lockup.Busy.{expect-eq, set_status-eq}
use house_of_stake_contracts.Lockup.Calls.{alone}

-- A callback leaves the pool idle, or, the one for the unstaked balance, asks the pool for a withdrawal
-- and changes nothing.
pub data Answer (c : LockupContract) (call : PoolCall) (r : LockupContract × List Promise)
    : Type 0 where
  settles : pool_calls (r.1) ≡ [] → IsIdle (r.0) → Answer c call r
  goes_on :
      (amount : ℕ)
      → call ≡ gets_unstaked_balance
      → pool_calls (r.1) ≡ withdraws amount ∷ []
      → r.0 ≡ c
      → Answer c call r

set_idle-IsIdle : (c : LockupContract) → Ensures IsIdle (set_staking_pool_status idle c)
set_idle-IsIdle c = Ensures-of _ λ d h.
    let (info, e, written) = Ensures-apply (set_status-eq idle c) h in
    (_, ap (λ x. x.staking_information) written, refl)

set_deposit-IsIdle :
    (change : ℕ → Result ℕ) (c : LockupContract) → IsIdle c → Ensures IsIdle (set_deposit change c)
unfolding set_deposit
set_deposit-IsIdle change c (i, e, idles) = Ensures-bind _ _ (expect-eq _ unwrap_none) λ info h f.
    Ensures-then _ _ λ amount k. returns _ (record info { deposit_amount = amount }, refl, cc)

if_deposited-IsIdle :
    (b : Bool) (change : ℕ → Result ℕ) (c : LockupContract)
    → IsIdle c
    → Ensures IsIdle (if b then set_deposit change c else ok c)
if_deposited-IsIdle b change c h =
    Ensures-if b _ _ (λ e. set_deposit-IsIdle change c h) λ e. returns _ h

settle :
    (c : LockupContract) (call : PoolCall) (m : Result LockupContract)
    → Ensures IsIdle m
    → Ensures (Answer c call) (alone m)
unfolding pool_calls
settle c call m h = Ensures-bind m _ h λ d e idles. returns _ (settles refl idles)

settle_then :
    (c : LockupContract) (call : PoolCall) (rest : LockupContract → Result LockupContract)
    → ((d : LockupContract) → IsIdle d → Ensures IsIdle (rest d))
    → Ensures (Answer c call) (alone (set_staking_pool_status idle c >>= rest))
settle_then c call rest keeps =
    settle c _ _ (Ensures-bind _ _ (set_idle-IsIdle c) λ d h idles. keeps d idles)

pub pool_callback-Answer :
    (env : Env) (c : LockupContract) (call : PoolCall) (value : Option ℕ)
    → Ensures (Answer c call) (pool_callback env c call value)
unfolding pool_callback on_staking_pool_deposit_inner on_staking_pool_stake_inner
    on_staking_pool_withdraw_inner on_get_account_total_balance on_get_account_unstaked_balance
    pool_calls
pool_callback-Answer env c (deposits amount) value = settle_then c _ _ (if_deposited-IsIdle _ _)
pool_callback-Answer env c (deposits_and_stakes amount) value =
    settle_then c _ _ (if_deposited-IsIdle _ _)
pool_callback-Answer env c (withdraws amount) value = settle_then c _ _ (if_deposited-IsIdle _ _)
pool_callback-Answer env c (stakes amount) value = settle c _ _ (set_idle-IsIdle c)
pool_callback-Answer env c (unstakes amount) value = settle c _ _ (set_idle-IsIdle c)
pool_callback-Answer env c unstakes_all value = settle c _ _ (set_idle-IsIdle c)
pool_callback-Answer env c gets_total_balance value = settle c _ _ (
    Ensures-then _ _
      λ total e. Ensures-bind _ _ (set_idle-IsIdle c) λ d h idles. set_deposit-IsIdle _ d idles)
pool_callback-Answer env c gets_unstaked_balance value = Ensures-then _ _ λ unstaked e.
    Ensures-if (ltb 0 unstaked) _ _
      (λ p. Ensures-then _ _ λ info i. returns _ (goes_on unstaked refl refl refl))
      λ z. settle c _ _ (set_idle-IsIdle c)

pub after_pool_call-Answer :
    (env : Env) (c : LockupContract) (call : PoolCall) (value : Option ℕ)
    → Ensures (Answer c call) (after_pool_call env c call value)
unfolding after_pool_call
after_pool_call-Answer env c call value =
    Ensures-then _ _ λ _ h. pool_callback-Answer env c call value
