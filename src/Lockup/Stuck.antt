-- ===== src/Lockup/Stuck.antt =====
-- A view of the staking pool that fails leaves the contract busy (lockup-contract/src/owner.rs,
-- owner_callbacks.rs).
use house_of_stake_contracts.Base.{
  ◌==◌, Result, ok, panic, ◌>>=◌, ◌>>◌, require, expect, ok-injective, Ensures, returns,
  Ensures-apply, Ensures-bind, Ensures-then, ◌≡◌, refl, sym, ap, subst, ◌∙◌, Bool, true, false,
  none, List, [], ◌∷◌, callback_failed, private_method,
}
use house_of_stake_contracts.Common.Account.{AccountId}
use house_of_stake_contracts.Lockup.Calls.{
  unselects, refreshes, withdraws_everything, unstakes_everything, deletes, Call, changes_lock,
  perform, selects, hears_whitelist, hears_pool, deposits_to, deposits_to_stake, withdraws_from,
  stakes_in, unstakes_in, sends,
}
use house_of_stake_contracts.Lockup.Contract.{
  LockupContract, gets_total_balance, Env, assert_no_staking_or_idle, Promise, StakingInformation,
  PoolCall, is_busy,
}
use house_of_stake_contracts.Lockup.World.{
  World, Step, IsBusy, outside, whitelist_answers, pool_answers, callback_panics, pool_calls, Steps,
  Steps-keep,
}
use house_of_stake_contracts.Lockup.Progress.{Returns}
use house_of_stake_contracts.Lockup.Busy.{
  perform-Outcome, quiet, starts, idle-busy, on_whitelist_is_whitelisted-IsBusy, set_status-eq,
  idle_pool-IsIdle,
}
use house_of_stake_contracts.Lockup.Owner.{
  transfer, start_pool_call, refresh_staking_pool_balance, unselect_staking_pool,
  deposit_to_staking_pool, deposit_and_stake, withdraw_from_staking_pool,
  withdraw_all_from_staking_pool, stake, unstake, unstake_all, delete_lockup,
}
use house_of_stake_contracts.Lockup.Exclusive.{empty-split}
use house_of_stake_contracts.Lockup.Callbacks.{
  after_pool_call, pool_callback, on_get_account_total_balance,
}

abbrev IsStuck : World → Type 0
IsStuck w = (w.in_flight ≡ []) × IsBusy w.contract

Step-IsStuck :
    (is_valid : AccountId → Bool) (w v : World) → IsStuck w → Step is_valid w v → IsStuck v
Step-IsStuck is_valid w v (empty, busies) (outside env call r other returned next) =
    elim (Ensures-apply (perform-Outcome is_valid env w.contract call other) returned) [
      | quiet unsent keeps ↦ subst IsStuck (sym next) ((cc), keeps busies)
      | starts started unsent idles now ↦ absurd (idle-busy w.contract idles busies)
    ]
Step-IsStuck is_valid w v (empty, busies) (whitelist_answers env answer pool d returned next) =
    subst IsStuck (sym next) (
      empty,
      Ensures-apply (on_whitelist_is_whitelisted-IsBusy env w.contract answer pool) returned busies,
    )
Step-IsStuck is_valid w v (empty, busies)
      (pool_answers env before call after value r split returned next) =
    absurd (empty-split call before after (sym empty ∙ split))
Step-IsStuck is_valid w v (empty, busies)
      (callback_panics env before call after value e split failed next) =
    absurd (empty-split call before after (sym empty ∙ split))

-- The calls that need an idle pool: all that stake, and those that pay out.
unfoldable pub needs_idle : Call → Bool
needs_idle (changes_lock method amount) = false
needs_idle (selects pool) = false
needs_idle (hears_whitelist answer pool) = false
needs_idle (hears_pool call value) = false
needs_idle _ = true

busy-refuses :
    (c : LockupContract) (x : Unit {0}) → IsBusy c → assert_no_staking_or_idle c ≡ ok x → ⊥
unfolding assert_no_staking_or_idle require
busy-refuses c x (info, e, b) h = cc

start-never :
    (c : LockupContract) (check : StakingInformation → Result PoolCall)
    → IsBusy c
    → Ensures (λ r. ⊥) (start_pool_call c check)
unfolding start_pool_call
start-never c check busies =
    Ensures-bind _ _ (idle_pool-IsIdle c) λ info h idles. absurd (idle-busy c idles busies)

pub perform-never :
    (is_valid : AccountId → Bool) (env : Env) (c : LockupContract) (call : Call)
    → IsBusy c
    → needs_idle call ≡ true
    → Ensures (λ r. ⊥) (perform is_valid env c call)
unfolding perform unselect_staking_pool deposit_to_staking_pool deposit_and_stake
    refresh_staking_pool_balance withdraw_from_staking_pool withdraw_all_from_staking_pool stake
    unstake unstake_all transfer delete_lockup needs_idle
perform-never is_valid env c (changes_lock method amount) busies needs = cc
perform-never is_valid env c (selects pool) busies needs = cc
perform-never is_valid env c (hears_whitelist answer pool) busies needs = cc
perform-never is_valid env c (hears_pool call value) busies needs = cc
perform-never is_valid env c unselects busies needs =
    Ensures-bind _ _
      (Ensures-then _ _ λ _ h1.
        Ensures-bind _ _ (idle_pool-IsIdle c) λ info h idles. absurd (idle-busy c idles busies))
      λ d e none_left. absurd none_left
perform-never is_valid env c refreshes busies needs =
    Ensures-then _ _ λ _ h1. start-never c _ busies
perform-never is_valid env c withdraws_everything busies needs =
    Ensures-then _ _ λ _ h1. start-never c _ busies
perform-never is_valid env c unstakes_everything busies needs =
    Ensures-then _ _ λ _ h1. start-never c _ busies
perform-never is_valid env c deletes busies needs =
    Ensures-then _ _ λ _ h1. Ensures-then _ _ λ x h2. absurd (busy-refuses c x busies h2)
perform-never is_valid env c (deposits_to amount) busies needs =
    Ensures-then _ _ λ _ h1. Ensures-then _ _ λ _ h2. start-never c _ busies
perform-never is_valid env c (deposits_to_stake amount) busies needs =
    Ensures-then _ _ λ _ h1. Ensures-then _ _ λ _ h2. start-never c _ busies
perform-never is_valid env c (withdraws_from amount) busies needs =
    Ensures-then _ _ λ _ h1. Ensures-then _ _ λ _ h2. start-never c _ busies
perform-never is_valid env c (stakes_in amount) busies needs =
    Ensures-then _ _ λ _ h1. Ensures-then _ _ λ _ h2. start-never c _ busies
perform-never is_valid env c (unstakes_in amount) busies needs =
    Ensures-then _ _ λ _ h1. Ensures-then _ _ λ _ h2. start-never c _ busies
perform-never is_valid env c (sends amount receiver) busies needs = Ensures-then _ _ λ _ h1.
    Ensures-then _ _
      λ _ h2. Ensures-then _ _ λ _ h3. Ensures-then _ _ λ x h4. absurd (busy-refuses c x busies h4)

-- The answer to a view that failed finds a panic, and the contract stays as it was.
view_fails :
    (c : LockupContract) (env : Env)
    → (env.predecessor_account_id == env.current_account_id) ≡ true
    → after_pool_call env c gets_total_balance none ≡ panic callback_failed
unfolding after_pool_call pool_callback on_get_account_total_balance ◌>>=◌ require expect
view_fails c env own =
    ap (λ b. require b private_method >> pool_callback env c gets_total_balance none) own

refreshed :
    (env : Env) (c : LockupContract)
    → Ensures
        (λ r. (pool_calls (r.1) ≡ gets_total_balance ∷ []) × IsBusy (r.0))
        (refresh_staking_pool_balance env c)
unfolding refresh_staking_pool_balance start_pool_call pool_calls
refreshed env c = Ensures-then _ _ λ _ h1. Ensures-then _ _ λ info h2. Ensures-then _ _ λ call h3.
    Ensures-bind _ _ (set_status-eq is_busy c) λ d h4 (old, e, written).
      returns _ (
        ap (λ x. x ∷ []) (ok-injective (sym h3)),
        (_, ap (λ x. x.staking_information) written, refl),
      )

-- The owner refreshes the balance at the pool, and the pool's view fails: the callback panics, and from
-- then on, whatever happens (calls by anyone, answers of the whitelist), the contract is busy, and no
-- call that needs an idle pool returns: no deposit, withdrawal, stake or unstake, no new
-- refresh, no transfer, and neither the end of the selection nor of the contract.
pub failed_view-IsBusy :
    (is_valid : AccountId → Bool) (env answer later : Env) (c : LockupContract)
    (r : LockupContract × List Promise) (u : World) (call : Call)
    → refresh_staking_pool_balance env c ≡ ok r
    → (answer.predecessor_account_id == answer.current_account_id) ≡ true
    → Steps is_valid (record { contract = r.0; in_flight = [] }) u
    → needs_idle call ≡ true
    → (pool_calls (r.1) ≡ gets_total_balance ∷ [])
      × (after_pool_call answer (r.0) gets_total_balance none ≡ panic callback_failed)
      × IsBusy u.contract
      × ¬ Returns (perform is_valid later u.contract call)
failed_view-IsBusy is_valid env answer later c r u call returned own steps needs =
    let (called, busies) = Ensures-apply (refreshed env c) returned in
    let (_, still) =
      Steps-keep is_valid IsStuck (Step-IsStuck is_valid)
        (record { contract = r.0; in_flight = [] }) u (refl, busies) steps in
    (
      called,
      view_fails (r.0) answer own,
      still,
      λ (s, h). Ensures-apply (perform-never is_valid later u.contract call still needs) h,
    )
