-- ===== src/Lockup/World.antt =====
-- The lockup contract with the calls of the staking pool that have not been answered, and what
-- can happen next: a call from outside, or the answer to a promise.
use house_of_stake_contracts.Base.{
  ◌==◌, Panic, ok, panic, ℕ, ◌≡◌, Bool, false, Option, some, List, [], ◌∷◌, ◌++◌,
}
use house_of_stake_contracts.Common.Account.{AccountId}
use house_of_stake_contracts.Lockup.Contract.{
  LockupContract, StakingInformation, Promise, Env, PoolCall, calls_pool, is_busy, idle,
}
use house_of_stake_contracts.Lockup.Calls.{Call, perform}
use house_of_stake_contracts.Lockup.Callbacks.{on_whitelist_is_whitelisted, after_pool_call}

pub record World : Type 0 where
  pub contract : LockupContract
  pub in_flight : List PoolCall

-- The promises that will be answered to the contract by the pool.
unfoldable pub pool_calls : List Promise → List PoolCall
pool_calls [] = []
pool_calls (calls_pool pool call ∷ ps) = call ∷ pool_calls ps
pool_calls (_ ∷ ps) = pool_calls ps

pub data Step (is_valid : AccountId → Bool) (w v : World) : Type 0 where
  -- Someone else calls the contract.
  outside :
      (env : Env) (call : Call) (r : LockupContract × List Promise)
      → (env.predecessor_account_id == env.current_account_id) ≡ false
      → perform is_valid env w.contract call ≡ ok r
      → v ≡ record { contract = r.0; in_flight = pool_calls (r.1) ++ w.in_flight }
      → Step is_valid w v
  -- The whitelist answers.
  whitelist_answers :
      (env : Env) (answer : Option Bool) (pool : AccountId) (d : LockupContract)
      → on_whitelist_is_whitelisted env w.contract answer pool ≡ ok d
      → v ≡ record { contract = d; in_flight = w.in_flight }
      → Step is_valid w v
  -- The pool answers one of the calls.
  pool_answers :
      (env : Env) (before : List PoolCall) (call : PoolCall) (after : List PoolCall)
      (value : Option ℕ) (r : LockupContract × List Promise)
      → w.in_flight ≡ before ++ call ∷ after
      → after_pool_call env w.contract call value ≡ ok r
      → v ≡ record { contract = r.0; in_flight = pool_calls (r.1) ++ (before ++ after) }
      → Step is_valid w v
  -- The pool answers one of the calls, and the callback panics.
  callback_panics :
      (env : Env) (before : List PoolCall) (call : PoolCall) (after : List PoolCall)
      (value : Option ℕ) (e : Panic)
      → w.in_flight ≡ before ++ call ∷ after
      → after_pool_call env w.contract call value ≡ panic e
      → v ≡ record { contract = w.contract; in_flight = before ++ after }
      → Step is_valid w v

-- Any number of steps.
pub data Steps (is_valid : AccountId → Bool) (w : World) : World → Type 0 where
  here : Steps is_valid w w
  further : (v u : World) → Steps is_valid w v → Step is_valid v u → Steps is_valid w u

-- What every step keeps.
pub Steps-keep {κ} :
    (is_valid : AccountId → Bool) (P : World → Type κ)
    → ((w v : World) → P w → Step is_valid w v → P v)
    → (w v : World) → P w
    → Steps is_valid w v
    → P v
Steps-keep is_valid P keeps w _ h here = h
Steps-keep is_valid P keeps w _ h (further v u steps last) =
    keeps v u (Steps-keep is_valid P keeps w v h steps) last

abbrev pub IsBusy : LockupContract → Type 0
IsBusy c =
    (info : StakingInformation) × (c.staking_information ≡ some info) × (info.status ≡ is_busy)

abbrev pub IsIdle : LockupContract → Type 0
IsIdle c = (info : StakingInformation) × (c.staking_information ≡ some info) × (info.status ≡ idle)
