-- ===== src/Lockup/Progress.antt =====
-- What the staking pool answers brings the contract back to idle
-- (lockup-contract/src/owner_callbacks.rs).
use house_of_stake_contracts.Base.{
  ltb, ◌==◌, if◌then◌else◌, Result, ok, ◌>>=◌, ◌>>◌, require, expect, u128_max, u128_add,
  Ensures-apply, ℕ, ◌+◌, ◌-◌, ◌≤◌, ◌≡◌, refl, sym, ap, subst, ◌∙◌, ◌⊎◌, inl, inr, Bool, true, false,
  some, List, [], ◌∷◌, arith, pool_not_selected, unwrap_none, private_method,
}
use house_of_stake_contracts.Common.Account.{AccountId}
use house_of_stake_contracts.Lockup.Contract.{
  LockupContract, unstakes_all, gets_total_balance, gets_unstaked_balance, set_staking_pool_status,
  PoolCall, StakingInformation, Promise, deposits, idle, deposits_and_stakes, Env,
  get_known_deposited_balance, withdraws, stakes, unstakes, deposited, calls_pool,
}
use house_of_stake_contracts.Lockup.Callbacks.{
  pool_callback, set_deposit, on_staking_pool_deposit_inner, on_staking_pool_stake_inner,
  on_staking_pool_withdraw_inner, on_get_account_total_balance, on_get_account_unstaked_balance,
  after_pool_call,
}
use house_of_stake_contracts.Lockup.Calls.{alone}
use house_of_stake_contracts.Lockup.World.{IsBusy, World, pool_calls, Steps, IsIdle}
use house_of_stake_contracts.Lockup.Answers.{Answer, settles, goes_on, after_pool_call-Answer}
use house_of_stake_contracts.Lockup.Exclusive.{Steps-IsExclusive}

abbrev pub Returns : Result (LockupContract × List Promise) → Type 0
Returns m = (r : LockupContract × List Promise) × (m ≡ ok r)

-- What a call adds to the known deposit when it succeeds.
abbrev pub added_by : PoolCall → ℕ
added_by (deposits amount) = amount
added_by (deposits_and_stakes amount) = amount
added_by _ = 0

abbrev idle_with : LockupContract → StakingInformation → LockupContract
idle_with c info = record c { staking_information = some (record info { status = idle }) }

set_idle-eq :
    (c : LockupContract) (info : StakingInformation)
    → c.staking_information ≡ some info
    → set_staking_pool_status idle c ≡ ok (idle_with c info)
unfolding set_staking_pool_status ◌>>=◌ expect
set_idle-eq c info e =
    ap
      (λ o. expect o pool_not_selected >>= λ x.
        ok (record c { staking_information = some (record x { status = idle }) }))
      e

-- A callback that starts by making the pool idle returns when the rest does.
after_idle :
    (c : LockupContract) (info : StakingInformation) (rest : LockupContract → Result LockupContract)
    → c.staking_information ≡ some info
    → Returns (alone (rest (idle_with c info)))
    → Returns (alone (set_staking_pool_status idle c >>= rest))
unfolding ◌>>=◌
after_idle c info rest e (r, h) = (r, ap (λ m. alone (m >>= rest)) (set_idle-eq c info e) ∙ h)

if_Returns :
    (b : Bool) (change : ℕ → Result ℕ) (n : ℕ) (c : LockupContract) (info : StakingInformation)
    → change info.deposit_amount ≡ ok n
    → Returns (alone (if b then set_deposit change (idle_with c info) else ok (idle_with c info)))
unfolding ◌>>=◌ set_deposit expect
if_Returns true change n c info h = (
  _,
  ap
      (λ m. alone (
        m >>= λ amount. ok (record c {
          staking_information = some (record info { status = idle; deposit_amount = amount });
        })))
      h,
)
if_Returns false change n c info h = (_, refl)

withdraw-Returns :
    (c : LockupContract) (info : StakingInformation) (amount : ℕ) (b : Bool)
    → c.staking_information ≡ some info
    → Returns (
        if b
        then (do
          found ← expect c.staking_information unwrap_none
          ok (c, calls_pool found.staking_pool_account_id (withdraws amount) ∷ []))
        else alone (set_staking_pool_status idle c))
unfolding ◌>>=◌ expect
withdraw-Returns c info amount true e = (
  _,
  ap
      (λ o. expect o unwrap_none >>= λ found.
        ok (c, calls_pool found.staking_pool_account_id (withdraws amount) ∷ []))
      e,
)
withdraw-Returns c info amount false e = (_, ap alone (set_idle-eq c info e))

u128_add-fits : (a b : ℕ) → a + b ≤ u128_max → u128_add a b ≡ ok (a + b)
u128_add-fits a b h = ground arith

pub pool_callback-Returns :
    (env : Env) (c : LockupContract) (call : PoolCall) (amount : ℕ)
    → IsBusy c
    → get_known_deposited_balance c + added_by call ≤ u128_max
    → Returns (pool_callback env c call (some amount))
unfolding pool_callback on_staking_pool_deposit_inner on_staking_pool_stake_inner
    on_staking_pool_withdraw_inner on_get_account_total_balance on_get_account_unstaked_balance
    set_deposit ◌>>=◌ expect
pool_callback-Returns env c (deposits n) amount (info, e, b) fits = after_idle c info _ e (
    if_Returns env.promise_succeeded (λ known. u128_add known n) _ c info
      (u128_add-fits info.deposit_amount n (subst (λ o. deposited o + n ≤ u128_max) e fits)))
pool_callback-Returns env c (deposits_and_stakes n) amount (info, e, b) fits =
    after_idle c info _ e (
      if_Returns env.promise_succeeded (λ known. u128_add known n) _ c info
        (u128_add-fits info.deposit_amount n (subst (λ o. deposited o + n ≤ u128_max) e fits)))
pool_callback-Returns env c (withdraws n) amount (info, e, b) fits =
    after_idle c info _ e (if_Returns env.promise_succeeded (λ known. ok (known - n)) _ c info refl)
pool_callback-Returns env c (stakes n) amount (info, e, b) fits =
    (_, ap alone (set_idle-eq c info e))
pool_callback-Returns env c (unstakes n) amount (info, e, b) fits =
    (_, ap alone (set_idle-eq c info e))
pool_callback-Returns env c unstakes_all amount (info, e, b) fits =
    (_, ap alone (set_idle-eq c info e))
pool_callback-Returns env c gets_total_balance amount (info, e, b) fits =
    after_idle c info _ e (_, refl)
pool_callback-Returns env c gets_unstaked_balance amount (info, e, b) fits =
    withdraw-Returns c info amount (ltb 0 amount) e

-- The callback after a call that is in flight.
after_pool_call-Returns :
    (c : LockupContract) (call : PoolCall) (env : Env) (amount : ℕ)
    → IsBusy c
    → (env.predecessor_account_id == env.current_account_id) ≡ true
    → get_known_deposited_balance c + added_by call ≤ u128_max
    → Returns (after_pool_call env c call (some amount))
unfolding after_pool_call ◌>>=◌ require
after_pool_call-Returns c call env amount busies own fits =
    let (r, h) = pool_callback-Returns env c call amount busies fits in
    (r, ap (λ b. require b private_method >> pool_callback env c call (some amount)) own ∙ h)

-- The contract is idle, and no call of the pool is under way.
abbrev pub IsSettled : LockupContract × List Promise → Type 0
IsSettled r = (pool_calls (r.1) ≡ []) × IsIdle (r.0)

-- A withdrawal is not followed by another call.
withdrawal-IsSettled :
    (c : LockupContract) (n : ℕ) (r : LockupContract × List Promise)
    → Answer c (withdraws n) r
    → IsSettled r
withdrawal-IsSettled c n r (settles sends idles) = (sends, idles)
withdrawal-IsSettled c n r (goes_on amount asked sends same) = cc

-- What comes after an answer: nothing, or a withdrawal and its answer.
abbrev pub SettlesSoon : Env → ℕ → LockupContract × List Promise → Type 0
SettlesSoon env amount r =
    IsSettled r
    ⊎ ((n : ℕ) × (pool_calls (r.1) ≡ withdraws n ∷ [])
        × (s : LockupContract × List Promise) × (after_pool_call env (r.0) (withdraws n)
              (some amount)
            ≡ ok s)
        × IsSettled s)

Answer-SettlesSoon :
    (c : LockupContract) (call : PoolCall) (r : LockupContract × List Promise) (env : Env)
    (amount : ℕ)
    → IsBusy c
    → (env.predecessor_account_id == env.current_account_id) ≡ true
    → get_known_deposited_balance c ≤ u128_max
    → Answer c call r
    → SettlesSoon env amount r
Answer-SettlesSoon c call r env amount busies own fits (settles sends idles) = inl (sends, idles)
Answer-SettlesSoon c call r env amount busies own fits (goes_on n asked sends same) =
    let (s, h) =
      after_pool_call-Returns (r.0) (withdraws n) env amount (subst IsBusy (sym same) busies) own
        (omega (arith, fits, ap get_known_deposited_balance same)) in
    inr (
      n,
      sends,
      s,
      h,
      withdrawal-IsSettled (r.0) n s
          (Ensures-apply (after_pool_call-Answer env (r.0) (withdraws n) (some amount)) h),
    )

-- A call of the pool is in flight, in whatever way the contract came there from one with none in
-- flight, and the pool answers, whether with success or failure, with a value where the call is a view:
-- the callback returns, and the contract is idle again with nothing in flight, after that
-- answer or, where the call was for the unstaked balance and some is found, after any answer to the
-- withdrawal that follows. The known deposit with what the call adds has to fit its type.
pub answers-SettlesSoon :
    (is_valid : AccountId → Bool) (w v : World) (call : PoolCall) (first second : Env)
    (total amount : ℕ)
    → w.in_flight ≡ []
    → Steps is_valid w v
    → v.in_flight ≡ call ∷ []
    → (first.predecessor_account_id == first.current_account_id) ≡ true
    → (second.predecessor_account_id == second.current_account_id) ≡ true
    → get_known_deposited_balance v.contract + added_by call ≤ u128_max
    → (r : LockupContract × List Promise) × (after_pool_call first v.contract call (some total)
        ≡ ok r)
      × SettlesSoon second amount r
answers-SettlesSoon is_valid w v call first second total amount empty steps flight own own2 fits =
    let busies : IsBusy v.contract = elim (Steps-IsExclusive is_valid w v empty steps) [
      | inl nothing ↦ absurd (cc)
      | inr (only, e, b) ↦ b
    ] in
    let (r, h) = after_pool_call-Returns v.contract call first total busies own fits in
    (
      r,
      h,
      Answer-SettlesSoon v.contract call r second amount busies own2 (omega (arith, fits))
          (Ensures-apply (after_pool_call-Answer first v.contract call (some total)) h),
    )
