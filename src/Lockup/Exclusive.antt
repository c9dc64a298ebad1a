-- ===== src/Lockup/Exclusive.antt =====
-- The staking pool answers one call at a time: the contract is busy as long as a call of the pool is
-- in flight (lockup-contract/src/owner.rs, owner_callbacks.rs).
use house_of_stake_contracts.Base.{
  Ensures-apply, ◌≡◌, sym, subst, ◌∙◌, ◌⊎◌, inl, inr, Bool, List, [], ◌∷◌, ◌++◌,
}
use house_of_stake_contracts.Common.Account.{AccountId}
use house_of_stake_contracts.Lockup.Contract.{LockupContract, Promise, PoolCall, withdraws}
use house_of_stake_contracts.Lockup.World.{
  World, Step, IsBusy, outside, pool_calls, whitelist_answers, pool_answers, callback_panics, Steps,
  Steps-keep,
}
use house_of_stake_contracts.Lockup.Busy.{
  Outcome, quiet, perform-Outcome, starts, idle-busy, on_whitelist_is_whitelisted-IsBusy,
}
use house_of_stake_contracts.Lockup.Answers.{Answer, settles, goes_on, after_pool_call-Answer}

-- At most one call of the pool is in flight, and only while the contract is busy.
abbrev pub IsExclusive : World → Type 0
IsExclusive w =
    (w.in_flight ≡ []) ⊎ ((call : PoolCall) × (w.in_flight ≡ call ∷ []) × IsBusy w.contract)

-- A list of one element that is split around an element has nothing else.
single-split {ℓ} :
    {A : Type ℓ} (x y : A) (before after : List A)
    → x ∷ [] ≡ before ++ y ∷ after
    → before ++ after ≡ []
single-split x y [] after h = cc
single-split x y (z ∷ []) after h = cc
single-split x y (z ∷ z' ∷ before) after h = cc

pub empty-split {ℓ} : {A : Type ℓ} (y : A) (before after : List A) → [] ≡ before ++ y ∷ after → ⊥
empty-split y [] after h = cc
empty-split y (z ∷ before) after h = cc

-- The call that is answered was the only one in flight, and the contract is busy.
only-call :
    (w : World) (before : List PoolCall) (call : PoolCall) (after : List PoolCall)
    → IsExclusive w
    → w.in_flight ≡ before ++ call ∷ after
    → (before ++ after ≡ []) × IsBusy w.contract
only-call w before call after (inl empty) split =
    absurd (empty-split call before after (sym empty ∙ split))
only-call w before call after (inr (only, e, b)) split =
    (single-split only call before after (sym e ∙ split), b)

-- What is in flight after an outcome of a call from outside.
outside-IsExclusive :
    (w : World) (r : LockupContract × List Promise)
    → IsExclusive w
    → Outcome w.contract r
    → IsExclusive (record { contract = r.0; in_flight = pool_calls (r.1) ++ w.in_flight })
outside-IsExclusive w r (inl empty) (quiet sends keeps) = inl (cc)
outside-IsExclusive w r (inl empty) (starts call sends idles busies) = inr (call, cc, busies)
outside-IsExclusive w r (inr (only, e, b)) (quiet sends keeps) = inr (only, cc, keeps b)
outside-IsExclusive w r (inr (only, e, b)) (starts call sends idles busies) =
    absurd (idle-busy w.contract idles b)

answer-IsExclusive :
    (c : LockupContract) (call : PoolCall) (r : LockupContract × List Promise)
    (rest : List PoolCall)
    → rest ≡ []
    → IsBusy c
    → Answer c call r
    → IsExclusive (record { contract = r.0; in_flight = pool_calls (r.1) ++ rest })
answer-IsExclusive c call r rest none_left b (settles sends idles) = inl (cc)
answer-IsExclusive c call r rest none_left b (goes_on amount asked sends same) =
    inr (withdraws amount, cc, subst IsBusy (sym same) b)

Step-IsExclusive :
    (is_valid : AccountId → Bool) (w v : World) → IsExclusive w → Step is_valid w v → IsExclusive v
Step-IsExclusive is_valid w v h (outside env call r other returned next) =
    subst IsExclusive (sym next) (
      outside-IsExclusive w r h
        (Ensures-apply (perform-Outcome is_valid env w.contract call other) returned))
Step-IsExclusive is_valid w v h (whitelist_answers env answer pool d returned next) =
    subst IsExclusive (sym next) (elim h [
      | inl empty ↦ inl empty
      | inr (only, e, b) ↦ inr (
        only,
        e,
        Ensures-apply (on_whitelist_is_whitelisted-IsBusy env w.contract answer pool) returned b,
      )
    ])
Step-IsExclusive is_valid w v h (pool_answers env before call after value r split returned next) =
    let (rest, busies) = only-call w before call after h split in
    subst IsExclusive (sym next) (
      answer-IsExclusive w.contract call r (before ++ after) rest busies
        (Ensures-apply (after_pool_call-Answer env w.contract call value) returned))
Step-IsExclusive is_valid w v h (callback_panics env before call after value e split failed next) =
    subst IsExclusive (sym next) (inl ((only-call w before call after h split).0))

-- From a contract with no call of its staking pool in flight, whatever happens next in whatever order
-- (calls by anyone, answers of the whitelist and of the pool, callbacks that panic): at most
-- one call of the pool is in flight at a time, and while one is, the contract is busy.
pub Steps-IsExclusive :
    (is_valid : AccountId → Bool) (w v : World)
    → w.in_flight ≡ []
    → Steps is_valid w v
    → IsExclusive v
Steps-IsExclusive is_valid w v empty steps =
    Steps-keep is_valid IsExclusive (Step-IsExclusive is_valid) w v (inl empty) steps
