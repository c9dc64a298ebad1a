-- ===== src/Staking/Solvency/Shares.antt =====
-- Buying, selling and claiming keep what is owed within the buckets, and the users' shares within those
-- issued (staking-contract/src/validators.rs, withdraw.rs).
use house_of_stake_contracts.Base.{
  ◌-◌, ◌∙◌, ◌++◌, if◌then◌else◌, ◌==◌, none, u128_max, ℕ, ◌+◌, ◌≤◌, ◌<◌, ◌≡◌, sym, ap, subst, ◌≢◌,
  Option, some, List, [], ◌∷◌, arith, unwrap_or, inl, inr,
}
use house_of_stake_contracts.Common.Account.{AccountId}
use house_of_stake_contracts.Staking.Types.{put, PendingUnstakeTranche, Validator, Contract, Env}
use house_of_stake_contracts.Merkle.Tree.{insert}
use house_of_stake_contracts.Staking.Solvency.{liability_at, issued_at, insert-cases}
use house_of_stake_contracts.Staking.Validators.{tranches_of, shares_of}
use house_of_stake_contracts.Staking.Sums.{IsBoundOf, IsBoundOf-changed, sum_over-same}
use house_of_stake_contracts.Staking.Effects.{Staked, staked, Unstaked, unstaked}

abbrev pub total_of : List PendingUnstakeTranche → ℕ
total_of [] = 0
total_of (t ∷ ts) = t.amount + total_of ts

-- What a validator's users have unstaked and not claimed, and the shares that they hold.
abbrev pub owed : Contract → AccountId → AccountId → ℕ
owed c account id = total_of (tranches_of c account id)

abbrev pub liabilities : Contract → AccountId → ℕ
liabilities c id = liability_at (c.validators id)

abbrev pub issued : Contract → AccountId → ℕ
issued c id = issued_at (c.validators id)

abbrev pub IsSolvent : Contract → Type 0
IsSolvent c = IsBoundOf (owed c) (liabilities c) × IsBoundOf (shares_of c) (issued c)

-- Amounts of NEAR and of shares that fit their types.
abbrev pub IsFit : Contract → Type 0
IsFit c = (id : AccountId) → (liabilities c id ≤ u128_max) × (issued c id < u128_max)

put-here {ℓ} :
    {A : Type ℓ} (m : AccountId → AccountId → Option A) (a v : AccountId) (o : Option A)
    → put m a v o a v ≡ o
put-here m a v o = ground arith

put-other {ℓ} :
    {A : Type ℓ} (m : AccountId → AccountId → Option A) (a v : AccountId) (o : Option A)
    (b w : AccountId)
    → b ≢ a
    → put m a v o b w ≡ m b w
put-other m a v o b w apart = ground arith

put-elsewhere {ℓ} :
    {A : Type ℓ} (m : AccountId → AccountId → Option A) (a v : AccountId) (o : Option A)
    (b w : AccountId)
    → w ≢ v
    → put m a v o b w ≡ m b w
put-elsewhere m a v o b w apart = ground arith

insert-elsewhere {ℓ} :
    {A : Type ℓ} (m : AccountId → Option A) (id : AccountId) (w : A) (i : AccountId)
    → i ≢ id
    → insert m id w i ≡ m i
insert-elsewhere m id w i apart = ground arith

pub insert-here {ℓ} :
    {A : Type ℓ} (m : AccountId → Option A) (id : AccountId) (w : A) → insert m id w id ≡ some w
insert-here m id w = ground arith

-- What a measure makes of a map with two keys, and of the validators.
abbrev parts {ℓ} :
    {A : Type ℓ} → (Option A → ℕ) → (AccountId → AccountId → Option A) → AccountId → AccountId → ℕ
parts measure m b i = measure (m b i)

abbrev bounds : (Option Validator → ℕ) → (AccountId → Option Validator) → AccountId → ℕ
bounds bound vs i = bound (vs i)

-- A measure of one map, where one account's entry at one validator and that validator are written.
pub measured {ℓ} :
    {A : Type ℓ} (measure : Option A → ℕ) (bound : Option Validator → ℕ)
    (m n : AccountId → AccountId → Option A) (vs ws : AccountId → Option Validator)
    (a id : AccountId) (o : Option A) (v w : Validator)
    → IsBoundOf (parts measure m) (bounds bound vs)
    → n ≡ put m a id o
    → ws ≡ insert vs id w
    → vs id ≡ some v
    → measure o + bound (some v) ≤ measure (m a id) + bound (some w)
    → IsBoundOf (parts measure n) (bounds bound ws)
measured measure bound m n vs ws a id o v w h maps validators found le =
    subst (λ p. IsBoundOf p (bounds bound ws)) (sym (ap (parts measure) maps))
      (subst (IsBoundOf (parts measure (put m a id o))) (sym (ap (bounds bound) validators)) (
        IsBoundOf-changed (parts measure m) (parts measure (put m a id o)) (bounds bound vs)
          (bounds bound (insert vs id w)) a id h
          (λ b i apart. ap measure (put-elsewhere m a id o b i apart))
          (λ b apart. ap measure (put-other m a id o b id apart))
          (λ i apart. ap bound (insert-elsewhere vs id w i apart))
          (omega (
            arith,
            le,
            ap measure (put-here m a id o),
            ap bound (insert-here vs id w),
            ap bound found,
          ))))

total_of-append :
    (ts : List PendingUnstakeTranche) (t : PendingUnstakeTranche)
    → total_of (ts ++ t ∷ []) ≡ total_of ts + t.amount
total_of-append [] t = omega arith
total_of-append (x ∷ ts) t = omega (arith, total_of-append ts t)

-- Only the shares change.
pub same_measure {ℓ} :
    {A : Type ℓ} (measure : Option A → ℕ) (bound : Option Validator → ℕ)
    (m n : AccountId → AccountId → Option A) (vs ws : AccountId → Option Validator) (id : AccountId)
    (v w : Validator)
    → IsBoundOf (parts measure m) (bounds bound vs)
    → n ≡ m
    → ws ≡ insert vs id w
    → vs id ≡ some v
    → bound (some v) ≤ bound (some w)
    → IsBoundOf (parts measure n) (bounds bound ws)
same_measure measure bound m n vs ws id v w h maps validators found le i xs distinct =
    let all = h i xs distinct in
    let same =
      sum_over-same (λ b. measure (m b i)) (λ b. measure (n b i)) xs
        λ b. ap (λ k. measure (k b i)) maps in
    let read = ap (λ k. bound (k i)) validators in
    elim (insert-cases vs id w i) [
      | inl (here, now) ↦
          let was : bound (vs i) ≡ bound (some v) = ap bound (ap vs here ∙ found) in
          omega (arith, all, same, read, ap bound now, was, le)
      | inr now ↦ omega (arith, all, same, read, ap bound now)
    ]

abbrev pub shares_in : Option ℕ → ℕ
shares_in o = unwrap_or 0 o

abbrev pub owed_in : Option (List PendingUnstakeTranche) → ℕ
owed_in o = total_of (unwrap_or [] o)

pub Staked-IsSolvent :
    (c : Contract) (buyer id : AccountId) (deposit : ℕ) (r : Contract × ℕ)
    → IsSolvent c
    → IsFit (r.0)
    → Staked c buyer id deposit r
    → IsSolvent (r.0)
Staked-IsSolvent c buyer id deposit r (owes, holds) fits s =
    let v = s.before in
    let w = staked v deposit (r.1) in
    let room : issued_at (some w) < u128_max =
      subst (λ o. issued_at o < u128_max)
        (ap (λ m. m id) s.validators_are ∙ insert-here c.validators id w) ((fits id).1) in
    (
      same_measure owed_in liability_at c.user_pending_unstake (r.0).user_pending_unstake
          c.validators (r.0).validators id v w owes s.tranches_are s.validators_are s.found
          (omega arith),
      measured shares_in issued_at c.user_validator_shares (r.0).user_validator_shares c.validators
          (r.0).validators buyer id _ v w holds s.shares_are s.validators_are s.found
          (omega (arith, room)),
    )

left_shares :
    (held s : ℕ) → s ≤ held → shares_in (if held == s then none else some (held - s)) ≡ held - s
left_shares held s le = ground arith

pub Unstaked-IsSolvent :
    (env : Env) (c : Contract) (account id : AccountId) (shares : ℕ) (r : Contract × ℕ)
    → IsSolvent c
    → Unstaked env c account id shares r
    → IsSolvent (r.0)
Unstaked-IsSolvent env c account id shares r (owes, holds) s =
    let v = s.before in
    let w = unstaked v (r.1) shares in
    (
      measured owed_in liability_at c.user_pending_unstake (r.0).user_pending_unstake c.validators
          (r.0).validators account id _ v w owes s.tranches_are s.validators_are s.found
          (omega (
            arith,
            total_of-append (tranches_of c account id)
                (record { amount = r.1; available_epoch_height = s.epoch }),
          )),
      measured shares_in issued_at c.user_validator_shares (r.0).user_validator_shares c.validators
          (r.0).validators account id _ v w holds s.shares_are s.validators_are s.found
          (omega (arith, left_shares (shares_of c account id) shares s.held, s.enough, s.held)),
    )
