-- ===== src/Lockup/Ledger.antt =====
-- The lockup contract's books: what the owner has is liquid, locked or pending, and the methods of
-- venear.rs move amounts between the three.
use house_of_stake_contracts.Base.{
  Result, ok, ◌>>=◌, u128_max, ℕ, ◌+◌, ◌≤◌, ◌≡◌, arith, >>=-eq-ok, ok-injective, ◌∙◌, ap, sym,
}
use house_of_stake_contracts.Lockup.Contract.{LockupContract, Env, get_known_deposited_balance}
use house_of_stake_contracts.Lockup.Locking.{venear_liquid_balance}
use house_of_stake_contracts.Lockup.Calls.{
  Locking, locks, begins_unlock, ends_unlock, locks_pending,
}

pub record Ledger : Type 0 where
  pub liquid : ℕ
  pub locked : ℕ
  pub pending : ℕ
  pub unlock_at : ℕ

-- The part of the books that a method takes from, and all of it when no amount is asked for.
abbrev pub source_of : Ledger → Locking → ℕ
source_of s locks = s.liquid
source_of s begins_unlock = s.locked
source_of s ends_unlock = s.pending
source_of s locks_pending = s.pending

-- What the owner may do with an amount at a time.
pub data Move (now duration amount : ℕ) (s t : Ledger) : Locking → Type 0 where
  lock :
      s.liquid ≡ t.liquid + amount
      → t.locked ≡ s.locked + amount
      → t.pending ≡ s.pending
      → t.unlock_at ≡ s.unlock_at
      → Move now duration amount s t locks
  begin_unlock :
      t.liquid ≡ s.liquid
      → s.locked ≡ t.locked + amount
      → t.pending ≡ s.pending + amount
      → t.unlock_at ≡ now + duration
      → Move now duration amount s t begins_unlock
  end_unlock :
      s.unlock_at ≤ now
      → t.liquid ≡ s.liquid + amount
      → t.locked ≡ s.locked
      → s.pending ≡ t.pending + amount
      → t.unlock_at ≡ s.unlock_at
      → Move now duration amount s t ends_unlock
  lock_pending :
      t.liquid ≡ s.liquid
      → t.locked ≡ s.locked + amount
      → s.pending ≡ t.pending + amount
      → t.unlock_at ≡ s.unlock_at
      → Move now duration amount s t locks_pending

-- The books of a contract, when its balance covers what is locked and pending.
unfoldable pub ledger : Env → LockupContract → Result Ledger
ledger env c = do
  liquid ← venear_liquid_balance env c
  ok (record {
    liquid = liquid;
    locked = c.venear_locked_balance;
    pending = c.venear_pending_balance;
    unlock_at = c.venear_unlock_timestamp;
  })

pub liquid-eq :
    (env : Env) (c : LockupContract) (l : ℕ)
    → venear_liquid_balance env c ≡ ok l
    → (l + c.venear_locked_balance + c.venear_pending_balance
        ≡ env.account_balance + get_known_deposited_balance c)
      × (env.account_balance + get_known_deposited_balance c ≤ u128_max)
unfolding venear_liquid_balance ◌>>=◌
liquid-eq env c l h = ground arith

pub liquid-of :
    (env : Env) (c : LockupContract) (l : ℕ)
    → l + c.venear_locked_balance + c.venear_pending_balance
      ≡ env.account_balance + get_known_deposited_balance c
    → env.account_balance + get_known_deposited_balance c ≤ u128_max
    → venear_liquid_balance env c ≡ ok l
unfolding venear_liquid_balance ◌>>=◌
liquid-of env c l sum fits = ground arith

-- The books with a liquid amount.
abbrev pub books : LockupContract → ℕ → Ledger
books c liquid = record {
  liquid = liquid;
  locked = c.venear_locked_balance;
  pending = c.venear_pending_balance;
  unlock_at = c.venear_unlock_timestamp;
}

pub ledger-books :
    (env : Env) (c : LockupContract) (s : Ledger)
    → ledger env c ≡ ok s
    → (venear_liquid_balance env c ≡ ok s.liquid) × (s ≡ books c s.liquid)
unfolding ledger
ledger-books env c s h =
    let (l, e, last) = >>=-eq-ok _ _ h in
    let same : books c l ≡ s = ok-injective last in
    (e ∙ ap (λ x. ok (x.liquid)) same, sym same ∙ ap (λ x. books c (x.liquid)) same)

-- The books balance after a change that keeps the sum.
pub ledger-rebalanced :
    (env : Env) (c d : LockupContract) (l m : ℕ)
    → venear_liquid_balance env c ≡ ok l
    → get_known_deposited_balance d ≡ get_known_deposited_balance c
    → m + d.venear_locked_balance + d.venear_pending_balance
      ≡ l + c.venear_locked_balance + c.venear_pending_balance
    → ledger env d ≡ ok (books d m)
unfolding ledger ◌>>=◌
ledger-rebalanced env c d l m h deposits sum =
    let (total, fits) = liquid-eq env c l h in
    let now : venear_liquid_balance env d ≡ ok m =
      liquid-of env d m (omega (arith, sum, total, deposits)) (omega (arith, fits, deposits)) in
    ap (λ m. m >>= λ x. ok (books d x)) now
