-- ===== src/Lockup/Effects.antt =====
-- What the methods of venear.rs do when they return.
use house_of_stake_contracts.Base.{
  leb→le, ok, u128_max, u64_max, checked, >>=-eq-ok, ok-injective, Ensures, returns, Ensures-of,
  Ensures-apply, Ensures-require, Ensures-then, ℕ, ◌+◌, ◌-◌, ◌≤◌, ◌≡◌, refl, sym, ap, ◌∙◌, Option,
  List, [], ◌∷◌, arith, unwrap_or, none, some,
}
use house_of_stake_contracts.Lockup.Contract.{LockupContract, Env, Promise, updates_venear}
use house_of_stake_contracts.Venear.Lockup.{LockupUpdateV1}
use house_of_stake_contracts.Lockup.Locking.{
  venear_lockup_update, set_venear_unlock_timestamp, lock_near, begin_unlock_near, end_unlock_near,
  venear_liquid_balance, lock_pending_near,
}
use house_of_stake_contracts.Lockup.Calls.{
  change_lock, Locking, locks, begins_unlock, ends_unlock, locks_pending,
}

-- The contract after `venear_lockup_update`, and the update that it sends.
abbrev pub update_with : Env → LockupContract → ℕ → LockupUpdateV1
update_with env c nonce = record {
  locked_near_balance = c.venear_locked_balance;
  timestamp = env.block_timestamp;
  lockup_update_nonce = nonce;
}

abbrev sent_with : Env → LockupContract → ℕ → LockupContract × List Promise
sent_with env c nonce =
    let update = update_with env c nonce in
    (
      record c { lockup_update_nonce = nonce },
      updates_venear c.venear_account_id c.version c.owner_account_id update ∷ [],
    )

abbrev pub sent : Env → LockupContract → LockupContract × List Promise
sent env c = sent_with env c (c.lockup_update_nonce + 1)

-- What each method does with the amount that is asked for, or with all there is.
pub data Change (env : Env) (c : LockupContract) (requested : Option ℕ)
    (r : LockupContract × List Promise) : Locking → Type 0 where
  locked :
      (amount liquid : ℕ)
      → venear_liquid_balance env c ≡ ok liquid
      → amount ≡ unwrap_or liquid requested
      → amount ≤ liquid
      → r ≡ sent env (record c { venear_locked_balance = c.venear_locked_balance + amount })
      → Change env c requested r locks
  begun :
      (amount : ℕ)
      → amount ≡ unwrap_or c.venear_locked_balance requested
      → amount ≤ c.venear_locked_balance
      → r
        ≡ sent env (record c {
          venear_locked_balance = c.venear_locked_balance - amount;
          venear_pending_balance = c.venear_pending_balance + amount;
          venear_unlock_timestamp = env.block_timestamp + c.unlock_duration_ns;
        })
      → Change env c requested r begins_unlock
  ended :
      (amount : ℕ)
      → amount ≡ unwrap_or c.venear_pending_balance requested
      → amount ≤ c.venear_pending_balance
      → c.venear_unlock_timestamp ≤ env.block_timestamp
      → r ≡ sent env (record c { venear_pending_balance = c.venear_pending_balance - amount })
      → Change env c requested r ends_unlock
  relocked :
      (amount : ℕ)
      → amount ≡ unwrap_or c.venear_pending_balance requested
      → amount ≤ c.venear_pending_balance
      → r
        ≡ sent env (record c {
          venear_pending_balance = c.venear_pending_balance - amount;
          venear_locked_balance = c.venear_locked_balance + amount;
        })
      → Change env c requested r locks_pending

checked-eq : (bound n m : ℕ) → checked bound n ≡ ok m → m ≡ n
checked-eq bound n m h = ground arith

venear_lockup_update-sent :
    (env : Env) (c : LockupContract) → Ensures (λ r. r ≡ sent env c) (venear_lockup_update env c)
unfolding venear_lockup_update
venear_lockup_update-sent env c =
    Ensures-then _ _ λ nonce h. returns _ (ap (sent_with env c) (checked-eq u64_max _ nonce h))

set_venear_unlock_timestamp-eq :
    (env : Env) (c d : LockupContract)
    → set_venear_unlock_timestamp env c ≡ ok d
    → d ≡ record c { venear_unlock_timestamp = env.block_timestamp + c.unlock_duration_ns }
unfolding set_venear_unlock_timestamp
set_venear_unlock_timestamp-eq env c d h =
    let (time, e, last) = >>=-eq-ok _ _ h in
    sym (ok-injective last)
    ∙ ap (λ t. record c { venear_unlock_timestamp = t }) (checked-eq u64_max _ time e)

-- The update is sent last, with the contract that is then known.
sent-from :
    (env : Env) (c d : LockupContract) (r : LockupContract × List Promise)
    → venear_lockup_update env c ≡ ok r
    → c ≡ d
    → r ≡ sent env d
sent-from env c d r h same = Ensures-apply (venear_lockup_update-sent env c) h ∙ ap (sent env) same

-- The amount that `lock_near` locks.
asked_liquid :
    (env : Env) (c : LockupContract) (requested : Option ℕ) (amount liquid : ℕ)
    → elim requested [ none ↦ venear_liquid_balance env c | some a ↦ ok a ] ≡ ok amount
    → venear_liquid_balance env c ≡ ok liquid
    → amount ≡ unwrap_or liquid requested
asked_liquid env c none amount liquid h known = ok-injective (sym h ∙ known)
asked_liquid env c (some a) amount liquid h known = ok-injective (sym h)

pub change_lock-Change :
    (method : Locking) (env : Env) (c : LockupContract) (requested : Option ℕ)
    → Ensures (λ r. Change env c requested r method) (change_lock method env c requested)
unfolding change_lock lock_near begin_unlock_near end_unlock_near lock_pending_near
change_lock-Change locks env c requested = Ensures-then _ _ λ _ h1. Ensures-then _ _ λ amount h2.
    Ensures-then _ _ λ liquid h3. Ensures-require _ _ _ λ h4. Ensures-then _ _ λ total h5.
      Ensures-of _ λ r h.
        locked amount liquid h3 (asked_liquid env c requested amount liquid h2 h3) (leb→le _ _ h4) (
          sent-from env _ _ r h
            (ap (λ k. record c { venear_locked_balance = k }) (checked-eq u128_max _ total h5)))
change_lock-Change begins_unlock env c requested = Ensures-then _ _ λ _ h1.
    Ensures-require _ _ _ λ h2. Ensures-then _ _ λ total h3. Ensures-then _ _ λ d h4.
      Ensures-of _ λ r h. begun (unwrap_or c.venear_locked_balance requested) refl (leb→le _ _ h2) (
        sent-from env _ _ r h (
          set_venear_unlock_timestamp-eq env _ d h4
          ∙ ap
              (λ p. record c {
                venear_locked_balance =
                    c.venear_locked_balance - unwrap_or c.venear_locked_balance requested;
                venear_pending_balance = p;
                venear_unlock_timestamp = env.block_timestamp + c.unlock_duration_ns;
              })
              (checked-eq u128_max _ total h3)))
change_lock-Change ends_unlock env c requested = Ensures-then _ _ λ _ h1.
    Ensures-require _ _ _ λ h2. Ensures-require _ _ _ λ h3. Ensures-of _ λ r h.
      ended (unwrap_or c.venear_pending_balance requested) refl (leb→le _ _ h2) (leb→le _ _ h3)
        (sent-from env _ _ r h refl)
change_lock-Change locks_pending env c requested = Ensures-then _ _ λ _ h1.
    Ensures-require _ _ _ λ h2. Ensures-then _ _ λ total h3. Ensures-of _ λ r h.
      relocked (unwrap_or c.venear_pending_balance requested) refl (leb→le _ _ h2) (
        sent-from env _ _ r h (
          ap
            (λ k. record c {
              venear_pending_balance =
                  c.venear_pending_balance - unwrap_or c.venear_pending_balance requested;
              venear_locked_balance = k;
            })
            (checked-eq u128_max _ total h3)))

-- Every method ends with an update.
pub Change-sent :
    (method : Locking) (env : Env) (c : LockupContract) (requested : Option ℕ)
    (r : LockupContract × List Promise)
    → Change env c requested r method
    → (d : LockupContract) × (r ≡ sent env d)
Change-sent method env c requested r (locked amount liquid e asks le written) = (_, written)
Change-sent method env c requested r (begun amount asks le written) = (_, written)
Change-sent method env c requested r (ended amount asks le time written) = (_, written)
Change-sent method env c requested r (relocked amount asks le written) = (_, written)
