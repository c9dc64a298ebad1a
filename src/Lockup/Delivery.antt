-- ===== src/Lockup/Delivery.antt =====
-- A lockup contract and the veNEAR contract together: the update that the one sends is what the
-- other takes (lockup-contract/src/venear.rs, venear-contract/src/lockup.rs).
use house_of_stake_contracts.Base.{
  Result, ok, Ensures, Ensures-of, Ensures-apply, Ensures-then, ℕ, ◌+◌, ◌≡◌, refl, sym, ap, subst,
  ◌∙◌, Option, some, List, [], ◌∷◌, arith, account_not_found,
}
use house_of_stake_contracts.Common.Growth.{Fraction}
use house_of_stake_contracts.Common.Exact.{fine_grain}
use house_of_stake_contracts.Common.Account.{VAccount, AccountId, Account}
use house_of_stake_contracts.Merkle.{CryptoHash}
use house_of_stake_contracts.Venear.Contract
use house_of_stake_contracts.Venear.Contract.{AccountInternal, current}
use house_of_stake_contracts.Lockup.Contract.{LockupContract, Promise, updates_venear, Env}
use house_of_stake_contracts.Venear.Lockup.{on_lockup_update, update_v1}
use house_of_stake_contracts.Venear.Supply.{IsAccounted}
use house_of_stake_contracts.Venear.Accounts.{internal_get_account}
use house_of_stake_contracts.Lockup.Effects.{sent, update_with, Change-sent, change_lock-Change}
use house_of_stake_contracts.Lockup.Calls.{Locking, change_lock}
use house_of_stake_contracts.Venear.Nonces.{internal_lockup_update-accounts}
use house_of_stake_contracts.Venear.Effects.{internal_lockup_update-balance}
use house_of_stake_contracts.Venear.Nonces.Replay.{read-stored}

module _ (hash_value : VAccount → CryptoHash) (hash_pair : CryptoHash → CryptoHash → CryptoHash)
    (get_lockup_account_id : AccountId → AccountId) where
  -- The veNEAR contract takes a promise of the lockup contract, if it is for it.
  unfoldable pub deliver : Contract.Env → Contract.Contract → Promise → Result Contract.Contract
  deliver env v (updates_venear venear version owner update) =
      on_lockup_update hash_value hash_pair get_lockup_account_id env v version owner
        (update_v1 update)
  deliver env v p = ok v

  -- The veNEAR account of the lockup's owner agrees with the lockup.
  abbrev pub Agrees : LockupContract → Contract.Contract → Contract.Contract → Type 0
  Agrees c v w =
      (x : AccountInternal) × (y : Account) × (v.accounts c.owner_account_id ≡ some (current x))
      × (w.accounts c.owner_account_id
          ≡ some (current (record x { lockup_update_nonce = c.lockup_update_nonce })))
      × (internal_get_account w c.owner_account_id ≡ some y)
      × (y.balance.near_balance ≡ c.venear_locked_balance + x.deposit)

  module _ (rate : Fraction) (fine : rate.denominator ≡ fine_grain) (venv : Contract.Env)
      (v : Contract.Contract)
      (accounted : IsAccounted hash_value hash_pair rate venv.block_timestamp v) where
    abbrev Delivered : LockupContract × List Promise → Type 0
    Delivered r = (p : Promise) × (r.1 ≡ p ∷ []) × Ensures (Agrees (r.0) v) (deliver venv v p)

    sent-Delivered : (env : Env) (d : LockupContract) → Delivered (sent env d)
    unfolding deliver on_lockup_update
    sent-Delivered env d = (
      _,
      refl,
      Ensures-then _ _ λ _ h1. Ensures-then _ _ λ x h2. Ensures-then _ _ λ _ h3. Ensures-of _ λ w h.
          let update = update_with env d (d.lockup_update_nonce + 1) in
          let (newer, written) =
            Ensures-apply
              (internal_lockup_update-accounts hash_value hash_pair venv d.owner_account_id x update
                v)
              h in
          let (old, y, before, stored, same, near, extra) =
            Ensures-apply
              (internal_lockup_update-balance hash_value hash_pair rate fine venv d.owner_account_id
                x update v accounted)
              h in
          (
            x,
            y,
            read-stored v d.owner_account_id x account_not_found h2,
            ap (λ m. m d.owner_account_id) written ∙ ground arith,
            stored,
            near,
          ),
    )

    -- A lockup contract's method of venear.rs that returns sends one update, and if the veNEAR
    -- contract takes it, in a state whose supply is backed and at the denominator 10^30: the owner's
    -- veNEAR account has then as much NEAR as the lockup has locked after the method, with the
    -- account's own deposit, and its nonce is the lockup's.
    pub change_lock-deliver :
        (method : Locking) (env : Env) (c : LockupContract) (requested : Option ℕ)
        (r : LockupContract × List Promise)
        → change_lock method env c requested ≡ ok r
        → (p : Promise) × (r.1 ≡ p ∷ []) × Ensures (Agrees (r.0) v) (deliver venv v p)
    change_lock-deliver method env c requested r returned =
        let (d, written) =
          Change-sent method env c requested r
            (Ensures-apply (change_lock-Change method env c requested) returned) in
        subst Delivered (sym written) (sent-Delivered env d)
