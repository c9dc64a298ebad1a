-- ===== src/Lockup/Refinement.antt =====
-- The methods of venear.rs make the moves of the books, and no others.
use house_of_stake_contracts.Base.{
  ok, ok-injective, Ensures-apply, ℕ, ◌+◌, ◌-◌, ◌≤◌, ◌≡◌, refl, sym, ap, subst, ◌∙◌, Option, List,
  arith, unwrap_or,
}
use house_of_stake_contracts.Lockup.Contract.{LockupContract, Env, Promise, deposited}
use house_of_stake_contracts.Lockup.Calls.{
  locks, begins_unlock, ends_unlock, locks_pending, Locking, change_lock,
}
use house_of_stake_contracts.Lockup.Ledger.{
  Ledger, ledger, books, Move, ledger-books, ledger-rebalanced, lock, begin_unlock, end_unlock,
  lock_pending, source_of,
}
use house_of_stake_contracts.Lockup.Locking.{venear_liquid_balance}
use house_of_stake_contracts.Lockup.Effects.{
  Change, sent, locked, change_lock-Change, begun, ended, relocked,
}

module _ (env : Env) (c : LockupContract) (l : ℕ) (requested : Option ℕ)
    (r : LockupContract × List Promise) (known : venear_liquid_balance env c ≡ ok l) where
  -- The books after a change to a contract `d`, which sends an update.
  books_after :
      (d : LockupContract) (m : ℕ)
      → r ≡ sent env d
      → d.staking_information ≡ c.staking_information
      → m + d.venear_locked_balance + d.venear_pending_balance
        ≡ l + c.venear_locked_balance + c.venear_pending_balance
      → ledger env (r.0) ≡ ok (books d m)
  books_after d m written info sum =
      ap (λ x. ledger env (x.0)) written
      ∙ ledger-rebalanced env c ((sent env d).0) l m known (ap deposited info) sum

  Change-Move :
      (method : Locking)
      → Change env c requested r method
      → (t : Ledger) × (ledger env (r.0) ≡ ok t)
        × Move env.block_timestamp c.unlock_duration_ns
            (unwrap_or (source_of (books c l) method) requested)
            (books c l)
            t
            method
  Change-Move locks (locked amount liquid e asks le written) =
      let all : liquid ≡ l = ok-injective (sym e ∙ known) in
      let enough : amount ≤ l = subst (λ x. amount ≤ x) all le in
      let exact : amount ≡ unwrap_or l requested = asks ∙ ap (λ x. unwrap_or x requested) all in
      (
        _,
        books_after (record c { venear_locked_balance = c.venear_locked_balance + amount })
            (l - amount) written refl (omega arith),
        lock (omega arith) (ap (λ x. c.venear_locked_balance + x) exact) refl refl,
      )
  Change-Move begins_unlock (begun amount asks le written) = (
    _,
    books_after
        (record c {
          venear_locked_balance = c.venear_locked_balance - amount;
          venear_pending_balance = c.venear_pending_balance + amount;
          venear_unlock_timestamp = env.block_timestamp + c.unlock_duration_ns;
        })
        l written refl (omega arith),
    begin_unlock refl (omega arith) (ap (λ x. c.venear_pending_balance + x) asks) refl,
  )
  Change-Move ends_unlock (ended amount asks le time written) = (
    _,
    books_after (record c { venear_pending_balance = c.venear_pending_balance - amount })
        (l + amount) written refl (omega arith),
    end_unlock time (ap (λ x. l + x) asks) refl (omega arith) refl,
  )
  Change-Move locks_pending (relocked amount asks le written) = (
    _,
    books_after
        (record c {
          venear_pending_balance = c.venear_pending_balance - amount;
          venear_locked_balance = c.venear_locked_balance + amount;
        })
        l written refl (omega arith),
    lock_pending refl (ap (λ x. c.venear_locked_balance + x) asks) (omega arith) refl,
  )

-- A method of venear.rs that returns, on a contract whose balance covers its books, makes the move of
-- that name with the amount it is called with, or, called without one, with all of the part of the books
-- that it takes from: the amount goes from one of liquid, locked and pending to another, so their sum stays; the
-- time of release is set by the start of an unlock only, and passed by its end; and the balance
-- still covers the books.
pub change_lock-Move :
    (method : Locking) (env : Env) (c : LockupContract) (requested : Option ℕ) (s : Ledger)
    (r : LockupContract × List Promise)
    → ledger env c ≡ ok s
    → change_lock method env c requested ≡ ok r
    → (t : Ledger) × (ledger env (r.0) ≡ ok t)
      × Move env.block_timestamp c.unlock_duration_ns
          (unwrap_or (source_of s method) requested)
          s
          t
          method
change_lock-Move method env c requested s r shown returned =
    let (liquid, same) = ledger-books env c s shown in
    let (t, after, move) =
      Change-Move env c s.liquid requested r liquid method
        (Ensures-apply (change_lock-Change method env c requested) returned) in
    (
      t,
      after,
      subst
          (λ x.
            Move env.block_timestamp c.unlock_duration_ns (unwrap_or (source_of x method) requested)
              x t method)
          (sym same) move,
    )
