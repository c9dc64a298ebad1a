-- ===== src/Lockup/Release.antt =====
-- No NEAR leaves the lock before the time of an unlock has passed (lockup-contract/src/venear.rs).
use house_of_stake_contracts.Base.{
  Option, ok, >>=-eq-ok, ok-injective, Ensures, Ensures-of, Ensures-apply, ℕ, ◌+◌, ◌≤◌, ◌<◌, ◌≡◌,
  refl, sym, ap, subst, ◌∙◌, ◌⊎◌, inl, inr, Bool, List, arith, IsChronological, end_time, run,
  run-keeps_in_time,
}
use house_of_stake_contracts.Lockup.Contract.{LockupContract, Env, Promise}
use house_of_stake_contracts.Lockup.Calls.{
  locks, begins_unlock, ends_unlock, locks_pending, Call, Locking, new_state, change_lock,
  perform-change_lock, perform,
}
use house_of_stake_contracts.Common.Account.{AccountId}
use house_of_stake_contracts.Lockup.Frame.{SameLock, perform-Kept, lock_of}
use house_of_stake_contracts.Lockup.Effects.{
  Change, sent, locked, begun, ended, relocked, change_lock-Change,
}

-- What is locked or on its way out.
abbrev pub held : LockupContract → ℕ
held c = c.venear_locked_balance + c.venear_pending_balance

module _ (is_valid : AccountId → Bool) (amount start duration : ℕ) where
  -- As long as the time has not come, at least the amount is held, and what is pending is released
  -- later.
  abbrev IsHeld : ℕ → LockupContract → Type 0
  IsHeld now c =
      (start ≤ now)
      × (c.unlock_duration_ns ≡ duration)
      × (now < start + duration
          → (amount ≤ held c)
            × ((c.venear_pending_balance ≡ 0) ⊎ (start + duration ≤ c.venear_unlock_timestamp)))

  same-IsHeld : (now : ℕ) (c d : LockupContract) → IsHeld now c → SameLock c d → IsHeld now d
  same-IsHeld now c d (reached, kept, h) same =
      let k : d.venear_locked_balance ≡ c.venear_locked_balance = ap (λ l. l.locked) same in
      let p : d.venear_pending_balance ≡ c.venear_pending_balance = ap (λ l. l.pending) same in
      let t : d.venear_unlock_timestamp ≡ c.venear_unlock_timestamp = ap (λ l. l.unlock_at) same in
      (
        reached,
        ap (λ l. l.duration) same ∙ kept,
        λ early.
            let (enough, later) = h early in
            (
              omega arith,
              elim later [ inl nothing ↦ inl (p ∙ nothing) | inr after ↦ inr (omega arith) ],
            ),
      )

  sent-IsHeld :
      (env : Env) (d : LockupContract) (r : LockupContract × List Promise)
      → r ≡ sent env d
      → IsHeld env.block_timestamp d
      → IsHeld env.block_timestamp (r.0)
  sent-IsHeld env d r written h =
      same-IsHeld env.block_timestamp d (r.0) h (ap (λ x. lock_of (x.0)) written)

  Change-IsHeld :
      (method : Locking) (env : Env) (c : LockupContract) (requested : Option ℕ)
      (r : LockupContract × List Promise)
      → IsHeld env.block_timestamp c
      → Change env c requested r method
      → IsHeld env.block_timestamp (r.0)
  Change-IsHeld locks env c requested r (reached, kept, h) (locked a l e asks le written) =
      sent-IsHeld env _ r written
        (reached, kept, λ early. (omega (arith, (h early).0), (h early).1))
  Change-IsHeld begins_unlock env c requested r (reached, kept, h) (begun a asks le written) =
      sent-IsHeld env _ r written
        (reached, kept, λ early. (omega (arith, (h early).0), inr (omega arith)))
  Change-IsHeld ends_unlock env c requested r (reached, kept, h) (ended a asks le time written) =
      sent-IsHeld env _ r written (
        reached,
        kept,
        λ early.
            let (enough, later) = h early in
            let none_left : c.venear_pending_balance ≡ 0 = elim later [
              | inl nothing ↦ nothing
              | inr after ↦ omega arith
            ] in
            (omega arith, inl (omega arith)),
      )
  Change-IsHeld locks_pending env c requested r (reached, kept, h) (relocked a asks le written) =
      sent-IsHeld env _ r written (
        reached,
        kept,
        λ early.
            let (enough, later) = h early in
            (omega arith, elim later [ inl nothing ↦ inl (omega arith) | inr after ↦ inr after ]),
      )

  perform-IsHeld :
      (env : Env) (c : LockupContract) (call : Call)
      → IsHeld env.block_timestamp c
      → Ensures (IsHeld env.block_timestamp) (new_state is_valid env c call)
  perform-IsHeld env c call h = Ensures-of _ λ d e.
      let (r, returned, last) = >>=-eq-ok _ _ e in
      let found : IsHeld env.block_timestamp (r.0) = elim (perform-Kept is_valid env c call) [
        | inl kept ↦ same-IsHeld env.block_timestamp c (r.0) h (Ensures-apply kept returned)
        | inr (method, requested, same) ↦
            let changed : change_lock method env c requested ≡ ok r =
              perform-change_lock is_valid env c method requested
              ∙ ap (perform is_valid env c) (sym same)
              ∙ returned in
            Change-IsHeld method env c requested r h
              (Ensures-apply (change_lock-Change method env c requested) changed)
      ] in
      subst (IsHeld env.block_timestamp) (ok-injective last) found

-- What is locked or pending at a time at which nothing is pending, or nothing that will be released
-- within the duration of an unlock, is locked or pending until that duration has passed: no calls, by
-- whomever and in whatever order, make it less, the callbacks included.
pub held-run :
    (is_valid : AccountId → Bool) (c : LockupContract) (start : ℕ) (calls : List (Env × Call))
    → (c.venear_pending_balance ≡ 0) ⊎ (start + c.unlock_duration_ns ≤ c.venear_unlock_timestamp)
    → IsChronological (new_state is_valid) (λ env. env.block_timestamp) start calls
    → end_time (new_state is_valid) (λ env. env.block_timestamp) start calls
      < start + c.unlock_duration_ns
    → held c ≤ held (run (new_state is_valid) c calls)
held-run is_valid c start calls later order early =
    let (reached, kept, h) =
      run-keeps_in_time (new_state is_valid) (λ env. env.block_timestamp)
        (IsHeld is_valid (held c) start c.unlock_duration_ns)
        (λ now after d le (reached, kept, h). (omega arith, kept, λ e. h (omega arith)))
        (perform-IsHeld is_valid (held c) start c.unlock_duration_ns) start c calls
        (omega arith, refl, λ e. (omega arith, later)) order in
    (h early).0
