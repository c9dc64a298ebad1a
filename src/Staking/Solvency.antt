-- ===== src/Staking/Solvency.antt =====
-- What the staking contract owes its users, and the buckets that it is paid from
-- (staking-contract/src/validators.rs, epoch.rs, withdraw.rs).
pub mod Settling
pub mod Shares
pub mod Claims
pub mod History
use house_of_stake_contracts.Base.{
  leb, ltb, ◌==◌, if◌then◌else◌, is_some, Bool-cases, Option-cases, ltb→lt, leb→le, le→leb, ==_iff,
  ==_refl, length, get_elem?, set, drop, All, contains, length-append, length-set, Panic, Result,
  ok, panic, ◌>>=◌, ◌>>◌, require, expect, u128_max, u64_max, u32_max, checked, u32_add, u64_add,
  u128_add, u128_mul, checked_sub, >>=-eq-ok, Result-cases, ok-injective, >>=-congr, >>=-assoc,
  Ensures, returns, panics, Ensures-ok, Ensures-of, Ensures-apply, Ensures-require, Ensures-bind,
  Ensures-then, Ensures-if, Ensures-map, ℕ, zero, suc, ◌+◌, ◌-◌, ◌*◌, ◌/◌, ◌%◌, ◌^◌, ◌≤◌, ◌<◌, min,
  max, ◌≡◌, refl, sym, ap, subst, ◌∙◌, ◌≢◌, ◌↔◌, ◌⊎◌, inl, inr, Bool, true, false, not, ◌&&◌, ◌||◌,
  Option, none, some, List, [], ◌∷◌, ◌++◌, map, arith,
}
use house_of_stake_contracts.Common.Account.{AccountId}
use native.Mathlib.Decide.{ℕ_discrete}
use house_of_stake_contracts.Staking.Types.{Validator, Contract}
use house_of_stake_contracts.Staking.Validators.{internal_set_validator}
use house_of_stake_contracts.Merkle.Tree.{insert}

-- The NEAR of a validator that waits for the users who have unstaked.
abbrev pub liability : Validator → ℕ
liability v = v.pending_to_unstake + v.pending_to_withdraw + v.pending_to_claim

abbrev pub liability_at : Option Validator → ℕ
liability_at none = 0
liability_at (some v) = liability v

abbrev pub issued_at : Option Validator → ℕ
issued_at none = 0
issued_at (some v) = v.total_shares

-- A validator is written, whose buckets hold no less and whose shares are the same.
abbrev pub Covers : Option Validator → Option Validator → Type 0
Covers o p =
    (issued_at o ≡ issued_at p) × (liability_at o ≤ u128_max → liability_at o ≤ liability_at p)

pub record Grows (c d : Contract) : Type 0 where
  pub same_tranches : d.user_pending_unstake ≡ c.user_pending_unstake
  pub same_shares : d.user_validator_shares ≡ c.user_validator_shares
  pub covers : (id : AccountId) → Covers (c.validators id) (d.validators id)

pub Covers-refl : (o : Option Validator) → Covers o o
Covers-refl o = (refl, λ fits. omega arith)

pub Grows-refl : (c : Contract) → Grows c c
Grows-refl c = record {
  same_tranches = refl;
  same_shares = refl;
  covers = λ id. Covers-refl (c.validators id);
}

pub insert-cases {ℓ} :
    {A : Type ℓ} (m : AccountId → Option A) (id : AccountId) (w : A) (i : AccountId)
    → ((i ≡ id) × (insert m id w i ≡ some w)) ⊎ (insert m id w i ≡ m i)
insert-cases m id w i = elim (ℕ_discrete i id) [
  | yes here ↦ inl (here, ground arith)
  | no apart ↦ inr (ground arith)
]

pub insert-Covers :
    (m : AccountId → Option Validator) (id i : AccountId) (w : Validator)
    → Covers (m id) (some w)
    → Covers (m i) (insert m id w i)
insert-Covers m id i w h = elim (insert-cases m id w i) [
  | inl (here, read) ↦
      subst (Covers (m i)) (sym read) (subst (λ x. Covers (m x) (some w)) (sym here) h)
  | inr read ↦ subst (Covers (m i)) (sym read) (Covers-refl (m i))
]

pub set-Grows :
    (c : Contract) (id : AccountId) (v w : Validator)
    → c.validators id ≡ some v
    → w.total_shares ≡ v.total_shares
    → (liability v ≤ u128_max → liability v ≤ liability w)
    → Grows c (internal_set_validator id w c)
set-Grows c id v w found shares covers = record {
  same_tranches = refl;
  same_shares = refl;
  covers = λ i.
      insert-Covers c.validators id i w
        (subst (λ o. Covers o (some w)) (sym found) (sym shares, covers));
}
