-- ===== src/Venear/Supply/Measures.antt =====
-- Numbers of an account that its growth does not change.
use house_of_stake_contracts.Base.{
  ok, ◌>>=◌, require, Result-cases, ℕ, ◌+◌, ◌≤◌, ◌≡◌, ap, inl, inr, arith, List,
}
use house_of_stake_contracts.Common.Account
use house_of_stake_contracts.Common.Balance
use house_of_stake_contracts.Venear.Supply.{worth, whole_near}
use house_of_stake_contracts.Common.Growth.{Fraction, fixed_rate, VenearGrowthConfig}
use house_of_stake_contracts.Common.Account.{Account, DelegationEntry}
use house_of_stake_contracts.Common.Exact.{fine_grain, exact_growth}
use house_of_stake_contracts.Common.Token.{truncate_near_to_millis, truncate_to_seconds}
use house_of_stake_contracts.Common.Balance.Growing.{IsWhole, exact_growth-add}
use house_of_stake_contracts.Common.Balance.Delegation.{update-parts}
use house_of_stake_contracts.Common.Balance.{PooledVenearBalance}

-- The parts of an account's update.
update-parts_account :
    (a b : Account) (timestamp : ℕ) (config : VenearGrowthConfig)
    → Account.update a timestamp config ≡ ok b
    → (a.update_timestamp ≤ truncate_to_seconds timestamp)
      × (Balance.update a.balance a.update_timestamp (truncate_to_seconds timestamp) config
          ≡ ok b.balance)
      × (b.update_timestamp ≡ truncate_to_seconds timestamp)
unfolding Account.update ◌>>=◌ require
update-parts_account a b timestamp config h =
    elim (Result-cases
      (Balance.update a.balance a.update_timestamp (truncate_to_seconds timestamp) config)) [
        | inl (own, e) ↦
            elim (Result-cases (
              Balance.update a.delegated_balance a.update_timestamp (truncate_to_seconds timestamp)
                config)) [
                  | inl (delegated, f) ↦ (ground arith, ground arith, ground arith)
                  | inr (p, f) ↦ ground arith
                ]
        | inr (p, e) ↦ ground arith
      ]

pub truncate_to_seconds-IsWhole : (timestamp : ℕ) → IsWhole (truncate_to_seconds timestamp)
truncate_to_seconds-IsWhole timestamp = omega arith

module _ (rate : Fraction) where
  -- An account grown to a time; its delegations and what is delegated to it may differ.
  pub record IsGrownTo (now : ℕ) (a b : Account) : Type 0 where
    pub order : a.update_timestamp ≤ b.update_timestamp
    pub at : b.update_timestamp ≡ truncate_to_seconds now
    pub start_whole : IsWhole a.update_timestamp
    pub end_whole : IsWhole b.update_timestamp
    pub near : b.balance.near_balance ≡ a.balance.near_balance
    pub extra :
        b.balance.extra_venear_balance
        ≡ a.balance.extra_venear_balance
          + exact_growth rate a.update_timestamp b.update_timestamp a.balance.near_balance

  -- What is delegated, to whom and by whom, has no part in it.
  pub IsGrownTo-delegated :
      (now : ℕ) (a b : Account) (pool : PooledVenearBalance) (ds : List DelegationEntry)
      → IsGrownTo now a b
      → IsGrownTo now a (record b { delegated_balance = pool; delegations = ds })
  IsGrownTo-delegated now a b pool ds g = record {
    order = g.order;
    at = g.at;
    start_whole = g.start_whole;
    end_whole = g.end_whole;
    near = g.near;
    extra = g.extra;
  }

  abbrev pub IsSteady : ℕ → (Account → ℕ) → Type 0
  IsSteady now f = (a b : Account) → IsGrownTo now a b → f b ≡ f a

  pub whole_near-IsSteady : (now : ℕ) → IsSteady now whole_near
  whole_near-IsSteady now a b g = ap truncate_near_to_millis g.near

  pub worth-IsSteady :
      rate.denominator ≡ fine_grain
      → (now time : ℕ) → truncate_to_seconds now ≤ time
      → IsWhole time
      → IsSteady now (worth rate time)
  worth-IsSteady fine now time le whole a b g =
      let split =
        exact_growth-add rate fine a.update_timestamp b.update_timestamp time a.balance.near_balance
          g.order (omega (arith, g.at)) g.start_whole g.end_whole whole in
      rw (g.near, g.extra) (omega (arith, split))

  pub update-IsGrownTo :
      rate.denominator ≡ fine_grain
      → (a b : Account) (timestamp : ℕ) → IsWhole a.update_timestamp
      → Account.update a timestamp (fixed_rate rate) ≡ ok b
      → IsGrownTo timestamp a b
  update-IsGrownTo fine a b timestamp whole h =
      let (order, own, at) = update-parts_account a b timestamp (fixed_rate rate) h in
      let (near, extra, _) =
        update-parts rate fine a.balance b.balance a.update_timestamp
          (truncate_to_seconds timestamp) order whole (truncate_to_seconds-IsWhole timestamp) own in
      record {
        order = omega arith;
        at = at;
        start_whole = whole;
        end_whole = rw at (truncate_to_seconds-IsWhole timestamp);
        near = near;
        extra = rw at extra;
      }
