-- ===== src/Common/Balance/Growing.antt =====
-- Growth of a balance over consecutive periods.
use house_of_stake_contracts.Base.{
  Result, ok, ◌>>=◌, require, expect, u128_max, checked, >>=-congr, ℕ, ◌+◌, ◌-◌, ◌/◌, ◌≤◌, ◌≡◌,
  arith,
}
use house_of_stake_contracts.Common.Token.{near_add, nanos_per_second, truncate_to_seconds}
use house_of_stake_contracts.Common.Growth.{Fraction, fixed_rate}
use house_of_stake_contracts.Common.Exact.{fine_grain, exact_growth, calculate-exact}
use house_of_stake_contracts.Common.Balance.{VenearBalance, update}

-- A whole second, to which every stored timestamp is truncated.
abbrev pub IsWhole : ℕ → Type 0
IsWhole t = truncate_to_seconds t ≡ t

-- The growth ends where the extra balance no longer fits.
unfoldable pub grown : VenearBalance → ℕ → Result VenearBalance
grown b growth = near_add b.extra_venear_balance growth >>= λ extra.
    ok (record b { extra_venear_balance = extra })

checked-then_grown :
    (b : VenearBalance) (growth : ℕ)
    → (checked u128_max growth >>= λ g. near_add b.extra_venear_balance g >>= λ extra.
        ok (record b { extra_venear_balance = extra }))
      ≡ grown b growth
unfolding grown ◌>>=◌ require expect
checked-then_grown b growth = ground arith

pub grown-grown : (b : VenearBalance) (g h : ℕ) → (grown b g >>= λ c. grown c h) ≡ grown b (g + h)
unfolding grown ◌>>=◌ require expect
grown-grown b g h = ground arith

-- The near balance does not grow.
pub near-grown :
    (b : VenearBalance) (growth : ℕ) (c : VenearBalance)
    → grown b growth ≡ ok c
    → c.near_balance ≡ b.near_balance
unfolding grown ◌>>=◌ require expect
near-grown b growth c h = ground arith

module _ (rate : Fraction) (fine : rate.denominator ≡ fine_grain) where
  pub update-eq-grown :
      (b : VenearBalance) (s t : ℕ)
      → s ≤ t
      → IsWhole s
      → IsWhole t
      → update b s t (fixed_rate rate) ≡ grown b (exact_growth rate s t b.near_balance)
  unfolding update
  update-eq-grown b s t le hs ht =
      rw (calculate-exact rate s t b.near_balance fine le hs ht)
        (checked-then_grown b (exact_growth rate s t b.near_balance))

  pub exact_growth-add :
      (r s t balance : ℕ)
      → r ≤ s
      → s ≤ t
      → IsWhole r
      → IsWhole s
      → IsWhole t
      → exact_growth rate r s balance + exact_growth rate s t balance
        ≡ exact_growth rate r t balance
  exact_growth-add r s t balance rs st hr hs ht =
      let split : (s - r) / nanos_per_second + (t - s) / nanos_per_second
          ≡ (t - r) / nanos_per_second =
        omega arith in
      rw (← split) (omega arith)

  grown-then_update :
      (b : VenearBalance) (g s t : ℕ)
      → s ≤ t
      → IsWhole s
      → IsWhole t
      → (grown b g >>= λ c. update c s t (fixed_rate rate))
        ≡ (grown b g >>= λ c. grown c (exact_growth rate s t b.near_balance))
  grown-then_update b g s t st hs ht =
      >>=-congr (grown b g) _ _ λ c e. rw (← near-grown b g c e) (update-eq-grown c s t st hs ht)

  -- At the denominator 10^30, growing a balance to one whole second and on to a later one gives what
  -- growing it at once gives, panics included.
  pub update-update_balance :
      (b : VenearBalance) (r s t : ℕ)
      → r ≤ s
      → s ≤ t
      → IsWhole r
      → IsWhole s
      → IsWhole t
      → (update b r s (fixed_rate rate) >>= λ c. update c s t (fixed_rate rate))
        ≡ update b r t (fixed_rate rate)
  update-update_balance b r s t rs st hr hs ht = rw (
    update-eq-grown b r s rs hr hs,
    update-eq-grown b r t (omega arith) hr ht,
    grown-then_update b (exact_growth rate r s b.near_balance) s t st hs ht,
    grown-grown b (exact_growth rate r s b.near_balance) (exact_growth rate s t b.near_balance),
    exact_growth-add r s t b.near_balance rs st hr hs ht,
  )
