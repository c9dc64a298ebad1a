-- ===== src/Common/Exact.antt =====
-- Growth at the denominator 10^30 that the sources ask for is exact: whole seconds times whole
-- milliNEAR leave no remainder.
use native.Mathlib.Nat.{mul-mod_left, mul-div_cancel}
use house_of_stake_contracts.Base.{
  ◌==◌, le→leb, ==_iff, ==_refl, Bool-cases, ◌>>=◌, require, expect, u128_max, checked, ℕ, ◌-◌, ◌*◌,
  ◌/◌, ◌≤◌, ◌≡◌, ap, ◌∙◌, inl, inr, arith,
}
use house_of_stake_contracts.Common.Token.{
  nanos_per_second, yocto_per_millinear, truncate_to_seconds, truncate_near_to_millis,
}
use house_of_stake_contracts.Common.Growth.{Fraction, fixed_rate, u384_mul, calculate}

-- 10^30 yoctoNEAR-nanoseconds are one milliNEAR-second.
abbrev pub fine_grain : ℕ
fine_grain = 1_000_000_000_000_000_000_000_000_000_000

-- What a second on each whole milliNEAR earns, in closed form.
abbrev pub exact_growth : Fraction → ℕ → ℕ → ℕ → ℕ
exact_growth rate previous current balance =
    rate.numerator * ((current - previous) / nanos_per_second * (balance / yocto_per_millinear))

regroup :
    (n a b : ℕ) → n * (a * nanos_per_second) * (b * yocto_per_millinear) ≡ n * (a * b) * fine_grain
regroup n a b = omega arith

-- The difference of two whole seconds is a whole number of seconds.
seconds_between :
    (s t : ℕ)
    → truncate_to_seconds s ≡ s
    → truncate_to_seconds t ≡ t
    → t - s ≡ (t - s) / nanos_per_second * nanos_per_second
seconds_between s t hs ht = omega arith

u384_mul-exact :
    (rate : Fraction) (a b : ℕ)
    → rate.denominator ≡ fine_grain
    → u384_mul rate (a * nanos_per_second) (b * yocto_per_millinear)
      ≡ checked u128_max (rate.numerator * (a * b))
unfolding u384_mul ◌>>=◌ require expect
u384_mul-exact rate a b d = rw (
  d,
  regroup rate.numerator a b,
  mul-mod_left (rate.numerator * (a * b)) fine_grain,
  mul-div_cancel (rate.numerator * (a * b)) {n = fine_grain} (omega arith),
)

no_time_no_growth : (rate : Fraction) (s balance : ℕ) → exact_growth rate s s balance ≡ 0
no_time_no_growth rate s balance =
    let none_passed : (s - s) / nanos_per_second ≡ 0 = omega arith in rw none_passed (omega arith)

-- Between whole seconds, at the denominator 10^30, growth never fails by rounding: it is the closed
-- form, or it does not fit into u128.
pub calculate-exact :
    (rate : Fraction) (s t balance : ℕ)
    → rate.denominator ≡ fine_grain
    → s ≤ t
    → truncate_to_seconds s ≡ s
    → truncate_to_seconds t ≡ t
    → calculate (fixed_rate rate) s t balance ≡ checked u128_max (exact_growth rate s t balance)
unfolding calculate ◌>>=◌ require expect
calculate-exact rate s t balance d le hs ht =
    rw (le→leb s t le, hs, ht, ==_refl s, ==_refl t)
      (elim (Bool-cases (s == t)) [
        | inl e ↦ rw (e, (==_iff s t).0 e, no_time_no_growth rate t balance)
        | inr e ↦ rw (e, grow (t - s) (seconds_between s t hs ht))
      ])
  where
    grow :
        (x : ℕ)
        → x ≡ x / nanos_per_second * nanos_per_second
        → u384_mul rate x (truncate_near_to_millis balance)
          ≡ checked u128_max
              (rate.numerator * (x / nanos_per_second * (balance / yocto_per_millinear)))
    grow x whole =
        ap (λ y. u384_mul rate y (truncate_near_to_millis balance)) whole
        ∙ u384_mul-exact rate (x / nanos_per_second) (balance / yocto_per_millinear) d
