-- ===== src/Common/Balance/Delegation.antt =====
-- Delegated shares grow in step with the balance that they are a share of.
use native.Mathlib.Nat.{add-mul-div_right}
use house_of_stake_contracts.Base.{
  ok, ◌>>=◌, require, expect, u128_max, >>=-eq-ok, Result-cases, ok-injective, ℕ, ◌+◌, ◌-◌, ◌*◌,
  ◌/◌, ◌≤◌, ◌<◌, ◌≡◌, sym, ap, ◌∙◌, inl, inr, arith,
}
use house_of_stake_contracts.Common.Token.{
  nanos_per_second, yocto_per_millinear, truncate_near_to_millis, bps_mul,
}
use house_of_stake_contracts.Common.Growth.{Fraction, fixed_rate}
use house_of_stake_contracts.Common.Exact.{fine_grain, exact_growth}
use house_of_stake_contracts.Common.Balance.{
  VenearBalance, zero_balance, update, delegation_contribution, add, sub, pooled_add_delegation,
  pooled_sub_delegation,
}
use native.Mathlib.Decide.{dec_lt}
use house_of_stake_contracts.Common.Balance.Growing.{IsWhole, grown, update-eq-grown}

-- The NEAR part of a contribution, in milliNEAR, of a balance of `k` milliNEAR.
-- Adding whole seconds' growth to the extra balance adds the share's own growth to its part.
share-of-growth :
    (extra n secs k j : ℕ)
    → 0 < k
    → (extra + n * (secs * k)) * (j * yocto_per_millinear) / (k * yocto_per_millinear)
      ≡ extra * (j * yocto_per_millinear) / (k * yocto_per_millinear) + n * (secs * j)
share-of-growth extra n secs k j pos =
    let numerator : (extra + n * (secs * k)) * (j * yocto_per_millinear)
        ≡ extra * (j * yocto_per_millinear) + n * (secs * j) * (k * yocto_per_millinear) =
      omega arith in
    rw numerator (
      add-mul-div_right (extra * (j * yocto_per_millinear)) (n * (secs * j))
        {z = k * yocto_per_millinear} (omega arith))

-- Adding a share to a pool and taking it out again, on the amounts.
pub sub-add : (pool share p : VenearBalance) → add pool share ≡ ok p → sub p share ≡ ok pool
unfolding add sub ◌>>=◌ require expect
sub-add pool share p h = ground arith

-- What a contribution is, from a balance of at least one milliNEAR.
contribution-parts :
    (b c : VenearBalance) (bps : ℕ)
    → 0 < b.near_balance / yocto_per_millinear
    → delegation_contribution b bps ≡ ok c
    → (share : ℕ) × (bps_mul bps b.near_balance ≡ ok share)
      × (c.near_balance ≡ share / yocto_per_millinear * yocto_per_millinear)
      × (c.extra_venear_balance
          ≡ b.extra_venear_balance
            * (share / yocto_per_millinear * yocto_per_millinear)
            / (b.near_balance / yocto_per_millinear * yocto_per_millinear))
unfolding delegation_contribution ◌>>=◌ require expect
contribution-parts b c bps pos h = elim (Result-cases (bps_mul bps b.near_balance)) [
  | inl (share, e) ↦ (share, e, ground arith, ground arith)
  | inr (e, failed) ↦ ground arith
]

contribution-of_parts :
    (b : VenearBalance) (bps share extra : ℕ)
    → 0 < b.near_balance / yocto_per_millinear
    → bps_mul bps b.near_balance ≡ ok share
    → b.extra_venear_balance
        * (share / yocto_per_millinear * yocto_per_millinear)
        / (b.near_balance / yocto_per_millinear * yocto_per_millinear)
      ≡ extra
    → extra ≤ u128_max
    → delegation_contribution b bps
      ≡ ok (record {
        near_balance = share / yocto_per_millinear * yocto_per_millinear;
        extra_venear_balance = extra;
      })
unfolding delegation_contribution ◌>>=◌ require expect
contribution-of_parts b bps share extra pos e q fits = ground arith

-- Below one milliNEAR nothing is delegated.
contribution-of_dust :
    (b : VenearBalance) (bps : ℕ)
    → b.near_balance / yocto_per_millinear ≡ 0
    → delegation_contribution b bps ≡ ok zero_balance
unfolding delegation_contribution
contribution-of_dust b bps dust = ground arith

-- A share of a balance is whole milliNEAR.
contribution-whole :
    (b c : VenearBalance) (bps : ℕ)
    → delegation_contribution b bps ≡ ok c
    → truncate_near_to_millis c.near_balance ≡ c.near_balance
unfolding delegation_contribution ◌>>=◌ require expect
contribution-whole b c bps h = ground arith

-- The same on the amounts, for a balance of at least one milliNEAR.
grown_quotient :
    (rate : Fraction) (b b' c : VenearBalance) (share s t : ℕ)
    → 0 < b.near_balance / yocto_per_millinear
    → b'.near_balance ≡ b.near_balance
    → b'.extra_venear_balance ≡ b.extra_venear_balance + exact_growth rate s t b.near_balance
    → c.near_balance ≡ share / yocto_per_millinear * yocto_per_millinear
    → c.extra_venear_balance
      ≡ b.extra_venear_balance
        * (share / yocto_per_millinear * yocto_per_millinear)
        / (b.near_balance / yocto_per_millinear * yocto_per_millinear)
    → b'.extra_venear_balance
        * (share / yocto_per_millinear * yocto_per_millinear)
        / (b'.near_balance / yocto_per_millinear * yocto_per_millinear)
      ≡ c.extra_venear_balance + exact_growth rate s t c.near_balance
grown_quotient rate b b' c share s t pos near extra cn ce =
    let j : c.near_balance / yocto_per_millinear ≡ share / yocto_per_millinear = omega arith in
    rw (near, extra, ce, j)
      (share-of-growth b.extra_venear_balance rate.numerator ((t - s) / nanos_per_second)
        (b.near_balance / yocto_per_millinear) (share / yocto_per_millinear) pos)

-- Growing the owner's balance grows each share by the growth on the share's own NEAR.
contribution-grown :
    (rate : Fraction) (b b' c : VenearBalance) (bps s t : ℕ)
    → delegation_contribution b bps ≡ ok c
    → b'.near_balance ≡ b.near_balance
    → b'.extra_venear_balance ≡ b.extra_venear_balance + exact_growth rate s t b.near_balance
    → c.extra_venear_balance + exact_growth rate s t c.near_balance ≤ u128_max
    → delegation_contribution b' bps
      ≡ ok (record c {
        extra_venear_balance = c.extra_venear_balance + exact_growth rate s t c.near_balance;
      })
contribution-grown rate b b' c bps s t h near extra fits =
    elim (dec_lt 0 (b.near_balance / yocto_per_millinear)) [
      | yes pos ↦
          let (share, e, cn, ce) = contribution-parts b c bps pos h in
          rw (
            contribution-of_parts b' bps share
                (c.extra_venear_balance + exact_growth rate s t c.near_balance) (omega arith)
                (rw near e) (grown_quotient rate b b' c share s t pos near extra cn ce) fits,
            cn,
          )
      | no dust ↦
          let empty : c ≡ zero_balance =
            ok-injective (sym h ∙ contribution-of_dust b bps (omega arith)) in
          rw (contribution-of_dust b' bps (omega arith), empty) (ground arith)
    ]

-- The parts of a sum.
add-parts :
    (a b p : VenearBalance)
    → add a b ≡ ok p
    → (p.near_balance ≡ a.near_balance + b.near_balance)
      × (p.extra_venear_balance ≡ a.extra_venear_balance + b.extra_venear_balance)
unfolding add ◌>>=◌ require expect
add-parts a b p h = ground arith

-- Growth on a sum of whole milliNEAR is the sum of the growths.
pub exact_growth-sum :
    (rate : Fraction) (s t a b : ℕ)
    → truncate_near_to_millis a ≡ a
    → truncate_near_to_millis b ≡ b
    → exact_growth rate s t (a + b) ≡ exact_growth rate s t a + exact_growth rate s t b
exact_growth-sum rate s t a b ha hb =
    let whole : (a + b) / yocto_per_millinear ≡ a / yocto_per_millinear + b / yocto_per_millinear =
      omega arith in
    rw whole (omega arith)

-- Taking a grown share out of a grown pool.
sub-grown :
    (pool c p : VenearBalance) (g k : ℕ)
    → p.near_balance ≡ pool.near_balance + c.near_balance
    → p.extra_venear_balance ≡ pool.extra_venear_balance + c.extra_venear_balance + (g + k)
    → p.extra_venear_balance ≤ u128_max
    → sub p (record c { extra_venear_balance = c.extra_venear_balance + k }) ≡ grown pool g
unfolding sub grown ◌>>=◌ require expect
sub-grown pool c p g k hn he fits = ground arith

module _ (rate : Fraction) (fine : rate.denominator ≡ fine_grain) where
  -- The parts of a grown balance.
  pub update-parts :
      (b c : VenearBalance) (s t : ℕ)
      → s ≤ t
      → IsWhole s
      → IsWhole t
      → update b s t (fixed_rate rate) ≡ ok c
      → (c.near_balance ≡ b.near_balance)
        × (c.extra_venear_balance ≡ b.extra_venear_balance + exact_growth rate s t b.near_balance)
        × (c.extra_venear_balance ≤ u128_max)
  unfolding grown ◌>>=◌ require expect
  update-parts b c s t le hs ht h =
      let e = sym (update-eq-grown rate fine b s t le hs ht) ∙ h in
      (ground arith, ground arith, ground arith)

  -- At the denominator 10^30, a share credited to a pool of whole milliNEAR can be debited again
  -- after any growth, from the grown owner's balance, and leaves the pool exactly as if it had grown
  -- without the share.
  pub pooled_sub_delegation-after_growth :
      (pool p p' b b' : VenearBalance) (bps s t : ℕ)
      → s ≤ t
      → IsWhole s
      → IsWhole t
      → truncate_near_to_millis pool.near_balance ≡ pool.near_balance
      → pooled_add_delegation pool b bps ≡ ok p
      → update p s t (fixed_rate rate) ≡ ok p'
      → update b s t (fixed_rate rate) ≡ ok b'
      → pooled_sub_delegation p' b' bps ≡ update pool s t (fixed_rate rate)
  unfolding pooled_add_delegation pooled_sub_delegation ◌>>=◌ require expect
  pooled_sub_delegation-after_growth pool p p' b b' bps s t le hs ht whole credit gp gb =
      let (c, ec, ep) = >>=-eq-ok (delegation_contribution b bps) (add pool) credit in
      let (pn, pe) = add-parts pool c p ep in
      let (grown_n, grown_e, fits) = update-parts p p' s t le hs ht gp in
      let (owner_n, owner_e, _) = update-parts b b' s t le hs ht gb in
      let split =
        ap (exact_growth rate s t) pn
        ∙ exact_growth-sum rate s t pool.near_balance c.near_balance whole
            (contribution-whole b c bps ec) in
      rw
        (
          contribution-grown rate b b' c bps s t ec owner_n owner_e (omega arith),
          update-eq-grown rate fine pool s t le hs ht,
        )
        (sub-grown pool c p' (exact_growth rate s t pool.near_balance)
          (exact_growth rate s t c.near_balance) (omega arith) (omega arith) fits)
