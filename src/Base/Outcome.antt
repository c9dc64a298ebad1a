-- ===== src/Base/Outcome.antt =====
-- What a call of a contract does: it returns, or it panics and the runtime drops its changes.
use Prim.Native.Nat.{ℕ, min, ◌+◌, ◌*◌, ◌-◌}
use mathlib.Core.Path.{◌≡◌, refl, subst}
use mathlib.Core.Logic.{◌⊎◌, inl, inr}
use mathlib.Core.Bool.{Bool, true, false}
use mathlib.Core.Option.{Option, none, some}
use house_of_stake_contracts.Base.Tests.{leb, if◌then◌else◌}

-- The reasons for a panic: one for each message of the sources, and the language's own.
pub data Panic : Type 0 where
  overflow unwrap_none division_by_zero out_of_bounds : Panic
  rounding_error timestamp_order timestamp_not_truncated bps_out_of_range : Panic
  not_one_yocto paused only_owner only_guardian only_reviewers only_council : Panic
  only_proposed_owner insufficient_deposit no_deposit : Panic
  empty_actions proposal_not_found active_proposal_missing not_created : Panic
  majority_type_required cannot_veto not_in_timelock only_fast_track : Panic
  not_sandbox_or_voting snapshot_already_set snapshot_with_deposit : Panic
  snapshot_exceeds_reserve only_for_in_sandbox not_in_voting snapshot_missing : Panic
  invalid_proof account_mismatch no_venear_balance already_voted : Panic
  not_proposer no_bond bond_not_claimable not_executable zero_max_active : Panic
  wrong_denominator already_registered not_registered account_not_found : Panic
  too_many_delegations zero_bps self_delegation unsorted_delegations : Panic
  total_bps_exceeded permission_denied invalid_lockup_version invalid_nonce : Panic
  private_method not_enough_gas code_not_found invalid_code_hash : Panic
  no_lockup_code snapshot_unavailable not_supported : Panic
  not_owner illegal_balance invalid_amount invalid_unlock_time : Panic
  pool_not_selected pool_already_selected busy invalid_account_id : Panic
  amount_not_positive insufficient_balance deposit_left not_whitelisted : Panic
  locked_left pending_left callback_failed not_selected_pool : Panic
  validator_not_found validator_exists validator_limit validator_not_empty : Panic
  validator_busy validator_not_busy no_effective_stake zero_shares : Panic
  shares_exceed_pool shares_exceed_account nothing_claimable bucket_short : Panic
  balance_short recorded_balance_low not_net_stake not_net_unstake : Panic
  not_withdrawable min_lock_amount_low lock_bounds_order only_pool_owner : Panic

pub data Result {ℓ} (A : Type ℓ) : Type ℓ where
  ok : A → Result A
  panic : Panic → Result A

infixl 5 ◌>>=◌ ◌>>◌
unfoldable pub ◌>>=◌ {ℓ κ} : {A : Type ℓ} {B : Type κ} → Result A → (A → Result B) → Result B
panic e >>= next = panic e
ok first >>= next = next first

abbrev pub ◌>>◌ {ℓ} : {B : Type ℓ} → Result (Unit {0}) → Result B → Result B
m >> k = m >>= λ _. k

-- `require!` and `assert!`.
unfoldable pub require : Bool → Panic → Result (Unit {0})
require true e = ok tt
require false e = panic e

-- `expect` and `unwrap`.
unfoldable pub expect {ℓ} : {A : Type ℓ} → Option A → Panic → Result A
expect none e = panic e
expect (some a) e = ok a

-- Arithmetic on a w-bit word panics instead of wrapping: the release profile of the workspace sets
-- `overflow-checks`.
abbrev pub u32_max : ℕ
u32_max = 4_294_967_295

abbrev pub u64_max : ℕ
u64_max = 18_446_744_073_709_551_615

abbrev pub u128_max : ℕ
u128_max = 340_282_366_920_938_463_463_374_607_431_768_211_455

-- A value that has to fit below a bound.
abbrev pub checked : ℕ → ℕ → Result ℕ
checked bound n = if leb n bound then ok n else panic overflow

abbrev pub u32_add : ℕ → ℕ → Result ℕ
u32_add a b = checked u32_max (a + b)

abbrev pub u64_add : ℕ → ℕ → Result ℕ
u64_add a b = checked u64_max (a + b)

abbrev pub u128_add : ℕ → ℕ → Result ℕ
u128_add a b = checked u128_max (a + b)

abbrev pub u128_mul : ℕ → ℕ → Result ℕ
u128_mul a b = checked u128_max (a * b)

-- `saturating_add`
abbrev pub u128_saturating_add : ℕ → ℕ → ℕ
u128_saturating_add a b = min u128_max (a + b)

abbrev pub u64_saturating_add : ℕ → ℕ → ℕ
u64_saturating_add a b = min u64_max (a + b)

-- Unsigned subtraction, at every width.
abbrev pub checked_sub : ℕ → ℕ → Result ℕ
checked_sub a b = if leb b a then ok (a - b) else panic overflow

-- `checked_sub` with `expect`.
abbrev pub checked_sub_or : Panic → ℕ → ℕ → Result ℕ
checked_sub_or e a b = if leb b a then ok (a - b) else panic e

-- A chain that returns has a first call that returns.
pub >>=-eq-ok {ℓ κ} :
    {A : Type ℓ} {B : Type κ} {last : B} (call : Result A) (next : A → Result B)
    → call >>= next ≡ ok last
    → (first : A) × (call ≡ ok first) × (next first ≡ ok last)
unfolding ◌>>=◌
>>=-eq-ok (panic e) next returned = cc
>>=-eq-ok (ok first) next returned = (first, refl, returned)

pub Result-cases {ℓ} :
    {A : Type ℓ} (m : Result A) → ((a : A) × (m ≡ ok a)) ⊎ ((e : Panic) × (m ≡ panic e))
Result-cases (ok a) = inl (a, refl)
Result-cases (panic e) = inr (e, refl)

-- Continuations that agree on what a call returns make one computation.
pub >>=-congr {ℓ κ} :
    {A : Type ℓ} {B : Type κ} (m : Result A) (f g : A → Result B)
    → ((a : A) → m ≡ ok a → f a ≡ g a)
    → (m >>= f) ≡ (m >>= g)
unfolding ◌>>=◌
>>=-congr (ok a) f g h = h a refl
>>=-congr (panic e) f g h = refl

pub ok-injective {ℓ} : {A : Type ℓ} {a b : A} → ok a ≡ ok b → a ≡ b
ok-injective h = cc

pub >>=-assoc {ℓ κ μ} :
    {A : Type ℓ} {B : Type κ} {C : Type μ} (m : Result A) (f : A → Result B) (g : B → Result C)
    → ((m >>= f) >>= g) ≡ (m >>= λ a. f a >>= g)
unfolding ◌>>=◌
>>=-assoc (ok a) f g = refl
>>=-assoc (panic e) f g = refl

-- What holds of a value that a call returns; a panic ensures anything.
pub data Ensures {ℓ κ} {A : Type ℓ} (P : A → Type κ) : Result A → Type (ℓ ⊔ κ) where
  returns : (a : A) → P a → Ensures P (ok a)
  panics : (e : Panic) → Ensures P (panic e)

pub Ensures-ok {ℓ κ} : {A : Type ℓ} {P : A → Type κ} (a : A) → Ensures P (ok a) → P a
Ensures-ok a (returns b p) = p

pub Ensures-apply {ℓ κ} :
    {A : Type ℓ} {P : A → Type κ} {m : Result A} {a : A} → Ensures P m → m ≡ ok a → P a
Ensures-apply {P = P} {a = a} h e = Ensures-ok a (subst (Ensures P) e h)

module _ {ℓ κ} {A : Type ℓ} {P : A → Type κ} where
  -- From what holds of every value that is returned.
  pub Ensures-of : (m : Result A) → ((a : A) → m ≡ ok a → P a) → Ensures P m
  Ensures-of (ok a) h = returns a (h a refl)
  Ensures-of (panic e) h = panics e

  pub Ensures-require :
      (b : Bool) (e : Panic) (k : Result A)
      → (b ≡ true → Ensures P k)
      → Ensures P (require b e >> k)
  unfolding ◌>>=◌ require
  Ensures-require true e k h = h refl
  Ensures-require false e k h = panics e

  pub Ensures-bind {ν μ} :
      {B : Type ν} {Q : B → Type μ} (m : Result B) (f : B → Result A)
      → Ensures Q m
      → ((b : B) → m ≡ ok b → Q b → Ensures P (f b))
      → Ensures P (m >>= f)
  unfolding ◌>>=◌
  Ensures-bind (ok b) f h k = k b refl (Ensures-ok b h)
  Ensures-bind (panic e) f h k = panics e

  -- A step of which only the equation matters.
  pub Ensures-then {ν} :
      {B : Type ν} (m : Result B) (f : B → Result A)
      → ((b : B) → m ≡ ok b → Ensures P (f b))
      → Ensures P (m >>= f)
  unfolding ◌>>=◌
  Ensures-then (ok b) f k = k b refl
  Ensures-then (panic e) f k = panics e

module _ {ℓ κ} {A : Type ℓ} {P : A → Type κ} where
  pub Ensures-if :
      (b : Bool) (m n : Result A)
      → (b ≡ true → Ensures P m)
      → (b ≡ false → Ensures P n)
      → Ensures P (if b then m else n)
  Ensures-if true m n h k = h refl
  Ensures-if false m n h k = k refl

  -- A call of which only a part of the value is used.
  pub Ensures-map {ν} :
      {B : Type ν} (m : Result B) (f : B → A)
      → Ensures (λ b. P (f b)) m
      → Ensures P (m >>= λ b. ok (f b))
  unfolding ◌>>=◌
  Ensures-map (ok b) f h = returns (f b) (Ensures-ok b h)
  Ensures-map (panic e) f h = panics e
