-- ===== src/Venear/Delegations/Validation.antt =====
-- What `validate_delegations` accepts.
use house_of_stake_contracts.Base.{
  ltb→lt, length, All, ok, ◌>>=◌, require, u32_max, Result-cases, ℕ, ◌+◌, ◌≤◌, ◌<◌, ◌≡◌, refl, ap,
  ◌≢◌, ◌↔◌, inl, inr, true, Option, none, some, List, [], ◌∷◌, arith,
}
use house_of_stake_contracts.Venear.Delegations.{validate_delegations, sum_checked, is_after}
use house_of_stake_contracts.Common.Account.{DelegationEntry, AccountId}
use house_of_stake_contracts.Common.Token.{max_raw}

abbrev pub bps_sum : List DelegationEntry → ℕ
bps_sum [] = 0
bps_sum (e ∷ es) = e.bps + bps_sum es

-- Every later account id is greater: so the ids ascend, and no two are the same.
abbrev pub IsAscending : List DelegationEntry → Type 0
IsAscending [] = Unit {0}
IsAscending (e ∷ es) = All (λ f. e.account_id < f.account_id) es × IsAscending es

-- An entry gives something, to somebody else.
abbrev pub IsProper : AccountId → DelegationEntry → Type 0
IsProper owner e = (0 < e.bps) × (e.account_id ≢ owner)

abbrev AllAfter : Option AccountId → List DelegationEntry → Type 0
AllAfter none es = Unit {0}
AllAfter (some previous) es = All (λ f. previous < f.account_id) es

All-below :
    (a b : AccountId) (es : List DelegationEntry)
    → a < b
    → All (λ f. b < f.account_id) es
    → All (λ f. a < f.account_id) es
All-below a b [] lt h = tt
All-below a b (e ∷ es) lt h = (omega (arith, h.0), All-below a b es lt h.1)

AllAfter-cons :
    (previous : Option AccountId) (e : DelegationEntry) (es : List DelegationEntry)
    → is_after previous e.account_id ≡ true
    → All (λ f. e.account_id < f.account_id) es
    → AllAfter previous (e ∷ es)
AllAfter-cons none e es lt h = tt
AllAfter-cons (some previous) e es lt h =
    let below = ltb→lt previous e.account_id lt in
    (below, All-below previous e.account_id es below h)

AllAfter-head :
    (previous : Option AccountId) (e : DelegationEntry) (es : List DelegationEntry)
    → AllAfter previous (e ∷ es)
    → is_after previous e.account_id ≡ true
AllAfter-head none e es h = refl
AllAfter-head (some previous) e es h = ground (arith, h.0)

-- One iteration of the loop.
sum_checked-step :
    (owner : AccountId) (previous : Option AccountId) (sum_bps s : ℕ) (e : DelegationEntry)
    (es : List DelegationEntry)
    → sum_checked owner previous sum_bps (e ∷ es) ≡ ok s
    → (IsProper owner e)
      × (is_after previous e.account_id ≡ true)
      × (sum_bps + e.bps ≤ u32_max)
      × (sum_checked owner (some e.account_id) (sum_bps + e.bps) es ≡ ok s)
unfolding sum_checked ◌>>=◌ require
sum_checked-step owner previous sum_bps s e es h = ground arith

sum_checked-valid :
    (owner : AccountId) (previous : Option AccountId) (sum_bps s : ℕ) (es : List DelegationEntry)
    → sum_checked owner previous sum_bps es ≡ ok s
    → All (IsProper owner) es × AllAfter previous es × IsAscending es × (s ≡ sum_bps + bps_sum es)
unfolding sum_checked
sum_checked-valid owner none sum_bps s [] h = (tt, tt, tt, ground arith)
sum_checked-valid owner (some p) sum_bps s [] h = (tt, tt, tt, ground arith)
sum_checked-valid owner previous sum_bps s (e ∷ es) h =
    let (proper, after, fits, next) = sum_checked-step owner previous sum_bps s e es h in
    let (all, later, ascending, total) =
      sum_checked-valid owner (some e.account_id) (sum_bps + e.bps) s es next in
    ((proper, all), AllAfter-cons previous e es after later, (later, ascending), omega arith)

valid-sum_checked :
    (owner : AccountId) (previous : Option AccountId) (sum_bps : ℕ) (es : List DelegationEntry)
    → All (IsProper owner) es
    → AllAfter previous es
    → IsAscending es
    → sum_bps + bps_sum es ≤ u32_max
    → sum_checked owner previous sum_bps es ≡ ok (sum_bps + bps_sum es)
unfolding sum_checked ◌>>=◌ require
valid-sum_checked owner previous sum_bps [] proper after ascending fits = ap ok (omega arith)
valid-sum_checked owner previous sum_bps (e ∷ es) proper after ascending fits =
    let rest =
      valid-sum_checked owner (some e.account_id) (sum_bps + e.bps) es proper.1 ascending.0
        ascending.1 (omega arith) in
    let first = AllAfter-head previous e es after in ground (arith, rest, first)

validate_delegations-parts :
    (es : List DelegationEntry) (owner : AccountId) (max_delegations s : ℕ)
    → validate_delegations es owner max_delegations ≡ ok s
    → (length es ≤ max_delegations)
      × (total : ℕ) × (sum_checked owner none 0 es ≡ ok total)
      × (total ≤ max_raw)
      × (s ≡ total)
unfolding validate_delegations ◌>>=◌ require
validate_delegations-parts es owner max_delegations s h =
    elim (Result-cases (sum_checked owner none 0 es)) [
      | inl (total, e) ↦ (ground arith, total, e, ground arith, ground arith)
      | inr (p, e) ↦ ground arith
    ]

parts-validate_delegations :
    (es : List DelegationEntry) (owner : AccountId) (max_delegations s : ℕ)
    → length es ≤ max_delegations
    → sum_checked owner none 0 es ≡ ok (0 + bps_sum es)
    → bps_sum es ≤ max_raw
    → s ≡ bps_sum es
    → validate_delegations es owner max_delegations ≡ ok s
unfolding validate_delegations ◌>>=◌ require
parts-validate_delegations es owner max_delegations s few e small same = ground arith

-- Delegations are accepted, with their sum, exactly if there are no more than the limit, each gives
-- something to somebody else than the owner, their account ids ascend, and they sum up to 10,000
-- basis points at most.
pub validate_delegations_iff :
    (es : List DelegationEntry) (owner : AccountId) (max_delegations s : ℕ)
    → (validate_delegations es owner max_delegations ≡ ok s) ↔ (
        (length es ≤ max_delegations)
        × All (IsProper owner) es
        × IsAscending es
        × (bps_sum es ≤ max_raw)
        × (s ≡ bps_sum es))
validate_delegations_iff es owner max_delegations s = (
  λ h.
      let (few, total, e, small, same) = validate_delegations-parts es owner max_delegations s h in
      let (proper, _, ascending, sum) = sum_checked-valid owner none 0 total es e in
      (few, proper, ascending, omega arith, omega arith),
  λ (few, proper, ascending, small, same).
      parts-validate_delegations es owner max_delegations s few
        (valid-sum_checked owner none 0 es proper tt ascending (omega arith)) small same,
)
