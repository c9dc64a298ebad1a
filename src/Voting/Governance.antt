-- ===== src/Voting/Governance.antt =====
-- Governance and pausing (voting-contract/src/governance.rs, pause.rs). Every setter asks for one
-- yoctoNEAR and for the owner; basis points are checked when the argument is read.
use house_of_stake_contracts.Base.{
  ltb, ◌==◌, only_proposed_owner, zero_max_active, Result, ok, ◌>>=◌, ◌>>◌, require, u64_max,
  checked, ℕ, ◌*◌, Bool, true, false, Option, none, some, List,
}
use house_of_stake_contracts.Common.Token.{nanos_per_second, new_bps}
use house_of_stake_contracts.Common.Account.{AccountId}
use house_of_stake_contracts.Voting.Contract.{
  Config, Contract, Env, assert_one_yocto, assert_owner, assert_guardian, IterableSet,
}
use house_of_stake_contracts.Voting.Queue.{internal_advance_queue}

-- The checks and the write that the setters share.
unfoldable pub owner_sets : Env → Contract → (Config → Config) → Result Contract
owner_sets env c change = do
  assert_one_yocto env
  assert_owner env c
  ok (record c { config = change c.config })

-- Seconds of a 32-bit word as nanoseconds of a 64-bit one.
unfoldable pub seconds_to_ns : ℕ → Result ℕ
seconds_to_ns seconds = checked u64_max (seconds * nanos_per_second)

-- A duration is computed after the checks.
unfoldable pub owner_sets_duration : Env → Contract → (ℕ → Config → Config) → ℕ → Result Contract
unfolding owner_sets seconds_to_ns
owner_sets_duration env c change seconds = do
  assert_one_yocto env
  assert_owner env c
  ns ← seconds_to_ns seconds
  owner_sets env c (change ns)

-- An argument of basis points is checked before the method runs.
unfoldable pub owner_sets_bps : Env → Contract → (ℕ → Config → Config) → ℕ → Result Contract
unfolding owner_sets new_bps
owner_sets_bps env c change raw = do bps ← new_bps raw; owner_sets env c (change bps)

unfoldable pub set_venear_account_id : Env → Contract → AccountId → Result Contract
unfolding owner_sets
set_venear_account_id env c value = owner_sets env c (λ g. record g { venear_account_id = value })

unfoldable pub set_reviewer_ids : Env → Contract → List AccountId → Result Contract
unfolding owner_sets
set_reviewer_ids env c value = owner_sets env c (λ g. record g { reviewer_ids = value })

unfoldable pub set_base_proposal_fee : Env → Contract → ℕ → Result Contract
unfolding owner_sets
set_base_proposal_fee env c value = owner_sets env c (λ g. record g { base_proposal_fee = value })

unfoldable pub set_guardians : Env → Contract → List AccountId → Result Contract
unfolding owner_sets
set_guardians env c value = owner_sets env c (λ g. record g { guardians = value })

unfoldable pub set_council_ids : Env → Contract → List AccountId → Result Contract
unfolding owner_sets
set_council_ids env c value = owner_sets env c (λ g. record g { council_ids = value })

unfoldable pub set_quorum_threshold_bps : Env → Contract → ℕ → Result Contract
unfolding owner_sets_bps
set_quorum_threshold_bps env c raw =
    owner_sets_bps env c (λ bps g. record g { quorum_threshold_bps = bps }) raw

unfoldable pub set_quorum_floor : Env → Contract → ℕ → Result Contract
unfolding owner_sets
set_quorum_floor env c value = owner_sets env c (λ g. record g { quorum_floor = value })

unfoldable pub set_approval_threshold_bps : Env → Contract → ℕ → Result Contract
unfolding owner_sets_bps
set_approval_threshold_bps env c raw =
    owner_sets_bps env c (λ bps g. record g { approval_threshold_bps = bps }) raw

unfoldable pub set_bond_amount : Env → Contract → ℕ → Result Contract
unfolding owner_sets
set_bond_amount env c value = owner_sets env c (λ g. record g { bond_amount = value })

unfoldable pub set_treasury_account_id : Env → Contract → AccountId → Result Contract
unfolding owner_sets
set_treasury_account_id env c value =
    owner_sets env c (λ g. record g { treasury_account_id = value })

unfoldable pub set_simple_majority_threshold_bps : Env → Contract → ℕ → Result Contract
unfolding owner_sets_bps
set_simple_majority_threshold_bps env c raw =
    owner_sets_bps env c (λ bps g. record g { simple_majority_threshold_bps = bps }) raw

unfoldable pub set_strong_majority_threshold_bps : Env → Contract → ℕ → Result Contract
unfolding owner_sets_bps
set_strong_majority_threshold_bps env c raw =
    owner_sets_bps env c (λ bps g. record g { strong_majority_threshold_bps = bps }) raw

unfoldable pub set_sandbox_threshold_bps : Env → Contract → ℕ → Result Contract
unfolding owner_sets_bps
set_sandbox_threshold_bps env c raw =
    owner_sets_bps env c (λ bps g. record g { sandbox_threshold_bps = bps }) raw

unfoldable pub set_classic_voting_duration : Env → Contract → ℕ → Result Contract
unfolding owner_sets_duration
set_classic_voting_duration env c seconds =
    owner_sets_duration env c (λ ns g. record g { classic_voting_duration_ns = ns }) seconds

unfoldable pub set_fast_track_voting_duration : Env → Contract → ℕ → Result Contract
unfolding owner_sets_duration
set_fast_track_voting_duration env c seconds =
    owner_sets_duration env c (λ ns g. record g { fast_track_voting_duration_ns = ns }) seconds

unfoldable pub set_timelock_duration : Env → Contract → ℕ → Result Contract
unfolding owner_sets_duration
set_timelock_duration env c seconds =
    owner_sets_duration env c (λ ns g. record g { timelock_duration_ns = ns }) seconds

unfoldable pub set_classic_proposal_expiration : Env → Contract → ℕ → Result Contract
unfolding owner_sets_duration
set_classic_proposal_expiration env c seconds =
    owner_sets_duration env c (λ ns g. record g { classic_proposal_expiration_ns = ns }) seconds

unfoldable pub set_fast_track_proposal_expiration : Env → Contract → ℕ → Result Contract
unfolding owner_sets_duration
set_fast_track_proposal_expiration env c seconds =
    owner_sets_duration env c (λ ns g. record g { fast_track_proposal_expiration_ns = ns }) seconds

unfoldable pub set_sandbox_duration : Env → Contract → ℕ → Result Contract
unfolding owner_sets_duration
set_sandbox_duration env c seconds =
    owner_sets_duration env c (λ ns g. record g { sandbox_duration_ns = ns }) seconds

unfoldable pub propose_new_owner_account_id : Env → Contract → Option AccountId → Result Contract
unfolding owner_sets
propose_new_owner_account_id env c value =
    owner_sets env c (λ g. record g { proposed_new_owner_account_id = value })

abbrev pub is_account : Option AccountId → AccountId → Bool
is_account none a = false
is_account (some b) a = b == a

-- The proposed owner takes over.
unfoldable pub accept_ownership : Env → Contract → Result Contract
accept_ownership env c = do
  assert_one_yocto env
  require (is_account c.config.proposed_new_owner_account_id env.predecessor_account_id)
      only_proposed_owner
  ok (record c {
    config = record (c.config) {
      owner_account_id = env.predecessor_account_id;
      proposed_new_owner_account_id = none;
    };
  })

unfoldable pub pause : Env → Contract → Result Contract
pause env c = do assert_one_yocto env; assert_guardian env c; ok (record c { is_paused = true })

unfoldable pub unpause : Env → Contract → Result Contract
unpause env c = do assert_one_yocto env; assert_owner env c; ok (record c { is_paused = false })

module _ (set_of_ids : IterableSet) where
  -- New slots are filled at once.
  unfoldable pub set_max_active_proposals : Env → Contract → ℕ → Result Contract
  set_max_active_proposals env c value = do
    assert_one_yocto env
    assert_owner env c
    require (ltb 0 value) zero_max_active
    internal_advance_queue set_of_ids
        (record c { config = record (c.config) { max_active_proposals = value } })
        env.block_timestamp
