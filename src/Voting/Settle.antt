-- ===== src/Voting/Settle.antt =====
-- What is settled after a proposal's end: bonds (voting-contract/src/bond.rs) and actions
-- (voting-contract/src/execute.rs).
use house_of_stake_contracts.Base.{
  ltb, ◌==◌, if◌then◌else◌, length, unwrap_none, only_fast_track, not_proposer, no_bond,
  bond_not_claimable, not_executable, Result, ok, ◌>>=◌, ◌>>◌, require, expect, Bool, true, ◌&&◌,
  ◌||◌, List, [], ◌∷◌,
}
use house_of_stake_contracts.Voting.Types.{
  ProposalId, ProposalStatus, rejected, expired, succeeded, executable, in_progress, failed,
  has_status, is_fast_track,
}
use house_of_stake_contracts.Voting.Contract.{
  Contract, Env, Promise, pays, runs, assert_not_paused, internal_expect_proposal_updated,
  IterableSet, internal_set_proposal,
}
use house_of_stake_contracts.Voting.Queue.{internal_advance_queue}

-- The statuses that release the bond.
abbrev pub releases_bond : ProposalStatus → Bool
releases_bond s = has_status s expired || has_status s rejected

-- Whether every promise before the callback has succeeded.
unfoldable pub all_succeeded : List Bool → Bool
all_succeeded [] = true
all_succeeded (r ∷ rs) = r && all_succeeded rs

module _ (set_of_ids : IterableSet) where
  unfoldable pub claim_bond : Env → Contract → ProposalId → Result (Contract × List Promise)
  claim_bond env c id = do
    p ← internal_expect_proposal_updated c id env.block_timestamp
    require (is_fast_track p.flow) only_fast_track
    require (p.proposer_id == env.predecessor_account_id) not_proposer
    require (ltb 0 p.bond_amount) no_bond
    require (releases_bond p.status) bond_not_claimable
    d ← internal_set_proposal set_of_ids (record p { bond_amount = 0 }) c
    ok (d, pays p.proposer_id p.bond_amount ∷ [])

  unfoldable pub execute_proposal : Env → Contract → ProposalId → Result (Contract × List Promise)
  execute_proposal env c id = do
    assert_not_paused c
    d ← internal_advance_queue set_of_ids c env.block_timestamp
    p ← internal_expect_proposal_updated d id env.block_timestamp
    require (has_status p.status executable) not_executable
    actions ← expect p.actions unwrap_none
    require (ltb 0 (length actions)) unwrap_none
    e ← internal_set_proposal set_of_ids (record p { status = in_progress }) d
    ok (e, runs actions id ∷ [])

  -- The callback, with the outcome of each promise.
  unfoldable pub on_execute_proposal : Env → Contract → ProposalId → List Bool → Result Contract
  unfolding all_succeeded
  on_execute_proposal env c id results = do
    d ← internal_advance_queue set_of_ids c env.block_timestamp
    p ← internal_expect_proposal_updated d id env.block_timestamp
    internal_set_proposal set_of_ids
        (record p { status = if all_succeeded results then succeeded else failed }) d
