-- ===== src/Voting/Reviewer.antt =====
-- What reviewers and the council do to a proposal (voting-contract/src/reviewer.rs).
use house_of_stake_contracts.Base.{
  ltb, leb, if◌then◌else◌, is_some, length, unwrap_none, not_created, majority_type_required,
  cannot_veto, not_in_timelock, only_fast_track, not_sandbox_or_voting, snapshot_already_set,
  snapshot_exceeds_reserve, Result, ok, panic, ◌>>=◌, ◌>>◌, require, expect, ℕ, ◌-◌, Bool, true,
  false, not, ◌&&◌, ◌||◌, Option, none, some, List, [], ◌∷◌, ◌++◌,
}
use house_of_stake_contracts.Voting.Types.{
  ProposalId, MajorityType, simple, strong, ProposalFlow, classic, fast_track, ProposalStatus,
  created, rejected, voting, vetoed, timelock, slashed, sandbox, scheduled, queued, has_status,
  is_fast_track, Proposal,
}
use house_of_stake_contracts.Voting.Proposal.{activate, passed_status}
use house_of_stake_contracts.Voting.Contract.{
  Config, Contract, Env, Promise, pays, fetches_snapshot, assert_one_yocto, assert_not_paused,
  assert_called_by_reviewer, assert_called_by_council, internal_expect_proposal_updated,
  IterableSet, internal_set_proposal,
}
use house_of_stake_contracts.Voting.Queue.{internal_advance_queue, ProposalInfo, get_proposal}
use house_of_stake_contracts.Merkle.{MerkleTreeSnapshot}
use house_of_stake_contracts.Voting.Create.{snapshot_storage_reserve_bytes}
use house_of_stake_contracts.Common.GlobalState
use house_of_stake_contracts.Common.Balance
use house_of_stake_contracts.Common.GlobalState.{GlobalState, VGlobalState, of_versioned}

-- The approval threshold of a FastTrack proposal by its kind of majority.
abbrev pub majority_threshold : Config → Option MajorityType → Result ℕ
majority_threshold g none = panic unwrap_none
majority_threshold g (some simple) = ok g.simple_majority_threshold_bps
majority_threshold g (some strong) = ok g.strong_majority_threshold_bps

-- The thresholds that approval copies from the configuration into the proposal.
unfoldable pub with_thresholds : Config → Option MajorityType → Proposal → Result Proposal
with_thresholds g majority p = elim p.flow [
  | classic ↦ ok (record p { approval_threshold_bps = g.approval_threshold_bps })
  | fast_track ↦ do
    threshold ← majority_threshold g majority
    ok (record p {
      approval_threshold_bps = threshold;
      sandbox_duration_ns = g.sandbox_duration_ns;
      sandbox_threshold_bps = g.sandbox_threshold_bps;
    })
]

-- A bond that is left goes to the treasury.
abbrev pub forfeit_bond : Config → Proposal → List Promise
forfeit_bond g p = if ltb 0 p.bond_amount then pays g.treasury_account_id p.bond_amount ∷ [] else []

-- The proposal as its approval leaves it, but for its status.
unfoldable pub approved : Env → Config → Option MajorityType → Proposal → Result Proposal
unfolding with_thresholds
approved env g majority p = with_thresholds g majority (record p {
  reviewer_id = some env.predecessor_account_id;
  approval_time_ns = some env.block_timestamp;
  quorum_threshold_bps = g.quorum_threshold_bps;
  quorum_floor = g.quorum_floor;
  bond_amount = 0;
})

-- `veto_proposal`'s table of flows and statuses.
unfoldable pub can_veto : ProposalFlow → ProposalStatus → Bool
can_veto classic timelock = true
can_veto classic _ = false
can_veto fast_track voting = true
can_veto fast_track scheduled = true
can_veto fast_track _ = false

abbrev pub is_sandbox_or_voting : ProposalStatus → Bool
is_sandbox_or_voting s = has_status s sandbox || has_status s voting

module _ (set_of_ids : IterableSet) where
  -- An approved proposal takes a free slot, and its snapshot is fetched; or it joins the queue.
  -- The last part of the result is the value that the call returns, if it creates no promise.
  unfoldable pub place_approved :
      Env
      → ProposalId
      → Proposal
      → Contract
      → Result (Contract × List Promise × Option ProposalInfo)
  place_approved env id p c =
      if ltb (length c.active_proposals) c.config.max_active_proposals
      then (do
        d ← internal_set_proposal set_of_ids (activate p env.block_timestamp) c
        ok (d, fetches_snapshot c.config.venear_account_id id ∷ [], none))
      else (do
        d ← internal_set_proposal set_of_ids (record p { status = queued }) c
        let e = record d { pending_queue = d.pending_queue ++ id ∷ [] }
        info ← get_proposal e id env.block_timestamp
        ok (e, [], info))

  unfoldable pub approve_proposal :
      Env
      → Contract
      → ProposalId
      → Option MajorityType
      → Result (Contract × List Promise × Option ProposalInfo)
  approve_proposal env c id majority = do
    assert_one_yocto env
    assert_not_paused c
    assert_called_by_reviewer env c
    d ← internal_advance_queue set_of_ids c env.block_timestamp
    p ← internal_expect_proposal_updated d id env.block_timestamp
    require (has_status p.status created) not_created
    require (not (is_fast_track p.flow && not (is_some majority))) majority_type_required
    q ← approved env d.config majority p
    placed ← place_approved env id q d
    ok (placed.0, forfeit_bond d.config p ++ placed.1, placed.2)

  unfoldable pub reject_proposal : Env → Contract → ProposalId → Result Contract
  reject_proposal env c id = do
    assert_one_yocto env
    assert_not_paused c
    assert_called_by_reviewer env c
    p ← internal_expect_proposal_updated c id env.block_timestamp
    require (has_status p.status created) not_created
    internal_set_proposal set_of_ids
        (record p { reviewer_id = some env.predecessor_account_id; status = rejected }) c

  unfoldable pub veto_proposal : Env → Contract → ProposalId → Result Contract
  unfolding can_veto
  veto_proposal env c id = do
    assert_one_yocto env
    assert_not_paused c
    assert_called_by_council env c
    d ← internal_advance_queue set_of_ids c env.block_timestamp
    p ← internal_expect_proposal_updated d id env.block_timestamp
    require (can_veto p.flow p.status) cannot_veto
    e ←
        internal_set_proposal set_of_ids
          (record p { rejecter_id = some env.predecessor_account_id; status = vetoed }) d
    internal_advance_queue set_of_ids e env.block_timestamp

  unfoldable pub noveto_proposal : Env → Contract → ProposalId → Result Contract
  noveto_proposal env c id = do
    assert_one_yocto env
    assert_not_paused c
    assert_called_by_council env c
    p ← internal_expect_proposal_updated c id env.block_timestamp
    require (has_status p.status timelock) not_in_timelock
    d ← internal_set_proposal set_of_ids (record p { status = passed_status p }) c
    internal_advance_queue set_of_ids d env.block_timestamp

  unfoldable pub slash_proposal : Env → Contract → ProposalId → Result (Contract × List Promise)
  slash_proposal env c id = do
    assert_one_yocto env
    assert_not_paused c
    assert_called_by_reviewer env c
    p ← internal_expect_proposal_updated c id env.block_timestamp
    require (is_fast_track p.flow) only_fast_track
    require (has_status p.status created) not_created
    d ← internal_set_proposal set_of_ids (record p { status = slashed; bond_amount = 0 }) c
    ok (d, forfeit_bond c.config p)

  -- The callback that stores a fetched snapshot. The runtime reports the storage in use before and
  -- after the write.
  unfoldable pub on_get_snapshot :
      Env
      → Contract
      → MerkleTreeSnapshot
      → VGlobalState
      → ProposalId
      → ℕ
      → ℕ
      → Result (Contract × ProposalInfo)
  on_get_snapshot env c snapshot state id usage_before usage_after = do
    assert_not_paused c
    p ← internal_expect_proposal_updated c id env.block_timestamp
    require (is_sandbox_or_voting p.status) not_sandbox_or_voting
    require (not (is_some p.snapshot_and_state)) snapshot_already_set
    g ← GlobalState.update (GlobalState.of_versioned state) env.block_timestamp
    total ← Balance.total g.total_venear_balance
    d ←
        internal_set_proposal set_of_ids
          (record p {
            snapshot_and_state = some (record {
              snapshot = snapshot;
              timestamp_ns = env.block_timestamp;
              total_venear = total;
              venear_growth_config = g.venear_growth_config;
            });
          })
          c
    require (leb (usage_after - usage_before) snapshot_storage_reserve_bytes)
        snapshot_exceeds_reserve
    info ← expect (← get_proposal d id env.block_timestamp) unwrap_none
    ok (d, info)
