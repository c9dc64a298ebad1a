-- ===== src/Voting/Legacy.antt =====
-- The stored shapes of older proposals, and their conversion on read
-- (voting-contract/src/legacy.rs).
use house_of_stake_contracts.Base.{Result, ok, ◌>>=◌, ℕ, Bool, Option, none, List}
use house_of_stake_contracts.Common.Token.{new_bps}
use house_of_stake_contracts.Common.Account.{AccountId}
use house_of_stake_contracts.Voting.Types.{
  ProposalId, classic, ProposalStatus, ProposalAction, SnapshotAndState, VoteStats, Proposal,
}

pub record ProposalV1 : Type 0 where
  pub id : ProposalId
  pub creation_time_ns : ℕ
  pub proposer_id : AccountId
  pub reviewer_id : Option AccountId
  pub voting_start_time_ns : Option ℕ
  pub voting_duration_ns : ℕ
  pub was_rejected : Bool
  pub snapshot_and_state : Option SnapshotAndState
  pub votes : List VoteStats
  pub total_votes : VoteStats
  pub status : ProposalStatus

pub record ProposalV2 : Type 0 where
  pub id : ProposalId
  pub creation_time_ns : ℕ
  pub proposer_id : AccountId
  pub reviewer_id : Option AccountId
  pub rejecter_id : Option AccountId
  pub voting_start_time_ns : Option ℕ
  pub voting_duration_ns : ℕ
  pub timelock_duration_ns : ℕ
  pub expiration_ns : ℕ
  pub snapshot_and_state : Option SnapshotAndState
  pub votes : List VoteStats
  pub total_votes : VoteStats
  pub status : ProposalStatus
  pub quorum_threshold_bps : ℕ
  pub quorum_floor : ℕ
  pub approval_threshold_bps : ℕ
  pub actions : Option (List ProposalAction)

-- `From<ProposalV1> for Proposal`
unfoldable pub of_v1 : ProposalV1 → Proposal
of_v1 p = record {
  id = p.id;
  creation_time_ns = p.creation_time_ns;
  proposer_id = p.proposer_id;
  reviewer_id = p.reviewer_id;
  rejecter_id = none;
  approval_time_ns = p.voting_start_time_ns;
  voting_start_time_ns = p.voting_start_time_ns;
  voting_duration_ns = p.voting_duration_ns;
  expiration_ns = 0;
  snapshot_and_state = p.snapshot_and_state;
  votes = p.votes;
  total_votes = p.total_votes;
  status = p.status;
  quorum_threshold_bps = 0;
  quorum_floor = 0;
  approval_threshold_bps = 0;
  actions = none;
  flow = classic;
  timelock_duration_ns = 0;
  sandbox_start_time_ns = none;
  bond_amount = 0;
  sandbox_duration_ns = 0;
  sandbox_threshold_bps = 0;
}

-- `From<ProposalV2> for Proposal`, where `Bps::new` panics past 10,000.
unfoldable pub of_v2 : ProposalV2 → Result Proposal
of_v2 p = do
  quorum ← new_bps p.quorum_threshold_bps
  approval ← new_bps p.approval_threshold_bps
  ok (record {
    id = p.id;
    creation_time_ns = p.creation_time_ns;
    proposer_id = p.proposer_id;
    reviewer_id = p.reviewer_id;
    rejecter_id = p.rejecter_id;
    approval_time_ns = p.voting_start_time_ns;
    voting_start_time_ns = p.voting_start_time_ns;
    voting_duration_ns = p.voting_duration_ns;
    expiration_ns = p.expiration_ns;
    snapshot_and_state = p.snapshot_and_state;
    votes = p.votes;
    total_votes = p.total_votes;
    status = p.status;
    quorum_threshold_bps = quorum;
    quorum_floor = p.quorum_floor;
    approval_threshold_bps = approval;
    actions = p.actions;
    flow = classic;
    timelock_duration_ns = p.timelock_duration_ns;
    sandbox_start_time_ns = none;
    bond_amount = 0;
    sandbox_duration_ns = 0;
    sandbox_threshold_bps = 0;
  })

-- The stored envelope of a proposal.
pub data VProposal : Type 0 where
  v1 : ProposalV1 → VProposal
  v2 : ProposalV2 → VProposal
  current : Proposal → VProposal

-- `From<VProposal> for Proposal`
unfoldable pub of_versioned : VProposal → Result Proposal
of_versioned (v1 p) = ok (of_v1 p)
of_versioned (v2 p) = of_v2 p
of_versioned (current p) = ok p
