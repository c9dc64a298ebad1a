-- ===== src/Voting/Create.antt =====
-- Creation of proposals (`create_proposal` of voting-contract/src/proposal.rs).
use house_of_stake_contracts.Base.{
  ltb, leb, if◌then◌else◌, length, insufficient_deposit, empty_actions, Result, ok, ◌>>=◌, ◌>>◌,
  require, u64_add, u128_mul, ℕ, ◌-◌, Bool, true, false, not, Option, none, some, List, [], ◌∷◌,
  ◌++◌,
}
use house_of_stake_contracts.Common.Token.{near_add}
use house_of_stake_contracts.Voting.Types.{
  ProposalId, ProposalFlow, classic, fast_track, created, ProposalAction, no_votes, Proposal,
  ProposalMetadata, VProposalMetadata,
}
use house_of_stake_contracts.Voting.Contract.{
  Config, Contract, Env, Promise, pays, assert_not_paused,
}
use house_of_stake_contracts.Voting.Legacy.{VProposal}

-- The bytes reserved at creation for the later write of the snapshot.
abbrev pub snapshot_storage_reserve_bytes : ℕ
snapshot_storage_reserve_bytes = 101

-- The expiration, the voting duration, the timelock and the bond that a flow starts with.
pub record FlowTerms : Type 0 where
  pub expiration_ns : ℕ
  pub voting_duration_ns : ℕ
  pub timelock_duration_ns : ℕ
  pub bond_amount : ℕ

unfoldable pub flow_terms : Config → ProposalFlow → FlowTerms
flow_terms g classic = record {
  expiration_ns = g.classic_proposal_expiration_ns;
  voting_duration_ns = g.classic_voting_duration_ns;
  timelock_duration_ns = g.timelock_duration_ns;
  bond_amount = 0;
}
flow_terms g fast_track = record {
  expiration_ns = g.fast_track_proposal_expiration_ns;
  voting_duration_ns = g.fast_track_voting_duration_ns;
  timelock_duration_ns = 0;
  bond_amount = g.bond_amount;
}

-- An expiration of 0 means none.
abbrev pub expiration_from : ℕ → ℕ → Result ℕ
expiration_from now flow_expiration_ns =
    if ltb 0 flow_expiration_ns then u64_add now flow_expiration_ns else ok 0

unfoldable pub fresh_proposal :
    ProposalId → Env → FlowTerms → ℕ → Option (List ProposalAction) → ProposalFlow → Proposal
fresh_proposal id env terms expiration actions flow = record {
  id = id;
  creation_time_ns = env.block_timestamp;
  proposer_id = env.predecessor_account_id;
  reviewer_id = none;
  rejecter_id = none;
  approval_time_ns = none;
  voting_start_time_ns = none;
  voting_duration_ns = terms.voting_duration_ns;
  expiration_ns = expiration;
  snapshot_and_state = none;
  votes = no_votes ∷ no_votes ∷ no_votes ∷ [];
  total_votes = no_votes;
  status = created;
  quorum_threshold_bps = 0;
  quorum_floor = 0;
  approval_threshold_bps = 0;
  actions = actions;
  flow = flow;
  timelock_duration_ns = terms.timelock_duration_ns;
  sandbox_start_time_ns = none;
  bond_amount = terms.bond_amount;
  sandbox_duration_ns = 0;
  sandbox_threshold_bps = 0;
}

abbrev pub is_empty_list : Option (List ProposalAction) → Bool
is_empty_list none = false
is_empty_list (some []) = true
is_empty_list (some (a ∷ rest)) = false

-- What the attached deposit exceeds the required one by goes back to the caller.
abbrev pub refund_above : Env → ℕ → List Promise
refund_above env required =
    if ltb required env.attached_deposit
    then pays env.predecessor_account_id (env.attached_deposit - required) ∷ []
    else []

-- `create_proposal`. The runtime reports the storage in use before and after the two writes.
unfoldable pub create_proposal :
    Env
    → Contract
    → ProposalMetadata
    → Option (List ProposalAction)
    → ProposalFlow
    → ℕ
    → ℕ
    → Result (Contract × List Promise × ProposalId)
unfolding flow_terms fresh_proposal
create_proposal env c metadata actions flow usage_before usage_after = do
  assert_not_paused c
  require (not (is_empty_list actions)) empty_actions
  let id = length c.proposals
  let terms = flow_terms c.config flow
  expiration ← expiration_from env.block_timestamp terms.expiration_ns
  let proposal = fresh_proposal id env terms expiration actions flow
  updated_usage ← u64_add usage_after snapshot_storage_reserve_bytes
  storage_cost ← u128_mul env.storage_byte_cost (updated_usage - usage_before)
  fees ← near_add terms.bond_amount c.config.base_proposal_fee
  required ← near_add fees storage_cost
  require (leb required env.attached_deposit) insufficient_deposit
  ok (
    record c {
      proposals = c.proposals ++ VProposal.current proposal ∷ [];
      proposal_metadata = c.proposal_metadata ++ VProposalMetadata.current metadata ∷ [];
    },
    refund_above env required,
    id,
  )
