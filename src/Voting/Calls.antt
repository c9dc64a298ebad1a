-- ===== src/Voting/Calls.antt =====
-- The entry points of the voting contract as one type of calls, and what
-- each does to the state.
use house_of_stake_contracts.Base.{Result, ok, ◌>>=◌, ℕ, Bool, Option, List}
use house_of_stake_contracts.Common.Account.{VAccount}
use house_of_stake_contracts.Common.GlobalState.{VGlobalState}
use house_of_stake_contracts.Merkle.{CryptoHash, MerkleTreeSnapshot, MerkleProof}
use house_of_stake_contracts.Voting.Types.{
  ProposalId, VoteOption, MajorityType, ProposalFlow, ProposalAction, ProposalMetadata,
}
use house_of_stake_contracts.Voting.Contract.{Config, Contract, Env, VotePayload, IterableSet}
use house_of_stake_contracts.Voting.Queue.{advance_queue}
use house_of_stake_contracts.Voting.Create.{create_proposal}
use house_of_stake_contracts.Voting.Reviewer.{
  approve_proposal, reject_proposal, veto_proposal, noveto_proposal, slash_proposal,
  on_get_snapshot,
}
use house_of_stake_contracts.Voting.Votes.{vote, take_snapshot_and_vote}
use house_of_stake_contracts.Voting.Settle.{claim_bond, execute_proposal, on_execute_proposal}
use house_of_stake_contracts.Voting.Governance.{
  owner_sets, accept_ownership, pause, unpause, set_max_active_proposals,
}

pub data Call : Type 0 where
  -- The storage in use before and after, as the runtime reports it, comes with two of the calls.
  creates : ProposalMetadata → Option (List ProposalAction) → ProposalFlow → ℕ → ℕ → Call
  approves : ProposalId → Option MajorityType → Call
  rejects vetoes waives_veto slashes : ProposalId → Call
  stores_snapshot : MerkleTreeSnapshot → VGlobalState → ProposalId → ℕ → ℕ → Call
  casts_vote : ProposalId → VoteOption → MerkleProof → VAccount → Call
  takes_snapshot : ProposalId → Option VotePayload → Call
  claims_bond executes : ProposalId → Call
  finishes : ProposalId → List Bool → Call
  advances : Call
  pauses unpauses accepts_ownership : Call
  sets_max_active : ℕ → Call
  -- The setters of the configuration, by the change that they make.
  configures : (Config → Config) → Call

module _ (sandbox_build : Bool) (set_of_ids : IterableSet) (hash_value : VAccount → CryptoHash)
    (hash_pair : CryptoHash → CryptoHash → CryptoHash) where
  -- The state after a call that returns.
  unfoldable pub perform : Env → Contract → Call → Result Contract
  perform env c (creates metadata actions flow before after) = do
    ok ((← create_proposal env c metadata actions flow before after).0)
  perform env c (approves id majority) = do ok ((← approve_proposal set_of_ids env c id majority).0)
  perform env c (rejects id) = reject_proposal set_of_ids env c id
  perform env c (vetoes id) = veto_proposal set_of_ids env c id
  perform env c (waives_veto id) = noveto_proposal set_of_ids env c id
  perform env c (slashes id) = do ok ((← slash_proposal set_of_ids env c id).0)
  perform env c (stores_snapshot snapshot state id before after) = do
    ok ((← on_get_snapshot set_of_ids env c snapshot state id before after).0)
  perform env c (casts_vote id option proof account) = do
    ok ((← vote sandbox_build set_of_ids hash_value hash_pair env c id option proof account).0)
  perform env c (takes_snapshot id payload) = do
    ok ((← take_snapshot_and_vote set_of_ids env c id payload).0)
  perform env c (claims_bond id) = do ok ((← claim_bond set_of_ids env c id).0)
  perform env c (executes id) = do ok ((← execute_proposal set_of_ids env c id).0)
  perform env c (finishes id results) = on_execute_proposal set_of_ids env c id results
  perform env c advances = advance_queue set_of_ids env c
  perform env c pauses = pause env c
  perform env c unpauses = unpause env c
  perform env c accepts_ownership = accept_ownership env c
  perform env c (sets_max_active n) = set_max_active_proposals set_of_ids env c n
  perform env c (configures change) = owner_sets env c change
