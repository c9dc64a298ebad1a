-- ===== src/Voting/Contract.antt =====
-- The state of the voting contract, its environment, its access checks and its store of proposals
-- (voting-contract/src/lib.rs, config.rs, pause.rs, governance.rs and the internal functions of
-- proposal.rs). An entry point returns the new state and the promises that it creates.
use house_of_stake_contracts.Voting.Legacy.{VProposal, of_versioned}
use house_of_stake_contracts.Voting.Proposal.{update}
use house_of_stake_contracts.Base.{
  ltb, ◌==◌, if◌then◌else◌, length, get_elem?, set, contains, out_of_bounds, not_one_yocto, paused,
  only_owner, only_guardian, only_reviewers, only_council, proposal_not_found, Result, ok, ◌>>=◌,
  ◌>>◌, require, expect, ℕ, suc, ◌≡◌, Bool, true, false, not, ◌&&◌, ◌||◌, Option, none, some, List,
  [], ◌∷◌,
}
use house_of_stake_contracts.Common.Account.{AccountId, VAccount}
use house_of_stake_contracts.Merkle.{MerkleProof}
use house_of_stake_contracts.Voting.Types.{
  ProposalId, VoteOption, has_status, is_active_status, ProposalAction, Proposal, VProposalMetadata,
}

pub record Config : Type 0 where
  pub venear_account_id : AccountId
  pub reviewer_ids : List AccountId
  pub council_ids : List AccountId
  pub owner_account_id : AccountId
  pub classic_voting_duration_ns : ℕ
  pub fast_track_voting_duration_ns : ℕ
  pub timelock_duration_ns : ℕ
  pub base_proposal_fee : ℕ
  pub bond_amount : ℕ
  pub treasury_account_id : AccountId
  pub vote_storage_fee : ℕ
  pub guardians : List AccountId
  pub classic_proposal_expiration_ns : ℕ
  pub fast_track_proposal_expiration_ns : ℕ
  pub proposed_new_owner_account_id : Option AccountId
  pub quorum_threshold_bps : ℕ
  pub quorum_floor : ℕ
  pub approval_threshold_bps : ℕ
  pub simple_majority_threshold_bps : ℕ
  pub strong_majority_threshold_bps : ℕ
  pub sandbox_duration_ns : ℕ
  pub sandbox_threshold_bps : ℕ
  pub max_active_proposals : ℕ

-- An entry of the map from an account and a proposal to the index of the option voted for.
pub record Ballot : Type 0 where
  pub voter : AccountId
  pub proposal_id : ProposalId
  pub option : ℕ

-- The set of active proposals is the list of its elements, each once, in the order of iteration.
pub record Contract : Type 0 where
  pub config : Config
  pub proposals : List VProposal
  pub proposal_metadata : List VProposalMetadata
  pub votes : List Ballot
  pub is_paused : Bool
  pub pending_queue : List ProposalId
  pub active_proposals : List ProposalId

-- What the runtime tells a call.
pub record Env : Type 0 where
  pub predecessor_account_id : AccountId
  pub current_account_id : AccountId
  pub signer_account_id : AccountId
  pub block_timestamp : ℕ
  pub attached_deposit : ℕ
  pub storage_byte_cost : ℕ

-- A vote that `take_snapshot_and_vote` casts in the same transaction.
pub record VotePayload : Type 0 where
  pub vote : VoteOption
  pub merkle_proof : MerkleProof
  pub v_account : VAccount

-- The promises that the entry points create.
pub data Promise : Type 0 where
  -- A transfer of tokens.
  pays : (receiver : AccountId) (amount : ℕ) → Promise
  -- `get_snapshot` of the veNEAR contract, then `on_get_snapshot` for the proposal.
  fetches_snapshot : (venear : AccountId) (id : ProposalId) → Promise
  -- A call of the contract's own `vote` with a deposit, after the promises before it.
  votes_after : (id : ProposalId) (payload : VotePayload) (deposit : ℕ) → Promise
  -- The actions of a proposal one after the other, then `on_execute_proposal`.
  runs : (actions : List ProposalAction) (id : ProposalId) → Promise

-- `Contract::new`
unfoldable pub new : Config → Contract
new config = record {
  config = config;
  proposals = [];
  proposal_metadata = [];
  votes = [];
  is_paused = false;
  pending_queue = [];
  active_proposals = [];
}

abbrev pub assert_one_yocto : Env → Result (Unit {0})
assert_one_yocto env = require (env.attached_deposit == 1) not_one_yocto

abbrev pub assert_not_paused : Contract → Result (Unit {0})
assert_not_paused c = require (not c.is_paused) paused

abbrev pub assert_owner : Env → Contract → Result (Unit {0})
assert_owner env c = require (env.predecessor_account_id == c.config.owner_account_id) only_owner

abbrev pub assert_guardian : Env → Contract → Result (Unit {0})
assert_guardian env c =
    require
      (contains c.config.guardians env.predecessor_account_id
        || env.predecessor_account_id == c.config.owner_account_id)
      only_guardian

abbrev pub assert_called_by_reviewer : Env → Contract → Result (Unit {0})
assert_called_by_reviewer env c =
    require (contains c.config.reviewer_ids env.predecessor_account_id) only_reviewers

abbrev pub assert_called_by_council : Env → Contract → Result (Unit {0})
assert_called_by_council env c =
    require (contains c.config.council_ids env.predecessor_account_id) only_council

-- `internal_get_proposal`: the proposal as of now, and whether the clock has changed its status.
unfoldable pub internal_get_proposal : Contract → ProposalId → ℕ → Result (Option (Proposal × Bool))
internal_get_proposal c id now = elim (get_elem? c.proposals id) [
  | none ↦ ok none
  | some stored ↦ do
    p ← of_versioned stored
    q ← update p now
    ok (some (q, not (has_status q.status p.status)))
]

unfoldable pub internal_expect_proposal_updated : Contract → ProposalId → ℕ → Result Proposal
unfolding internal_get_proposal
internal_expect_proposal_updated c id now = do
  found ← expect (← internal_get_proposal c id now) proposal_not_found
  ok found.0

-- The store's set of active proposals is near-sdk's `IterableSet`, which iterates in an order of its
-- own. What is relied on: each element is listed once, and the operations insert and remove one.
abbrev pub Distinct : List ℕ → Type 0
Distinct [] = Unit {0}
Distinct (x ∷ xs) = (contains xs x ≡ false) × Distinct xs

pub record IterableSet : Type 0 where
  pub insert : List ℕ → ℕ → List ℕ
  pub remove : List ℕ → ℕ → List ℕ
  pub contains-insert :
      (xs : List ℕ) (i j : ℕ) → contains (insert xs i) j ≡ (j == i || contains xs j)
  pub contains-remove :
      (xs : List ℕ) (i j : ℕ)
      → Distinct xs
      → contains (remove xs i) j ≡ (not (j == i) && contains xs j)
  pub insert-Distinct : (xs : List ℕ) (i : ℕ) → Distinct xs → Distinct (insert xs i)
  pub remove-Distinct : (xs : List ℕ) (i : ℕ) → Distinct xs → Distinct (remove xs i)
  pub length-insert :
      (xs : List ℕ) (i : ℕ) → contains xs i ≡ false → length (insert xs i) ≡ suc (length xs)
  pub length-remove :
      (xs : List ℕ) (i : ℕ)
      → Distinct xs
      → contains xs i ≡ true
      → suc (length (remove xs i)) ≡ length xs

module _ (set_of_ids : IterableSet) where
  -- The active set after storing a proposal with a status.
  unfoldable pub active_after : List ProposalId → ProposalId → Bool → List ProposalId
  active_after ids id new_active =
      if not (contains ids id) && new_active
      then set_of_ids.insert ids id
      else (if contains ids id && not new_active then set_of_ids.remove ids id else ids)

  -- `internal_set_proposal`
  unfoldable pub internal_set_proposal : Proposal → Contract → Result Contract
  unfolding active_after
  internal_set_proposal p c = do
    require (ltb p.id (length c.proposals)) out_of_bounds
    ok (record c {
      active_proposals = active_after c.active_proposals p.id (is_active_status p.status);
      proposals = set c.proposals p.id (VProposal.current p);
    })
