-- ===== src/Voting/Types.antt =====
-- The data of the voting contract: common/src/voting.rs and the types of
-- voting-contract/src/proposal.rs, metadata.rs and votes.rs. Times, amounts and basis points are
-- numbers.
use Prim.Native.String.{String}
use house_of_stake_contracts.Base.{
  ◌==◌, Result, ok, ◌>>=◌, u32_add, checked_sub, ℕ, Bool, true, false, Option, List,
}
use house_of_stake_contracts.Merkle.{MerkleTreeSnapshot}
use house_of_stake_contracts.Common.Token.{near_add, near_sub}
use house_of_stake_contracts.Common.Growth.{VenearGrowthConfig}
use house_of_stake_contracts.Common.Account.{AccountId}

abbrev pub ProposalId : Type 0
ProposalId = ℕ

pub data VoteOption : Type 0 where
  for_option against abstain : VoteOption

-- `From<VoteOption> for u8`
unfoldable pub option_index : VoteOption → ℕ
option_index for_option = 0
option_index against = 1
option_index abstain = 2

pub data MajorityType : Type 0 where
  simple strong : MajorityType

pub data ProposalFlow : Type 0 where
  classic fast_track : ProposalFlow

pub data ProposalStatus : Type 0 where
  created rejected approval_legacy voting finish_legacy vetoed timelock expired : ProposalStatus
  succeeded defeated executable in_progress failed slashed : ProposalStatus
  sandbox scheduled queued : ProposalStatus

-- The discriminant of a status, by which statuses are compared.
abbrev pub discriminant : ProposalStatus → ℕ
discriminant created = 0
discriminant rejected = 1
discriminant approval_legacy = 2
discriminant voting = 3
discriminant finish_legacy = 4
discriminant vetoed = 5
discriminant timelock = 6
discriminant expired = 7
discriminant succeeded = 8
discriminant defeated = 9
discriminant executable = 10
discriminant in_progress = 11
discriminant failed = 12
discriminant slashed = 13
discriminant sandbox = 14
discriminant scheduled = 15
discriminant queued = 16

-- `==` on statuses.
abbrev pub has_status : ProposalStatus → ProposalStatus → Bool
has_status s t = discriminant s == discriminant t

abbrev pub is_fast_track : ProposalFlow → Bool
is_fast_track classic = false
is_fast_track fast_track = true

-- `is_active_status`: a proposal in such a status occupies an active slot.
abbrev pub is_active_status : ProposalStatus → Bool
is_active_status sandbox = true
is_active_status scheduled = true
is_active_status voting = true
is_active_status timelock = true
is_active_status _ = false

pub data ProposalAction : Type 0 where
  function_call :
      (receiver_id : AccountId) (method_name : String) (args : List ℕ) (deposit gas : ℕ)
      → ProposalAction
  transfer : (receiver_id : AccountId) (amount : ℕ) → ProposalAction

pub record SnapshotAndState : Type 0 where
  pub snapshot : MerkleTreeSnapshot
  pub timestamp_ns : ℕ
  pub total_venear : ℕ
  pub venear_growth_config : VenearGrowthConfig

pub record VoteStats : Type 0 where
  pub total_venear : ℕ
  pub total_votes : ℕ

-- `VoteStats::default`
abbrev pub no_votes : VoteStats
no_votes = record { total_venear = 0; total_votes = 0 }

unfoldable pub add_vote : VoteStats → ℕ → Result VoteStats
add_vote v venear = do
  count ← u32_add v.total_votes 1
  sum ← near_add v.total_venear venear
  ok (record { total_venear = sum; total_votes = count })

unfoldable pub remove_vote : VoteStats → ℕ → Result VoteStats
remove_vote v venear = do
  count ← checked_sub v.total_votes 1
  sum ← near_sub v.total_venear venear
  ok (record { total_venear = sum; total_votes = count })

pub record Proposal : Type 0 where
  pub id : ProposalId
  pub creation_time_ns : ℕ
  pub proposer_id : AccountId
  pub reviewer_id : Option AccountId
  pub rejecter_id : Option AccountId
  pub approval_time_ns : Option ℕ
  pub voting_start_time_ns : Option ℕ
  pub voting_duration_ns : ℕ
  pub expiration_ns : ℕ
  pub snapshot_and_state : Option SnapshotAndState
  pub votes : List VoteStats
  pub total_votes : VoteStats
  pub status : ProposalStatus
  pub quorum_threshold_bps : ℕ
  pub quorum_floor : ℕ
  pub approval_threshold_bps : ℕ
  pub actions : Option (List ProposalAction)
  pub flow : ProposalFlow
  pub timelock_duration_ns : ℕ
  pub sandbox_start_time_ns : Option ℕ
  pub bond_amount : ℕ
  pub sandbox_duration_ns : ℕ
  pub sandbox_threshold_bps : ℕ

-- Metadata, of the older form with its voting options and of the current one.
pub record ProposalMetadata : Type 0 where
  pub title : Option String
  pub description : Option String
  pub link : Option String

pub record ProposalMetadataV1 : Type 0 where
  pub title : Option String
  pub description : Option String
  pub link : Option String
  pub voting_options : List String

pub data VProposalMetadata : Type 0 where
  v1 : ProposalMetadataV1 → VProposalMetadata
  current : ProposalMetadata → VProposalMetadata

-- `From<VProposalMetadata> for ProposalMetadata`
unfoldable pub metadata_of_versioned : VProposalMetadata → ProposalMetadata
metadata_of_versioned (current m) = m
metadata_of_versioned (v1 m) = record {
  title = m.title;
  description = m.description;
  link = m.link;
}
