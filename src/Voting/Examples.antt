-- ===== src/Voting/Examples.antt =====
-- The theorems about the voting contract at concrete inputs.
mod IdSet
use house_of_stake_contracts.Base.{
  ok, ◌>>=◌, require, expect, ◌==◌, if◌then◌else◌, length, contains, ℕ, suc, ◌+◌, ◌-◌, ◌*◌, ◌≤◌,
  ◌<◌, ◌/◌, ◌%◌, ◌≡◌, refl, true, false, not, ◌&&◌, ◌||◌, none, some, List, [], ◌∷◌, arith, run,
}
use house_of_stake_contracts.Common.Account.{VAccount}
use house_of_stake_contracts.Merkle.{CryptoHash}
use house_of_stake_contracts.Merkle.Examples.{hash_of}
use house_of_stake_contracts.Voting.Types.{
  simple, classic, fast_track, voting, timelock, succeeded, no_votes, Proposal, ProposalMetadata,
  VoteStats,
}
use house_of_stake_contracts.Voting.Proposal.{
  ns_per_day, cet_offset_ns, next_voting_start_ns, has_actions, approval_met, compute_final_status,
  update,
}
use house_of_stake_contracts.Voting.Proposal.Clock.{next_voting_start-IsMonday, update-update}
use house_of_stake_contracts.Voting.Contract.{Config, Contract, Env, new, Distinct, IterableSet}
use house_of_stake_contracts.Common.Token.{bps_mul}
use house_of_stake_contracts.Common.Growth.{fixed_rate}
use house_of_stake_contracts.Voting.Calls.{Call, creates, approves, rejects, advances, perform}
use house_of_stake_contracts.Voting.Invariant.{IsValid, new-IsValid}
use house_of_stake_contracts.Voting.Invariant.History.{run-IsValid}
use house_of_stake_contracts.Voting.Examples.IdSet.{id_set}

-- Account 1 owns the contract, 2 reviews, 3 is in the council, 4 guards, 5 is the treasury, 9 is the
-- veNEAR contract.
abbrev pub sample_config : Config
sample_config = record {
  venear_account_id = 9;
  reviewer_ids = 2 ∷ [];
  council_ids = 3 ∷ [];
  owner_account_id = 1;
  classic_voting_duration_ns = 7 * ns_per_day;
  fast_track_voting_duration_ns = 5 * ns_per_day;
  timelock_duration_ns = 2 * ns_per_day;
  base_proposal_fee = 100;
  bond_amount = 1_000;
  treasury_account_id = 5;
  vote_storage_fee = 10;
  guardians = 4 ∷ [];
  classic_proposal_expiration_ns = 30 * ns_per_day;
  fast_track_proposal_expiration_ns = 10 * ns_per_day;
  proposed_new_owner_account_id = none;
  quorum_threshold_bps = 3_500;
  quorum_floor = 0;
  approval_threshold_bps = 5_000;
  simple_majority_threshold_bps = 5_000;
  strong_majority_threshold_bps = 6_667;
  sandbox_duration_ns = 3 * ns_per_day;
  sandbox_threshold_bps = 3_000;
  max_active_proposals = 1;
}

-- A call by an account on a day, with a deposit.
abbrev pub call_by : ℕ → ℕ → ℕ → Env
call_by account day deposit = record {
  predecessor_account_id = account;
  current_account_id = 8;
  signer_account_id = account;
  block_timestamp = day * ns_per_day;
  attached_deposit = deposit;
  storage_byte_cost = 1;
}

abbrev pub sample_metadata : ProposalMetadata
sample_metadata = record { title = none; description = none; link = none }

-- Stand-ins for the two hash functions.
abbrev pub sample_hash_value : VAccount → CryptoHash
sample_hash_value account = hash_of 7

abbrev pub sample_hash_pair : CryptoHash → CryptoHash → CryptoHash
sample_hash_pair left right = hash_of (3 * left.0 + right.0 + 1)

-- Account 6 creates a proposal of each flow, both are approved, and the first one ends.
abbrev pub sample_calls : List (Env × Call)
sample_calls =
    (call_by 6 1 5_000, creates sample_metadata none classic 100 200)
    ∷ (call_by 6 1 5_000, creates sample_metadata none fast_track 200 300)
    ∷ (call_by 2 2 1, approves 0 none)
    ∷ (call_by 2 3 1, approves 1 (some simple))
    ∷ (call_by 7 12 0, advances)
    ∷ []

run-IsValid_example :
    IsValid (
      run
        (perform false id_set sample_hash_value sample_hash_pair)
        (new sample_config)
        sample_calls)
run-IsValid_example =
    run-IsValid false id_set sample_hash_value sample_hash_pair (new sample_config) sample_calls
      (new-IsValid sample_config)

abbrev pub voted : VoteStats
voted = record { total_venear = 600; total_votes = 3 }

-- A Classic proposal in its voting period from day 2, which has passed.
abbrev pub sample_proposal : Proposal
sample_proposal = record {
  id = 0;
  creation_time_ns = ns_per_day;
  proposer_id = 6;
  reviewer_id = some 2;
  rejecter_id = none;
  approval_time_ns = some (2 * ns_per_day);
  voting_start_time_ns = some (2 * ns_per_day);
  voting_duration_ns = 7 * ns_per_day;
  expiration_ns = 31 * ns_per_day;
  snapshot_and_state = some (record {
    snapshot = record { root = hash_of 0; leaves = 1; block_height = 5 };
    timestamp_ns = 2 * ns_per_day;
    total_venear = 1_000;
    venear_growth_config = fixed_rate (record { numerator = 0; denominator = 1 });
  });
  votes = voted ∷ no_votes ∷ no_votes ∷ [];
  total_votes = voted;
  status = voting;
  quorum_threshold_bps = 3_500;
  quorum_floor = 0;
  approval_threshold_bps = 5_000;
  actions = none;
  flow = classic;
  timelock_duration_ns = 2 * ns_per_day;
  sandbox_start_time_ns = none;
  bond_amount = 0;
  sandbox_duration_ns = 0;
  sandbox_threshold_bps = 0;
}

update-update_example :
    (update sample_proposal (10 * ns_per_day) >>= λ q. update q (12 * ns_per_day))
    ≡ update sample_proposal (12 * ns_per_day)
update-update_example =
    update-update sample_proposal (10 * ns_per_day) (12 * ns_per_day) (omega arith)

-- On day 10 the proposal waits in its timelock, and on day 12 it has succeeded.
sample_proposal_waits :
    update sample_proposal (10 * ns_per_day) ≡ ok (record sample_proposal { status = timelock })
unfolding update ◌>>=◌ compute_final_status bps_mul approval_met require expect
sample_proposal_waits = refl

sample_proposal_succeeds :
    update sample_proposal (12 * ns_per_day) ≡ ok (record sample_proposal { status = succeeded })
unfolding update ◌>>=◌ compute_final_status bps_mul approval_met has_actions require expect
sample_proposal_succeeds = refl

-- From Thursday, the first day of the epoch, to Monday, 00:00 CET.
abbrev first_monday : ℕ
first_monday = 4 * ns_per_day - cet_offset_ns

next_voting_start-IsMonday_example :
    (0 < first_monday)
    × (first_monday ≤ 0 + 7 * ns_per_day)
    × ((first_monday + cet_offset_ns) % ns_per_day ≡ 0)
    × ((first_monday + cet_offset_ns) / ns_per_day % 7 ≡ 4)
unfolding next_voting_start_ns ◌>>=◌ require expect
next_voting_start-IsMonday_example = next_voting_start-IsMonday 0 first_monday refl
