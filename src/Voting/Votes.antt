-- ===== src/Voting/Votes.antt =====
-- Votes (voting-contract/src/votes.rs). Hashing is a parameter.
use house_of_stake_contracts.Base.{
  ltb, leb, ◌==◌, if◌then◌else◌, is_some, get_elem?, set, out_of_bounds, insufficient_deposit,
  no_deposit, not_sandbox_or_voting, snapshot_already_set, snapshot_with_deposit,
  only_for_in_sandbox, not_in_voting, snapshot_missing, invalid_proof, account_mismatch,
  no_venear_balance, already_voted, Result, ok, panic, ◌>>=◌, ◌>>◌, require, expect, ℕ, ◌-◌, Bool,
  false, not, ◌&&◌, ◌||◌, Option, none, some, List, [], ◌∷◌, ◌++◌,
}
use house_of_stake_contracts.Common.Token.{near_add}
use house_of_stake_contracts.Voting.Types.{
  ProposalId, VoteOption, option_index, ProposalStatus, voting, sandbox, scheduled, has_status,
  is_fast_track, VoteStats, add_vote, remove_vote, Proposal,
}
use house_of_stake_contracts.Voting.Proposal.{next_voting_start_ns, sandbox_threshold_met}
use house_of_stake_contracts.Voting.Contract.{
  Config, Ballot, Contract, Env, VotePayload, Promise, pays, fetches_snapshot, votes_after, new,
  assert_not_paused, internal_expect_proposal_updated, IterableSet, internal_set_proposal,
}
use house_of_stake_contracts.Voting.Queue.{internal_advance_queue}
use house_of_stake_contracts.Merkle.{CryptoHash, MerkleProof, is_valid}
use house_of_stake_contracts.Common.Account
use house_of_stake_contracts.Common.Account.{
  AccountId, Account, VAccount, of_versioned, total_balance,
}

-- The map of ballots, by voter and proposal.
unfoldable pub get_vote : List Ballot → AccountId → ProposalId → Option ℕ
get_vote [] voter id = none
get_vote (b ∷ bs) voter id =
    if b.voter == voter && b.proposal_id == id then some b.option else get_vote bs voter id

unfoldable pub insert_vote : List Ballot → AccountId → ProposalId → ℕ → List Ballot
insert_vote [] voter id option = record { voter = voter; proposal_id = id; option = option } ∷ []
insert_vote (b ∷ bs) voter id option =
    if b.voter == voter && b.proposal_id == id
    then record b { option = option } ∷ bs
    else b ∷ insert_vote bs voter id option

-- Changes the entry of one option; there is none out of bounds.
unfoldable pub change_at :
    List VoteStats → ℕ → (VoteStats → Result VoteStats) → Result (List VoteStats)
change_at votes i change = do
  old ← expect (get_elem? votes i) out_of_bounds
  new ← change old
  ok (set votes i new)

-- The tallies with a ballot added or taken out: of its option, and of all.
unfoldable pub tally_with : (VoteStats → Result VoteStats) → ℕ → Proposal → Result Proposal
unfolding change_at
tally_with change i p = do
  votes ← change_at p.votes i change
  total ← change p.total_votes
  ok (record p { votes = votes; total_votes = total })

-- Takes out the ballot that the voter has cast before, if any.
unfoldable pub retract : Option ℕ → ℕ → Proposal → Result Proposal
unfolding tally_with
retract none balance p = ok p
retract (some option) balance p = tally_with (λ v. remove_vote v balance) option p

unfoldable pub cast : ℕ → ℕ → Proposal → Result Proposal
unfolding tally_with
cast option balance p = tally_with (λ v. add_vote v balance) option p

-- Voting takes every option, the sandbox only For.
unfoldable pub assert_phase : ProposalStatus → VoteOption → Result (Unit {0})
assert_phase voting vote = ok tt
assert_phase sandbox vote = require (option_index vote == 0) only_for_in_sandbox
assert_phase _ vote = panic not_in_voting

-- A FastTrack proposal in the sandbox is scheduled once its threshold is met.
unfoldable pub schedule_if_met : Bool → Env → Proposal → Result Proposal
schedule_if_met sandbox_build env p =
    if is_fast_track p.flow && has_status p.status sandbox
    then (do
      met ← sandbox_threshold_met p
      if met
          then (do
            start ← next_voting_start_ns sandbox_build env.block_timestamp
            ok (record p { voting_start_time_ns = some start; status = scheduled }))
          else ok p)
    else ok p

-- What exceeds the fee and one yoctoNEAR goes back to whoever supplied it: the signer of a call of
-- the contract by itself, else the caller.
unfoldable pub refund_vote : Env → ℕ → Result (List Promise)
refund_vote env fee = do
  kept ← near_add fee 1
  let recipient =
      if env.predecessor_account_id == env.current_account_id
      then env.signer_account_id
      else env.predecessor_account_id
  ok (
      if ltb kept env.attached_deposit
      then pays recipient (env.attached_deposit - kept) ∷ []
      else [])

-- A first vote pays for its storage.
abbrev pub vote_fee : Config → Option ℕ → ℕ
vote_fee g none = g.vote_storage_fee
vote_fee g (some previous) = 0

abbrev pub is_vote_for : Option ℕ → ℕ → Bool
is_vote_for none i = false
is_vote_for (some j) i = j == i

module _ (sandbox_build : Bool) (set_of_ids : IterableSet) (hash_value : VAccount → CryptoHash)
    (hash_pair : CryptoHash → CryptoHash → CryptoHash) where
  -- From the proposal and the voter's power on: the ballot itself.
  unfoldable pub record_vote :
      Env
      → Contract
      → ProposalId
      → Proposal
      → AccountId
      → VoteOption
      → ℕ
      → Result (Contract × List Promise)
  record_vote env c id p voter vote balance = do
    let option = option_index vote
    let previous = get_vote c.votes voter id
    require (not (is_vote_for previous option)) already_voted
    q ← retract previous balance p
    r ← cast option balance q
    require (leb (vote_fee c.config previous) env.attached_deposit) insufficient_deposit
    refund ← refund_vote env (vote_fee c.config previous)
    s ← schedule_if_met sandbox_build env r
    d ←
        internal_set_proposal set_of_ids s
          (record c { votes = insert_vote c.votes voter id option })
    ok (d, refund)

  unfoldable pub vote :
      Env
      → Contract
      → ProposalId
      → VoteOption
      → MerkleProof
      → VAccount
      → Result (Contract × List Promise)
  vote env c id option proof v_account = do
    assert_not_paused c
    d ← internal_advance_queue set_of_ids c env.block_timestamp
    require (not (env.attached_deposit == 0)) no_deposit
    p ← internal_expect_proposal_updated d id env.block_timestamp
    assert_phase p.status option
    s ← expect p.snapshot_and_state snapshot_missing
    require (is_valid hash_value hash_pair proof s.snapshot.root s.snapshot.leaves v_account)
        invalid_proof
    let account = Account.of_versioned v_account
    require
        (account.account_id == env.predecessor_account_id
          || env.predecessor_account_id == env.current_account_id)
        account_mismatch
    balance ← Account.total_balance account s.timestamp_ns s.venear_growth_config
    require (not (balance == 0)) no_venear_balance
    record_vote env d id p account.account_id option balance

module _ (set_of_ids : IterableSet) where
  -- The checks on a call that only takes a snapshot.
  unfoldable pub assert_snapshot_only : Env → Proposal → Option VotePayload → Result (Unit {0})
  assert_snapshot_only env p (some payload) = ok tt
  assert_snapshot_only env p none = do
    require (not (is_some p.snapshot_and_state)) snapshot_already_set
    require (env.attached_deposit == 0) snapshot_with_deposit

  abbrev pub fetch_if_missing : Contract → ProposalId → Proposal → List Promise
  fetch_if_missing c id p =
      if is_some p.snapshot_and_state
      then []
      else fetches_snapshot c.config.venear_account_id id ∷ []

  -- The vote of the caller, chained after the snapshot.
  unfoldable pub chain_vote : Env → ProposalId → Option VotePayload → Result (List Promise)
  chain_vote env id none = ok []
  chain_vote env id (some payload) = do
    require ((Account.of_versioned payload.v_account).account_id == env.predecessor_account_id)
        account_mismatch
    ok (votes_after id payload env.attached_deposit ∷ [])

  unfoldable pub take_snapshot_and_vote :
      Env → Contract → ProposalId → Option VotePayload → Result (Contract × List Promise)
  take_snapshot_and_vote env c id payload = do
    assert_not_paused c
    d ← internal_advance_queue set_of_ids c env.block_timestamp
    p ← internal_expect_proposal_updated d id env.block_timestamp
    require (has_status p.status sandbox || has_status p.status voting) not_sandbox_or_voting
    assert_snapshot_only env p payload
    chained ← chain_vote env id payload
    ok (d, fetch_if_missing d id p ++ chained)
