-- ===== src/Voting/Invariant/History.antt =====
-- Every history of calls keeps the store's invariant.
use house_of_stake_contracts.Voting.Legacy.{VProposal}
use house_of_stake_contracts.Base.{
  length, Ensures, returns, Ensures-require, Ensures-then, Ensures-map, ℕ, refl, Bool, Option, List,
  [], ◌∷◌, ◌++◌, run, run-keeps,
}
use house_of_stake_contracts.Common.Account.{AccountId, VAccount}
use house_of_stake_contracts.Merkle.{CryptoHash, MerkleProof}
use house_of_stake_contracts.Voting.Types.{
  ProposalId, VoteOption, ProposalFlow, ProposalAction, Proposal, ProposalMetadata,
  VProposalMetadata,
}
use house_of_stake_contracts.Voting.Contract.{Config, Contract, Env, IterableSet}
use house_of_stake_contracts.Voting.Create.{FlowTerms, fresh_proposal, create_proposal}
use house_of_stake_contracts.Voting.Votes.{record_vote, vote}
use house_of_stake_contracts.Voting.Governance.{owner_sets, accept_ownership, pause, unpause}
use house_of_stake_contracts.Voting.Calls.{
  Call, creates, approves, rejects, vetoes, waives_veto, slashes, stores_snapshot, casts_vote,
  takes_snapshot, claims_bond, executes, finishes, advances, pauses, unpauses, accepts_ownership,
  sets_max_active, configures, perform,
}
use house_of_stake_contracts.Voting.Invariant.{IsValid}
use house_of_stake_contracts.Voting.Invariant.Store.{appended-IsValid}
use house_of_stake_contracts.Voting.Invariant.Advance.{internal_advance_queue-IsValid}
use house_of_stake_contracts.Voting.Invariant.Entry.{
  Valid-bind, step_rules, reject_proposal-IsValid, veto_proposal-IsValid, noveto_proposal-IsValid,
  slash_proposal-IsValid, claim_bond-IsValid, execute_proposal-IsValid, on_execute_proposal-IsValid,
  approve_proposal-IsValid, advance_queue-IsValid, set_max_active_proposals-IsValid,
  take_snapshot_and_vote-IsValid, on_get_snapshot-IsValid,
}

created-IsValid :
    (env : Env) (c : Contract) (terms : FlowTerms) (expiration : ℕ)
    (actions : Option (List ProposalAction)) (flow : ProposalFlow) (m : List VProposalMetadata)
    → IsValid c
    → IsValid (record c {
      proposals =
          c.proposals
          ++ VProposal.current
              (fresh_proposal (length c.proposals) env terms expiration actions flow)
            ∷ [];
      proposal_metadata = m;
    })
unfolding fresh_proposal
created-IsValid env c terms expiration actions flow m v = appended-IsValid c _ v m refl refl

create_proposal-IsValid :
    (env : Env) (c : Contract) (metadata : ProposalMetadata)
    (actions : Option (List ProposalAction)) (flow : ProposalFlow) (before after : ℕ)
    → IsValid c
    → Ensures (λ r. IsValid r.0) (create_proposal env c metadata actions flow before after)
unfolding create_proposal
create_proposal-IsValid env c metadata actions flow before after v =
    search (Ensures-require, Ensures-then, returns, created-IsValid) depth 12

owner_sets-IsValid :
    (env : Env) (c : Contract) (change : Config → Config)
    → IsValid c
    → Ensures IsValid (owner_sets env c change)
unfolding owner_sets
owner_sets-IsValid env c change v = search step_rules depth 6

pause-IsValid : (env : Env) (c : Contract) → IsValid c → Ensures IsValid (pause env c)
unfolding pause
pause-IsValid env c v = search step_rules depth 6

unpause-IsValid : (env : Env) (c : Contract) → IsValid c → Ensures IsValid (unpause env c)
unfolding unpause
unpause-IsValid env c v = search step_rules depth 6

accept_ownership-IsValid :
    (env : Env) (c : Contract) → IsValid c → Ensures IsValid (accept_ownership env c)
unfolding accept_ownership
accept_ownership-IsValid env c v = search step_rules depth 6

module _ (sandbox_build : Bool) (set_of_ids : IterableSet) (hash_value : VAccount → CryptoHash)
    (hash_pair : CryptoHash → CryptoHash → CryptoHash) where
  record_vote-IsValid :
      (env : Env) (c : Contract) (id : ProposalId) (p : Proposal) (voter : AccountId)
      (option : VoteOption) (balance : ℕ)
      → IsValid c
      → Ensures
          (λ r. IsValid r.0)
          (record_vote sandbox_build set_of_ids hash_value hash_pair env c id p voter option
            balance)
  unfolding record_vote
  record_vote-IsValid env c id p voter option balance v =
      search (Valid-bind, Ensures-then, step_rules) depth 14

  vote-IsValid :
      (env : Env) (c : Contract) (id : ProposalId) (option : VoteOption) (proof : MerkleProof)
      (account : VAccount)
      → IsValid c
      → Ensures
          (λ r. IsValid r.0)
          (vote sandbox_build set_of_ids hash_value hash_pair env c id option proof account)
  unfolding vote
  vote-IsValid env c id option proof account v =
      search
        (
          Valid-bind, Ensures-require, Ensures-then, internal_advance_queue-IsValid,
          record_vote-IsValid,
        )
        depth 16

  -- Every call that returns keeps the invariant.
  pub perform-IsValid :
      (env : Env) (c : Contract) (call : Call)
      → IsValid c
      → Ensures IsValid (perform sandbox_build set_of_ids hash_value hash_pair env c call)
  unfolding perform
  perform-IsValid env c (creates metadata actions flow before after) v =
      Ensures-map _ _ (create_proposal-IsValid env c metadata actions flow before after v)
  perform-IsValid env c (approves id majority) v =
      Ensures-map _ _ (approve_proposal-IsValid set_of_ids env c id majority v)
  perform-IsValid env c (rejects id) v = reject_proposal-IsValid set_of_ids env c id v
  perform-IsValid env c (vetoes id) v = veto_proposal-IsValid set_of_ids env c id v
  perform-IsValid env c (waives_veto id) v = noveto_proposal-IsValid set_of_ids env c id v
  perform-IsValid env c (slashes id) v =
      Ensures-map _ _ (slash_proposal-IsValid set_of_ids env c id v)
  perform-IsValid env c (stores_snapshot snapshot state id before after) v =
      Ensures-map _ _ (on_get_snapshot-IsValid set_of_ids env c snapshot state id before after v)
  perform-IsValid env c (casts_vote id option proof account) v =
      Ensures-map _ _ (vote-IsValid env c id option proof account v)
  perform-IsValid env c (takes_snapshot id payload) v =
      Ensures-map _ _ (take_snapshot_and_vote-IsValid set_of_ids env c id payload v)
  perform-IsValid env c (claims_bond id) v =
      Ensures-map _ _ (claim_bond-IsValid set_of_ids env c id v)
  perform-IsValid env c (executes id) v =
      Ensures-map _ _ (execute_proposal-IsValid set_of_ids env c id v)
  perform-IsValid env c (finishes id results) v =
      on_execute_proposal-IsValid set_of_ids env c id results v
  perform-IsValid env c advances v = advance_queue-IsValid set_of_ids env c v
  perform-IsValid env c pauses v = pause-IsValid env c v
  perform-IsValid env c unpauses v = unpause-IsValid env c v
  perform-IsValid env c accepts_ownership v = accept_ownership-IsValid env c v
  perform-IsValid env c (sets_max_active n) v =
      set_max_active_proposals-IsValid set_of_ids env c n v
  perform-IsValid env c (configures change) v = owner_sets-IsValid env c change v

  -- After any history of calls from a valid state, each by any caller at any time and some of them
  -- panicking, the active set lists exactly the proposals whose stored status is active, each once.
  pub run-IsValid :
      (c : Contract) (calls : List (Env × Call))
      → IsValid c
      → IsValid (run (perform sandbox_build set_of_ids hash_value hash_pair) c calls)
  run-IsValid =
      run-keeps (perform sandbox_build set_of_ids hash_value hash_pair) IsValid perform-IsValid
