-- ===== src/Voting/Invariant/Entry.antt =====
-- Every entry point keeps the store's invariant.
use house_of_stake_contracts.Base.{
  Result, ok, ◌>>=◌, Ensures, returns, Ensures-require, Ensures-bind, Ensures-then, Ensures-if, ℕ,
  refl, Bool, Option, List, ◌++◌,
}
use house_of_stake_contracts.Common.GlobalState.{VGlobalState}
use house_of_stake_contracts.Merkle.{MerkleTreeSnapshot}
use house_of_stake_contracts.Voting.Types.{ProposalId, MajorityType, Proposal}
use house_of_stake_contracts.Voting.Contract.{
  Config, Ballot, Contract, Env, VotePayload, Promise, IterableSet,
}
use house_of_stake_contracts.Voting.Queue.{advance_queue, ProposalInfo}
use house_of_stake_contracts.Voting.Reviewer.{
  place_approved, approve_proposal, reject_proposal, veto_proposal, noveto_proposal, slash_proposal,
  on_get_snapshot,
}
use house_of_stake_contracts.Voting.Votes.{take_snapshot_and_vote}
use house_of_stake_contracts.Voting.Settle.{claim_bond, execute_proposal, on_execute_proposal}
use house_of_stake_contracts.Voting.Governance.{set_max_active_proposals}
use house_of_stake_contracts.Voting.Invariant.{IsValid}
use house_of_stake_contracts.Voting.Invariant.Store.{internal_set_proposal-IsValid}
use house_of_stake_contracts.Voting.Invariant.Advance.{IsValid-same, internal_advance_queue-IsValid}

-- A step that returns a valid state.
pub Valid-bind {ℓ κ} :
    {A : Type ℓ} {P : A → Type κ} (m : Result Contract) (f : Contract → Result A)
    → Ensures IsValid m
    → ((d : Contract) → IsValid d → Ensures P (f d))
    → Ensures P (m >>= f)
Valid-bind m f h k = Ensures-bind m f h λ d e v. k d v

-- Fields that the invariant does not speak of.
pub IsValid-queue :
    (c : Contract) (q : List ProposalId) → IsValid c → IsValid (record c { pending_queue = q })
IsValid-queue c q v = IsValid-same c _ refl refl v

pub IsValid-votes :
    (c : Contract) (bs : List Ballot) → IsValid c → IsValid (record c { votes = bs })
IsValid-votes c bs v = IsValid-same c _ refl refl v

pub IsValid-paused : (c : Contract) (b : Bool) → IsValid c → IsValid (record c { is_paused = b })
IsValid-paused c b v = IsValid-same c _ refl refl v

pub IsValid-config : (c : Contract) (g : Config) → IsValid c → IsValid (record c { config = g })
IsValid-config c g v = IsValid-same c _ refl refl v

pub ruleset step_rules = (
  Ensures-require, Ensures-if, returns, internal_set_proposal-IsValid,
  internal_advance_queue-IsValid, IsValid-queue, IsValid-votes, IsValid-paused, IsValid-config,
)

module _ (set_of_ids : IterableSet) where
  pub reject_proposal-IsValid :
      (env : Env) (c : Contract) (id : ProposalId)
      → IsValid c
      → Ensures IsValid (reject_proposal set_of_ids env c id)
  unfolding reject_proposal
  reject_proposal-IsValid env c id v = search (Ensures-then, step_rules) depth 9

  pub veto_proposal-IsValid :
      (env : Env) (c : Contract) (id : ProposalId)
      → IsValid c
      → Ensures IsValid (veto_proposal set_of_ids env c id)
  unfolding veto_proposal
  veto_proposal-IsValid env c id v = search (Valid-bind, Ensures-then, step_rules) depth 12

  pub noveto_proposal-IsValid :
      (env : Env) (c : Contract) (id : ProposalId)
      → IsValid c
      → Ensures IsValid (noveto_proposal set_of_ids env c id)
  unfolding noveto_proposal
  noveto_proposal-IsValid env c id v = search (Valid-bind, Ensures-then, step_rules) depth 12

  pub slash_proposal-IsValid :
      (env : Env) (c : Contract) (id : ProposalId)
      → IsValid c
      → Ensures (λ r. IsValid r.0) (slash_proposal set_of_ids env c id)
  unfolding slash_proposal
  slash_proposal-IsValid env c id v = search (Valid-bind, Ensures-then, step_rules) depth 12

  pub claim_bond-IsValid :
      (env : Env) (c : Contract) (id : ProposalId)
      → IsValid c
      → Ensures (λ r. IsValid r.0) (claim_bond set_of_ids env c id)
  unfolding claim_bond
  claim_bond-IsValid env c id v = search (Valid-bind, Ensures-then, step_rules) depth 12

  pub execute_proposal-IsValid :
      (env : Env) (c : Contract) (id : ProposalId)
      → IsValid c
      → Ensures (λ r. IsValid r.0) (execute_proposal set_of_ids env c id)
  unfolding execute_proposal
  execute_proposal-IsValid env c id v = search (Valid-bind, Ensures-then, step_rules) depth 12

  pub on_execute_proposal-IsValid :
      (env : Env) (c : Contract) (id : ProposalId) (rs : List Bool)
      → IsValid c
      → Ensures IsValid (on_execute_proposal set_of_ids env c id rs)
  unfolding on_execute_proposal
  on_execute_proposal-IsValid env c id rs v = search (Valid-bind, Ensures-then, step_rules) depth 12

  place_approved-IsValid :
      (env : Env) (id : ProposalId) (p : Proposal) (c : Contract)
      → IsValid c
      → Ensures (λ r. IsValid r.0) (place_approved set_of_ids env id p c)
  unfolding place_approved
  place_approved-IsValid env id p c v = search (Valid-bind, Ensures-then, step_rules) depth 12

  place_approved_bind :
      (env : Env) (id : ProposalId) (p : Proposal) (c : Contract) (fx : List Promise)
      → IsValid c
      → Ensures {A = Contract × List Promise × Option ProposalInfo}
          (λ r. IsValid r.0)
          (place_approved set_of_ids env id p c >>= λ r. ok (r.0, fx ++ r.1, r.2))
  place_approved_bind env id p c fx v =
      Ensures-bind (place_approved set_of_ids env id p c) (λ r. ok (r.0, fx ++ r.1, r.2))
        (place_approved-IsValid env id p c v) λ r e w. returns _ w

  pub approve_proposal-IsValid :
      (env : Env) (c : Contract) (id : ProposalId) (majority : Option MajorityType)
      → IsValid c
      → Ensures (λ r. IsValid r.0) (approve_proposal set_of_ids env c id majority)
  unfolding approve_proposal
  approve_proposal-IsValid env c id majority v =
      search
        (
          Valid-bind, Ensures-require, Ensures-then, returns, internal_advance_queue-IsValid,
          place_approved_bind,
        )
        depth 12

  pub advance_queue-IsValid :
      (env : Env) (c : Contract) → IsValid c → Ensures IsValid (advance_queue set_of_ids env c)
  unfolding advance_queue
  advance_queue-IsValid env c v = search (step_rules) depth 6

  pub set_max_active_proposals-IsValid :
      (env : Env) (c : Contract) (n : ℕ)
      → IsValid c
      → Ensures IsValid (set_max_active_proposals set_of_ids env c n)
  unfolding set_max_active_proposals
  set_max_active_proposals-IsValid env c n v = search (step_rules) depth 9

  pub take_snapshot_and_vote-IsValid :
      (env : Env) (c : Contract) (id : ProposalId) (payload : Option VotePayload)
      → IsValid c
      → Ensures (λ r. IsValid r.0) (take_snapshot_and_vote set_of_ids env c id payload)
  unfolding take_snapshot_and_vote
  take_snapshot_and_vote-IsValid env c id payload v =
      search (Valid-bind, Ensures-then, step_rules) depth 12

  pub on_get_snapshot-IsValid :
      (env : Env) (c : Contract) (snapshot : MerkleTreeSnapshot) (state : VGlobalState)
      (id : ProposalId) (before after : ℕ)
      → IsValid c
      → Ensures (λ r. IsValid r.0) (on_get_snapshot set_of_ids env c snapshot state id before after)
  unfolding on_get_snapshot
  on_get_snapshot-IsValid env c snapshot state id before after v =
      search (Valid-bind, Ensures-then, step_rules) depth 14
