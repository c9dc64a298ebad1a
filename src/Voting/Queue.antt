-- ===== src/Voting/Queue.antt =====
-- The scheduler: slots for active proposals and the queue of approved ones
-- (voting-contract/src/queue.rs).
use mathlib.Core.Option
use mathlib.Core.Bool.{xor}
use house_of_stake_contracts.Base.{
  leb, ◌==◌, if◌then◌else◌, length, get_elem?, drop, contains, active_proposal_missing, Result, ok,
  ◌>>=◌, ◌>>◌, expect, u32_max, checked, u32_add, ℕ, Bool, true, false, Option, none, some, List,
  [], ◌∷◌, ◌++◌,
}
use house_of_stake_contracts.Voting.Types.{
  ProposalId, is_active_status, Proposal, ProposalMetadata, VProposalMetadata,
  metadata_of_versioned,
}
use house_of_stake_contracts.Voting.Proposal.{activate, active_end_time_ns, update}
use house_of_stake_contracts.Voting.Contract.{
  Contract, Env, assert_not_paused, internal_get_proposal, internal_expect_proposal_updated,
  IterableSet, internal_set_proposal,
}

-- The locals of `compute_queue_advance`.
pub record Advance : Type 0 where
  pub active_updates : List Proposal
  pub queue_promotions : List Proposal
  pub virtual_active_count : ℕ
  pub freed_slot_times : List ℕ

abbrev pub no_advance : Advance
no_advance = record {
  active_updates = [];
  queue_promotions = [];
  virtual_active_count = 0;
  freed_slot_times = [];
}

-- Insertion before the first time that is not earlier.
unfoldable pub insert_time : List ℕ → ℕ → List ℕ
insert_time [] time = time ∷ []
insert_time (t ∷ ts) time = if leb time t then time ∷ t ∷ ts else t ∷ insert_time ts time

-- Counts a proposal that is active now, or frees its slot at its end.
unfoldable pub occupy_or_free : Proposal → Advance → Result Advance
occupy_or_free p a =
    if is_active_status p.status
    then (do ok (record a { virtual_active_count = (← u32_add a.virtual_active_count 1) }))
    else (do
      time ← active_end_time_ns p
      ok (record a { freed_slot_times = insert_time a.freed_slot_times time }))

-- The body of the first loop, for a proposal that the clock has changed or not.
unfoldable pub visit_active : Proposal → Bool → Advance → Result Advance
unfolding occupy_or_free
visit_active p updated a =
    if updated
    then (do b ← occupy_or_free p a; ok (record b { active_updates = b.active_updates ++ p ∷ [] }))
    else (if is_active_status p.status
        then (do ok (record a { virtual_active_count = (← u32_add a.virtual_active_count 1) }))
        else ok a)

-- The first loop: every active proposal, as of now.
unfoldable pub scan_active : Contract → ℕ → List ProposalId → Advance → Result Advance
unfolding visit_active
scan_active c now [] a = ok a
scan_active c now (id ∷ ids) a = do
  found ← expect (← internal_get_proposal c id now) active_proposal_missing
  b ← visit_active found.0 found.1 a
  scan_active c now ids b

-- The earliest freed slot, or now for one that was empty before.
abbrev pub next_start : List ℕ → ℕ → ℕ
next_start [] now = now
next_start (t ∷ ts) now = t

abbrev pub later_starts : List ℕ → List ℕ
later_starts [] = []
later_starts (t ∷ ts) = ts

-- The body of the second loop: a queued proposal takes a slot from the time it became free.
unfoldable pub promote : Contract → ℕ → ProposalId → Advance → Result Advance
unfolding occupy_or_free
promote c now id a = do
  p ← internal_expect_proposal_updated c id now
  q ← update (activate p (next_start a.freed_slot_times now)) now
  b ← occupy_or_free q (record a { freed_slot_times = later_starts a.freed_slot_times })
  ok (record b { queue_promotions = b.queue_promotions ++ q ∷ [] })

-- The second loop: the queue from its front, while a slot is free.
unfoldable pub promote_queued : Contract → ℕ → List ProposalId → Advance → Result Advance
unfolding promote
promote_queued c now [] a = ok a
promote_queued c now (id ∷ ids) a =
    if leb c.config.max_active_proposals a.virtual_active_count
    then ok a
    else (do b ← promote c now id a; promote_queued c now ids b)

unfoldable pub compute_queue_advance : Contract → ℕ → Result Advance
unfolding scan_active promote_queued
compute_queue_advance c now = do
  a ← scan_active c now c.active_proposals no_advance
  promote_queued c now c.pending_queue a

module _ (set_of_ids : IterableSet) where
  -- Stores proposals one after the other.
  unfoldable pub set_all : List Proposal → Contract → Result Contract
  set_all [] c = ok c
  set_all (p ∷ ps) c = do set_all ps (← internal_set_proposal set_of_ids p c)

  unfoldable pub internal_advance_queue : Contract → ℕ → Result Contract
  unfolding compute_queue_advance set_all
  internal_advance_queue c now = do
    outcome ← compute_queue_advance c now
    promoted ← checked u32_max (length outcome.queue_promotions)
    d ←
        set_all outcome.queue_promotions
          (record c { pending_queue = drop promoted c.pending_queue })
    set_all outcome.active_updates d

  -- The entry point.
  unfoldable pub advance_queue : Env → Contract → Result Contract
  unfolding internal_advance_queue
  advance_queue env c = do assert_not_paused c; internal_advance_queue c env.block_timestamp

-- The promoted proposal with an id, the last one if there were several.
unfoldable pub find_promoted : ProposalId → List Proposal → Option Proposal
find_promoted id [] = none
find_promoted id (p ∷ ps) = elim (find_promoted id ps) [
  | some q ↦ some q
  | none ↦ if p.id == id then some p else none
]

-- `ProposalInfo`
abbrev pub ProposalInfo : Type 0
ProposalInfo = Proposal × ProposalMetadata

-- Both the proposal and its metadata, if both are there.
abbrev pub with_metadata : Option Proposal → Option VProposalMetadata → Option ProposalInfo
with_metadata none m = none
with_metadata (some p) none = none
with_metadata (some p) (some m) = some (p, metadata_of_versioned m)

-- A proposal that the next advance promotes, or else the stored one as of now.
unfoldable pub promoted_or_stored :
    Contract → ProposalId → ℕ → Option Proposal → Result (Option Proposal)
promoted_or_stored c id now (some p) = ok (some p)
promoted_or_stored c id now none = do
  found ← internal_get_proposal c id now
  ok (Option.map (λ (r : Proposal × Bool). r.0) found)

-- `get_proposal`, with the promotions that the next advance will make.
unfoldable pub get_proposal : Contract → ProposalId → ℕ → Result (Option ProposalInfo)
unfolding compute_queue_advance find_promoted promoted_or_stored
get_proposal c id now = do
  outcome ← compute_queue_advance c now
  found ← promoted_or_stored c id now (find_promoted id outcome.queue_promotions)
  ok (with_metadata found (get_elem? c.proposal_metadata id))

-- The ids of the proposals that are active, or that are not.
abbrev pub ids_where : Bool → List Proposal → List ProposalId
ids_where active [] = []
ids_where active (p ∷ ps) =
    if xor (is_active_status p.status) active
    then ids_where active ps
    else p.id ∷ ids_where active ps

abbrev pub without : List ProposalId → List ProposalId → List ProposalId
without gone [] = []
without gone (id ∷ ids) = if contains gone id then without gone ids else id ∷ without gone ids

-- `get_queue_state`: the active ids, then the pending ones, after the next advance.
unfoldable pub get_queue_state : Contract → ℕ → Result (List ProposalId × List ProposalId)
unfolding compute_queue_advance
get_queue_state c now = do
  outcome ← compute_queue_advance c now
  let kept = without (ids_where false outcome.active_updates) c.active_proposals
  ok (
    kept ++ ids_where true outcome.queue_promotions,
    drop (length outcome.queue_promotions) c.pending_queue,
  )
