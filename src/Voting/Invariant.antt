-- ===== src/Voting/Invariant.antt =====
-- The invariant of the store: the active set lists exactly the proposals whose status is active.
pub mod Store
pub mod Advance
pub mod Entry
pub mod History
use house_of_stake_contracts.Voting.Legacy.{VProposal, of_versioned}
use house_of_stake_contracts.Base.{get_elem?, contains, ok, ℕ, ◌≡◌, refl, Bool, false, none, some}
use house_of_stake_contracts.Voting.Types.{is_active_status, Proposal}
use house_of_stake_contracts.Voting.Contract.{Config, Contract, new, Distinct}

-- A stored proposal reads back, stands at its own id, and is in the active set if its status is.
abbrev pub IsStored : ℕ → Bool → VProposal → Type 0
IsStored i in_active_set v =
    (p : Proposal) × (of_versioned v ≡ ok p)
    × (p.id ≡ i)
    × (is_active_status p.status ≡ in_active_set)

pub record IsValid (c : Contract) : Type 0 where
  pub distinct : Distinct c.active_proposals
  pub stored :
      (i : ℕ) (v : VProposal)
      → get_elem? c.proposals i ≡ some v
      → IsStored i (contains c.active_proposals i) v
  pub absent : (i : ℕ) → get_elem? c.proposals i ≡ none → contains c.active_proposals i ≡ false

-- A contract starts with no proposals.
pub new-IsValid : (g : Config) → IsValid (new g)
unfolding new
new-IsValid g = record { distinct = tt; stored = λ i v h. cc; absent = λ i h. refl }
