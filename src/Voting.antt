-- ===== src/Voting.antt =====
-- The voting contract (voting-contract/).
pub mod Types
pub mod Legacy
pub mod Proposal
pub mod Contract
pub mod Queue
pub mod Create
pub mod Reviewer
pub mod Votes
pub mod Settle
pub mod Governance
pub mod Calls
pub mod Invariant
mod Examples
