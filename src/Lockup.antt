-- ===== src/Lockup.antt =====
-- The lockup contract (lockup-contract): one account's NEAR, locked for veNEAR, staked or liquid.
pub mod Contract
pub mod Locking
pub mod Owner
pub mod Callbacks
pub mod Calls
pub mod Ledger
pub mod Effects
pub mod Refinement
pub mod Frame
pub mod Release
pub mod World
pub mod Busy
pub mod Answers
pub mod Exclusive
pub mod Progress
pub mod Stuck
pub mod Examples
pub mod Delivery
