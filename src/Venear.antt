-- ===== src/Venear.antt =====
-- The veNEAR contract (venear-contract): who holds how much veNEAR, and who votes with it.
pub mod Contract
pub mod Accounts
pub mod Delegations
pub mod Lockup
pub mod Governance
pub mod Calls
pub mod Supply
pub mod Nonces
pub mod Effects
pub mod Examples
