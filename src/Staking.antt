-- ===== src/Staking.antt =====
-- The staking contract (staking-contract): users lock NEAR on staking pools, and get shares of what
-- the contract has staked there.
pub mod Types
pub mod Shares
pub mod Validators
pub mod Withdraw
pub mod Epoch
pub mod Governance
pub mod Calls
pub mod Effects
pub mod Fractions
pub mod Price
pub mod Sums
pub mod Trades
pub mod Solvency
pub mod Examples
