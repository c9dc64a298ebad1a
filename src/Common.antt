-- ===== src/Common.antt =====
-- The shared crate (common/): token arithmetic, veNEAR growth, balances and accounts.
pub mod Token
pub mod Growth
pub mod Exact
pub mod Balance
pub mod Account
pub mod GlobalState
pub mod Examples
