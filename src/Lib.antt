-- ===== src/Lib.antt =====
-- House of Stake contracts.
--
-- The repository holds smart contracts for the NEAR runtime. Users hold voting tokens (veNEAR) for
-- NEAR that they deposit and lock, veNEAR grows with time, its holders delegate it, and proposals
-- are voted on with Merkle proofs against a snapshot of all accounts.
--
-- The parts, the files that model them, and their sources:
--   Common (common/src): amounts, timestamps and basis points (Common/Token: utils.rs, bps.rs),
--     growth (Common/Growth: venear.rs, types.rs), balances and the pooled operations
--     (Common/Balance: types.rs), accounts in both stored versions (Common/Account: account.rs), the
--     global state (Common/GlobalState: global_state.rs).
--   Merkle (merkle-tree/src/lib.rs): verification of proofs (Merkle), the tree with its stored
--     hashes, snapshots and proofs (Merkle/Tree).
--   Venear (venear-contract/src): state, environment and checks (Venear/Contract: lib.rs,
--     config.rs), accounts, registration and views (Venear/Accounts: account.rs, storage.rs,
--     global_state.rs, token.rs, snapshot.rs), delegations (Venear/Delegations: delegation.rs),
--     lockup contracts (Venear/Lockup: lockup.rs), the owner (Venear/Governance: governance.rs,
--     pause.rs), all entry points as one type (Venear/Calls).
--   Voting (voting-contract/src): data and stored versions (Voting/Types, Voting/Legacy), the lazy
--     update of a proposal's status (Voting/Proposal: proposal.rs), the store (Voting/Contract), the
--     queue for slots (Voting/Queue: queue.rs), creation (Voting/Create), reviewers, council and
--     snapshots (Voting/Reviewer: reviewer.rs), votes (Voting/Votes: votes.rs), bonds and execution
--     (Voting/Settle: bond.rs, execute.rs), the owner (Voting/Governance: governance.rs, pause.rs),
--     all entry points as one type (Voting/Calls).
--   Lockup (lockup-contract/src): one account's NEAR, that is locked for veNEAR or staked. State and
--     checks (Lockup/Contract: lib.rs, types.rs, internal.rs, getters.rs, transfer.rs), locking and
--     unlocking (Lockup/Locking: venear.rs), the owner's methods (Lockup/Owner: owner.rs), the
--     answers of the staking pool and of the whitelist (Lockup/Callbacks: owner_callbacks.rs), all
--     entry points as one type (Lockup/Calls), and the contract with the calls that the pool has not
--     answered, as a step relation (Lockup/World). What it sends to the veNEAR contract is delivered
--     there in Lockup/Delivery.
--   Staking (staking-contract/src): users buy shares of what the contract stakes on pools. The state of
--     the pools (Staking/Types: types.rs, lib.rs), the arithmetic of shares, prices and rewards
--     (Staking/Shares: utils.rs, stake.rs), buying and selling shares and the allowlist
--     (Staking/Validators: validators.rs, accounts.rs), withdrawals (Staking/Withdraw: withdraw.rs),
--     the settlement of an epoch (Staking/Epoch: epoch.rs), the owner (Staking/Governance:
--     governance.rs, pause.rs, config.rs), all of these as one type of calls (Staking/Calls). The
--     actions of the users around them are not modelled; what follows on a settlement is passed on
--     as it is.
--
-- How the code is modelled. A call is a function from the runtime's data (a record Env), the state
-- and the arguments to a Result: the new state, with the promises that it creates, or a panic. The
-- runtime drops what a panicking call changed, so a history of calls (Base/History) keeps the state
-- there. Machine integers are natural numbers, and every operation that can leave its width panics,
-- as the workspace's release profile asks (overflow-checks). Products that the sources take in 256
-- and 384 bits are plain where they always fit. Account ids are only compared, so they are
-- numbers; a hash, 32 bytes in the sources, is a number of 256 bits. Lookup maps are functions to
-- Option.
--
-- What is not under the repository is a parameter: the hash functions of leaves and of pairs of
-- nodes, the id of a lockup account (made by sha256), whether an account id is well formed, the
-- set of active proposal ids of near-sdk (an interface with the laws that it documents,
-- Voting/Contract; a list meets them, Voting/Examples/IdSet). Gas, storage prices, the storage in
-- use and results of promises come with the environment or as arguments.
--
-- Loops are structural recursion: over lists of delegations, ids or options, over the levels of the
-- tree (their number is computed from the number of leaves first), and over the 32 binary digits of
-- an index for the height of the tree, which is enough for indexes of type u32. Where a loop shifts an
-- index by the level, the model halves it from level to level; a shift of a 32-bit word by 32
-- places panics, as it does under overflow-checks.
--
-- Of sha256 nothing is assumed but that its values have 256 bits.
--
-- Not modelled: events, JSON and Borsh, upgrades and the deployment of code itself, the locks, farms,
-- subscriptions, catalog, payments and storage deposits of the staking contract, the command line
-- and the contracts for tests.
pub mod Base
pub mod Common
pub mod Lockup
pub mod Staking
pub mod Merkle
pub mod Voting
pub mod Venear
