-- ===== src/State.antt =====
-- The shared native state (internal/native_state.ts): which environments, transactions, databases and
-- cursors are open, what they hold of one another, and the native calls that end them.
pub mod World
pub mod Access
pub mod Handles
pub mod Records
pub mod Cursors
pub mod Transactions
pub mod Databases
pub mod Leases
pub mod Closing
pub mod Environments
pub mod Quiet
pub mod Writer
pub mod Order
pub mod Lifecycle
