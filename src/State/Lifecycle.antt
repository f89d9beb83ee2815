-- ===== src/State/Lifecycle.antt =====
-- How databases and transactions come to their end (State/Records, State/Transactions).
pub mod Pending
pub mod Phases
pub mod Leases
