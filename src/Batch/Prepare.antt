-- ===== src/Batch/Prepare.antt =====
-- Preparing a batch request (batch/executor.ts): the snapshot of what the caller gave, and the
-- normalized request with its database leases.
pub mod Snapshot
pub mod Normalize
pub mod Leases
pub mod Balance
pub mod Keys
