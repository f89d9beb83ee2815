-- ===== src/Batch/Client.antt =====
-- The batch client of one shared environment (class `BatchWorkerClient`, batch/client.ts).
pub mod Defs
pub mod Methods
pub mod Order
pub mod Invariant
pub mod Preservation
pub mod Accounting
pub mod Once
pub mod Slots
pub mod Failure
pub mod Filled
pub mod Complete
