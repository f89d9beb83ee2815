-- ===== src/Batch.antt =====
-- batch/: conditional batches, their executor, the worker that runs them and the client that
-- queues them.
pub mod Request
pub mod Protocol
pub mod Prepare
pub mod Executor
pub mod Client
pub mod Worker
