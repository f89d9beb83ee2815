-- ===== src/Batch/Protocol.antt =====
-- Environment descriptors (batch/protocol.ts) and generation tokens (internal/native_state.ts): the
-- authority to post an environment to a worker.
pub mod Registry
pub mod Descriptors
pub mod Generation
pub mod Authority
pub mod Bound
pub mod Use
pub mod Revocation
