-- ===== src/Native.antt =====
-- native/: the boundary with the LMDB library.
pub mod Api
pub mod Memory
pub mod Errors
