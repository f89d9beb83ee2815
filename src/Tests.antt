-- ===== src/Tests.antt =====
-- Tests of the definitions and instances of the theorems at concrete inputs.
mod Memory
mod Encoding
mod Batch
mod Client
mod Protocol
mod Prepare
mod Worker
mod Errors
mod State
mod Txn
mod Cursor
mod Env
mod Dbi
