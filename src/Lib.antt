-- ===== src/Lib.antt =====
-- deno-lmdb: bindings of the LMDB key-value store for Deno, and the parts of them that run batches.
--
-- A caller's batch is prepared on the main thread (src/batch/executor.ts: a snapshot of the
-- operations, leases of their databases, normalized keys and values), queued by the client of the
-- shared environment (src/batch/client.ts), which reserves the writer, starts a worker with a
-- descriptor of the environment (src/batch/protocol.ts, with the generation tokens of
-- src/internal/native_state.ts) and posts one job at a time. The worker runs the normalized request
-- in one LMDB transaction (`executeBatch` of src/batch/executor.ts) and posts a result for each
-- operation, then that it is complete or that it failed. Keys and values are bytes by
-- src/encoding.ts.
--
-- Files:
--   Prelude, Bytes       names of the libraries, exceptions as values, lists, byte views
--   Encoding/Text        `encodeString`, `decodeString`: strings are lists of 16-bit code units
--   Encoding/Values      JavaScript values, numbers and keys
--   Encoding/Keys        `encodeKey`, `encodeUint32Key`, `decodeUint32Key` and the others
--   Native/Api           the part of the interface `NativeApi` (src/native/api.ts) that batches use
--   Native/Memory        `MDB_val`, scratch slots, `MDB_stat` and `MDB_envinfo` (src/native/memory.ts)
--   Native/Errors        result codes as errors (src/native/errors.ts)
--   Batch/Request        the normalized request and `BatchResult`
--   Batch/Prepare        `snapshotBatchInputs` (Snapshot), key kinds, values and flags (Normalize),
--                        `prepareBatchSnapshot` and `releasePreparedBatch` (Leases)
--   Batch/Executor       `executeBatch` and `evaluateCondition`
--   Batch/Protocol       the tables of descriptors (Registry), `getEnvironmentDescriptor`,
--                        `validateEnvironmentDescriptor`, revocation, poisoning and the drawing of
--                        generations (Descriptors)
--   Batch/Client         the jobs (Defs) and the methods (Methods) of `BatchWorkerClient`
--   Batch/Worker         `runJob` and the messages of the worker (src/batch/worker.ts)
--   State                the shared native state (src/internal/native_state.ts): the objects and the
--                        tables that find them (World), the functions that look them up (Access,
--                        Handles), database records (Records), cursors (Cursors), transactions and
--                        the writer slot (Transactions), the registration of databases and cursors
--                        (Databases), the leases of batches (Leases), environments (Environments),
--                        and their end (Closing). Quiet, Writer, Order and Lifecycle are proofs
--   Data                 what reads and writes of LMDB are to transactions and cursors (`DataApi`),
--                        steps that change the shared state and LMDB's (Step), the choice of a key's
--                        kind (Keys). Observe holds lemmas on steps that change nothing
--   Txn                  the class `Txn` (src/txn.ts): the constructor, `commit`, `abort`, `reset` and
--                        `renew`, with the answers of LMDB as an argument, `TxnApi`; `get`, `put`,
--                        `del` and the typed forms of these (Access). Ending, Clearing, Writing and
--                        Batched are proofs
--   Cursor               the class `Cursor` (src/cursor.ts): the record that a cursor keeps,
--                        `#navigate` and `#getCurrent` (Cursor), the public methods (Methods).
--                        Serving, Fresh, Closing and Keys are proofs
--   Env                  the class `Env` (src/env.ts): its options and their checks (Env), canonical
--                        paths (Paths), `open`, `resize`, `beginTxn`, `openDbi` and `close` (Opening),
--                        the part of `copy` and `sync` before and after the native call
--                        (Operations). Leaving, Closing, Attaching and Sharing are proofs
--   Dbi                  the constructor, `close` and `drop` of the class `Dbi` (src/dbi.ts), with
--                        the answers of LMDB as an argument, `DbiApi`
--   Tests                runs of the definitions, and the theorems at concrete inputs
--
-- How the code is modelled. Functions that change state take it and return it, and those that may
-- throw return a `Result` beside it, since what was written before a throw stays written. The LMDB
-- library, the worker's host and the user's callbacks are arguments: the records `NativeApi`, `Host`,
-- `LeaseApi`, `TxnApi`, `DbiApi`, `DataApi`, `EnvApi` and `PathApi`, whose operations may change the
-- state of their type and may throw. A JavaScript object that is compared by identity is a number; a
-- `Map` or a `WeakMap` is an association list.
-- An event of a worker, a call of the user and a microtask of the client are each one step, and a
-- call that a callback makes back into the client is a later step. Messages of errors are kept
-- without the values that the source interpolates in them.
-- In State a function of the module is an `Action` on a `World`: every object is a number, each kind
-- of object has a heap, and a `WeakMap` from public objects is a function. The calls of the LMDB
-- library that end things, and the calls of a cursor's `invalidateCurrent`, are a log. The finalizers
-- are operations that may come at any time. A set of cursors stands as a count in a database record,
-- as in the source; a set of objects is a list in insertion order.
-- In Cursor the record that a cursor keeps is read from that log: `invalidateCurrent` of a cursor is
-- an entry, and a method first replays the entries since the cursor's last record. A callback of a
-- cursor may do anything but call its own cursor. The methods of Txn and Cursor take their options
-- as the types say, so that the numbers of arguments are not looked at.
-- In Env a canonical path is found in the tables under a number, `number_of` of it, which is an
-- argument; that of the source, which compares strings, gives different paths different numbers.
-- The numbers of jobs count those of one client; the source numbers the jobs of all clients together.
--
-- Loops are recursions on the list or the count that they run through. The loop that draws a
-- generation runs through the random words still to come, a list of any length; it has no result
-- if none of them stands for a number that is not zero and not live, and then `open` has none.
--
-- Not modelled: the calls of the C functions, copies and views of native memory, `batchWrite`, `stat`,
-- `info` and `detachBuffer` of `Env`, `stat` of `Dbi`, the loading of the library, and garbage
-- collection, of which the tables of descriptors only know that a state may be gone, and State only
-- that a finalizer runs.
pub mod Prelude
pub mod Bytes
pub mod Encoding
pub mod Native
pub mod Batch
pub mod State
pub mod Data
pub mod Txn
pub mod Cursor
pub mod Env
pub mod Dbi
mod Tests
