-- ===== src/Batch/Worker.antt =====
-- The worker that runs jobs (batch/worker.ts).
pub mod Answers
use lmdb_deno.Prelude.{
  ℕ, Bool, true, false, not, ◌&&◌, ◌||◌, Option, none, some, List, [], ◌∷◌, ◌++◌, ℤ, pos, String,
  Exception, error, error_with_cause, type_error, range_error, lmdb_error, hard_worker_failure,
  Result, ok, err, ◌>>◌, throw_if, if◌then◌else◌,
}
use lmdb_deno.Encoding.Values.{Number, integer}
use lmdb_deno.Native.Api.{NativeApi}
use lmdb_deno.Batch.Request.{
  BatchResult, success, condition_not_met, not_found, bad_valsize, NormalizedBatchRequest,
}
use lmdb_deno.Batch.Executor.{Execution, is_hard_failure, execute_batch}
use lmdb_deno.Batch.Executor
use lmdb_deno.Batch.Client.Defs.{BatchWorkerReply}
use lmdb_deno.Batch.Protocol.Registry.{batch, same_capability, WorkerEnvironmentDescriptor}
use lmdb_deno.Batch.Protocol.Descriptors.{assert_descriptor_shape}

-- The numbers of `enum BatchResult`.
abbrev pub result_number : BatchResult → Number
result_number success = integer (pos 0)
result_number condition_not_met = integer (pos 1)
result_number not_found = integer (pos 2)
result_number bad_valsize = integer (pos 3)

abbrev pub delta : ℕ × BatchResult → Number × Number
delta (index, result) = (integer (pos index), result_number result)

-- What `onResult` posts, one message for each result.
abbrev pub progress_replies : ℕ → List (ℕ × BatchResult) → List BatchWorkerReply
progress_replies id [] = []
progress_replies id (r ∷ rs) = BatchWorkerReply.progress id (delta r ∷ []) ∷ progress_replies id rs

abbrev message_of : Exception → String
message_of (error m) = m
message_of (error_with_cause m cause) = m
message_of (type_error m) = m
message_of (range_error m) = m
message_of (lmdb_error code m) = m
message_of hard_worker_failure = "Test-only hard Worker failure after mdb_txn_begin"

abbrev code_of : Exception → Option ℤ
code_of (lmdb_error code m) = some code
code_of _ = none

-- `serializeError`, with the message that carries it.
unfoldable pub error_reply : ℕ → Exception → BatchWorkerReply
error_reply id e = BatchWorkerReply.failure id (message_of e) (code_of e)

-- What a worker has posted and what it has thrown from timers.
pub record WorkerState (S : Type 0) : Type 0 where
  pub native : S
  -- how the promise of `initialize` was settled, with the environment's address
  pub initialization : Option (Result ℕ)
  pub posted : List BatchWorkerReply
  pub unhandled : List Exception

abbrev post : {S : Type 0} → List BatchWorkerReply → WorkerState S → WorkerState S
post replies w = record w { posted = w.posted ++ replies }

abbrev report_unhandled : {S : Type 0} → Exception → WorkerState S → WorkerState S
report_unhandled e w = record w { unhandled = w.unhandled ++ e ∷ [] }

module _ {S : Type 0} (api : NativeApi S) where
  unfoldable pub run_job : ℕ → Bool → ℕ → NormalizedBatchRequest → WorkerState S → WorkerState S
  run_job id terminate env request w =
      let (r, st) = execute_batch api terminate env request (Executor.start w.native request) in
      let told = post (progress_replies id st.reported) (record w { native = st.native }) in
      elim r [
        | ok _ ↦ post (BatchWorkerReply.complete id ∷ []) told
        | err e ↦
            if is_hard_failure e then report_unhandled e told else post (error_reply id e ∷ []) told
      ]

-- A message to the worker.
pub data BatchWorkerMessage : Type 0 where
  start_message : WorkerEnvironmentDescriptor → BatchWorkerMessage
  job_message :
      (id : ℕ) (request : NormalizedBatchRequest) (terminate_after_begin : Bool)
      → BatchWorkerMessage

abbrev address_of : ℤ → ℕ
address_of (pos n) = n
address_of _ = 0

-- `assertDescriptor`: the shape that the parent asserts too, and the capability.
unfoldable pub assert_descriptor : WorkerEnvironmentDescriptor → Result (Unit {0})
assert_descriptor d =
    let invalid = type_error "Batch Worker received an invalid environment descriptor" in
    elim (assert_descriptor_shape d) [
      | ok _ ↦ throw_if (not (same_capability d.capability batch)) invalid
      | err _ ↦ err invalid
    ]

-- `load` is the loading of the library and of the modules that need it.
module _ {S : Type 0} (api : NativeApi S) (load : S → Result (Unit {0}) × S) where
  unfoldable pub initialize : WorkerEnvironmentDescriptor → S → Result ℕ × S
  initialize d s =
      let (r, s') = load s in
      elim (assert_descriptor d) [
        | err e ↦ (err e, s)
        | ok _ ↦ elim r [ err e ↦ (err e, s') | ok _ ↦ (ok (address_of d.env_address), s') ]
      ]

  unfoldable pub settle : Result ℕ → WorkerState S → WorkerState S
  settle (ok env) w = post (BatchWorkerReply.ready ∷ []) w
  settle (err e) w = report_unhandled e w

  unfoldable pub job_after :
      Option (Result ℕ) → ℕ → Bool → NormalizedBatchRequest → WorkerState S → WorkerState S
  job_after none id terminate request w =
      report_unhandled (error "Batch Worker received a job before startup") w
  job_after (some (ok env)) id terminate request w = run_job api id terminate env request w
  job_after (some (err e)) id terminate request w = report_unhandled e w

  -- `onmessage`. The promise of the initialization is settled before the next message.
  unfoldable pub receive : BatchWorkerMessage → WorkerState S → WorkerState S
  receive (start_message d) w =
      let (r, s) = initialize d w.native in
      let again = error "Batch Worker was initialized more than once" in
      elim w.initialization [
        | some _ ↦ report_unhandled again w
        | none ↦ settle r (record w { native = s; initialization = some r })
      ]
  receive (job_message id request terminate) w = job_after w.initialization id terminate request w
