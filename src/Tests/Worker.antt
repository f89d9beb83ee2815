-- ===== src/Tests/Worker.antt =====
-- A job run by a worker against the library in memory, and structures read back from bytes.
use lmdb_deno.Prelude.{
  ℕ, ◌≡◌, refl, false, true, Option, none, some, List, [], ◌∷◌, ◌++◌, map, ok, arith,
}
use lmdb_deno.Bytes.{Bytes, set_le}
use lmdb_deno.Batch.Request.{BatchResult, NormalizedBatchOperation, NormalizedBatchRequest}
use lmdb_deno.Batch.Executor
use lmdb_deno.Batch.Executor.{
  execute_batch, execute_in_transaction, execute_operations, execute_operation, operation_result,
  check_condition, write_record, complete, commit_batch,
}
use lmdb_deno.Batch.Executor.Rounds.{enumerate}
use lmdb_deno.Batch.Client.Defs.{
  BatchWorkerReply, RetainedBatchJob, apply_deltas, has_every_result, new_job,
}
use lmdb_deno.Batch.Worker.{progress_replies, WorkerState, run_job}
use lmdb_deno.Batch.Worker.Answers.{deltas, numbers, run_job_fills}
use lmdb_deno.Native.Memory.{OwnedMdbVal, MdbStat, mdb_val, set_value, set_data}
use lmdb_deno.Tests.Memory.{Memory, memory_api, empty_memory}

abbrev put_one : NormalizedBatchOperation
put_one = record { dbi = 1; key = 7 ∷ []; value = some (1 ∷ []); condition = none }

abbrev one_put : NormalizedBatchRequest
one_put = record { operations = put_one ∷ []; put_flags = 0 }

abbrev idle_worker : WorkerState Memory
idle_worker = record {
  native = empty_memory;
  initialization = some (ok 4096);
  posted = [];
  unhandled = [];
}

batch_returns :
    (execute_batch memory_api false 4096 one_put (Executor.start empty_memory one_put)).0 ≡ ok 1
unfolding execute_batch execute_in_transaction execute_operations execute_operation operation_result
    check_condition write_record complete commit_batch
batch_returns = refl

run_job_fills_example :
    (rs : List BatchResult) × ((execute_batch memory_api false 4096 one_put
        (Executor.start empty_memory one_put)).1.results
      ≡ map some rs)
    × ((run_job memory_api 3 false 4096 one_put idle_worker).posted
        ≡ ([] ++ progress_replies 3 (enumerate 0 rs)) ++ BatchWorkerReply.complete 3 ∷ [])
    × ((job : RetainedBatchJob) × (apply_deltas (new_job 3 1 false) (deltas (enumerate 0 rs))
          ≡ (ok tt, job))
        × (has_every_result job ≡ true)
        × (job.results ≡ map some (numbers rs)))
run_job_fills_example =
    run_job_fills memory_api 3 false 4096 1 one_put idle_worker (omega arith) batch_returns

-- Every buffer lies at the address 4096.
abbrev somewhere : Bytes → Option ℕ
somewhere value = some 4096

abbrev two_bytes : OwnedMdbVal
two_bytes = record {
  storage = 2 ∷ 0 ∷ 0 ∷ 0 ∷ 0 ∷ 0 ∷ 0 ∷ 0 ∷ 0 ∷ 16 ∷ 0 ∷ 0 ∷ 0 ∷ 0 ∷ 0 ∷ 0 ∷ [];
  value = some (5 ∷ 6 ∷ []);
}

two_bytes_made : mdb_val somewhere (some (5 ∷ 6 ∷ [])) ≡ ok two_bytes
unfolding mdb_val set_value set_data set_le
two_bytes_made = refl

abbrev stat : MdbStat
stat = record {
  psize = 4096;
  depth = 2;
  branch_pages = 1;
  leaf_pages = 300;
  overflow_pages = 0;
  entries = 70000;
}
