-- ===== src/Tests/Batch.antt =====
-- Batches run against the library in memory.
use lmdb_deno.Prelude.{
  ◌≡◌, ◌≢◌, ◌⊎◌, refl, false, none, some, [], ◌∷◌, ◌++◌, negsuc, lmdb_error, ok, err,
}
use lmdb_deno.Batch.Request.{
  success, condition_not_met, not_found, bad_valsize, NormalizedBatchOperation,
  NormalizedBatchRequest,
}
use lmdb_deno.Batch.Executor.{
  start, complete, compare_values, check_condition, write_record, operation_result,
  execute_operation, execute_operations, commit_batch, abort_batch, execute_in_transaction,
  execute_batch,
}
use lmdb_deno.Batch.Executor.Condition.{IsMet, compare_values_lem}
use lmdb_deno.Batch.Executor.Results.{Fills, execute_batch_results}
use lmdb_deno.Batch.Executor.Writes.{asked, written, answer, Reports, operation_result_writes}
use lmdb_deno.Batch.Executor.Transaction.{
  began, read, wrote, removed, committed, aborted, logged, IsTransaction,
}
use lmdb_deno.Batch.Executor.Atomic.{execute_batch-IsTransaction}
use lmdb_deno.Tests.Memory.{memory_api, full_api, empty_memory}

abbrev put_one : NormalizedBatchOperation
put_one = record { dbi = 1; key = 7 ∷ []; value = some (1 ∷ 2 ∷ []); condition = none }

-- Only if the value of key 7 begins with 1.
abbrev put_if : NormalizedBatchOperation
put_if = record {
  dbi = 1;
  key = 8 ∷ [];
  value = some (3 ∷ []);
  condition = some (record { dbi = 1; key = 7 ∷ []; value = some (1 ∷ []); exact = false });
}

-- Only if key 7 is absent.
abbrev put_unless : NormalizedBatchOperation
put_unless = record {
  dbi = 1;
  key = 9 ∷ [];
  value = some [];
  condition = some (record { dbi = 1; key = 7 ∷ []; value = none; exact = false });
}

abbrev delete_missing : NormalizedBatchOperation
delete_missing = record { dbi = 1; key = 5 ∷ []; value = none; condition = none }

abbrev put_long : NormalizedBatchOperation
put_long = record { dbi = 1; key = 1 ∷ 2 ∷ 3 ∷ 4 ∷ []; value = some []; condition = none }

abbrev request : NormalizedBatchRequest
request = record {
  operations = put_one ∷ put_if ∷ put_unless ∷ delete_missing ∷ put_long ∷ [];
  put_flags = 0;
}

batch_runs :
    let (r, st) =
      execute_batch (logged memory_api) false 0 request (start (empty_memory, []) request) in
    (r ≡ ok 5)
    × (st.results
        ≡ some success
          ∷ some success
          ∷ some condition_not_met
          ∷ some not_found
          ∷ some bad_valsize
          ∷ [])
    × (st.native.0.stored ≡ (8 ∷ [], 3 ∷ []) ∷ (7 ∷ [], 1 ∷ 2 ∷ []) ∷ [])
    × (st.native.1
        ≡ began 0 false 1
          ∷ wrote 1 1 put_one.key (1 ∷ 2 ∷ []) 0
          ∷ read 1 1 (7 ∷ [])
          ∷ wrote 1 1 put_if.key (3 ∷ []) 0
          ∷ read 1 1 (7 ∷ [])
          ∷ removed 1 1 delete_missing.key none
          ∷ wrote 1 1 put_long.key [] 0
          ∷ committed 1
          ∷ [])
unfolding execute_batch execute_in_transaction execute_operations execute_operation operation_result
    check_condition write_record complete commit_batch logged
batch_runs = (refl, refl, refl, refl)

-- A write that fails for another reason aborts the batch and nothing is stored.
batch_aborts :
    let (r, st) =
      execute_batch (logged full_api) false 0 request (start (empty_memory, []) request) in
    (r ≡ err (lmdb_error (negsuc 30791) ""))
    × (st.native.0.stored ≡ [])
    × (st.native.1 ≡ began 0 false 1 ∷ wrote 1 1 put_one.key (1 ∷ 2 ∷ []) 0 ∷ aborted 1 ∷ [])
unfolding execute_batch execute_in_transaction execute_operations execute_operation operation_result
    check_condition write_record complete abort_batch logged
batch_aborts = (refl, refl, refl)

compare_values_lem_example :
    ((compare_values (some (1 ∷ [])) false (some (1 ∷ 2 ∷ [])) ≡ success)
      × IsMet (some (1 ∷ [])) false (some (1 ∷ 2 ∷ [])))
    ⊎ ((compare_values (some (1 ∷ [])) false (some (1 ∷ 2 ∷ [])) ≡ condition_not_met)
        × ¬ IsMet (some (1 ∷ [])) false (some (1 ∷ 2 ∷ [])))
compare_values_lem_example = compare_values_lem (some (1 ∷ [])) false (some (1 ∷ 2 ∷ []))

execute_batch_results_example :
    Fills memory_api false 0 empty_memory request
      (execute_batch memory_api false 0 request (start empty_memory request))
execute_batch_results_example = execute_batch_results memory_api false 0 empty_memory request

operation_result_writes_example :
    let c = check_condition memory_api 1 put_unless.condition empty_memory in
    let x = operation_result (logged memory_api) 1 0 put_unless (empty_memory, []) in
    ((c.0 ≡ ok success)
      × (x.1.1
          ≡ [] ++ (asked 1 put_unless.condition ++ written 1 0 put_unless put_unless.value ∷ []))
      × Reports put_unless.value (answer memory_api 1 0 put_unless put_unless.value c.1) x.0)
    ⊎ ((c.0 ≢ ok success) × (x.1.1 ≡ [] ++ asked 1 put_unless.condition) × (x.0 ≡ c.0))
operation_result_writes_example = operation_result_writes memory_api 1 0 put_unless empty_memory []

execute_batch-IsTransaction_example :
    let (r, st) =
      execute_batch (logged memory_api) false 0 request (start (empty_memory, []) request) in
    IsTransaction 0 r st.native.1
execute_batch-IsTransaction_example =
    execute_batch-IsTransaction memory_api false 0 empty_memory request
