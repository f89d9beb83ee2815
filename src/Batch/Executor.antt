-- ===== src/Batch/Executor.antt =====
-- `executeBatch` (batch/executor.ts): one normalized request in one write transaction.
pub mod Condition
pub mod Steps
pub mod Rounds
pub mod Results
pub mod Transaction
pub mod Writes
pub mod Atomic
use lmdb_deno.Prelude.{
  ℕ, zero, suc, ◌+◌, Bool, true, false, not, ◌&&◌, ◌||◌, Option, none, some, List, [], ◌∷◌, ◌++◌,
  length, get_elem?, set, replicate, ℤ, negsuc, Exception, lmdb_error, hard_worker_failure, Result,
  ok, err, ltb, ◌==◌, ◌==ℤ◌, if◌then◌else◌,
}
use lmdb_deno.Bytes.{Bytes}
use lmdb_deno.Native.Api.{Call, NativeApi}
use lmdb_deno.Batch.Request.{
  BatchResult, success, condition_not_met, not_found, bad_valsize, NormalizedBatchCondition,
  NormalizedBatchOperation, NormalizedBatchRequest,
}

-- -30798 and -30781.
abbrev pub mdb_notfound : ℤ
mdb_notfound = negsuc 30797

abbrev pub mdb_bad_valsize : ℤ
mdb_bad_valsize = negsuc 30780

abbrev pub is_lmdb_code : Exception → ℤ → Bool
is_lmdb_code (lmdb_error code message) expected = code ==ℤ expected
is_lmdb_code _ expected = false

abbrev pub is_hard_failure : Exception → Bool
is_hard_failure hard_worker_failure = true
is_hard_failure _ = false

-- `actual[index] === expected[index]`; past the end both are `undefined`.
abbrev same_byte : Option ℕ → Option ℕ → Bool
same_byte none none = true
same_byte none (some b) = false
same_byte (some a) none = false
same_byte (some a) (some b) = a == b

-- The comparison loop, over the `count` indices that are left.
unfoldable pub bytes_match : Bytes → Bytes → ℕ → ℕ → Bool
bytes_match actual expected index zero = true
bytes_match actual expected index (suc count) =
    same_byte (get_elem? actual index) (get_elem? expected index)
    && bytes_match actual expected (suc index) count

-- The end of `evaluateCondition`: the stored value against the expected one.
unfoldable pub compare_values : Option Bytes → Bool → Option Bytes → BatchResult
unfolding bytes_match
compare_values none exact none = success
compare_values none exact (some actual) = condition_not_met
compare_values (some expected) exact none = condition_not_met
compare_values (some expected) exact (some actual) =
    if ltb (length actual) (length expected)
    then condition_not_met
    else if exact && not (length actual == length expected)
    then condition_not_met
    else if bytes_match actual expected 0 (length expected)
    then success
    else condition_not_met

-- The variables of `executeBatch`, with what `hooks.onResult` was called with, in order.
pub record Execution (S : Type 0) : Type 0 where
  pub native : S
  pub results : List (Option BatchResult)
  pub completed_count : ℕ
  pub reported : List (ℕ × BatchResult)

-- The state before the first call: `results` is a fresh array.
abbrev pub start : {S : Type 0} → S → NormalizedBatchRequest → Execution S
start native request = record {
  native = native;
  results = replicate (length request.operations) none;
  completed_count = 0;
  reported = [];
}

module _ {S : Type 0} where
  unfoldable pub complete : ℕ → BatchResult → Execution S → Execution S
  complete index result st = record st {
    results = set st.results index (some result);
    completed_count = suc st.completed_count;
    reported = st.reported ++ (index, result) ∷ [];
  }

module _ {S : Type 0} (api : NativeApi S) (txn : ℕ) where
  unfoldable pub evaluate_condition : NormalizedBatchCondition → Call S BatchResult
  unfolding compare_values
  evaluate_condition condition s =
      let (r, s') = api.get txn condition.dbi condition.key s in
      elim r [
        | ok actual ↦ (ok (compare_values condition.value condition.exact actual), s')
        | err e ↦ if is_lmdb_code e mdb_bad_valsize then (ok bad_valsize, s') else (err e, s')
      ]

  -- An operation without a condition goes ahead as if one had been met.
  unfoldable pub check_condition : Option NormalizedBatchCondition → Call S BatchResult
  unfolding evaluate_condition
  check_condition none s = (ok success, s)
  check_condition (some condition) s = evaluate_condition condition s

  unfoldable pub delete_record : NormalizedBatchOperation → Call S BatchResult
  delete_record operation s =
      let (r, s') = api.del txn operation.dbi operation.key none s in
      elim r [
        | ok _ ↦ (ok success, s')
        | err e ↦
            if is_lmdb_code e mdb_notfound
            then (ok not_found, s')
            else if is_lmdb_code e mdb_bad_valsize
            then (ok bad_valsize, s')
            else (err e, s')
      ]

  unfoldable pub put_record : ℕ → NormalizedBatchOperation → Bytes → Call S BatchResult
  put_record put_flags operation value s =
      let (r, s') = api.put txn operation.dbi operation.key value put_flags s in
      elim r [
        | ok _ ↦ (ok success, s')
        | err e ↦ if is_lmdb_code e mdb_bad_valsize then (ok bad_valsize, s') else (err e, s')
      ]

  unfoldable pub write_record : ℕ → NormalizedBatchOperation → Option Bytes → Call S BatchResult
  unfolding delete_record put_record
  write_record put_flags operation none s = delete_record operation s
  write_record put_flags operation (some value) s = put_record put_flags operation value s

  -- The condition first; a result other than success is the operation's result.
  unfoldable pub operation_result : ℕ → NormalizedBatchOperation → Call S BatchResult
  operation_result put_flags operation s =
      let (r, s') = check_condition operation.condition s in
      elim r [
        | ok success ↦ write_record put_flags operation operation.value s'
        | ok refused ↦ (ok refused, s')
        | err e ↦ (err e, s')
      ]

  -- One round of the loop. The calls of `complete` stand in the `try` blocks of the source, but
  -- cannot throw: `onResult` posts two numbers.
  unfoldable pub execute_operation :
      ℕ → ℕ → NormalizedBatchOperation → Execution S → Result (Unit {0}) × Execution S
  execute_operation put_flags index operation st =
      let (r, s') = operation_result put_flags operation st.native in
      let st' = record st { native = s' } in
      elim r [ ok result ↦ (ok tt, complete index result st') | err e ↦ (err e, st') ]

  unfoldable pub execute_operations :
      ℕ → ℕ → List NormalizedBatchOperation → Execution S → Result (Unit {0}) × Execution S
  execute_operations put_flags index [] st = (ok tt, st)
  execute_operations put_flags index (operation ∷ rest) st =
      let (r, st') = execute_operation put_flags index operation st in
      elim r [ ok _ ↦ execute_operations put_flags (suc index) rest st' | err e ↦ (err e, st') ]

  -- `commitAttempted = true; api.txnCommit(txn)`: a commit that fails is not followed by an abort.
  unfoldable pub commit_batch : Execution S → Result ℕ × Execution S
  commit_batch st =
      let (r, s') = api.txn_commit txn st.native in
      let st' = record st { native = s' } in
      elim r [ ok _ ↦ (ok st'.completed_count, st') | err e ↦ (err e, st') ]

  -- The `catch` of an error before the commit: abort, unless the test signal was thrown.
  unfoldable pub abort_batch : Exception → Execution S → Result ℕ × Execution S
  abort_batch e st =
      if is_hard_failure e
      then (err e, st)
      else (err e, record st { native = api.txn_abort txn st.native })

  -- The body of the `try` once the transaction has begun.
  unfoldable pub execute_in_transaction :
      Bool → NormalizedBatchRequest → Execution S → Result ℕ × Execution S
  execute_in_transaction true request st = abort_batch hard_worker_failure st
  execute_in_transaction false request st =
      let (r, st') = execute_operations request.put_flags 0 request.operations st in
      elim r [ ok _ ↦ commit_batch st' | err e ↦ abort_batch e st' ]

-- The whole call. `terminate_after_begin` is the test hook of that name.
module _ {S : Type 0} (api : NativeApi S) where
  unfoldable pub execute_batch :
      Bool → ℕ → NormalizedBatchRequest → Execution S → Result ℕ × Execution S
  execute_batch terminate_after_begin env request st =
      let (r, s') = api.txn_begin env false st.native in
      let st' = record st { native = s' } in
      elim r [
        | ok txn ↦ execute_in_transaction api txn terminate_after_begin request st'
        | err e ↦ (err e, st')
      ]
