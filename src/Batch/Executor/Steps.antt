-- ===== src/Batch/Executor/Steps.antt =====
-- One equation for each way in which a part of `executeBatch` may end.
use lmdb_deno.Prelude.{ℕ, suc, ◌≡◌, Bool, false, List, ◌∷◌, Exception, ok, err, arith}
use lmdb_deno.Native.Api.{NativeApi}
use lmdb_deno.Batch.Request.{BatchResult, NormalizedBatchOperation, NormalizedBatchRequest}
use lmdb_deno.Batch.Executor.{
  Execution, complete, operation_result, execute_operation, execute_operations, commit_batch,
  abort_batch, execute_in_transaction, execute_batch,
}

module _ {S : Type 0} (api : NativeApi S) (txn flags index : ℕ) (op : NormalizedBatchOperation)
    (st : Execution S) where
  pub execute_operation-ok :
      (r : BatchResult) (s : S)
      → operation_result api txn flags op st.native ≡ (ok r, s)
      → execute_operation api txn flags index op st
        ≡ (ok tt, complete index r (record st { native = s }))
  unfolding execute_operation
  execute_operation-ok r s h = ground arith

  pub execute_operation-err :
      (e : Exception) (s : S)
      → operation_result api txn flags op st.native ≡ (err e, s)
      → execute_operation api txn flags index op st ≡ (err e, record st { native = s })
  unfolding execute_operation
  execute_operation-err e s h = ground arith

  pub execute_operations-ok :
      (ops : List NormalizedBatchOperation) (st' : Execution S)
      → execute_operation api txn flags index op st ≡ (ok tt, st')
      → execute_operations api txn flags index (op ∷ ops) st
        ≡ execute_operations api txn flags (suc index) ops st'
  unfolding execute_operations
  execute_operations-ok ops st' h = ground arith

  pub execute_operations-err :
      (ops : List NormalizedBatchOperation) (e : Exception) (st' : Execution S)
      → execute_operation api txn flags index op st ≡ (err e, st')
      → execute_operations api txn flags index (op ∷ ops) st ≡ (err e, st')
  unfolding execute_operations
  execute_operations-err ops e st' h = ground arith

module _ {S : Type 0} (api : NativeApi S) (txn : ℕ) (request : NormalizedBatchRequest)
    (st st' : Execution S) where
  pub execute_in_transaction-ok :
      execute_operations api txn request.put_flags 0 request.operations st ≡ (ok tt, st')
      → execute_in_transaction api txn false request st ≡ commit_batch api txn st'
  unfolding execute_in_transaction
  execute_in_transaction-ok h = ground arith

  pub execute_in_transaction-err :
      (e : Exception)
      → execute_operations api txn request.put_flags 0 request.operations st ≡ (err e, st')
      → execute_in_transaction api txn false request st ≡ abort_batch api txn e st'
  unfolding execute_in_transaction
  execute_in_transaction-err e h = ground arith

module _ {S : Type 0} (api : NativeApi S) (st : Execution S) where
  pub commit_batch-ok :
      (txn : ℕ) (s : S)
      → api.txn_commit txn st.native ≡ (ok tt, s)
      → commit_batch api txn st ≡ (ok st.completed_count, record st { native = s })
  unfolding commit_batch
  commit_batch-ok txn s h = ground arith

  pub commit_batch-err :
      (txn : ℕ) (e : Exception) (s : S)
      → api.txn_commit txn st.native ≡ (err e, s)
      → commit_batch api txn st ≡ (err e, record st { native = s })
  unfolding commit_batch
  commit_batch-err txn e s h = ground arith

  pub execute_batch-ok :
      (terminate : Bool) (env txn : ℕ) (request : NormalizedBatchRequest) (s : S)
      → api.txn_begin env false st.native ≡ (ok txn, s)
      → execute_batch api terminate env request st
        ≡ execute_in_transaction api txn terminate request (record st { native = s })
  unfolding execute_batch
  execute_batch-ok terminate env txn request s h = ground arith

  pub execute_batch-err :
      (terminate : Bool) (env : ℕ) (request : NormalizedBatchRequest) (e : Exception) (s : S)
      → api.txn_begin env false st.native ≡ (err e, s)
      → execute_batch api terminate env request st ≡ (err e, record st { native = s })
  unfolding execute_batch
  execute_batch-err terminate env request e s h = ground arith
