-- ===== src/Batch/Executor/Results.antt =====
-- What a batch leaves in the results array, in the count and in the reports, and its outcome.
use lmdb_deno.Prelude.{
  ℕ, ◌+◌, ◌≡◌, refl, ap, sym, ◌∙◌, Bool, true, false, List, [], length, Exception, Result, ok, err,
  Outcome-cases, inl, inr, Bool-cases, arith, hard_worker_failure,
}
use lmdb_deno.Native.Api.{NativeApi}
use lmdb_deno.Batch.Request.{BatchResult, NormalizedBatchOperation, NormalizedBatchRequest}
use lmdb_deno.Batch.Executor.Steps.{
  execute_in_transaction-ok, execute_in_transaction-err, commit_batch-ok, commit_batch-err,
  execute_batch-ok, execute_batch-err,
}
use lmdb_deno.Batch.Executor.{
  Execution, is_hard_failure, start, execute_operations, commit_batch, abort_batch,
  execute_in_transaction, execute_batch,
}
use lmdb_deno.Batch.Executor.Rounds.{
  IsFilled, committed_count, Yields, Stops, length-Yields, Stops-size, Ends, all_done, stopped,
  execute_operations-Ends,
}

-- How a batch comes to its results and its outcome: it is never begun; or the test hook throws; or
-- an operation throws; or all operations have results and LMDB is asked to commit.
pub data Serves {S : Type 0} (api : NativeApi S) (terminate : Bool) (env : ℕ) (native : S)
    (request : NormalizedBatchRequest) (rs : List BatchResult) (left : ℕ) (r : Result ℕ)
    : Type 0 where
  unbegun :
      (e : Exception) (s : S)
      → api.txn_begin env false native ≡ (err e, s)
      → rs ≡ []
      → r ≡ err e
      → Serves api terminate env native request rs left r
  terminated :
      terminate ≡ true
      → rs ≡ []
      → r ≡ err hard_worker_failure
      → Serves api terminate env native request rs left r
  threw :
      (txn : ℕ) (e : Exception) (s s' : S)
      → api.txn_begin env false native ≡ (ok txn, s)
      → Stops api txn request.put_flags request.operations s rs left e s'
      → r ≡ err e
      → Serves api terminate env native request rs left r
  ended :
      (txn : ℕ) (s s' : S)
      → api.txn_begin env false native ≡ (ok txn, s)
      → Yields api txn request.put_flags request.operations s rs s'
      → r ≡ committed_count (length rs) (api.txn_commit txn s').0
      → Serves api terminate env native request rs left r

-- How a batch has ended: the results are those of a first part of its operations, and of the whole
-- when the call returns, which is then by their number.
abbrev pub Fills :
    {S : Type 0}
    → NativeApi S
    → Bool
    → ℕ
    → S
    → NormalizedBatchRequest
    → Result ℕ × Execution S
    → Type 0
Fills api terminate env native request p =
    (rs : List BatchResult) × (left : ℕ) × (length rs + left ≡ length request.operations)
    × IsFilled rs left p.1
    × ((n : ℕ) → p.0 ≡ ok n → (left ≡ 0) × (n ≡ length request.operations))
    × Serves api terminate env native request rs left p.0

start-IsFilled :
    {S : Type 0} (native : S) (request : NormalizedBatchRequest)
    → IsFilled [] (length request.operations) (start native request)
start-IsFilled native request = record { filled = refl; counted = refl; told = refl }

module _ {S : Type 0} (api : NativeApi S) (terminate : Bool) (env : ℕ) (native : S)
    (request : NormalizedBatchRequest) where
  abbrev Fill : Result ℕ × Execution S → Type 0
  Fill p = Fills api terminate env native request p

  stopped-Fills :
      (rs : List BatchResult) (left : ℕ) (e : Exception) (st : Execution S)
      → length rs + left ≡ length request.operations
      → IsFilled rs left st
      → Serves api terminate env native request rs left (err e)
      → Fill (err e, st)
  stopped-Fills rs left e st size h v = (rs, left, size, h, (λ n q. cc), v)

  abort_batch-Fills :
      (txn : ℕ) (rs : List BatchResult) (left : ℕ) (e : Exception) (st : Execution S)
      → length rs + left ≡ length request.operations
      → IsFilled rs left st
      → Serves api terminate env native request rs left (err e)
      → Fill (abort_batch api txn e st)
  unfolding abort_batch
  abort_batch-Fills txn rs left e st size h v = elim (Bool-cases (is_hard_failure e)) [
    | inl hard ↦ rw hard (stopped-Fills rs left e st size h v)
    | inr soft ↦ rw soft (
        stopped-Fills rs left e (record st { native = api.txn_abort txn st.native }) size
          (record { filled = h.filled; counted = h.counted; told = h.told }) v)
  ]

  module _ (txn : ℕ) (s : S) (begun : api.txn_begin env false native ≡ (ok txn, s)) where
    commit_batch-Fills :
        (rs : List BatchResult) (st : Execution S)
        → Yields api txn request.put_flags request.operations s rs st.native
        → IsFilled rs 0 st
        → Fill (commit_batch api txn st)
    commit_batch-Fills rs st y h =
        let size : length rs ≡ length request.operations =
          length-Yields api txn request.put_flags request.operations s st.native rs y in
        elim (Outcome-cases (api.txn_commit txn st.native)) [
          | inl (_, s', q) ↦ rw (commit_batch-ok api st txn s' q) (
            rs,
            0,
            omega (arith, size),
            record { filled = h.filled; counted = h.counted; told = h.told },
            λ n e. (refl, ground (arith, h.counted, size)),
            ended txn s st.native begun y
                (ap ok h.counted ∙ ap (λ a. committed_count (length rs) a.0) (sym q)),
          )
          | inr (e, s', q) ↦ rw (commit_batch-err api st txn e s' q) (
              stopped-Fills rs 0 e (record st { native = s' }) (omega (arith, size))
                (record { filled = h.filled; counted = h.counted; told = h.told })
                (ended txn s st.native begun y (ap (λ a. committed_count (length rs) a.0) (sym q))))
        ]

    execute_in_transaction-Fills :
        (b : Bool)
        → terminate ≡ b
        → Fill (execute_in_transaction api txn b request (start s request))
    execute_in_transaction-Fills true t =
        unfold execute_in_transaction in
        abort_batch-Fills txn [] (length request.operations) hard_worker_failure (start s request)
          (omega arith) (start-IsFilled s request) (terminated t refl refl)
    execute_in_transaction-Fills false t = go (
        execute_operations-Ends api txn request.put_flags request.operations [] 0 (start s request)
          refl (start-IsFilled s request))
      where
        ops : List NormalizedBatchOperation
        ops = request.operations

        go :
            Ends api txn request.put_flags [] ops s
              (execute_operations api txn request.put_flags 0 ops (start s request))
            → Fill (execute_in_transaction api txn false request (start s request))
        go (all_done new st' q y f) =
            rw (execute_in_transaction-ok api txn request (start s request) st' q)
              (commit_batch-Fills new st' y f)
        go (stopped new left e st' q y f) =
            rw (execute_in_transaction-err api txn request (start s request) st' e q) (
              abort_batch-Fills txn new left e st'
                (Stops-size api txn request.put_flags ops s new left e st'.native y) f
                (threw txn e s st'.native begun y refl))

-- After any batch the results are those of a first part of the operations, carried out one after
-- another in the transaction, each recorded in its slot, counted and reported once and in order, and
-- the other slots are empty. Either that part is the whole and the outcome is that of the commit, so
-- that the number returned is that of the operations; or it ends before an operation that throws; or
-- it is empty, since the transaction did not begin or the test hook threw.
pub execute_batch_results :
    {S : Type 0} (api : NativeApi S) (terminate : Bool) (env : ℕ) (native : S)
    (request : NormalizedBatchRequest)
    → Fills api terminate env native request
        (execute_batch api terminate env request (start native request))
execute_batch_results api terminate env native request =
    let st = start native request in
    elim (Outcome-cases (api.txn_begin env false native)) [
      | inl (txn, s, q) ↦
          rw (execute_batch-ok api st terminate env txn request s q)
            (execute_in_transaction-Fills api terminate env native request txn s q terminate refl)
      | inr (e, s, q) ↦ rw (execute_batch-err api st terminate env request e s q) (
          stopped-Fills api terminate env native request [] (length request.operations) e
            (start s request) (omega arith) (start-IsFilled s request) (unbegun e s q refl refl))
    ]
