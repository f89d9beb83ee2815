-- ===== src/Batch/Executor/Atomic.antt =====
-- The whole log of the calls of a batch.
use lmdb_deno.Prelude.{
  ℕ, ◌≡◌, refl, ap, ◌∙◌, inl, inr, Bool, true, false, List, [], ◌∷◌, ◌++◌, append_assoc, append-nil,
  sym, Exception, hard_worker_failure, Result, ok, err, Outcome-cases, Bool-cases,
}
use lmdb_deno.Native.Api.{NativeApi}
use lmdb_deno.Batch.Request.{NormalizedBatchRequest}
use lmdb_deno.Batch.Executor.{
  Execution, start, is_hard_failure, execute_operations, commit_batch, abort_batch,
  execute_in_transaction, execute_batch,
}
use lmdb_deno.Batch.Executor.Steps.{
  execute_in_transaction-ok, execute_in_transaction-err, commit_batch-ok, commit_batch-err,
  execute_batch-ok, execute_batch-err,
}
use lmdb_deno.Batch.Executor.Transaction.{
  Event, began, begin_failed, committed, commit_failed, aborted, note_begin, note_commit, logged,
  Grows, grows, Grows-refl, Grows-trans, execute_operations-Grows, EndsWith, IsTransaction,
  not_begun, one,
}

abbrev log_of : {S : Type 0} → Execution (S × List Event) → List Event
log_of st = st.native.1

-- From inside the transaction to its end.
finish :
    (env txn : ℕ) (r : Result ℕ) (before after last : List Event)
    → Grows txn (began env false txn ∷ []) before
    → after ≡ before ++ last
    → EndsWith txn r last
    → IsTransaction env r after
finish env txn r before after last (grows body within e) f ends =
    one txn body last (f ∙ rw e (append_assoc (began env false txn ∷ []) body last)) within ends

module _ {S : Type 0} (api : NativeApi S) (env txn : ℕ) where
  abort_batch-IsTransaction :
      (e : Exception) (st : Execution (S × List Event))
      → Grows txn (began env false txn ∷ []) (log_of st)
      → let (r, st') = abort_batch (logged api) txn e st in IsTransaction env r (log_of st')
  unfolding abort_batch logged
  abort_batch-IsTransaction e st g = elim (Bool-cases (is_hard_failure e)) [
    | inl hard ↦ rw hard (
        finish env txn (err e) (log_of st) (log_of st) [] g (sym (append-nil (log_of st)))
          (inr (inr (refl, hard))))
    | inr soft ↦
        rw soft
          (finish env txn (err e) (log_of st) _ (aborted txn ∷ []) g refl (inr (inl (refl, soft))))
  ]

  commit_batch-IsTransaction :
      (st : Execution (S × List Event))
      → Grows txn (began env false txn ∷ []) (log_of st)
      → let (r, st') = commit_batch (logged api) txn st in IsTransaction env r (log_of st')
  commit_batch-IsTransaction st g = elim (Outcome-cases (api.txn_commit txn st.native.0)) [
    | inl (_, s, q) ↦
        rw (commit_batch-ok (logged api) st txn _ (logged_commit q))
          (finish env txn (ok st.completed_count) (log_of st) _ (committed txn ∷ []) g refl refl)
    | inr (e, s, q) ↦
        rw (commit_batch-err (logged api) st txn e _ (logged_commit q))
          (finish env txn (err e) (log_of st) _ (commit_failed txn ∷ []) g refl (inl refl))
  ]
    where
      logged_commit :
          {p : Result (Unit {0}) × S}
          → api.txn_commit txn st.native.0 ≡ p
          → (logged api).txn_commit txn st.native ≡ note_commit txn p st.native.1
      logged_commit q = unfold logged in ap (λ r. note_commit txn r st.native.1) q

  execute_in_transaction-IsTransaction :
      (terminate : Bool) (request : NormalizedBatchRequest) (st : Execution (S × List Event))
      → Grows txn (began env false txn ∷ []) (log_of st)
      → let (r, st') = execute_in_transaction (logged api) txn terminate request st in
        IsTransaction env r (log_of st')
  execute_in_transaction-IsTransaction true request st h =
      unfold execute_in_transaction in abort_batch-IsTransaction hard_worker_failure st h
  execute_in_transaction-IsTransaction false request st h =
      let g =
        Grows-trans txn (began env false txn ∷ []) (log_of st) _ h
          (execute_operations-Grows api txn request.put_flags request.operations 0 st) in
      elim (Outcome-cases
        (execute_operations (logged api) txn request.put_flags 0 request.operations st)) [
          | inl (_, st', q) ↦
              rw (execute_in_transaction-ok (logged api) txn request st st' q)
                (commit_batch-IsTransaction st' (rw q at g))
          | inr (e, st', q) ↦
              rw (execute_in_transaction-err (logged api) txn request st st' e q)
                (abort_batch-IsTransaction e st' (rw q at g))
        ]

-- Every batch is one write transaction of the environment it is given: the log of its calls is a
-- failed begin that is not read-only, or such a begin, reads and writes of the transaction begun, and
-- its end. The call returns exactly when the end is a
-- commit; it throws after a failed commit with no abort behind it, and otherwise after an abort,
-- which only the test signal leaves out.
pub execute_batch-IsTransaction :
    {S : Type 0} (api : NativeApi S) (terminate : Bool) (env : ℕ) (native : S)
    (request : NormalizedBatchRequest)
    → let (r, st') =
        execute_batch (logged api) terminate env request (start (native, []) request) in
      IsTransaction env r (log_of st')
execute_batch-IsTransaction {S} api terminate env native request =
    elim (Outcome-cases (api.txn_begin env false native)) [
      | inl (txn, s, q) ↦
          rw
            (execute_batch-ok (logged api) (start (native, []) request) terminate env txn request
              (s, began env false txn ∷ []) (logged_begin q))
            (execute_in_transaction-IsTransaction api env txn terminate request
              (start (s, began env false txn ∷ []) request)
              (Grows-refl txn (began env false txn ∷ [])))
      | inr (e, s, q) ↦
          rw
            (execute_batch-err (logged api) (start (native, []) request) terminate env request e
              (s, begin_failed env false ∷ []) (logged_begin q))
            (not_begun e refl refl)
    ]
  where
    logged_begin :
        {p : Result ℕ × S}
        → api.txn_begin env false native ≡ p
        → (logged api).txn_begin env false (native, []) ≡ note_begin env false p []
    logged_begin q = unfold logged in ap (λ r. note_begin env false r []) q
