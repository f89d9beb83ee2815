-- ===== src/Batch/Executor/Transaction.antt =====
-- The calls that a batch makes to the native library, as a list of events.
use lmdb_deno.Prelude.{
  ℕ, suc, ◌≡◌, refl, ◌∙◌, sym, ◌⊎◌, inl, inr, Bool, true, false, Option, none, some, List, [], ◌∷◌,
  ◌++◌, append_assoc, append-nil, All, Exception, Result, ok, err, Outcome-cases, arith, ◌≢◌,
}
use lmdb_deno.Bytes.{Bytes}
use lmdb_deno.Native.Api.{NativeApi}
use lmdb_deno.Batch.Request.{success, NormalizedBatchCondition, NormalizedBatchOperation}
use lmdb_deno.Batch.Executor.{
  Execution, is_hard_failure, complete, evaluate_condition, check_condition, delete_record,
  put_record, write_record, operation_result, execute_operation, execute_operations,
}
use lmdb_deno.Batch.Executor.Steps.{
  execute_operation-ok, execute_operation-err, execute_operations-ok, execute_operations-err,
}

-- The calls, with their arguments; `began` also has the transaction that was begun.
pub data Event : Type 0 where
  begin_failed : (env : ℕ) (read_only : Bool) → Event
  began : (env : ℕ) (read_only : Bool) (txn : ℕ) → Event
  read : (txn dbi : ℕ) (key : Bytes) → Event
  wrote : (txn dbi : ℕ) (key value : Bytes) (flags : ℕ) → Event
  removed : (txn dbi : ℕ) (key : Bytes) (value : Option Bytes) → Event
  committed commit_failed aborted : (txn : ℕ) → Event

abbrev pub IsWithin : ℕ → Event → Type 0
IsWithin txn (read t dbi key) = t ≡ txn
IsWithin txn (wrote t dbi key value flags) = t ≡ txn
IsWithin txn (removed t dbi key value) = t ≡ txn
IsWithin txn _ = ⊥

abbrev pub note : {S A : Type 0} → Event → Result A × S → List Event → Result A × (S × List Event)
note event (r, s) log = (r, (s, log ++ event ∷ []))

abbrev pub note_begin :
    {S : Type 0} → ℕ → Bool → Result ℕ × S → List Event → Result ℕ × (S × List Event)
note_begin env read_only (ok txn, s) log = (ok txn, (s, log ++ began env read_only txn ∷ []))
note_begin env read_only (err e, s) log = (err e, (s, log ++ begin_failed env read_only ∷ []))

abbrev pub note_commit :
    {S : Type 0} → ℕ → Result (Unit {0}) × S → List Event → Result (Unit {0}) × (S × List Event)
note_commit txn (ok _, s) log = (ok tt, (s, log ++ committed txn ∷ []))
note_commit txn (err e, s) log = (err e, (s, log ++ commit_failed txn ∷ []))

-- The same operations, which also keep a log of the calls.
unfoldable pub logged : {S : Type 0} → NativeApi S → NativeApi (S × List Event)
logged api = record {
  txn_begin = λ env read_only s. note_begin env read_only (api.txn_begin env read_only s.0) s.1;
  txn_commit = λ txn s. note_commit txn (api.txn_commit txn s.0) s.1;
  txn_abort = λ txn s. (api.txn_abort txn s.0, s.1 ++ aborted txn ∷ []);
  get = λ txn dbi key s. note (read txn dbi key) (api.get txn dbi key s.0) s.1;
  put = λ txn dbi key value flags s.
      note (wrote txn dbi key value flags) (api.put txn dbi key value flags s.0) s.1;
  del = λ txn dbi key value s. note (removed txn dbi key value) (api.del txn dbi key value s.0) s.1;
}

-- The log has grown by events of the transaction.
pub data Grows (txn : ℕ) (before after : List Event) : Type 0 where
  grows :
      (body : List Event)
      → All (IsWithin txn) body
      → after ≡ before ++ body
      → Grows txn before after

All-append :
    (txn : ℕ) (xs ys : List Event)
    → All (IsWithin txn) xs
    → All (IsWithin txn) ys
    → All (IsWithin txn) (xs ++ ys)
All-append txn [] ys hx hy = hy
All-append txn (x ∷ xs) ys hx hy = (hx.0, All-append txn xs ys hx.1 hy)

pub Grows-refl : (txn : ℕ) (log : List Event) → Grows txn log log
Grows-refl txn log = grows [] tt (sym (append-nil log))

pub Grows-trans : (txn : ℕ) (a b c : List Event) → Grows txn a b → Grows txn b c → Grows txn a c
Grows-trans txn a b c (grows xs hx e) (grows ys hy f) =
    grows (xs ++ ys) (All-append txn xs ys hx hy) (f ∙ rw e (append_assoc a xs ys))

module _ {S : Type 0} (api : NativeApi S) (txn : ℕ) (s : S × List Event) where
  check_condition-Grows :
      (c : Option NormalizedBatchCondition)
      → Grows txn s.1 (check_condition (logged api) txn c s).1.1
  unfolding check_condition evaluate_condition logged
  check_condition-Grows none = Grows-refl txn s.1
  check_condition-Grows (some c) = grows (read txn c.dbi c.key ∷ []) (refl, tt) (ground arith)

  write_record-Grows :
      (flags : ℕ) (op : NormalizedBatchOperation) (value : Option Bytes)
      → Grows txn s.1 (write_record (logged api) txn flags op value s).1.1
  unfolding write_record delete_record put_record logged
  write_record-Grows flags op none =
      grows (removed txn op.dbi op.key none ∷ []) (refl, tt) (ground arith)
  write_record-Grows flags op (some v) =
      grows (wrote txn op.dbi op.key v flags ∷ []) (refl, tt) (ground arith)

module _ {S : Type 0} (api : NativeApi S) (txn flags : ℕ) where
  -- What follows the condition.
  pub operation_result-cases :
      (op : NormalizedBatchOperation) (s : S)
      → let (r, s') = check_condition api txn op.condition s in
        ((r ≡ ok success)
          × (operation_result api txn flags op s ≡ write_record api txn flags op op.value s'))
        ⊎ ((r ≢ ok success) × (operation_result api txn flags op s ≡ (r, s')))
  unfolding operation_result
  operation_result-cases op s = ground arith

module _ {S : Type 0} (api : NativeApi S) (txn flags : ℕ) where
  operation_result-Grows :
      (op : NormalizedBatchOperation) (s : S × List Event)
      → Grows txn s.1 (operation_result (logged api) txn flags op s).1.1
  operation_result-Grows op s = elim (operation_result-cases (logged api) txn flags op s) [
    | inl (met, e) ↦
        let s' = (check_condition (logged api) txn op.condition s).1 in
        rw e (
          Grows-trans txn s.1 s'.1 _ (check_condition-Grows api txn s op.condition)
            (write_record-Grows api txn s' flags op op.value))
    | inr (unmet, e) ↦ rw e (check_condition-Grows api txn s op.condition)
  ]

  execute_operation-Grows :
      (op : NormalizedBatchOperation) (index : ℕ) (st : Execution (S × List Event))
      → Grows txn st.native.1 (execute_operation (logged api) txn flags index op st).1.native.1
  execute_operation-Grows op index st =
      let g = operation_result-Grows op st.native in
      elim (Outcome-cases (operation_result (logged api) txn flags op st.native)) [
        | inl (r, s, q) ↦
            rw (execute_operation-ok (logged api) txn flags index op st r s q)
              (unfold complete in (rw q at g))
        | inr (x, s, q) ↦
            rw (execute_operation-err (logged api) txn flags index op st x s q) (rw q at g)
      ]

  pub execute_operations-Grows :
      (ops : List NormalizedBatchOperation) (index : ℕ) (st : Execution (S × List Event))
      → Grows txn st.native.1 (execute_operations (logged api) txn flags index ops st).1.native.1
  execute_operations-Grows [] index st = unfold execute_operations in Grows-refl txn st.native.1
  execute_operations-Grows (op ∷ ops) index st =
      let g = execute_operation-Grows op index st in
      elim (Outcome-cases (execute_operation (logged api) txn flags index op st)) [
        | inl (_, st', q) ↦
            rw (execute_operations-ok (logged api) txn flags index op st ops st' q) (
              Grows-trans txn st.native.1 st'.native.1 _ (rw q at g)
                (execute_operations-Grows ops (suc index) st'))
        | inr (x, st', q) ↦
            rw (execute_operations-err (logged api) txn flags index op st ops x st' q) (rw q at g)
      ]

-- How a transaction may end, by what the call returns or throws.
abbrev pub EndsWith : ℕ → Result ℕ → List Event → Type 0
EndsWith txn (ok n) last = last ≡ committed txn ∷ []
EndsWith txn (err e) last =
    (last ≡ commit_failed txn ∷ [])
    ⊎ ((last ≡ aborted txn ∷ []) × (is_hard_failure e ≡ false))
    ⊎ ((last ≡ []) × (is_hard_failure e ≡ true))

-- The calls of one batch of an environment.
pub data IsTransaction (env : ℕ) (r : Result ℕ) (log : List Event) : Type 0 where
  not_begun :
      (e : Exception) → r ≡ err e → log ≡ begin_failed env false ∷ [] → IsTransaction env r log
  one :
      (txn : ℕ) (body last : List Event)
      → log ≡ began env false txn ∷ (body ++ last)
      → All (IsWithin txn) body
      → EndsWith txn r last
      → IsTransaction env r log
