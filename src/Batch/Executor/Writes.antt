-- ===== src/Batch/Executor/Writes.antt =====
-- What one operation of a batch asks of LMDB, and the result that it has (batch/executor.ts).
use lmdb_deno.Prelude.{
  ℕ, ◌≡◌, ◌≢◌, ◌⊎◌, true, false, Option, inl, inr, append-nil, ap, sym, refl, ◌∙◌, none, some, List,
  [], ◌∷◌, ◌++◌, Result, ok, err, arith, append_assoc,
}
use lmdb_deno.Bytes.{Bytes}
use lmdb_deno.Native.Api.{NativeApi}
use lmdb_deno.Batch.Request.{
  BatchResult, success, not_found, bad_valsize, NormalizedBatchCondition, NormalizedBatchOperation,
}
use lmdb_deno.Batch.Executor.{
  is_lmdb_code, mdb_notfound, mdb_bad_valsize, evaluate_condition, check_condition, delete_record,
  put_record, write_record, operation_result,
}
use lmdb_deno.Batch.Executor.Transaction.{
  Event, read, wrote, removed, logged, operation_result-cases,
}

-- A condition is one read, of its own database and key.
abbrev pub asked : ℕ → Option NormalizedBatchCondition → List Event
asked txn none = []
asked txn (some c) = read txn c.dbi c.key ∷ []

-- An operation is one write of its database and key: of its value, or the removal of the record.
abbrev pub written : ℕ → ℕ → NormalizedBatchOperation → Option Bytes → Event
written txn flags op none = removed txn op.dbi op.key none
written txn flags op (some value) = wrote txn op.dbi op.key value flags

-- The answer of LMDB to the write.
abbrev pub answer :
    {S : Type 0}
    → NativeApi S
    → ℕ
    → ℕ
    → NormalizedBatchOperation
    → Option Bytes
    → S
    → Result (Unit {0})
answer api txn flags op none s = (api.del txn op.dbi op.key none s).0
answer api txn flags op (some value) s = (api.put txn op.dbi op.key value flags s).0

-- What an answer is to the caller: a record that is missing can only be removed in vain.
abbrev pub Reports : Option Bytes → Result (Unit {0}) → Result BatchResult → Type 0
Reports value (ok _) r = r ≡ ok success
Reports value (err e) r =
    ((is_lmdb_code e mdb_bad_valsize ≡ true) × (r ≡ ok bad_valsize))
    ⊎ ((is_lmdb_code e mdb_notfound ≡ true) × (value ≡ none) × (r ≡ ok not_found))
    ⊎ ((is_lmdb_code e mdb_bad_valsize ≡ false)
        × ((is_lmdb_code e mdb_notfound ≡ false) ⊎ (value ≢ none))
        × (r ≡ err e))

module _ {S : Type 0} (api : NativeApi S) (txn flags : ℕ) (op : NormalizedBatchOperation) where
  check_condition-logged :
      (c : Option NormalizedBatchCondition) (s : S) (log : List Event)
      → let (r, s') = check_condition api txn c s in
        check_condition (logged api) txn c (s, log) ≡ (r, (s', log ++ asked txn c))
  unfolding check_condition evaluate_condition logged
  check_condition-logged none s log = ground (arith, append-nil log)
  check_condition-logged (some c) s log = ground arith

  write_record-logged :
      (value : Option Bytes) (s : S) (log : List Event)
      → let (r, (s', log')) = write_record (logged api) txn flags op value (s, log) in
        (log' ≡ log ++ written txn flags op value ∷ [])
        × Reports value (answer api txn flags op value s) r
  unfolding write_record delete_record put_record logged
  write_record-logged none s log = ground arith
  write_record-logged (some value) s log = ground arith

  -- The condition of an operation is asked of LMDB with one read of its database and key. If it
  -- succeeds, or there is none, exactly one write follows, of the operation's database and key: with
  -- its value and the flags, or the removal of the record if it has no value. The result is success if
  -- LMDB accepts the write, says so if the key or the value has a bad size or the record to remove is
  -- missing, and is LMDB's error otherwise. If the condition gives anything else, nothing is written
  -- and that is the result.
  pub operation_result_writes :
      (s : S) (log : List Event)
      → let c = check_condition api txn op.condition s in
        let x = operation_result (logged api) txn flags op (s, log) in
        ((c.0 ≡ ok success)
          × (x.1.1 ≡ log ++ (asked txn op.condition ++ written txn flags op op.value ∷ []))
          × Reports op.value (answer api txn flags op op.value c.1) x.0)
        ⊎ ((c.0 ≢ ok success) × (x.1.1 ≡ log ++ asked txn op.condition) × (x.0 ≡ c.0))
  operation_result_writes s log =
      split (check_condition api txn op.condition s) (check_condition-logged op.condition s log)
    where
      split :
          (c : Result BatchResult × S)
          → check_condition (logged api) txn op.condition (s, log)
            ≡ (c.0, (c.1, log ++ asked txn op.condition))
          → let x = operation_result (logged api) txn flags op (s, log) in
            ((c.0 ≡ ok success)
              × (x.1.1 ≡ log ++ (asked txn op.condition ++ written txn flags op op.value ∷ []))
              × Reports op.value (answer api txn flags op op.value c.1) x.0)
            ⊎ ((c.0 ≢ ok success) × (x.1.1 ≡ log ++ asked txn op.condition) × (x.0 ≡ c.0))
      split (r, s') e = elim (operation_result-cases (logged api) txn flags op (s, log)) [
        | inl (met, f) ↦
            let same : operation_result (logged api) txn flags op (s, log)
                ≡ write_record (logged api) txn flags op op.value
                    (s', log ++ asked txn op.condition) =
              f ∙ ap (λ x. write_record (logged api) txn flags op op.value x.1) e in
            let w = write_record-logged op.value s' (log ++ asked txn op.condition) in
            inl (
              ap (λ x. x.0) (sym e) ∙ met,
              rw same (
                  w.0
                  ∙ append_assoc log (asked txn op.condition) (written txn flags op op.value ∷ [])),
              rw same w.1,
            )
        | inr (unmet, f) ↦
            let same : operation_result (logged api) txn flags op (s, log)
                ≡ (r, (s', log ++ asked txn op.condition)) =
              ground (arith, f, e) in
            inr (λ h. unmet (ap (λ x. x.0) e ∙ h), rw same refl, rw same refl)
      ]
