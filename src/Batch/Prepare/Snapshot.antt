-- ===== src/Batch/Prepare/Snapshot.antt =====
-- `snapshotBatchInputs` and `snapshotOperation` (batch/executor.ts): the fields of the operations and
-- options as they are given, read once.
use lmdb_deno.Prelude.{
  ℕ, Bool, true, false, ◌||◌, Option, none, some, List, [], ◌∷◌, length, get_or, Exception,
  type_error, Result, ok, err, ◌>>=◌, ltb, throw_if,
}
use lmdb_deno.Encoding.Values.{bytes, Value, undefined, null, boolean, key, function, KeyEncoding}

-- An operation: an object with these fields, a tuple, or anything else.
pub record BatchOperation : Type 0 where
  pub db : Value
  pub op_key : Value
  pub value : Value
  pub if_value : Value
  pub if_key : Value
  pub if_db : Value
  pub if_exact_match : Value

pub data BatchOperationInput : Type 0 where
  as_object : BatchOperation → BatchOperationInput
  as_tuple : List Value → BatchOperationInput
  as_other : BatchOperationInput

pub record BatchOptions : Type 0 where
  pub no_dup_data : Value
  pub no_overwrite : Value
  pub append : Value
  pub append_dup : Value
  pub progress : Value
  pub key_is_uint32 : Value
  pub key_is_string : Value
  pub key_is_buffer : Value

pub record BatchOptionsSnapshot : Type 0 where
  pub no_dup_data : Bool
  pub no_overwrite : Bool
  pub append : Bool
  pub append_dup : Bool
  pub has_progress : Bool
  pub key_type : KeyEncoding

pub record BatchOperationSnapshot : Type 0 where
  pub db : Value
  pub op_key : Value
  pub value : Value
  pub if_value : Value
  pub if_key : Value
  pub if_db : Value
  pub exact : Bool

pub record BatchInputSnapshot : Type 0 where
  pub operations : List BatchOperationSnapshot
  pub options : BatchOptionsSnapshot

-- `value === true`.
abbrev pub is_true_value : Value → Bool
is_true_value (boolean b) = b
is_true_value _ = false

abbrev pub invalid_batch_value : Exception
invalid_batch_value = type_error "The value must be a Uint8Array or null/undefined."

unfoldable pub validate_if_value : Value → Result (Unit {0})
validate_if_value undefined = ok tt
validate_if_value null = ok tt
validate_if_value (key (bytes b)) = ok tt
validate_if_value _ = err invalid_batch_value

abbrev item : List Value → ℕ → Value
item items n = get_or items n undefined

unfoldable pub snapshot_tuple : List Value → Result BatchOperationSnapshot
snapshot_tuple items =
    throw_if (ltb (length items) 2 || ltb 4 (length items))
      (type_error "Batch tuple must contain 2 to 4 items")
    >>= λ _. validate_if_value (item items 3) >>= λ _. ok (record {
      db = item items 0;
      op_key = item items 1;
      value = item items 2;
      if_value = item items 3;
      if_key = undefined;
      if_db = undefined;
      exact = false;
    })

-- The fields of the condition are read only if there is one.
unfoldable pub snapshot_object : BatchOperation → Result BatchOperationSnapshot
snapshot_object o =
    let plain : BatchOperationSnapshot = record {
      db = o.db;
      op_key = o.op_key;
      value = o.value;
      if_value = o.if_value;
      if_key = undefined;
      if_db = undefined;
      exact = false;
    } in
    let conditional : BatchOperationSnapshot = record plain {
      if_key = o.if_key;
      if_db = o.if_db;
    } in
    elim o.if_value [
      | undefined ↦ ok plain
      | null ↦ ok conditional
      | key (bytes b) ↦ ok (record conditional { exact = is_true_value o.if_exact_match })
      | _ ↦ err invalid_batch_value
    ]

unfoldable pub snapshot_operation : BatchOperationInput → Result BatchOperationSnapshot
snapshot_operation (as_object o) = snapshot_object o
snapshot_operation (as_tuple items) = snapshot_tuple items
snapshot_operation as_other = err (type_error "Batch operation must be an object or tuple")

unfoldable pub snapshot_operations : List BatchOperationInput → Result (List BatchOperationSnapshot)
snapshot_operations [] = ok []
snapshot_operations (input ∷ inputs) =
    snapshot_operation input >>= λ first. snapshot_operations inputs >>= λ rest. ok (first ∷ rest)

abbrev check_progress : Value → Result Bool
check_progress undefined = ok false
check_progress (function f) = ok true
check_progress _ = err (type_error "BatchOptions.progress must be a function")

-- `none` stands for operations that are not an array.
unfoldable pub snapshot_batch_inputs :
    Option (List BatchOperationInput) → BatchOptions → Result BatchInputSnapshot
snapshot_batch_inputs none options = err (type_error "batchWrite operations must be an array")
snapshot_batch_inputs (some inputs) options = check_progress options.progress >>= λ has_progress.
    snapshot_operations inputs >>= λ operations. ok (record {
      operations = operations;
      options = record {
        no_dup_data = is_true_value options.no_dup_data;
        no_overwrite = is_true_value options.no_overwrite;
        append = is_true_value options.append;
        append_dup = is_true_value options.append_dup;
        has_progress = has_progress;
        key_type = record {
          key_is_string = is_true_value options.key_is_string;
          key_is_uint32 = is_true_value options.key_is_uint32;
          key_is_buffer = is_true_value options.key_is_buffer;
        };
      };
    })
