-- ===== src/Tests/Prepare.antt =====
-- Batches prepared with leases that are counted.
use lmdb_deno.Prelude.{ℕ, suc, ◌-◌, ◌≡◌, refl, true, false, none, some, List, [], ◌∷◌, ok}
use lmdb_deno.Encoding.Values.{text, key, object, undefined, null, boolean, KeyEncoding}
use lmdb_deno.Encoding.Keys.{encode_key}
use lmdb_deno.Batch.Prepare.Snapshot.{
  BatchOperationInput, as_tuple, BatchOptions, BatchInputSnapshot, snapshot_operation,
  snapshot_operations, snapshot_tuple, snapshot_batch_inputs, validate_if_value,
}
use lmdb_deno.Batch.Prepare.Normalize.{
  encode_batch_key, infer_key_kind, key_kind_from_options, infer_batch_key_kind,
  normalize_batch_value,
}
use lmdb_deno.Batch.Prepare.Leases.{
  LeaseApi, PreparedBatch, owners_of, validate_owners, keep_lease, new_target, lease_dbi,
  normalize_condition, normalize_operation, normalize_operations, normalize_batch,
  prepare_batch_snapshot,
}
use lmdb_deno.Batch.Prepare.Balance.{tallied, nothing_yet, Leased, prepare_batch_snapshot-Leased}

abbrev string_keys : KeyEncoding
string_keys = record { key_is_string = true; key_is_uint32 = false; key_is_buffer = false }

-- Every database has the record 5; the state is the number of leases.
abbrev counting : LeaseApi ℕ
counting = record {
  validate = λ o n. (ok tt, n);
  retain = λ o n. (ok (record { record_id = 5; handle = 1; key_format = string_keys }), suc n);
  release = λ l n. (none, n - 1);
  finish = λ l n. (ok tt, n);
  dbi_close = λ c n. (ok tt, n);
}

abbrev no_options : BatchOptions
no_options = record {
  no_dup_data = undefined;
  no_overwrite = boolean true;
  append = undefined;
  append_dup = boolean true;
  progress = undefined;
  key_is_uint32 = undefined;
  key_is_string = undefined;
  key_is_buffer = undefined;
}

-- Two wrappers of one database: `[object 1, "a"]` and `[object 2, "b", null, null]`.
abbrev inputs : List BatchOperationInput
inputs =
    as_tuple (object 1 ∷ key (text (b'a' ∷ [])) ∷ [])
    ∷ as_tuple (object 2 ∷ key (text (b'b' ∷ [])) ∷ null ∷ null ∷ [])
    ∷ []

abbrev snapshot : BatchInputSnapshot
snapshot = record {
  operations =
      record {
        db = object 1;
        op_key = key (text (b'a' ∷ []));
        value = undefined;
        if_value = undefined;
        if_key = undefined;
        if_db = undefined;
        exact = false;
      }
      ∷ record {
        db = object 2;
        op_key = key (text (b'b' ∷ []));
        value = null;
        if_value = null;
        if_key = undefined;
        if_db = undefined;
        exact = false;
      }
      ∷ [];
  options = record {
    no_dup_data = false;
    no_overwrite = true;
    append = false;
    append_dup = true;
    has_progress = false;
    key_type = record { key_is_string = false; key_is_uint32 = false; key_is_buffer = false };
  };
}

snapshot_runs : snapshot_batch_inputs (some inputs) no_options ≡ ok snapshot
unfolding snapshot_batch_inputs snapshot_operations snapshot_operation snapshot_tuple
    validate_if_value
snapshot_runs = refl

-- One lease is kept for the record; the other one is given back.
prepare_runs : (prepare_batch_snapshot counting snapshot 0).1 ≡ 1
unfolding prepare_batch_snapshot owners_of validate_owners normalize_batch normalize_operations
    normalize_operation normalize_condition lease_dbi new_target keep_lease infer_batch_key_kind
    infer_key_kind key_kind_from_options encode_batch_key normalize_batch_value encode_key
prepare_runs = refl

prepare_batch_snapshot-Leased_example :
    Leased counting (prepare_batch_snapshot (tallied counting) snapshot (0, nothing_yet))
prepare_batch_snapshot-Leased_example = prepare_batch_snapshot-Leased counting snapshot 0

abbrev prepared : PreparedBatch
prepared = record {
  request = record { operations = []; put_flags = 0 };
  leases = record { record_id = 5; handle = 1; key_format = string_keys } ∷ [];
  released = false;
}
