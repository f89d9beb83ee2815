-- ===== src/Tests/Cursor.antt =====
-- Reading and writing in a transaction of txn.ts, and cursors of cursor.ts, at concrete inputs.
use lmdb_deno.Prelude.{
  ◌>>=◌, Result, ap, ◌≡◌, refl, true, false, Option, none, some, [], ◌∷◌, ok, arith,
}
use lmdb_deno.Bytes.{Bytes}
use lmdb_deno.Encoding.Text.{encode_string, decode_string, decode_chunks}
use lmdb_deno.Encoding.Values.{Key, text, key, string_kind, Value}
use lmdb_deno.Encoding.Keys.{encode_key}
use lmdb_deno.State.World.{World}
use lmdb_deno.State.Access.{
  get_txn_handle, assert_txn_active, require_environment_binding, require_environment_state,
  get_shared_environment, assert_shared_state_usable, require_live_dbi_binding,
  assert_same_shared_environment, assert_same_states, state_for_owner, require_transaction_binding,
  require_live_cursor_binding,
}
use lmdb_deno.State.Handles.{
  get_dbi_handle_for_txn, get_dbi_key_format, get_cursor_handle, get_cursor_handle_for_close,
}
use lmdb_deno.State.Transactions.{
  join, register_txn_handle, register_owned_transaction,
  invalidate_transaction_cursor_caches_for_write,
}
use lmdb_deno.State.Databases.{
  register_dbi_handle, require_pending, register_cursor_handle, add_cursor,
}
use lmdb_deno.State.Environments.{register_env_handle, attach_shared_environment}
use lmdb_deno.Batch.Prepare.Snapshot.{BatchOptionsSnapshot}
use lmdb_deno.Batch.Prepare.Normalize
use lmdb_deno.Batch.Prepare.Normalize.{infer_key_kind}
use lmdb_deno.Data.{CursorOperation, DataApi}
use lmdb_deno.Data.Keys.{key_kind_from_options, agreed_kind, encode_in}
use lmdb_deno.Txn.{Txn}
use lmdb_deno.Txn.Access.{
  encode_transaction_key, put_flags, prepare_get, put, put_string, get_string,
}
use lmdb_deno.Txn.Clearing.{Writes}
use lmdb_deno.Txn.Writing.{put_call, put-Writes, put_string-get_string}
use lmdb_deno.Txn.Batched.{returned, batch_key, put_options, agreed_kind-batch}
use lmdb_deno.Cursor.{
  Cursor, clear_current_record, format_key, encode_cursor_key, navigate, navigated,
}
use lmdb_deno.Cursor.Methods.{close}
use lmdb_deno.Cursor.Serving.{Serves, navigate-Serves, get_cursor_handle-Reads}
use lmdb_deno.Cursor.Fresh.{Refetches, put-Refetches}
use lmdb_deno.Cursor.Closing.{Closes, close-Closes, get_cursor_handle_for_close-Reads}
use lmdb_deno.State.Writer.Reading.{Reads-eq}
use lmdb_deno.Cursor.Keys.{encode_cursor_key-format_key, navigate-kind}
use lmdb_deno.Tests.State.{writing, string_keys}

-- LMDB with one record, whatever its key.
abbrev one_record : DataApi (Option Bytes)
one_record = record {
  get = λ txn dbi k w s. (ok s, s);
  get_unsafe = λ txn dbi k w s. (ok s, s);
  put = λ txn dbi k value flags w s. (ok tt, some value);
  del = λ txn dbi k value w s. (ok tt, none);
  cursor_open = λ txn dbi w s. (ok 92, s);
  cursor_get = λ cursor k value operation w s. (ok (some (97 ∷ 0 ∷ 0 ∷ 0 ∷ [], 1 ∷ 2 ∷ [])), s);
  cursor_del = λ cursor no_dup_data w s. (ok tt, none);
}

abbrev txn : Txn
txn = record { object = 200; env = 100; registered = true; is_readonly = false }

abbrev cursor : Cursor
cursor = record {
  object = 400;
  key_format = string_keys;
  current = clear_current_record true;
  since = 0;
}

abbrev a_key : Value
a_key = key (text (97 ∷ []))

-- After a put.
abbrev written : World
written = (put one_record txn 300 a_key (1 ∷ []) none writing none).1

put-Writes_example :
    Writes txn
      (prepare_get txn 300 a_key none)
      (put_call one_record txn 300 a_key (1 ∷ []) (put_flags none))
      writing
      none
      (put one_record txn 300 a_key (1 ∷ []) none writing none)
put-Writes_example = put-Writes one_record txn 300 a_key (1 ∷ []) none writing none

put_string-get_string_example :
    (get_string one_record txn 300 a_key none
      (put_string one_record txn 300 a_key (key (text (98 ∷ []))) none writing none).1
      (some (encode_string (98 ∷ [])))).0
    ≡ ok (some (98 ∷ []))
unfolding register_env_handle attach_shared_environment register_txn_handle
    register_owned_transaction join register_dbi_handle require_pending register_cursor_handle
    add_cursor require_environment_binding require_environment_state get_shared_environment
    require_transaction_binding assert_shared_state_usable require_live_dbi_binding get_txn_handle
    assert_txn_active put put_string prepare_get encode_transaction_key agreed_kind encode_in
    key_kind_from_options infer_key_kind encode_key get_dbi_key_format get_dbi_handle_for_txn
    assert_same_shared_environment assert_same_states state_for_owner
    invalidate_transaction_cursor_caches_for_write
put_string-get_string_example =
    put_string-get_string one_record txn 300 a_key (98 ∷ []) none writing _ none _ (omega arith, tt)
      refl (λ t h k v u u' e. ground arith)

put-Refetches_example :
    Refetches one_record (λ b. ok b) none false (some 92) cursor written (some (1 ∷ []))
unfolding register_env_handle attach_shared_environment register_txn_handle
    register_owned_transaction join register_dbi_handle require_pending register_cursor_handle
    add_cursor require_environment_binding require_environment_state get_shared_environment
    require_transaction_binding assert_shared_state_usable require_live_dbi_binding get_txn_handle
    assert_txn_active put prepare_get encode_transaction_key agreed_kind encode_in
    key_kind_from_options infer_key_kind encode_key get_dbi_key_format get_dbi_handle_for_txn
    assert_same_shared_environment assert_same_states state_for_owner
    invalidate_transaction_cursor_caches_for_write get_cursor_handle require_live_cursor_binding
put-Refetches_example =
    put-Refetches one_record (λ b. ok b) none false (some 92) cursor writing
      (Reads-eq (get_cursor_handle 400) (ok (some 92)) writing (get_cursor_handle-Reads 400) refl)
      txn 300 a_key (1 ∷ []) none 2 written none _ refl refl
      (record { binding = 5; bound = refl; listed = refl; since = omega arith })

abbrev flags : BatchOptionsSnapshot
flags = record {
  no_dup_data = false;
  no_overwrite = true;
  append = false;
  append_dup = false;
  has_progress = false;
  key_type = string_keys;
}

agreed_kind-batch_example :
    (returned (agreed_kind a_key (some string_keys) >>= encode_in string_keys)
      ≡ returned (batch_key a_key string_keys string_keys))
    × (put_flags (some (put_options flags)) ≡ lmdb_deno.Batch.Prepare.Normalize.put_flags flags)
agreed_kind-batch_example = agreed_kind-batch a_key flags string_keys

navigate-Serves_example :
    Serves one_record
      (λ b. ok b)
      none
      CursorOperation.mdb_first
      none
      none
      cursor
      writing
      none
      (navigate one_record CursorOperation.mdb_first none none cursor writing none)
navigate-Serves_example =
    navigate-Serves one_record (λ b. ok b) none CursorOperation.mdb_first none none cursor writing
      none

close-Closes_example : Closes cursor (some 92) writing (close cursor writing)
unfolding register_env_handle attach_shared_environment register_txn_handle
    register_owned_transaction join register_dbi_handle require_pending register_cursor_handle
    add_cursor require_environment_binding require_environment_state get_shared_environment
    require_transaction_binding assert_shared_state_usable require_live_dbi_binding get_txn_handle
    assert_txn_active get_cursor_handle_for_close require_live_cursor_binding
close-Closes_example = close-Closes cursor (some 92) writing (
    Reads-eq (get_cursor_handle_for_close 400) (ok (some 92)) writing
      (get_cursor_handle_for_close-Reads 400) refl)

encode_cursor_key-format_key_example :
    format_key string_keys (encode_string (97 ∷ [])) ≡ ok (text (97 ∷ []))
unfolding encode_cursor_key agreed_kind encode_in key_kind_from_options infer_key_kind encode_key
encode_cursor_key-format_key_example =
    encode_cursor_key-format_key (text (97 ∷ [])) none string_keys (encode_string (97 ∷ []))
      (omega arith, tt) refl refl

abbrev first_entry : (Result (Option Key) × World × Option Bytes) × Cursor
first_entry = navigate one_record CursorOperation.mdb_first none none cursor writing none

first_key : first_entry.0.0 ≡ ok (some (text (97 ∷ [])))
unfolding register_env_handle attach_shared_environment register_txn_handle
    register_owned_transaction join register_dbi_handle require_pending register_cursor_handle
    add_cursor require_environment_binding require_environment_state get_shared_environment
    require_transaction_binding assert_shared_state_usable require_live_dbi_binding get_txn_handle
    assert_txn_active get_cursor_handle require_live_cursor_binding navigate navigated format_key
    decode_string decode_chunks
first_key = refl

navigate-kind_example : string_kind ≡ string_kind
navigate-kind_example =
    navigate-kind one_record CursorOperation.mdb_first none none cursor (first_entry.1) writing
      (first_entry.0.1) none (first_entry.0.2) (text (97 ∷ []))
      (ap (λ q. ((q, first_entry.0.1, first_entry.0.2), first_entry.1)) first_key)
