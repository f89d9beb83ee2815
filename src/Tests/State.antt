-- ===== src/Tests/State.antt =====
-- Concrete runs of State, and the properties at concrete inputs.
use lmdb_deno.Prelude.{
  ℕ, ◌≡◌, refl, true, false, none, some, List, [], ◌∷◌, ◌++◌, has, error, ok, err, ◌==◌,
  if◌then◌else◌,
}
use lmdb_deno.Encoding.Values.{KeyEncoding}
use lmdb_deno.State.World.{
  TransactionPhase, CursorPhase, transaction, cursor_close, txn_abort, invalidate_current, World,
}
use lmdb_deno.State.Access.{
  get_txn_handle, assert_txn_active, require_environment_binding, require_environment_state,
  get_shared_environment, assert_shared_state_usable, require_live_dbi_binding,
  require_transaction_binding,
}
use lmdb_deno.State.Handles.{get_dbi_handle, get_committed_dbi_handle}
use lmdb_deno.State.Records.{
  invalidate_pending, finalize_committed, finalize_empty_dbi_record, drop_record, close_wrapper,
  close_deferred_dbis, invalidate_pending_dbi_bindings, promote_pending_dbi_bindings,
}
use lmdb_deno.State.Cursors.{
  prepare_transaction_cursors_for_end_binding, prepare_cursors, prepare_cursor,
  finish_transaction_cursors_binding, finish_cursors,
}
use lmdb_deno.State.Transactions.{
  abort_transaction_binding, close_transaction_binding, detach_transaction_binding, leave_state,
  mark_txn_reset, mark_txn_renewed, join, register_txn_handle, register_owned_transaction,
  second_writer_error,
}
use lmdb_deno.State.Databases.{
  register_dbi_handle, require_pending, register_cursor_handle, add_cursor,
}
use lmdb_deno.State.Leases.{BatchDbiLease}
use lmdb_deno.State.Closing.{close_shared_batch_client, close_shared_environment_if_unused}
use lmdb_deno.State.Environments.{register_env_handle, attach_shared_environment}
use lmdb_deno.State.Writer.{writer}
use lmdb_deno.State.Writer.Steps.{
  Operation, perform, perform_all, new_env, attach_env, new_txn, own_txn, new_dbi, new_cursor,
}
use lmdb_deno.State.Writer.Moves.{Lock}
use lmdb_deno.State.Writer.Lock.{perform-Lock, perform_all-single}
use lmdb_deno.State.Order.Abort.{AbortCalls, abort_transaction_binding_order}
use lmdb_deno.State.Order.Close.{
  IsClosed, close_shared_environment_if_unused_closes, close_shared_environment_if_unused_once,
}
use lmdb_deno.State.Lifecycle.Pending.{
  IsInvalid, IsPromoted, invalidate_pending_dbi_bindings_closes,
  promote_pending_dbi_bindings_promotes,
}
use lmdb_deno.State.Lifecycle.Phases.{IsLive, mark_txn_reset-renewed}

abbrev pub string_keys : KeyEncoding
string_keys = record { key_is_string = true; key_is_uint32 = false; key_is_buffer = false }

-- One environment, at the address 7, without wrappers.
abbrev pub start : World
start = record {
  registry = record {
    issued = [];
    authenticators = [];
    live_tokens = 1 ∷ [];
    states = λ i.
        if i == 0
        then some (record {
          library_path = [];
          address = 7;
          generation = 1;
          poisoned = false;
          ref_count = 0;
          descriptor_tokens = [];
        })
        else none;
    words = [];
    next_object = 0;
  };
  shared = λ i. record {
    canonical_path = 50;
    wrappers = [];
    transactions = [];
    dbis = [];
    dbi_records = [];
    cursors = [];
    active_async_operations = 0;
    active_writer = none;
    batch_client = none;
  };
  environments = λ i. record { handle = none; state = none; transactions = [] };
  transactions = λ i. record {
    handle = none;
    state = none;
    environment = none;
    read_only = none;
    phase = TransactionPhase.closed;
    cursors = [];
    pending_dbis = [];
  };
  records = λ i. record {
    handle = 0;
    state = 0;
    wrappers = [];
    pending = [];
    cursor_refs = 0;
    batch_refs = 0;
    committed = false;
  };
  dbis = λ i. record {
    handle = 0;
    key_format = string_keys;
    flags = 0;
    record_id = 0;
    pending_txn = none;
    closed = true;
  };
  cursors = λ i. record {
    handle = none;
    state = none;
    txn = none;
    dbi = none;
    read_only = false;
    phase = CursorPhase.closed;
  };
  env_bindings = λ i. none;
  txn_bindings = λ i. none;
  dbi_bindings = λ i. none;
  cursor_bindings = λ i. none;
  environment_registry = (50, 0) ∷ [];
  next_object = 1;
  calls = [];
}

-- The wrapper 100 of the environment (its binding is 1), and the write transaction 200 (2).
abbrev opening : List Operation
opening = new_env 100 90 ∷ attach_env 100 0 ∷ new_txn 200 91 ∷ own_txn 100 200 false ∷ []

-- The transaction opens the database 300 (its record is 3, its binding 4) and has a cursor (5).
abbrev pub writing : World
writing =
    perform_all
      (opening ++ new_dbi 300 12 string_keys 100 0 (some 200) ∷ new_cursor 400 92 200 300 true ∷ [])
      start

-- The writer is the transaction; a second one may not begin, and the database is pending.
writing-writer : writer 0 writing ≡ some (transaction 2)
unfolding register_env_handle attach_shared_environment register_txn_handle
    register_owned_transaction join register_dbi_handle require_pending register_cursor_handle
    add_cursor require_environment_binding require_environment_state get_shared_environment
    require_transaction_binding assert_shared_state_usable require_live_dbi_binding get_txn_handle
    assert_txn_active
writing-writer = refl

writing_second :
    (register_owned_transaction 100 201 false (perform (new_txn 201 93) writing)).0
    ≡ err second_writer_error
unfolding register_env_handle attach_shared_environment register_txn_handle
    register_owned_transaction join register_dbi_handle require_pending register_cursor_handle
    add_cursor require_environment_binding require_environment_state get_shared_environment
    require_transaction_binding assert_shared_state_usable require_live_dbi_binding get_txn_handle
    assert_txn_active
writing_second = refl

writing_pending :
    ((get_dbi_handle 300 writing).0 ≡ ok 12)
    × ((get_committed_dbi_handle 300 writing).0
        ≡ err (error "The database is pending and requires its opening transaction"))
unfolding register_env_handle attach_shared_environment register_txn_handle
    register_owned_transaction join register_dbi_handle require_pending register_cursor_handle
    add_cursor require_environment_binding require_environment_state get_shared_environment
    require_transaction_binding assert_shared_state_usable require_live_dbi_binding get_txn_handle
    assert_txn_active get_dbi_handle get_committed_dbi_handle
writing_pending = (refl, refl)

perform-Lock_example : Lock none (some (transaction 2))
unfolding register_env_handle attach_shared_environment register_txn_handle
    register_owned_transaction join register_dbi_handle require_pending register_cursor_handle
    add_cursor require_environment_binding require_environment_state get_shared_environment
    require_transaction_binding assert_shared_state_usable require_live_dbi_binding get_txn_handle
    assert_txn_active
perform-Lock_example =
    perform-Lock (own_txn 100 200 false)
      (perform_all (new_env 100 90 ∷ attach_env 100 0 ∷ new_txn 200 91 ∷ []) start) 0

perform_all-single_example : (◌≡◌ {A = ℕ} 2 2) × (writer 0 writing ≡ some (transaction 2))
unfolding register_env_handle attach_shared_environment register_txn_handle
    register_owned_transaction join register_dbi_handle require_pending register_cursor_handle
    add_cursor require_environment_binding require_environment_state get_shared_environment
    require_transaction_binding assert_shared_state_usable require_live_dbi_binding get_txn_handle
    assert_txn_active
perform_all-single_example =
    perform_all-single
      (opening ++ new_dbi 300 12 string_keys 100 0 (some 200) ∷ new_cursor 400 92 200 300 true ∷ [])
      start 0 2 2 (λ t. refl) (refl, refl) (refl, refl)

abort_transaction_binding_order_example :
    AbortCalls 2 91 writing (abort_transaction_binding 2 writing)
unfolding register_env_handle attach_shared_environment register_txn_handle
    register_owned_transaction join register_dbi_handle require_pending register_cursor_handle
    add_cursor require_environment_binding require_environment_state get_shared_environment
    require_transaction_binding assert_shared_state_usable require_live_dbi_binding get_txn_handle
    assert_txn_active
abort_transaction_binding_order_example = abort_transaction_binding_order 2 91 writing refl refl

abort_calls :
    (abort_transaction_binding 2 writing).calls
    ≡ cursor_close 92 ∷ invalidate_current 5 false ∷ txn_abort 91 ∷ []
unfolding register_env_handle attach_shared_environment register_txn_handle
    register_owned_transaction join register_dbi_handle require_pending register_cursor_handle
    add_cursor require_environment_binding require_environment_state get_shared_environment
    require_transaction_binding assert_shared_state_usable require_live_dbi_binding get_txn_handle
    assert_txn_active abort_transaction_binding close_transaction_binding detach_transaction_binding
    leave_state prepare_transaction_cursors_for_end_binding prepare_cursors prepare_cursor
    invalidate_pending_dbi_bindings invalidate_pending finalize_committed finalize_empty_dbi_record
    drop_record close_wrapper close_deferred_dbis finish_transaction_cursors_binding finish_cursors
abort_calls = refl

close_shared_environment_if_unused_closes_example :
    (w' : World) × (close_shared_environment_if_unused 0 start ≡ (ok tt, w')) × IsClosed 0 start w'
close_shared_environment_if_unused_closes_example =
    close_shared_environment_if_unused_closes 0 start refl refl refl refl

abbrev closed_world : World
closed_world = (close_shared_environment_if_unused 0 start).1

close_shared_environment_if_unused_once_example :
    close_shared_environment_if_unused 0 closed_world ≡ (ok tt, closed_world)
unfolding close_shared_environment_if_unused close_shared_batch_client
close_shared_environment_if_unused_once_example =
    close_shared_environment_if_unused_once 0 start closed_world refl

invalidate_pending_dbi_bindings_closes_example :
    ((d : ℕ)
      → has d (writing.transactions 2).pending_dbis ≡ true
      → IsInvalid ((invalidate_pending_dbi_bindings 2 true writing).1.dbis d))
    × (((invalidate_pending_dbi_bindings 2 true writing).1.transactions 2).pending_dbis ≡ [])
invalidate_pending_dbi_bindings_closes_example =
    invalidate_pending_dbi_bindings_closes 2 true writing

promote_pending_dbi_bindings_promotes_example :
    ((d : ℕ)
      → has d (writing.transactions 2).pending_dbis ≡ true
      → IsPromoted writing (promote_pending_dbi_bindings 2 writing).1 d)
    × (((promote_pending_dbi_bindings 2 writing).1.transactions 2).pending_dbis ≡ [])
promote_pending_dbi_bindings_promotes_example = promote_pending_dbi_bindings_promotes 2 writing

-- The database that the witnesses above are about is pending before.
writing_has_pending : (writing.transactions 2).pending_dbis ≡ 4 ∷ []
unfolding register_env_handle attach_shared_environment register_txn_handle
    register_owned_transaction join register_dbi_handle require_pending register_cursor_handle
    add_cursor require_environment_binding require_environment_state get_shared_environment
    require_transaction_binding assert_shared_state_usable require_live_dbi_binding get_txn_handle
    assert_txn_active
writing_has_pending = refl

-- The read transaction 200.
abbrev reading : World
reading =
    perform_all (new_env 100 90 ∷ attach_env 100 0 ∷ new_txn 200 91 ∷ own_txn 100 200 true ∷ [])
      start

reading-IsLive : IsLive 200 2 91 TransactionPhase.active reading
unfolding register_env_handle attach_shared_environment register_txn_handle
    register_owned_transaction join register_dbi_handle require_pending register_cursor_handle
    add_cursor require_environment_binding require_environment_state get_shared_environment
    require_transaction_binding assert_shared_state_usable require_live_dbi_binding get_txn_handle
    assert_txn_active
reading-IsLive = record { bound = refl; live = refl; in_phase = refl; usable = refl }

mark_txn_reset-renewed_example :
    (w₁ w₂ : World) × (mark_txn_reset 200 reading ≡ (ok tt, w₁))
    × IsLive 200 2 91 TransactionPhase.reset w₁
    × (assert_txn_active 200 w₁
        ≡ (err (error "The read-only transaction is reset; call renew() first"), w₁))
    × (mark_txn_renewed 200 w₁ ≡ (ok tt, w₂))
    × IsLive 200 2 91 TransactionPhase.active w₂
    × (assert_txn_active 200 w₂ ≡ (ok tt, w₂))
mark_txn_reset-renewed_example = mark_txn_reset-renewed 200 2 91 reading reading-IsLive

-- The database 300, opened outside a transaction.
abbrev pub database : World
database =
    perform_all (new_env 100 90 ∷ attach_env 100 0 ∷ new_dbi 300 12 string_keys 100 0 none ∷ [])
      start

abbrev lease : BatchDbiLease
lease = record {
  handle = 12;
  key_format = string_keys;
  flags = 0;
  owner = 300;
  record_id = 2;
  released = false;
}
