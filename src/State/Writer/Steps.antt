-- ===== src/State/Writer/Steps.antt =====
-- What may be asked of internal/native_state.ts, in any order, and what becomes of the writers.
use lmdb_deno.Prelude.{ℕ, Bool, Option, none, some, List, [], ◌∷◌}
use lmdb_deno.Encoding.Values.{KeyEncoding}
use lmdb_deno.Batch.Protocol.Registry.{Registry}
use lmdb_deno.Batch.Protocol.Descriptors.{
  next_environment_generation, release_environment_generation,
}
use lmdb_deno.State.World.{World}
use lmdb_deno.State.Transactions.{
  clear_txn_handle, register_txn_handle, prepare_transaction_cursors_for_end,
  invalidate_transaction_cursor_caches_for_write, finish_transaction_cursors, mark_txn_reset,
  mark_txn_renewed, register_owned_transaction, unregister_owned_transaction,
  invalidate_owned_transactions, abort_owned_transactions, promote_pending_dbis,
  invalidate_pending_dbis,
}
use lmdb_deno.State.Databases.{
  register_dbi_handle, release_dbi_handle, clear_dbi_handle, invalidate_dbi_record, swap_dbi_handle,
  register_cursor_handle, clear_cursor_handle, clear_dbi_cursor_current_records,
  invalidate_cursor_transaction_caches_for_write, finalize_dbi_binding, finalize_cursor_binding,
}
use lmdb_deno.State.Leases.{
  retain_dbi_for_batch, BatchDbiLease, release_batch_dbi_lease, finish_batch_dbi_lease_release,
}
use lmdb_deno.State.Closing.{
  begin_shared_environment_operation, SharedEnvironmentOperation, end_shared_environment_operation,
  reserve_internal_writer, InternalWriterReservation, release_internal_writer, retire,
  close_shared_batch_client, invalidate_shared_environment_children, unregister_shared_environment,
}
use lmdb_deno.State.Environments.{
  register_env_handle, clear_env_handle, register_shared_environment, attach_shared_environment,
  detach_shared_environment, finalize_environment_binding, poison_state, poison_shared_environment,
}
use lmdb_deno.State.Writer.Terminal.{world_of}
use lmdb_deno.State.Transactions.{abort_transaction_binding}

-- The calls of the exported functions that may change the world, and of the finalizers. The functions
-- that only look things up are left out, and the registration of the revoker, which is fixed.
pub data Operation : Type 0 where
  new_env : (owner handle : ℕ) → Operation
  forget_env : (owner : ℕ) → Operation
  new_path : (state : ℕ) → Operation
  attach_env : (owner state : ℕ) → Operation
  detach_env : (owner : ℕ) → Operation
  drop_env : (binding : ℕ) → Operation
  begin : (owner : ℕ) → Operation
  end : SharedEnvironmentOperation → Operation
  reserve : (owner : ℕ) → Operation
  release : InternalWriterReservation → Operation
  new_txn : (owner handle : ℕ) → Operation
  forget_txn : (owner : ℕ) → Operation
  drop_txn : (binding : ℕ) → Operation
  own_txn : (env_owner txn_owner : ℕ) (read_only : Bool) → Operation
  disown_txn : (txn_owner : ℕ) → Operation
  prepare_txn : (owner : ℕ) → Operation
  write_txn : (owner : ℕ) → Operation
  finish_txn : (owner : ℕ) → Operation
  reset_txn : (owner : ℕ) → Operation
  renew_txn : (owner : ℕ) → Operation
  invalidate_txns : (env_owner : ℕ) → Operation
  abort_txns : (env_owner : ℕ) → Operation
  promote : (txn_owner : ℕ) → Operation
  invalidate : (txn_owner : ℕ) → Operation
  new_dbi :
      (owner handle : ℕ) (key_format : KeyEncoding) (env_owner flags : ℕ) (pending : Option ℕ)
      → Operation
  retain_dbi : (env_owner owner : ℕ) → Operation
  release_lease : BatchDbiLease → Operation
  finish_lease : BatchDbiLease → Operation
  release_dbi : (owner : ℕ) → Operation
  forget_dbi : (owner : ℕ) → Operation
  drop_dbi_record : (owner : ℕ) → Operation
  swap_dbi : (owner next : ℕ) → Operation
  empty_dbi : (owner : ℕ) → Operation
  new_cursor : (owner handle txn_owner dbi_owner : ℕ) (read_only : Bool) → Operation
  forget_cursor : (owner : ℕ) → Operation
  write_cursor : (owner : ℕ) → Operation
  drop_dbi : (binding : ℕ) → Operation
  drop_cursor : (binding : ℕ) → Operation
  retire_env : (state : ℕ) → Operation
  poison_env : (owner : ℕ) → Operation
  poison_path : (state : ℕ) → Operation
  close_client : (state : ℕ) → Operation
  invalidate_children : (state : ℕ) → Operation
  forget_path : (state : ℕ) → Operation
  draw_generation : Operation
  free_generation : (generation : ℕ) → Operation

abbrev pub after_drawing : World → Option (ℕ × Registry) → World
after_drawing w none = w
after_drawing w (some drawn) = record w { registry = drawn.1 }

-- The world after a call, whether it throws or not. A call that draws a generation has no result if
-- the random words run out, and the world stays.
abbrev pub perform : Operation → World → World
perform (new_env owner handle) w = register_env_handle owner handle w
perform (forget_env owner) w = clear_env_handle owner w
perform (new_path state) w = (register_shared_environment state w).1
perform (attach_env owner state) w = (attach_shared_environment owner state w).1
perform (detach_env owner) w = (detach_shared_environment owner w).1
perform (drop_env binding) w = (finalize_environment_binding binding w).1
perform (begin owner) w = (begin_shared_environment_operation owner w).1
perform (end operation) w = (end_shared_environment_operation operation w).0.1
perform (reserve owner) w = (reserve_internal_writer owner w).1
perform (release reservation) w = (release_internal_writer reservation w).1
perform (new_txn owner handle) w = register_txn_handle owner handle w
perform (forget_txn owner) w = clear_txn_handle owner w
perform (drop_txn binding) w = abort_transaction_binding binding w
perform (own_txn env_owner txn_owner read_only) w =
    (register_owned_transaction env_owner txn_owner read_only w).1
perform (disown_txn txn_owner) w = unregister_owned_transaction txn_owner w
perform (prepare_txn owner) w = (prepare_transaction_cursors_for_end owner w).1
perform (write_txn owner) w = (invalidate_transaction_cursor_caches_for_write owner w).1
perform (finish_txn owner) w = (finish_transaction_cursors owner w).1
perform (reset_txn owner) w = (mark_txn_reset owner w).1
perform (renew_txn owner) w = (mark_txn_renewed owner w).1
perform (invalidate_txns env_owner) w = (invalidate_owned_transactions env_owner w).1
perform (abort_txns env_owner) w = (abort_owned_transactions env_owner w).1
perform (promote txn_owner) w = (promote_pending_dbis txn_owner w).1
perform (invalidate txn_owner) w = (invalidate_pending_dbis txn_owner w).1
perform (new_dbi owner handle key_format env_owner flags pending) w =
    (register_dbi_handle owner handle key_format env_owner flags pending w).1
perform (retain_dbi env_owner owner) w = (retain_dbi_for_batch env_owner owner w).1
perform (release_lease lease) w = (release_batch_dbi_lease lease w).0.1
perform (finish_lease lease) w = (finish_batch_dbi_lease_release lease w).1
perform (release_dbi owner) w = (release_dbi_handle owner w).1
perform (forget_dbi owner) w = clear_dbi_handle owner w
perform (drop_dbi_record owner) w = (invalidate_dbi_record owner w).1
perform (swap_dbi owner next) w = (swap_dbi_handle owner next w).1
perform (empty_dbi owner) w = (clear_dbi_cursor_current_records owner w).1
perform (new_cursor owner handle txn_owner dbi_owner read_only) w =
    (register_cursor_handle owner handle txn_owner dbi_owner read_only w).1
perform (forget_cursor owner) w = clear_cursor_handle owner w
perform (write_cursor owner) w = (invalidate_cursor_transaction_caches_for_write owner w).1
perform (drop_dbi binding) w = finalize_dbi_binding binding w
perform (drop_cursor binding) w = finalize_cursor_binding binding w
perform (retire_env state) w = retire state w
perform (poison_env owner) w = world_of w (poison_shared_environment owner w)
perform (poison_path state) w = world_of w (poison_state state w)
perform (close_client state) w = (close_shared_batch_client state w).1
perform (invalidate_children state) w = (invalidate_shared_environment_children state w).1
perform (forget_path state) w = unregister_shared_environment state w
perform draw_generation w = after_drawing w (next_environment_generation w.registry)
perform (free_generation generation) w = record w {
  registry = release_environment_generation generation w.registry;
}

abbrev pub perform_all : List Operation → World → World
perform_all [] w = w
perform_all (o ∷ os) w = perform_all os (perform o w)
