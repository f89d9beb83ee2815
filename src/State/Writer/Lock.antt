-- ===== src/State/Writer/Lock.antt =====
-- The writer of an environment as a lock, under the calls of State/Writer/Steps in any order.
use lmdb_deno.Prelude.{ℕ, refl, ◌≡◌, false, Option, none, some, List, [], ◌∷◌, arith}
use lmdb_deno.State.World.{transaction, World}
use lmdb_deno.State.Writer.{writer, SingleWriter, Members, Ends, Ends-refl}
use lmdb_deno.State.Writer.Ending.{
  clear_txn_handle-Ends, unregister_owned_transaction-Ends, register_txn_handle-Ends,
  abort_transaction_binding-Ends,
}
use lmdb_deno.State.Writer.Terminal.{
  finalize_dbi_binding-Ends, finalize_cursor_binding-Ends, invalidate_cursor_caches-Ends,
  retire_of-Ends, close_batch_client-Ends, poison_state-Ends, poison_environment-Ends,
}
use lmdb_deno.Batch.Protocol.Registry.{Registry}
use lmdb_deno.Batch.Protocol.Descriptors.{next_environment_generation}
use lmdb_deno.State.Writer.Closing.{
  same-Ends, unregister-Ends, end_operation-Ends, release_internal_writer-Ends,
}
use lmdb_deno.State.Writer.Databases.{
  register_dbi_handle-Ends, retain_dbi_for_batch-Ends, release_batch_dbi_lease-Ends,
  finish_batch_dbi_lease_release-Ends, release_dbi_handle-Ends, clear_dbi_handle-Ends,
  invalidate_dbi_record-Ends, swap_dbi_handle-Ends, register_cursor_handle-Ends,
  clear_cursor_handle-Ends, clear_dbi_cursor_current_records-Ends,
}
use lmdb_deno.State.Writer.Environments.{
  register_env_handle-Ends, clear_env_handle-Ends, register_shared_environment-Ends,
  attach_shared_environment-Ends, detach_shared_environment-Ends, begin_operation-Ends,
  finalize_environment_binding-Ends, prepare_cursors_of-Ends, invalidate_caches-Ends,
  finish_cursors_of-Ends, mark_txn_reset-Ends, mark_txn_renewed-Ends, invalidate_owned-Ends,
  abort_owned-Ends, promote_pending-Ends, invalidate_pending_of-Ends,
}
use lmdb_deno.State.Writer.Steps.{
  Operation, perform, perform_all, new_env, forget_env, new_path, attach_env, detach_env, drop_env,
  begin, end, reserve, release, new_txn, forget_txn, drop_txn, own_txn, disown_txn, prepare_txn,
  write_txn, finish_txn, reset_txn, renew_txn, invalidate_txns, abort_txns, promote, invalidate,
  new_dbi, retain_dbi, release_lease, finish_lease, release_dbi, forget_dbi, drop_dbi_record,
  swap_dbi, empty_dbi, new_cursor, forget_cursor, write_cursor, drop_dbi, drop_cursor, retire_env,
  poison_env, poison_path, close_client, invalidate_children, forget_path, draw_generation,
  free_generation, after_drawing,
}
use lmdb_deno.State.Writer.Moves.{
  Lock, Moves, Ends-Moves, children-Moves, register_owned_transaction-Moves,
  reserve_internal_writer-Moves,
}

drawing-Ends : (w : World) (drawn : Option (ℕ × Registry)) → Ends w (after_drawing w drawn)
drawing-Ends w none = Ends-refl w
drawing-Ends w (some drawn) = same-Ends refl refl

perform-Moves : (o : Operation) (w : World) → Moves w (perform o w)
perform-Moves (own_txn e t read_only) w = register_owned_transaction-Moves e t read_only w
perform-Moves (reserve owner) w = reserve_internal_writer-Moves owner w
perform-Moves (new_env owner handle) w = Ends-Moves (register_env_handle-Ends owner handle w)
perform-Moves (forget_env owner) w = Ends-Moves (clear_env_handle-Ends owner w)
perform-Moves (new_path state) w = Ends-Moves (register_shared_environment-Ends state w)
perform-Moves (attach_env owner state) w = Ends-Moves (attach_shared_environment-Ends owner state w)
perform-Moves (detach_env owner) w = Ends-Moves (detach_shared_environment-Ends owner w)
perform-Moves (drop_env binding) w = Ends-Moves (finalize_environment_binding-Ends binding w)
perform-Moves (begin owner) w = Ends-Moves (begin_operation-Ends owner w)
perform-Moves (end operation) w = Ends-Moves (end_operation-Ends operation w)
perform-Moves (release reservation) w = Ends-Moves (release_internal_writer-Ends reservation w)
perform-Moves (new_txn owner handle) w = Ends-Moves (register_txn_handle-Ends owner handle w)
perform-Moves (forget_txn owner) w = Ends-Moves (clear_txn_handle-Ends owner w)
perform-Moves (drop_txn binding) w = Ends-Moves (abort_transaction_binding-Ends binding w)
perform-Moves (disown_txn owner) w = Ends-Moves (unregister_owned_transaction-Ends owner w)
perform-Moves (prepare_txn owner) w = Ends-Moves (prepare_cursors_of-Ends owner w)
perform-Moves (write_txn owner) w = Ends-Moves (invalidate_caches-Ends owner w)
perform-Moves (finish_txn owner) w = Ends-Moves (finish_cursors_of-Ends owner w)
perform-Moves (reset_txn owner) w = Ends-Moves (mark_txn_reset-Ends owner w)
perform-Moves (renew_txn owner) w = Ends-Moves (mark_txn_renewed-Ends owner w)
perform-Moves (invalidate_txns owner) w = Ends-Moves (invalidate_owned-Ends owner w)
perform-Moves (abort_txns owner) w = Ends-Moves (abort_owned-Ends owner w)
perform-Moves (promote owner) w = Ends-Moves (promote_pending-Ends owner w)
perform-Moves (invalidate owner) w = Ends-Moves (invalidate_pending_of-Ends owner w)
perform-Moves (new_dbi owner handle key_format env_owner flags pending) w =
    Ends-Moves (register_dbi_handle-Ends owner handle key_format env_owner flags pending w)
perform-Moves (retain_dbi env_owner owner) w =
    Ends-Moves (retain_dbi_for_batch-Ends env_owner owner w)
perform-Moves (release_lease lease) w = Ends-Moves (release_batch_dbi_lease-Ends lease w)
perform-Moves (finish_lease lease) w = Ends-Moves (finish_batch_dbi_lease_release-Ends lease w)
perform-Moves (release_dbi owner) w = Ends-Moves (release_dbi_handle-Ends owner w)
perform-Moves (forget_dbi owner) w = Ends-Moves (clear_dbi_handle-Ends owner w)
perform-Moves (drop_dbi_record owner) w = Ends-Moves (invalidate_dbi_record-Ends owner w)
perform-Moves (swap_dbi owner next) w = Ends-Moves (swap_dbi_handle-Ends owner next w)
perform-Moves (empty_dbi owner) w = Ends-Moves (clear_dbi_cursor_current_records-Ends owner w)
perform-Moves (new_cursor owner handle txn dbi read_only) w =
    Ends-Moves (register_cursor_handle-Ends owner handle txn dbi read_only w)
perform-Moves (forget_cursor owner) w = Ends-Moves (clear_cursor_handle-Ends owner w)
perform-Moves (write_cursor owner) w = Ends-Moves (invalidate_cursor_caches-Ends owner w)
perform-Moves (drop_dbi binding) w = Ends-Moves (finalize_dbi_binding-Ends binding w)
perform-Moves (drop_cursor binding) w = Ends-Moves (finalize_cursor_binding-Ends binding w)
perform-Moves (retire_env state) w = Ends-Moves (retire_of-Ends state w)
perform-Moves (poison_env owner) w = Ends-Moves (poison_environment-Ends owner w)
perform-Moves (poison_path state) w = Ends-Moves (poison_state-Ends state w)
perform-Moves (close_client state) w = Ends-Moves (close_batch_client-Ends state w)
perform-Moves (invalidate_children state) w = children-Moves state w
perform-Moves (forget_path state) w = Ends-Moves (unregister-Ends state w)
perform-Moves draw_generation w =
    Ends-Moves (drawing-Ends w (next_environment_generation w.registry))
perform-Moves (free_generation generation) w = Ends-Moves (same-Ends refl refl)

-- Whatever exported function of the shared native state is called, with whatever arguments, and
-- whatever finalizer runs: the call keeps the writer of an environment, makes one the writer where there was none, or
-- takes the writer away: no writer replaces another.
pub perform-Lock : (o : Operation) (w : World) (s : ℕ) → Lock (writer s w) (writer s (perform o w))
perform-Lock o w s = (perform-Moves o w).locks s

perform_all-SingleWriter :
    (os : List Operation) (w : World) → SingleWriter w → Members w → SingleWriter (perform_all os w)
perform_all-SingleWriter [] w single members = single
perform_all-SingleWriter (o ∷ os) w single members =
    let moves = perform-Moves o w in
    perform_all-SingleWriter os (perform o w) (moves.keeps_single single members)
      (moves.keeps_members members)

-- No transaction belongs to an environment.
abbrev pub IsFresh : World → Type 0
IsFresh w = (t : ℕ) → (w.transactions t).state ≡ none

-- A transaction that belongs to an environment and may write.
abbrev pub Writes : ℕ → ℕ → World → Type 0
Writes t s w = ((w.transactions t).state ≡ some s) × ((w.transactions t).read_only ≡ some false)

-- Whatever exported functions of the shared native state are called and whatever finalizers run, with
-- whatever arguments and in whatever order, from a world in which no transaction belongs to an
-- environment: two transactions that belong to one environment and may write are one, and it holds
-- the environment's writer slot, so that no internal reservation does.
pub perform_all-single :
    (os : List Operation) (w : World) (s t u : ℕ)
    → IsFresh w
    → Writes t s (perform_all os w)
    → Writes u s (perform_all os w)
    → (t ≡ u) × (writer s (perform_all os w) ≡ some (transaction t))
unfolding SingleWriter Members
perform_all-single os w s t u fresh first second =
    let single =
      perform_all-SingleWriter os w (λ i j there _. absurd (ground (arith, fresh i)))
        (λ i j there. absurd (ground (arith, fresh i))) in
    let slot = single t s (first.0) (first.1) in
    let other = single u s (second.0) (second.1) in (ground arith, slot)
