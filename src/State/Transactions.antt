-- ===== src/State/Transactions.antt =====
-- Transactions (internal/native_state.ts): their phases, their registration, and how they end.
use lmdb_deno.Prelude.{
  ℕ, suc, add, delete, Bool, true, false, not, ◌&&◌, Option, none, some, List, [], ◌∷◌, is_some,
  Exception, error, ok, ◌==◌, if◌then◌else◌,
}
use lmdb_deno.State.World.{
  TransactionPhase, WriterOwner, transaction, txn_abort, World, Action, throw_when, run, ◌>>=◌,
  ◌>>◌, at, set_shared, set_environment, set_transaction, call,
}
use lmdb_deno.State.Access.{
  is_poisoned?, get_shared_environment, require_environment_binding, require_environment_state,
  require_transaction_binding, get_txn_handle, assert_txn_active, is_phase_reset, must_be_reset,
}
use lmdb_deno.State.Records.{
  close_deferred_dbis, invalidate_pending_dbi_bindings, promote_pending_dbi_bindings,
}
use lmdb_deno.State.Cursors.{
  finish_transaction_cursors_binding, prepare_transaction_cursors_for_end_binding,
  invalidate_transaction_cursor_caches_binding,
}

abbrev pub is_writer : Option WriterOwner → ℕ → Bool
is_writer (some (transaction t)) txn = t == txn
is_writer _ txn = false

abbrev pub leave_environment : ℕ → Option ℕ → World → World
leave_environment txn none w = w
leave_environment txn (some environment) w =
    let e = w.environments environment in
    set_environment environment (record e { transactions = delete txn e.transactions }) w

-- The state forgets the transaction, and its writer if that was the transaction.
unfoldable pub leave_state : ℕ → Option ℕ → World → World
leave_state txn none w = w
leave_state txn (some state) w =
    let s = w.shared state in
    set_shared state
      (record s {
        transactions = delete txn s.transactions;
        active_writer = if is_writer s.active_writer txn then none else s.active_writer;
      })
      w

-- `detachTransactionBinding`.
unfoldable pub detach_transaction_binding : ℕ → World → World
unfolding leave_state
detach_transaction_binding txn w =
    let t = w.transactions txn in
    set_transaction txn (record t { environment = none; state = none })
      (leave_state txn t.state (leave_environment txn t.environment w))

-- What `closeTransactionBinding` and `clearTxnHandle` do to the binding.
unfoldable pub close_transaction_binding : ℕ → World → World
close_transaction_binding txn w =
    let w₁ = finish_transaction_cursors_binding txn w in
    detach_transaction_binding txn (
      set_transaction txn
        (record (w₁.transactions txn) { handle = none; phase = TransactionPhase.closed }) w₁)

-- Read cursors are closed before the transaction is aborted, and nothing is done to a poisoned
-- environment.
abbrev pub end_native : ℕ → ℕ → World → World
end_native txn handle w =
    if is_poisoned? (w.transactions txn).state w
    then w
    else call (txn_abort handle) (prepare_transaction_cursors_for_end_binding txn w)

abbrev pub finish_abort : ℕ → World → World
finish_abort txn w =
    let (closes, w₁) = invalidate_pending_dbi_bindings txn true w in
    close_transaction_binding txn (close_deferred_dbis closes w₁)

abbrev pub abort_with : Option ℕ → ℕ → World → World
abort_with none txn w = w
abort_with (some handle) txn w = finish_abort txn (end_native txn handle w)

-- `abortTransactionBinding`.
unfoldable pub abort_transaction_binding : ℕ → World → World
abort_transaction_binding txn w = abort_with (w.transactions txn).handle txn w

-- `clearTxnHandle`.
unfoldable pub clear_txn_handle : ℕ → World → World
clear_txn_handle owner w = elim (w.txn_bindings owner) [
  | none ↦ w
  | some t ↦ close_transaction_binding t w
]

-- `registerTxnHandle`.
unfoldable pub register_txn_handle : ℕ → ℕ → World → World
register_txn_handle owner handle w =
    let id = w.next_object in
    record w {
      txn_bindings = at owner (some id) w.txn_bindings;
      transactions =
          at id
            (record {
              handle = some handle;
              state = none;
              environment = none;
              read_only = none;
              phase = TransactionPhase.active;
              cursors = [];
              pending_dbis = [];
            })
            w.transactions;
      next_object = suc id;
    }

-- `prepareTransactionCursorsForEnd`, `invalidateTransactionCursorCachesForWrite`,
-- `finishTransactionCursors`.
unfoldable pub prepare_transaction_cursors_for_end : ℕ → Action (Unit {0})
prepare_transaction_cursors_for_end owner =
    require_transaction_binding owner >>= λ t. run (prepare_transaction_cursors_for_end_binding t)

unfoldable pub invalidate_transaction_cursor_caches_for_write : ℕ → Action (Unit {0})
invalidate_transaction_cursor_caches_for_write owner = require_transaction_binding owner >>= λ t.
    run (invalidate_transaction_cursor_caches_binding t true)

unfoldable pub finish_transaction_cursors : ℕ → Action (Unit {0})
finish_transaction_cursors owner =
    require_transaction_binding owner >>= λ t. run (finish_transaction_cursors_binding t)

abbrev pub set_phase : TransactionPhase → ℕ → World → World
set_phase phase txn w = set_transaction txn (record (w.transactions txn) { phase = phase }) w

unfoldable pub mark_txn_reset : ℕ → Action (Unit {0})
mark_txn_reset owner =
    assert_txn_active owner
    >> (require_transaction_binding owner >>= λ t w.
        (ok tt, finish_transaction_cursors_binding t (set_phase TransactionPhase.reset t w)))

unfoldable pub mark_txn_renewed : ℕ → Action (Unit {0})
mark_txn_renewed owner = get_txn_handle owner >>= λ _. require_transaction_binding owner >>= λ t w.
    (throw_when (not (is_phase_reset (w.transactions t).phase)) must_be_reset
        >> run (set_phase TransactionPhase.active t))
      w

-- `hasOwnedWriteTransaction`.
unfoldable pub has_owned_write_transaction : ℕ → Action Bool
has_owned_write_transaction env_owner =
    get_shared_environment env_owner >>= λ s w. (ok (is_some (w.shared s).active_writer), w)

abbrev pub second_writer_error : Exception
second_writer_error =
    error
      "You have already opened a write transaction in the current process, can't open a second one."

-- The transaction joins its environment and its shared state.
unfoldable pub join : ℕ → ℕ → ℕ → Bool → World → World
join environment state txn read_only w =
    let e = w.environments environment in
    let s = w.shared state in
    let t = w.transactions txn in
    set_shared state
      (record s {
        transactions = add txn s.transactions;
        active_writer = if read_only then s.active_writer else some (transaction txn);
      })
      (set_environment environment (record e { transactions = add txn e.transactions })
        (set_transaction txn
          (record t {
            state = some state;
            environment = some environment;
            read_only = some read_only;
          })
          w))

unfoldable pub register_owned_transaction : ℕ → ℕ → Bool → Action (Unit {0})
unfolding join
register_owned_transaction env_owner txn_owner read_only =
    require_environment_binding env_owner >>= λ e. require_environment_state e >>= λ s.
    require_transaction_binding txn_owner >>= λ t w.
    (throw_when (not read_only && is_some (w.shared s).active_writer) second_writer_error
        >> run (join e s t read_only))
      w

-- `unregisterOwnedTransaction`.
unfoldable pub unregister_owned_transaction : ℕ → World → World
unregister_owned_transaction txn_owner w = elim (w.txn_bindings txn_owner) [
  | none ↦ w
  | some t ↦ detach_transaction_binding t w
]

-- The end of a transaction of which no native call may be made any more.
unfoldable pub invalidate_transaction : ℕ → World → World
invalidate_transaction txn w =
    close_transaction_binding txn
      (finish_transaction_cursors_binding txn (invalidate_pending_dbi_bindings txn false w).1)

unfoldable pub invalidate_transactions : List ℕ → World → World
invalidate_transactions [] w = w
invalidate_transactions (t ∷ ts) w = invalidate_transactions ts (invalidate_transaction t w)

unfoldable pub abort_transactions : List ℕ → World → World
abort_transactions [] w = w
abort_transactions (t ∷ ts) w = abort_transactions ts (abort_transaction_binding t w)

-- `invalidateOwnedTransactions`, `abortOwnedTransactions`.
unfoldable pub invalidate_owned_transactions : ℕ → Action (Unit {0})
invalidate_owned_transactions env_owner = require_environment_binding env_owner >>= λ e w.
    (ok tt, invalidate_transactions (w.environments e).transactions w)

unfoldable pub abort_owned_transactions : ℕ → Action (Unit {0})
abort_owned_transactions env_owner = require_environment_binding env_owner >>= λ e w.
    (ok tt, abort_transactions (w.environments e).transactions w)

-- `promotePendingDbis`, `invalidatePendingDbis`: the native closes that are due.
unfoldable pub promote_pending_dbis : ℕ → Action (List (ℕ × ℕ))
promote_pending_dbis txn_owner = require_transaction_binding txn_owner >>= λ t w.
    let (closes, w') = promote_pending_dbi_bindings t w in (ok closes, w')

unfoldable pub invalidate_pending_dbis : ℕ → Action (List (ℕ × ℕ))
invalidate_pending_dbis txn_owner = require_transaction_binding txn_owner >>= λ t w.
    let (closes, w') = invalidate_pending_dbi_bindings t true w in (ok closes, w')
