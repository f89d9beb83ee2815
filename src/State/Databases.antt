-- ===== src/State/Databases.antt =====
-- Database and cursor handles (internal/native_state.ts): their registration, the leases of batches,
-- and their release.
use lmdb_deno.Prelude.{
  ℕ, suc, add, Bool, true, false, not, Option, none, some, List, [], ◌∷◌, is_some, error, ok, ◌==◌,
  if◌then◌else◌,
}
use lmdb_deno.Encoding.Values.{KeyEncoding}
use lmdb_deno.State.World.{
  SharedDbiRecord, DbiBinding, CursorPhase, invalidate_current, World, Action, pure, throw_when,
  run, ◌>>=◌, ◌>>◌, at, set_shared, set_transaction, set_record, set_dbi, call,
}
use lmdb_deno.State.Access.{
  or_throw, get_shared_environment, require_transaction_binding, require_live_dbi_binding,
  assert_txn_active, record_of_dbi, different_environment, transaction_closed, is_closed,
}
use lmdb_deno.State.Handles.{get_cursor_handle}
use lmdb_deno.State.Records.{
  find_record, is_entry, drop_record, close_dbi, release_dbi_binding, invalidate_dbi_binding,
  detach_pending_binding,
}
use lmdb_deno.State.Cursors.{close_cursor_binding, invalidate_transaction_cursor_caches_binding}

-- The transaction that a database is opened by, if it is.
unfoldable pub require_pending : Option ℕ → ℕ → Action (Option ℕ)
require_pending none state = pure none
require_pending (some txn_owner) state = require_transaction_binding txn_owner >>= λ t w.
    (throw_when (not (is_entry (w.transactions t).state state)) different_environment
        >> (assert_txn_active txn_owner >> pure (some t)))
      w

-- A new record of a handle.
abbrev pub create_record : ℕ → ℕ → Bool → World → World
create_record state handle committed w =
    let s = w.shared state in
    let id = w.next_object in
    let created : SharedDbiRecord = record {
      handle = handle;
      state = state;
      wrappers = [];
      pending = [];
      cursor_refs = 0;
      batch_refs = 0;
      committed = committed;
    } in
    record (set_shared state (record s { dbi_records = (handle, id) ∷ s.dbi_records })
      (set_record id created w)) { next_object = suc id }

abbrev pub commit_record : Bool → ℕ → World → World
commit_record committed id w =
    if committed then set_record id (record (w.records id) { committed = true }) w else w

-- The record that stands in the table, or a new one.
abbrev pub find_or_create : Option ℕ → ℕ → ℕ → Bool → World → ℕ × World
find_or_create (some id) state handle committed w = (id, commit_record committed id w)
find_or_create none state handle committed w =
    (w.next_object, create_record state handle committed w)

-- A new wrapper of a record.
abbrev pub add_wrapper : ℕ → ℕ → ℕ → DbiBinding → World → World
add_wrapper owner state id d w =
    let s = w.shared state in
    let r = w.records d.record_id in
    record (set_shared state (record s { dbis = add id s.dbis })
      (set_record d.record_id (record r { wrappers = add id r.wrappers }) (set_dbi id d w))) {
        dbi_bindings = at owner (some id) w.dbi_bindings;
        next_object = suc w.next_object;
      }

abbrev pub add_pending : ℕ → ℕ → Option ℕ → World → World
add_pending dbi id none w = w
add_pending dbi id (some txn) w =
    let r = w.records id in
    let t = w.transactions txn in
    set_transaction txn (record t { pending_dbis = add dbi t.pending_dbis })
      (set_record id (record r { pending = add dbi r.pending }) w)

abbrev pub register_in : ℕ → ℕ → KeyEncoding → ℕ → Option ℕ → ℕ → World → World
register_in owner handle key_format flags pending state w =
    let found = find_record handle (w.shared state).dbi_records in
    let (id, w₁) = find_or_create found state handle (not (is_some pending)) w in
    let d : DbiBinding = record {
      handle = handle;
      key_format = key_format;
      flags = flags;
      record_id = id;
      pending_txn = pending;
      closed = false;
    } in
    add_pending w₁.next_object id pending (add_wrapper owner state w₁.next_object d w₁)

-- `registerDbiHandle`.
unfoldable pub register_dbi_handle : ℕ → ℕ → KeyEncoding → ℕ → ℕ → Option ℕ → Action (Unit {0})
register_dbi_handle owner handle key_format env_owner flags pending_txn_owner =
    get_shared_environment env_owner >>= λ s. require_pending pending_txn_owner s >>= λ pending.
    run (register_in owner handle key_format flags pending s)

-- `releaseDbiHandle`: the native close that is due.
unfoldable pub release_dbi_handle : ℕ → Action (Option (ℕ × ℕ))
release_dbi_handle owner = require_live_dbi_binding owner >>= λ d w.
    let (close, w') = release_dbi_binding d true w in (ok close, w')

-- `clearDbiHandle`.
unfoldable pub clear_dbi_handle : ℕ → World → World
clear_dbi_handle owner w = elim (w.dbi_bindings owner) [
  | none ↦ w
  | some d ↦ invalidate_dbi_binding d w
]

-- The loops of `invalidateDbiRecord`.
unfoldable pub invalidate_wrappers : List ℕ → World → World
invalidate_wrappers [] w = w
invalidate_wrappers (d ∷ ds) w = invalidate_wrappers ds (invalidate_dbi_binding d w)

unfoldable pub close_pending : List ℕ → World → World
close_pending [] w = w
close_pending (dbi ∷ dbis) w =
    let w₁ = detach_pending_binding dbi w in
    close_pending dbis (set_dbi dbi (record (w₁.dbis dbi) { closed = true }) w₁)

unfoldable pub invalidate_record : ℕ → World → World
unfolding drop_record
invalidate_record id w =
    let w₁ = invalidate_wrappers (w.records id).wrappers w in
    drop_record id (close_pending (w₁.records id).pending w₁)

-- `invalidateDbiRecord`.
unfoldable pub invalidate_dbi_record : ℕ → Action (Unit {0})
invalidate_dbi_record owner =
    require_live_dbi_binding owner >>= λ d w. (ok tt, invalidate_record (w.dbis d).record_id w)

-- `swapDbiHandle`.
unfoldable pub swap_dbi_handle : ℕ → ℕ → Action ℕ
swap_dbi_handle owner next = require_live_dbi_binding owner >>= λ d w.
    (ok (w.dbis d).handle, set_dbi d (record (w.dbis d) { handle = next }) w)

-- The cursor joins its state, its transaction and the record of its database.
unfoldable pub add_cursor : ℕ → ℕ → ℕ → ℕ → Bool → ℕ → World → World
add_cursor owner handle txn dbi read_only state w =
    let id = w.next_object in
    let t = w.transactions txn in
    let s = w.shared state in
    let r = record_of_dbi dbi w in
    record w {
      cursor_bindings = at owner (some id) w.cursor_bindings;
      cursors =
          at id
            (record {
              handle = some handle;
              state = some state;
              txn = some txn;
              dbi = some dbi;
              read_only = read_only;
              phase = CursorPhase.active;
            })
            w.cursors;
      shared = at state (record s { cursors = add id s.cursors }) w.shared;
      transactions = at txn (record t { cursors = add id t.cursors }) w.transactions;
      records = at (w.dbis dbi).record_id (record r { cursor_refs = suc r.cursor_refs }) w.records;
      next_object = suc id;
    }

-- `registerCursorHandle`.
unfoldable pub register_cursor_handle : ℕ → ℕ → ℕ → ℕ → Bool → Action (Unit {0})
register_cursor_handle owner handle txn_owner dbi_owner read_only =
    require_transaction_binding txn_owner >>= λ t. require_live_dbi_binding dbi_owner >>= λ d w.
    (or_throw transaction_closed (w.transactions t).state >>= λ s.
    run (add_cursor owner handle t d read_only s))
      w

-- `clearCursorHandle`.
unfoldable pub clear_cursor_handle : ℕ → World → World
clear_cursor_handle owner w = elim (w.cursor_bindings owner) [
  | none ↦ w
  | some c ↦ if is_closed (w.cursors c).phase then w else close_cursor_binding c false true w
]

abbrev pub txn_of : ℕ → World → Option ℕ
txn_of owner w = elim (w.cursor_bindings owner) [ none ↦ none | some c ↦ (w.cursors c).txn ]

-- `invalidateCursorTransactionCachesForWrite`.
unfoldable pub invalidate_cursor_transaction_caches_for_write : ℕ → Action (Unit {0})
invalidate_cursor_transaction_caches_for_write owner = get_cursor_handle owner >>= λ _ w.
    (or_throw (error "The cursor transaction has ended") (txn_of owner w) >>= λ t.
    run (invalidate_transaction_cursor_caches_binding t true))
      w

abbrev is_cursor_of : ℕ → Option ℕ → World → Bool
is_cursor_of id none w = false
is_cursor_of id (some d) w = (w.dbis d).record_id == id

-- `clearDbiCursorCurrentRecords`, over the cursors of the state.
unfoldable pub clear_current_records : ℕ → List ℕ → World → World
clear_current_records id [] w = w
clear_current_records id (c ∷ cs) w =
    clear_current_records id cs
      (if is_cursor_of id (w.cursors c).dbi w then call (invalidate_current c false) w else w)

unfoldable pub clear_dbi_cursor_current_records : ℕ → Action (Unit {0})
clear_dbi_cursor_current_records owner = require_live_dbi_binding owner >>= λ d w. (
  ok tt,
  clear_current_records (w.dbis d).record_id (w.shared (record_of_dbi d w).state).cursors w,
)

-- `finalizeDbiBinding` and `finalizeCursorBinding`.
unfoldable pub finalize_dbi_binding : ℕ → World → World
finalize_dbi_binding dbi w = let (close, w') = release_dbi_binding dbi true w in close_dbi close w'

unfoldable pub finalize_cursor_binding : ℕ → World → World
finalize_cursor_binding cursor w = close_cursor_binding cursor true true w
