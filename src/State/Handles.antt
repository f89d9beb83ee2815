-- ===== src/State/Handles.antt =====
-- The handles of databases and cursors that are open (internal/native_state.ts).
use lmdb_deno.Prelude.{ℕ, Bool, true, false, not, Option, none, some, is_some, error, ok, ◌==◌}
use lmdb_deno.Encoding.Values.{KeyEncoding}
use lmdb_deno.State.World.{CursorPhase, World, Action, pure, throw_when, ◌>>=◌, ◌>>◌}
use lmdb_deno.State.Access.{
  require_transaction_binding, record_of_dbi, require_live_dbi_binding, require_live_cursor_binding,
  handle_of,
}

-- `getDbiFlags`, `getDbiHandle`, `getDbiKeyFormat`, `getDbiEnvironmentHandle`.
unfoldable pub get_dbi_flags : ℕ → Action ℕ
get_dbi_flags owner = require_live_dbi_binding owner >>= λ d w. (ok (w.dbis d).flags, w)

unfoldable pub get_dbi_handle : ℕ → Action ℕ
get_dbi_handle owner = require_live_dbi_binding owner >>= λ d w. (ok (w.dbis d).handle, w)

unfoldable pub get_dbi_key_format : ℕ → Action KeyEncoding
get_dbi_key_format owner = require_live_dbi_binding owner >>= λ d w. (ok (w.dbis d).key_format, w)

unfoldable pub get_dbi_environment_handle : ℕ → Action ℕ
get_dbi_environment_handle owner =
    require_live_dbi_binding owner >>= λ d w. (ok (handle_of (record_of_dbi d w).state w), w)

abbrev pub is_other_txn : Option ℕ → ℕ → Bool
is_other_txn none txn = false
is_other_txn (some pending) txn = not (pending == txn)

unfoldable pub get_dbi_handle_for_txn : ℕ → ℕ → Action ℕ
get_dbi_handle_for_txn owner txn_owner = require_live_dbi_binding owner >>= λ d.
    require_transaction_binding txn_owner >>= λ t w.
    (throw_when (is_other_txn (w.dbis d).pending_txn t)
          (error "The database is pending and can only be used by its opening transaction")
        >> pure (w.dbis d).handle)
      w

unfoldable pub get_committed_dbi_handle : ℕ → Action ℕ
get_committed_dbi_handle owner = require_live_dbi_binding owner >>= λ d w.
    (throw_when (is_some (w.dbis d).pending_txn)
          (error "The database is pending and requires its opening transaction")
        >> pure (w.dbis d).handle)
      w

unfoldable pub assert_dbi_not_retained : ℕ → Action (Unit {0})
assert_dbi_not_retained owner = require_live_dbi_binding owner >>= λ d w.
    throw_when (not ((record_of_dbi d w).batch_refs == 0))
      (error "Cannot drop a database while a batch operation is pending") w

abbrev pub is_phase_live : CursorPhase → Bool
is_phase_live CursorPhase.active = true
is_phase_live _ = false

-- `binding.dbi?.closed !== false`.
abbrev pub lost_dbi : Option ℕ → World → Bool
lost_dbi none w = true
lost_dbi (some d) w = (w.dbis d).closed

-- `getCursorHandle`, `getCursorHandleForClose`. A cursor that is active has a handle.
unfoldable pub get_cursor_handle : ℕ → Action (Option ℕ)
get_cursor_handle owner = require_live_cursor_binding owner >>= λ c w.
    (throw_when (not (is_phase_live (w.cursors c).phase))
          (error "The cursor transaction has ended; the cursor can only be closed")
        >> (throw_when (lost_dbi (w.cursors c).dbi w)
              (error "The cursor database is already closed")
            >> pure (w.cursors c).handle))
      w

unfoldable pub get_cursor_handle_for_close : ℕ → Action (Option ℕ)
get_cursor_handle_for_close owner =
    require_live_cursor_binding owner >>= λ c w. (ok (w.cursors c).handle, w)
