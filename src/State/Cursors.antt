-- ===== src/State/Cursors.antt =====
-- Closing and detaching cursors (internal/native_state.ts).
use lmdb_deno.Prelude.{
  ℕ, ◌-◌, delete, Bool, true, false, not, ◌&&◌, Option, none, some, List, [], ◌∷◌, if◌then◌else◌,
}
use lmdb_deno.State.World.{
  CursorBinding, CursorPhase, cursor_close, invalidate_current, World, set_shared, set_transaction,
  set_record, set_cursor, call,
}
use lmdb_deno.State.Access.{is_poisoned?, is_closed}
use lmdb_deno.State.Records.{finalize_empty_dbi_record, close_dbi}

abbrev pub close_cursor : Option ℕ → World → World
close_cursor none w = w
close_cursor (some handle) w = call (cursor_close handle) w

abbrev pub forget_in_txn : ℕ → Option ℕ → World → World
forget_in_txn cursor none w = w
forget_in_txn cursor (some txn) w =
    let t = w.transactions txn in
    set_transaction txn (record t { cursors = delete cursor t.cursors }) w

abbrev pub forget_in_state : ℕ → Option ℕ → World → World
forget_in_state cursor none w = w
forget_in_state cursor (some state) w =
    let s = w.shared state in set_shared state (record s { cursors = delete cursor s.cursors }) w

-- The record of the cursor's database has one cursor fewer, and may have to be closed.
unfoldable pub release_record : Option ℕ → Bool → World → World
release_record none close_dbi_native w = w
release_record (some id) close_dbi_native w =
    let r = w.records id in
    let (close, w') =
      finalize_empty_dbi_record id close_dbi_native
        (set_record id (record r { cursor_refs = r.cursor_refs - 1 }) w) in
    close_dbi close w'

abbrev pub record_of_cursor : CursorBinding → World → Option ℕ
record_of_cursor c w = elim c.dbi [ none ↦ none | some d ↦ some (w.dbis d).record_id ]

-- `closeCursorBinding`.
unfoldable pub close_cursor_binding : ℕ → Bool → Bool → World → World
unfolding release_record
close_cursor_binding cursor close_native close_dbi_native w =
    let c = w.cursors cursor in
    let w₁ = call (invalidate_current cursor false) w in
    let w₂ =
      if close_native && not (is_poisoned? c.state w₁) then close_cursor c.handle w₁ else w₁ in
    let w₃ = forget_in_state cursor c.state (forget_in_txn cursor c.txn w₂) in
    let ended : CursorBinding = record c {
      handle = none;
      state = none;
      txn = none;
      dbi = none;
      phase = CursorPhase.closed;
    } in
    if is_closed c.phase
    then w₁
    else release_record (record_of_cursor c w) close_dbi_native (set_cursor cursor ended w₃)

-- The cursor outlives its transaction, to be closed by its owner.
abbrev pub detached : CursorBinding → CursorBinding
detached c = record c { phase = CursorPhase.detached; txn = none }

-- One round of `finishTransactionCursorsBinding`.
unfoldable pub finish_cursor : ℕ → ℕ → World → World
unfolding close_cursor_binding
finish_cursor txn cursor w =
    let c = w.cursors cursor in
    let w₁ = set_cursor cursor (detached c) (call (invalidate_current cursor false) w) in
    if c.read_only && not (is_poisoned? c.state w)
    then forget_in_txn cursor (some txn) w₁
    else close_cursor_binding cursor false true w

unfoldable pub finish_cursors : ℕ → List ℕ → World → World
finish_cursors txn [] w = w
finish_cursors txn (c ∷ cs) w = finish_cursors txn cs (finish_cursor txn c w)

-- `finishTransactionCursorsBinding`.
unfoldable pub finish_transaction_cursors_binding : ℕ → World → World
finish_transaction_cursors_binding txn w =
    let w₁ = finish_cursors txn (w.transactions txn).cursors w in
    set_transaction txn (record (w₁.transactions txn) { cursors = [] }) w₁

-- One round of `prepareTransactionCursorsForEndBinding`: the native cursor is closed while its
-- transaction is still valid.
unfoldable pub prepare_cursor : ℕ → ℕ → World → World
prepare_cursor txn cursor w =
    let c = w.cursors cursor in
    let w₁ = call (invalidate_current cursor false) (close_cursor c.handle w) in
    if c.read_only
    then forget_in_txn cursor (some txn)
        (set_cursor cursor (record (detached c) { handle = none }) w₁)
    else w

unfoldable pub prepare_cursors : ℕ → List ℕ → World → World
prepare_cursors txn [] w = w
prepare_cursors txn (c ∷ cs) w = prepare_cursors txn cs (prepare_cursor txn c w)

unfoldable pub prepare_transaction_cursors_for_end_binding : ℕ → World → World
unfolding prepare_cursors
prepare_transaction_cursors_for_end_binding txn w =
    prepare_cursors txn (w.transactions txn).cursors w

-- `invalidateTransactionCursorCachesBinding`.
unfoldable pub invalidate_cursors : List ℕ → Bool → World → World
invalidate_cursors [] fallback_allowed w = w
invalidate_cursors (c ∷ cs) fallback_allowed w =
    invalidate_cursors cs fallback_allowed (call (invalidate_current c fallback_allowed) w)

unfoldable pub invalidate_transaction_cursor_caches_binding : ℕ → Bool → World → World
unfolding invalidate_cursors
invalidate_transaction_cursor_caches_binding txn fallback_allowed w =
    invalidate_cursors (w.transactions txn).cursors fallback_allowed w
