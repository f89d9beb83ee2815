-- ===== src/State/Records.antt =====
-- Database records and their wrappers (internal/native_state.ts): a native handle is closed when
-- nothing refers to its record.
use lmdb_deno.Prelude.{
  ℕ, add, delete, Bool, true, false, not, ◌&&◌, Option, none, some, List, [], ◌∷◌, ◌==◌,
  if◌then◌else◌,
}
use lmdb_deno.State.World.{
  SharedDbiRecord, dbi_close, invalidate_current, World, set_shared, set_transaction, set_record,
  set_dbi, call,
}
use lmdb_deno.State.Access.{is_poisoned, handle_of}

-- `dbiRecords` is a `Map` from handles to records.
abbrev pub find_record : ℕ → List (ℕ × ℕ) → Option ℕ
find_record handle [] = none
find_record handle ((h, r) ∷ l) = if h == handle then some r else find_record handle l

abbrev pub delete_key : ℕ → List (ℕ × ℕ) → List (ℕ × ℕ)
delete_key handle [] = []
delete_key handle ((h, r) ∷ l) =
    let rest = delete_key handle l in if h == handle then rest else (h, r) ∷ rest

abbrev pub is_entry : Option ℕ → ℕ → Bool
is_entry none id = false
is_entry (some r) id = r == id

abbrev is_empty : List ℕ → Bool
is_empty [] = true
is_empty (x ∷ l) = false

abbrev pub is_unused : SharedDbiRecord → Bool
is_unused r =
    is_empty r.wrappers && is_empty r.pending && (r.cursor_refs == 0) && (r.batch_refs == 0)

-- The table without the record, if its handle still stands for it.
unfoldable pub drop_record : ℕ → World → World
drop_record id w =
    let r = w.records id in
    let s = w.shared r.state in
    let left =
      set_shared r.state (record s { dbi_records = delete_key r.handle s.dbi_records }) w in
    if is_entry (find_record r.handle s.dbi_records) id then left else w

-- A native close that is due is the environment's handle and the database's.
unfoldable pub finalize_empty_dbi_record : ℕ → Bool → World → Option (ℕ × ℕ) × World
unfolding drop_record
finalize_empty_dbi_record id close_native w =
    let r = w.records id in
    if is_unused r
    then (
      if close_native && r.committed && not (is_poisoned r.state w)
          then some (handle_of r.state w, r.handle)
          else none,
      drop_record id w,
    )
    else (none, w)

abbrev pub close_dbi : Option (ℕ × ℕ) → World → World
close_dbi none w = w
close_dbi (some (environment, handle)) w = call (dbi_close environment handle) w

-- `closeDeferredDbis`.
unfoldable pub close_deferred_dbis : List (ℕ × ℕ) → World → World
close_deferred_dbis [] w = w
close_deferred_dbis ((environment, handle) ∷ closes) w =
    close_deferred_dbis closes (call (dbi_close environment handle) w)

abbrev is_some_eq : Option ℕ → ℕ → Bool
is_some_eq none n = false
is_some_eq (some m) n = m == n

-- `invalidateDbiCursorCaches`, over the cursors of the state.
unfoldable pub invalidate_caches_of : ℕ → List ℕ → World → World
invalidate_caches_of dbi [] w = w
invalidate_caches_of dbi (cursor ∷ cursors) w =
    invalidate_caches_of dbi cursors (
      if is_some_eq (w.cursors cursor).dbi dbi then call (invalidate_current cursor false) w else w)

unfoldable pub invalidate_dbi_cursor_caches : ℕ → World → World
unfolding invalidate_caches_of
invalidate_dbi_cursor_caches dbi w =
    invalidate_caches_of dbi (w.shared (w.records (w.dbis dbi).record_id).state).cursors w

-- The wrapper is closed and is no longer one of its record and its state.
unfoldable pub close_wrapper : ℕ → World → World
close_wrapper dbi w =
    let d = w.dbis dbi in
    let r = w.records d.record_id in
    let s = w.shared r.state in
    set_shared r.state (record s { dbis = delete dbi s.dbis })
      (set_record d.record_id (record r { wrappers = delete dbi r.wrappers })
        (set_dbi dbi (record d { closed = true }) w))

-- A pending database is finalized with its transaction.
abbrev pub finalize_unless_pending : Option ℕ → ℕ → Bool → World → Option (ℕ × ℕ) × World
finalize_unless_pending (some txn) id close_native w = (none, w)
finalize_unless_pending none id close_native w = finalize_empty_dbi_record id close_native w

-- `releaseDbiBinding`.
unfoldable pub release_dbi_binding : ℕ → Bool → World → Option (ℕ × ℕ) × World
unfolding close_wrapper
release_dbi_binding dbi close_native w =
    let w₁ = close_wrapper dbi (invalidate_dbi_cursor_caches dbi w) in
    let d = w₁.dbis dbi in
    if (w.dbis dbi).closed
    then (none, w)
    else finalize_unless_pending d.pending_txn d.record_id close_native w₁

abbrev pub detach_from : Option ℕ → ℕ → World → World
detach_from none dbi w = w
detach_from (some txn) dbi w =
    let d = w.dbis dbi in
    let r = w.records d.record_id in
    let t = w.transactions txn in
    set_dbi dbi (record d { pending_txn = none })
      (set_transaction txn (record t { pending_dbis = delete dbi t.pending_dbis })
        (set_record d.record_id (record r { pending = delete dbi r.pending }) w))

-- `detachPendingBinding`.
unfoldable pub detach_pending_binding : ℕ → World → World
detach_pending_binding dbi w = detach_from (w.dbis dbi).pending_txn dbi w

-- `invalidateDbiBinding`: no native close.
unfoldable pub invalidate_dbi_binding : ℕ → World → World
invalidate_dbi_binding dbi w =
    let w₁ = detach_pending_binding dbi (close_wrapper dbi (invalidate_dbi_cursor_caches dbi w)) in
    if (w.dbis dbi).closed
    then w
    else (finalize_empty_dbi_record (w₁.dbis dbi).record_id false w₁).1

unfoldable pub invalidate_dbi_bindings : List ℕ → World → World
invalidate_dbi_bindings [] w = w
invalidate_dbi_bindings (dbi ∷ dbis) w = invalidate_dbi_bindings dbis (invalidate_dbi_binding dbi w)

-- `finalizeDbiRecords`, over a set of records.
unfoldable pub finalize_dbi_records : List ℕ → Bool → World → List (ℕ × ℕ) × World
finalize_dbi_records [] close_native w = ([], w)
finalize_dbi_records (r ∷ records) close_native w =
    let (close, w') = finalize_empty_dbi_record r close_native w in
    let (closes, w'') = finalize_dbi_records records close_native w' in
    (elim close [ none ↦ closes | some c ↦ c ∷ closes ], w'')

-- One round of the loop of `promotePendingDbiBindings`.
abbrev pub promote_one : ℕ → World → World
promote_one dbi w =
    let d = w.dbis dbi in
    let r = w.records d.record_id in
    set_dbi dbi (record d { pending_txn = none })
      (set_record d.record_id (record r { pending = delete dbi r.pending; committed = true }) w)

-- The loop, with the set of records that it meets.
unfoldable pub promote_bindings : List ℕ → List ℕ → World → List ℕ × World
promote_bindings [] records w = (records, w)
promote_bindings (dbi ∷ dbis) records w =
    promote_bindings dbis (add (w.dbis dbi).record_id records) (promote_one dbi w)

abbrev pub take_pending : ℕ → World → World
take_pending txn w = set_transaction txn (record (w.transactions txn) { pending_dbis = [] }) w

unfoldable pub promote_pending_dbi_bindings : ℕ → World → List (ℕ × ℕ) × World
promote_pending_dbi_bindings txn w =
    let (records, w') =
      promote_bindings (w.transactions txn).pending_dbis [] (take_pending txn w) in
    finalize_dbi_records records true w'

-- One round of the first loop of `invalidatePendingDbiBindings`.
abbrev pub invalidate_one : ℕ → World → World
invalidate_one dbi w =
    let d = w.dbis dbi in
    let r = w.records d.record_id in
    let w₁ =
      set_dbi dbi (record d { pending_txn = none })
        (set_record d.record_id (record r { pending = delete dbi r.pending }) w) in
    if d.closed then w₁ else close_wrapper dbi w₁

-- The loop, with the set of records that it meets.
unfoldable pub invalidate_pending : List ℕ → List ℕ → World → List ℕ × World
invalidate_pending [] records w = (records, w)
invalidate_pending (dbi ∷ dbis) records w =
    invalidate_pending dbis (add (w.dbis dbi).record_id records) (invalidate_one dbi w)

-- Its second loop: the native close is wanted for a record that was committed before.
unfoldable pub finalize_committed : List ℕ → Bool → World → List (ℕ × ℕ) × World
finalize_committed [] close_committed w = ([], w)
finalize_committed (r ∷ records) close_committed w =
    let (close, w') = finalize_empty_dbi_record r (close_committed && (w.records r).committed) w in
    let (closes, w'') = finalize_committed records close_committed w' in
    (elim close [ none ↦ closes | some c ↦ c ∷ closes ], w'')

unfoldable pub invalidate_pending_dbi_bindings : ℕ → Bool → World → List (ℕ × ℕ) × World
invalidate_pending_dbi_bindings txn close_committed w =
    let (records, w') =
      invalidate_pending (w.transactions txn).pending_dbis [] (take_pending txn w) in
    finalize_committed records close_committed w'
