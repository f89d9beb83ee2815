-- ===== src/State/Order/Abort.antt =====
-- `abortTransactionBinding` (internal/native_state.ts): the order of its native calls.
use lmdb_deno.Prelude.{
  ℕ, ◌≡◌, ◌≢◌, refl, ap, ◌∙◌, sym, has, Bool, true, false, ◌||◌, Option, none, some, List, [], ◌∷◌,
  ◌++◌, ◌==◌, append-nil, append_assoc, arith,
}
use lmdb_deno.State.World.{
  NativeCall, cursor_close, txn_abort, dbi_close, invalidate_current, World, call,
}
use lmdb_deno.State.Access.{is_poisoned?}
use lmdb_deno.State.Cursors.{
  prepare_cursor, prepare_cursors, prepare_transaction_cursors_for_end_binding,
}
use lmdb_deno.State.Transactions.{finish_abort, abort_with, abort_transaction_binding}
use lmdb_deno.State.Quiet.{AllCalls, AllCalls-append}
use lmdb_deno.State.Quiet.Records.{invalidate_pending_dbi_bindings-Quiet, close_deferred_dbis-Quiet}
use lmdb_deno.State.Order.{Calm, Calm-trans, Quiet-Calm, close_transaction_binding-Calm}

-- What may be called before the transaction is aborted, and what after.
abbrev pub is_early : NativeCall → Bool
is_early (cursor_close h) = true
is_early (invalidate_current c f) = true
is_early _ = false

abbrev pub is_late : NativeCall → Bool
is_late (dbi_close e h) = true
is_late (invalidate_current c f) = true
is_late _ = false

-- The handle is closed by one of the calls.
abbrev is_close : ℕ → NativeCall → Bool
is_close h (cursor_close n) = n == h
is_close h _ = false

unfoldable pub closes : ℕ → List NativeCall → Bool
closes h [] = false
closes h (c ∷ cs) = is_close h c || closes h cs

closes-append :
    (h : ℕ) (cs ds : List NativeCall) → closes h (cs ++ ds) ≡ (closes h cs || closes h ds)
unfolding closes
closes-append h [] ds = refl
closes-append h (c ∷ cs) ds = ground (arith, closes-append h cs ds)

-- The calls that prepare cursors: each read cursor with a handle is closed.
record Prepares (cs : List ℕ) (w w' : World) : Type 0 where
  new_calls : List NativeCall
  grow : w'.calls ≡ w.calls ++ new_calls
  early : AllCalls is_early new_calls
  closed :
      (c h : ℕ)
      → has c cs ≡ true
      → (w.cursors c).read_only ≡ true
      → (w.cursors c).handle ≡ some h
      → closes h new_calls ≡ true

prepare_cursor-other :
    (txn c d : ℕ) (w : World) → d ≢ c → (prepare_cursor txn c w).cursors d ≡ w.cursors d
unfolding prepare_cursor
prepare_cursor-other txn c d w other = ground arith

prepare_cursor-Prepares : (txn c : ℕ) (w : World) → Prepares (c ∷ []) w (prepare_cursor txn c w)
unfolding prepare_cursor AllCalls closes
prepare_cursor-Prepares txn c w = go (w.cursors c).read_only (w.cursors c).handle refl refl
  where
    go :
        (read_only : Bool) (handle : Option ℕ)
        → (w.cursors c).read_only ≡ read_only
        → (w.cursors c).handle ≡ handle
        → Prepares (c ∷ []) w (prepare_cursor txn c w)
    go false handle e f = record {
      new_calls = [];
      grow = ground (arith, append-nil w.calls);
      early = tt;
      closed = λ d h there reads open_handle. ground arith;
    }
    go true none e f = record {
      new_calls = invalidate_current c false ∷ [];
      grow = ground arith;
      early = (refl, tt);
      closed = λ d h there reads open_handle. ground arith;
    }
    go true (some n) e f = record {
      new_calls = cursor_close n ∷ invalidate_current c false ∷ [];
      grow =
          ground
            (arith, append_assoc w.calls (cursor_close n ∷ []) (invalidate_current c false ∷ []));
      early = (refl, (refl, tt));
      closed = λ d h there reads open_handle. ground arith;
    }

prepare_cursors-Prepares :
    (txn : ℕ) (cs : List ℕ) (w : World) → Prepares cs w (prepare_cursors txn cs w)
unfolding prepare_cursors AllCalls closes
prepare_cursors-Prepares txn [] w = record {
  new_calls = [];
  grow = sym (append-nil w.calls);
  early = tt;
  closed = λ c h there reads open_handle. absurd (ground arith);
}
prepare_cursors-Prepares txn (c ∷ cs) w =
    let w₁ = prepare_cursor txn c w in
    let first = prepare_cursor-Prepares txn c w in
    let rest = prepare_cursors-Prepares txn cs w₁ in
    record {
      new_calls = first.new_calls ++ rest.new_calls;
      grow =
          rest.grow
          ∙ ap (λ l. l ++ rest.new_calls) first.grow
          ∙ append_assoc w.calls first.new_calls rest.new_calls;
      early = AllCalls-append is_early first.new_calls rest.new_calls first.early rest.early;
      closed = λ d h there reads open_handle.
          closes-append h first.new_calls rest.new_calls
          ∙ elim (d == c)
                as (λ b.
                  (d == c) ≡ b → (closes h first.new_calls || closes h rest.new_calls) ≡ true) [
                    | true ↦ λ same. ground (arith, first.closed d h)
                    | false ↦ λ other.
                        let kept = prepare_cursor-other txn c d w (ground arith) in
                        ground (
                          arith,
                          rest.closed d h (ground arith) (ap (λ b. b.read_only) kept ∙ reads)
                              (ap (λ b. b.handle) kept ∙ open_handle),
                        )
                  ]
              refl;
    }

-- The calls of an abort, in the order in which they are made.
pub record AbortCalls (txn handle : ℕ) (w w' : World) : Type 0 where
  pub before : List NativeCall
  pub after : List NativeCall
  pub in_order : w'.calls ≡ w.calls ++ before ++ txn_abort handle ∷ after
  pub early : AllCalls is_early before
  pub late : AllCalls is_late after
  pub cursors_closed :
      (c h : ℕ)
      → has c (w.transactions txn).cursors ≡ true
      → (w.cursors c).read_only ≡ true
      → (w.cursors c).handle ≡ some h
      → closes h before ≡ true

finish_abort-Calm : (txn : ℕ) (w : World) → Calm is_late w (finish_abort txn w)
finish_abort-Calm txn w =
    Calm-trans (Quiet-Calm (invalidate_pending_dbi_bindings-Quiet txn true w)) (
      Calm-trans (Quiet-Calm (close_deferred_dbis-Quiet (λ e h. refl) _ _))
        (close_transaction_binding-Calm (λ c f. refl) (λ e h. refl) txn _))

-- A live transaction of an environment that is not poisoned is aborted by one call. Before it, each
-- read cursor of the transaction that has a handle is closed, and nothing but cursors; after it,
-- databases are closed, and neither a cursor nor a transaction.
pub abort_transaction_binding_order :
    (txn handle : ℕ) (w : World)
    → (w.transactions txn).handle ≡ some handle
    → is_poisoned? (w.transactions txn).state w ≡ false
    → AbortCalls txn handle w (abort_transaction_binding txn w)
unfolding abort_transaction_binding prepare_transaction_cursors_for_end_binding
abort_transaction_binding_order txn handle w live usable =
    let prepared = prepare_cursors-Prepares txn (w.transactions txn).cursors w in
    let w₁ = call (txn_abort handle) (prepare_cursors txn (w.transactions txn).cursors w) in
    let finished = finish_abort-Calm txn w₁ in
    let whole : abort_with (w.transactions txn).handle txn w ≡ finish_abort txn w₁ =
      rw (live, usable) refl in
    record {
      before = prepared.new_calls;
      after = finished.new_calls;
      in_order =
          ap (λ v. v.calls) whole
          ∙ finished.calls_grow
          ∙ ap (λ l. (l ++ txn_abort handle ∷ []) ++ finished.new_calls) prepared.grow
          ∙ append_assoc (w.calls ++ prepared.new_calls) (txn_abort handle ∷ []) finished.new_calls;
      early = prepared.early;
      late = finished.calls_allowed;
      cursors_closed = prepared.closed;
    }
