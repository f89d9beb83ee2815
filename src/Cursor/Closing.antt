-- ===== src/Cursor/Closing.antt =====
-- How a cursor is closed (cursor.ts).
use lmdb_deno.Prelude.{
  ℕ, ◌≡◌, ◌∙◌, refl, ap, Bool, true, false, Option, none, some, List, [], ◌∷◌, ◌++◌, append-nil,
  Option-cases, Bool-cases, inl, inr, Exception, error, Result, ok, err, arith, if-cases,
}
use lmdb_deno.State.World.{
  CursorBinding, CursorPhase, NativeCall, cursor_close, invalidate_current, World, set_cursor, call,
}
use lmdb_deno.State.Access.{is_closed, require_live_cursor_binding, assert_shared_state_usable}
use lmdb_deno.State.Handles.{get_cursor_handle, get_cursor_handle_for_close}
use lmdb_deno.State.Records.{close_dbi, drop_record, finalize_empty_dbi_record}
use lmdb_deno.State.Cursors.{
  close_cursor, forget_in_txn, forget_in_state, release_record, record_of_cursor,
  close_cursor_binding,
}
use lmdb_deno.State.Databases.{clear_cursor_handle}
use lmdb_deno.State.Quiet.{Quiet, AllCalls}
use lmdb_deno.State.Quiet.Cursors.{close_cursor_binding-Quiet}
use lmdb_deno.State.Writer.Reading.{Reads}
use lmdb_deno.Cursor.{Cursor, clear}
use lmdb_deno.Cursor.Methods.{close}

-- No cursor has changed.
abbrev SameCursors : World → World → Type 0
SameCursors w w' = (w'.cursors ≡ w.cursors) × (w'.cursor_bindings ≡ w.cursor_bindings)

forget_in_txn-same : (c : ℕ) (txn : Option ℕ) (w : World) → SameCursors w (forget_in_txn c txn w)
forget_in_txn-same c none w = (refl, refl)
forget_in_txn-same c (some txn) w = (refl, refl)

forget_in_state-same : (c : ℕ) (s : Option ℕ) (w : World) → SameCursors w (forget_in_state c s w)
forget_in_state-same c none w = (refl, refl)
forget_in_state-same c (some s) w = (refl, refl)

close_dbi-same : (d : Option (ℕ × ℕ)) (w : World) → SameCursors w (close_dbi d w)
close_dbi-same none w = (refl, refl)
close_dbi-same (some d) w = (refl, refl)

release_record-same : (id : Option ℕ) (b : Bool) (w : World) → SameCursors w (release_record id b w)
unfolding release_record finalize_empty_dbi_record drop_record
release_record-same id b w = ground arith

-- Its binding is closed.
abbrev Ended : ℕ → World → Type 0
Ended b w = (w.cursors b).phase ≡ CursorPhase.closed

close_cursor_binding-Ended :
    (b : ℕ) (w : World)
    → is_closed (w.cursors b).phase ≡ false
    → Ended b (close_cursor_binding b false true w)
      × ((close_cursor_binding b false true w).cursor_bindings ≡ w.cursor_bindings)
unfolding close_cursor_binding
close_cursor_binding-Ended b w h =
    let c = w.cursors b in
    let w₁ = call (invalidate_current b false) w in
    let left = forget_in_txn b c.txn w₁ in
    let w₃ = forget_in_state b c.state left in
    if-cases (λ v. Ended b v × (v.cursor_bindings ≡ w.cursor_bindings)) (is_closed c.phase) w₁ _
      (λ yes. absurd (ground arith))
      (λ _.
        let same = release_record-same (record_of_cursor c w) true (set_cursor b _ w₃) in
        (
          ap (λ (f : ℕ → CursorBinding). (f b).phase) (same.0) ∙ ground arith,
          same.1 ∙ (forget_in_state-same b c.state left).1 ∙ (forget_in_txn-same b c.txn w₁).1,
        ))

abbrev not_close : NativeCall → Bool
not_close (cursor_close handle) = false
not_close _ = true

abbrev pub closes : Option ℕ → List NativeCall
closes none = []
closes (some handle) = cursor_close handle ∷ []

abbrev pub already_closed : Exception
already_closed = error "Attempted to use an already closed cursor"

-- The cursor can be used no more, not even to be closed.
pub IsUnusable : ℕ → World → Type 0
IsUnusable object w =
    (get_cursor_handle object w ≡ (err already_closed, w))
    × (get_cursor_handle_for_close object w ≡ (err already_closed, w))

Ended-IsUnusable :
    (object b : ℕ) (w : World) → w.cursor_bindings object ≡ some b → Ended b w → IsUnusable object w
unfolding IsUnusable get_cursor_handle get_cursor_handle_for_close require_live_cursor_binding
Ended-IsUnusable object b w bound ended = (ground arith, ground arith)

-- How `close` ends.
pub record Closes (c : Cursor) (handle : Option ℕ) (w : World)
    (x : (Result (Unit {0}) × World) × Cursor) : Type 0 where
  pub returns : x.0.0 ≡ ok tt
  pub unusable : IsUnusable c.object (x.0.1)
  pub rest : List NativeCall
  pub in_order : (x.0.1).calls ≡ w.calls ++ closes handle ++ rest
  pub no_other_close : AllCalls not_close rest

pub get_cursor_handle_for_close-Reads : (object : ℕ) → Reads (get_cursor_handle_for_close object)
unfolding get_cursor_handle_for_close require_live_cursor_binding assert_shared_state_usable
get_cursor_handle_for_close-Reads object w = ground arith

-- A cursor that is found is bound and not closed.
for_close-found :
    (object : ℕ) (handle : Option ℕ) (w : World)
    → get_cursor_handle_for_close object w ≡ (ok handle, w)
    → (b : ℕ) × (w.cursor_bindings object ≡ some b) × (is_closed (w.cursors b).phase ≡ false)
unfolding get_cursor_handle_for_close require_live_cursor_binding assert_shared_state_usable
for_close-found object handle w e = elim (Option-cases (w.cursor_bindings object)) [
  | inl none_bound ↦ absurd (ground arith)
  | inr (b, bound) ↦ elim (Bool-cases (is_closed (w.cursors b).phase)) [
    | inl closed ↦ absurd (ground arith)
    | inr live ↦ (b, bound, live)
  ]
]

close_cursor-calls :
    (handle : Option ℕ) (w : World)
    → close_cursor handle w ≡ record w { calls = w.calls ++ closes handle }
close_cursor-calls none w = rw (append-nil w.calls) refl
close_cursor-calls (some handle) w = refl

clear_cursor_handle-live :
    (object b : ℕ) (w : World)
    → w.cursor_bindings object ≡ some b
    → is_closed (w.cursors b).phase ≡ false
    → clear_cursor_handle object w ≡ close_cursor_binding b false true w
unfolding clear_cursor_handle
clear_cursor_handle-live object b w bound live = rw (clear_cursor_handle, bound, live) refl

-- Closing a cursor that is found returns, and makes at most one native close of a cursor: the first
-- of its calls, of the cursor's handle, if it has one. Then the cursor can neither be used nor be
-- closed.
pub close-Closes :
    (c : Cursor) (handle : Option ℕ) (w : World)
    → get_cursor_handle_for_close c.object w ≡ (ok handle, w)
    → Closes c handle w (close c w)
unfolding close
close-Closes c handle w e =
    let (b, bound, live) = for_close-found c.object handle w e in
    let v : World = record w { calls = w.calls ++ closes handle } in
    let u = close_cursor_binding b false true v in
    let whole : close c w ≡ ((ok tt, u), clear c u) =
      rw (e, close_cursor-calls handle w, clear_cursor_handle-live c.object b v bound live) refl in
    let ended = close_cursor_binding-Ended b v live in
    let quiet : Quiet not_close v u =
      close_cursor_binding-Quiet (λ i f. refl) (λ d h. refl) b false true v
        (λ no. absurd (ground arith)) in
    rw whole (record {
      returns = refl;
      unusable =
          Ended-IsUnusable c.object b u (ap (λ (f : ℕ → Option ℕ). f c.object) (ended.1) ∙ bound)
            (ended.0);
      rest = quiet.new_calls;
      in_order = quiet.calls_grow;
      no_other_close = quiet.calls_allowed;
    })
