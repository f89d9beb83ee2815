-- ===== src/Cursor/Serving.antt =====
-- What a cursor serves as its current record (cursor.ts).
use lmdb_deno.Prelude.{
  ℕ, ◌≡◌, ◌∙◌, refl, sym, ap, subst, Bool, true, false, Option, none, some, List, [], ◌∷◌, length,
  drop, Exception, Result, ok, err, arith,
}
use lmdb_deno.Bytes.{Bytes}
use lmdb_deno.Encoding.Values.{Key, KeyEncoding}
use lmdb_deno.State.World.{World}
use lmdb_deno.State.Access.{first_some, require_live_cursor_binding, assert_shared_state_usable}
use lmdb_deno.State.Handles.{get_cursor_handle}
use lmdb_deno.State.Writer.Reading.{Reads}
use lmdb_deno.Data.{CursorOperation, DataApi, Step}
use lmdb_deno.Cursor.{
  CurrentRecord, Cursor, current, store, clear, clear_current_record, replay, format_key, formatted,
  navigated, deliver, navigate_at, navigate, get_current_in, held, get_current,
}

pub drop-length : {A : Type 0} (xs : List A) → drop (length xs) xs ≡ []
drop-length [] = refl
drop-length (x ∷ xs) = drop-length xs

-- What is stored is current.
pub store-current : (r : CurrentRecord) (c : Cursor) (w : World) → current (store r c w) w ≡ r
unfolding replay
store-current r c w = rw (drop-length w.calls) refl

pub get_cursor_handle-Reads : (object : ℕ) → Reads (get_cursor_handle object)
unfolding get_cursor_handle require_live_cursor_binding assert_shared_state_usable
get_cursor_handle-Reads object w = ground arith

-- What a navigation gives for an answer of LMDB.
abbrev pub shown_key : Result Key → Result (Option Key)
shown_key (ok shown) = ok (some shown)
shown_key (err e) = err e

abbrev pub answered : KeyEncoding → Result (Option (Bytes × Bytes)) → Result (Option Key)
answered format (err e) = err e
answered format (ok none) = ok none
answered format (ok (some (found, stored))) = shown_key (format_key format found)

err-not-ok : {A : Type 0} (e : Exception) (a : A) (b : Result A) → b ≡ err e → b ≡ ok a → ⊥
err-not-ok e a b h k = ground arith

module _ {S A : Type 0} (api : DataApi S) (convert : Bytes → Result A)
    (callback : Option (Key → A → Step S (Unit {0}))) where
  -- How a navigation ends, and what `#getCurrent` does after it: the cursor cannot be used; or there
  -- is no record, and LMDB is not asked again; or there is the entry that LMDB has answered with.
  pub data Serves (operation : CursorOperation) (k v : Option Bytes) (c : Cursor) (w : World)
      (s : S) (x : (Result (Option Key) × World × S) × Cursor) : Type 0 where
    refused :
        (e : Exception)
        → get_cursor_handle c.object w ≡ (err e, w)
        → x ≡ ((err e, w, s), c)
        → Serves operation k v c w s x
    nothing :
        (cursor : Option ℕ) (y : Result (Option (Bytes × Bytes))) (s' : S) (c' : Cursor)
        → get_cursor_handle c.object w ≡ (ok cursor, w)
        → api.cursor_get cursor
            (first_some k (current c w).key)
            (first_some v (current c w).value)
            operation
            w
            s
          ≡ (y, s')
        → ((shown : Key) → answered c.key_format y ≡ ok (some shown) → ⊥)
        → x ≡ ((answered c.key_format y, w, s'), c')
        → ((detached : Bool)
            → get_current api convert callback detached c' w s' ≡ ((ok none, w, s'), c'))
        → Serves operation k v c w s x
    entry :
        (cursor : Option ℕ) (found stored : Bytes) (shown : Key) (s' : S) (c' : Cursor)
        → get_cursor_handle c.object w ≡ (ok cursor, w)
        → api.cursor_get cursor
            (first_some k (current c w).key)
            (first_some v (current c w).value)
            operation
            w
            s
          ≡ (ok (some (found, stored)), s')
        → format_key c.key_format found ≡ ok shown
        → x ≡ ((ok (some shown), w, s'), c')
        → get_current api convert callback false c' w s'
          ≡ (deliver convert callback c.key_format found stored w s', c')
        → Serves operation k v c w s x

  get_current-store :
      (r : CurrentRecord) (c : Cursor) (w : World) (s : S) (cursor : Option ℕ) (detached : Bool)
      → get_cursor_handle c.object w ≡ (ok cursor, w)
      → get_current api convert callback detached (store r c w) w s
        ≡ get_current_in api convert callback
            (store r c w)
            cursor
            w
            s
            (held detached r)
            r.fallback_allowed
  unfolding get_current
  get_current-store r c w s cursor detached e = rw e (
      ap
        (λ (q : CurrentRecord).
          get_current_in api convert callback (store r c w) cursor w s (held detached q)
            q.fallback_allowed)
        (store-current r c w))

  -- Nothing is held and LMDB may not be asked.
  clear-nothing :
      (c : Cursor) (w : World) (s : S) (cursor : Option ℕ) (detached : Bool)
      → get_cursor_handle c.object w ≡ (ok cursor, w)
      → get_current api convert callback detached (clear c w) w s ≡ ((ok none, w, s), clear c w)
  clear-nothing c w s cursor true e =
      get_current-store (clear_current_record false) c w s cursor true e
  clear-nothing c w s cursor false e =
      get_current-store (clear_current_record false) c w s cursor false e

  module _ (operation : CursorOperation) (k v : Option Bytes) (c : Cursor) (w : World) (s : S) where
    formatted-Serves :
        (cursor : Option ℕ) (found stored : Bytes) (s' : S) (r : Result Key)
        → get_cursor_handle c.object w ≡ (ok cursor, w)
        → api.cursor_get cursor
            (first_some k (current c w).key)
            (first_some v (current c w).value)
            operation
            w
            s
          ≡ (ok (some (found, stored)), s')
        → format_key c.key_format found ≡ r
        → Serves operation k v c w s (formatted c (found, stored) w s' r)
    formatted-Serves cursor found stored s' (err e) handle answer shown =
        let same : answered c.key_format (ok (some (found, stored))) ≡ err e = ap shown_key shown in
        nothing cursor (ok (some (found, stored))) s' (clear c w) handle answer
          (λ q h. absurd (err-not-ok e (some q) _ same h))
          (ap (λ z. ((z, w, s'), clear c w)) (sym same))
          (λ detached. clear-nothing c w s' cursor detached handle)
    formatted-Serves cursor found stored s' (ok q) handle answer shown =
        entry cursor found stored q s' _ handle answer shown refl
          (get_current-store _ c w s' cursor false handle)

    navigated-Serves :
        (cursor : Option ℕ) (x : Result (Option (Bytes × Bytes)) × S)
        → get_cursor_handle c.object w ≡ (ok cursor, w)
        → api.cursor_get cursor
            (first_some k (current c w).key)
            (first_some v (current c w).value)
            operation
            w
            s
          ≡ x
        → Serves operation k v c w s (navigated c w x)
    unfolding navigated
    navigated-Serves cursor (err e, s') handle answer =
        nothing cursor (err e) s' (clear c w) handle answer (λ q h. ground arith) refl
          (λ detached. clear-nothing c w s' cursor detached handle)
    navigated-Serves cursor (ok none, s') handle answer =
        nothing cursor (ok none) s' (clear c w) handle answer (λ q h. ground arith) refl
          (λ detached. clear-nothing c w s' cursor detached handle)
    navigated-Serves cursor (ok (some (found, stored)), s') handle answer =
        formatted-Serves cursor found stored s' _ handle answer refl

    -- However LMDB answers, a navigation ends in one of three ways. The cursor cannot be used, and
    -- nothing has changed; or LMDB's answer gives no key, since it is an error, or nothing, or has a
    -- key that cannot be formatted, and that is the outcome, and the current record is `null` then,
    -- without LMDB being asked again; or the key of LMDB's entry is returned, and the current record is
    -- that entry.
    pub navigate-Serves : Serves operation k v c w s (navigate api operation k v c w s)
    unfolding navigate
    navigate-Serves = split (get_cursor_handle c.object w) (get_cursor_handle-Reads c.object w) refl
      where
        split :
            (x : Result (Option ℕ) × World)
            → x.1 ≡ w
            → get_cursor_handle c.object w ≡ x
            → Serves operation k v c w s (navigate_at api c operation k v s x)
        split (err e, u) stays found =
            refused e (found ∙ ap (λ y. (err e, y)) stays) (ap (λ y. ((err e, y, s), c)) stays)
        split (ok cursor, u) stays found =
            subst
              (λ y. Serves operation k v c w s (navigate_at api c operation k v s (ok cursor, y)))
              (sym stays) (navigated-Serves cursor _ (found ∙ ap (λ y. (ok cursor, y)) stays) refl)
