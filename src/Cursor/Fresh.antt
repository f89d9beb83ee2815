-- ===== src/Cursor/Fresh.antt =====
-- The current records of cursors when their transaction writes (cursor.ts, txn.ts).
use lmdb_deno.Prelude.{
  ℕ, suc, zero, ◌≡◌, ◌≤◌, ◌∙◌, refl, sym, ap, subst, Bool, true, false, Option, none, some, List,
  [], ◌∷◌, ◌++◌, length, drop, has, Result, ok, arith, inl, inr, ◌==◌, if-cases,
}
use lmdb_deno.Bytes.{Bytes}
use lmdb_deno.Encoding.Values.{Key, Value}
use lmdb_deno.State.World.{NativeCall, World}
use lmdb_deno.State.Access.{require_live_cursor_binding, assert_shared_state_usable}
use lmdb_deno.State.Handles.{get_cursor_handle}
use lmdb_deno.Data.{CursorOperation, DataApi, Step}
use lmdb_deno.Data.Observe.{Looks, with_calls}
use lmdb_deno.Txn.{Txn}
use lmdb_deno.Txn.Access.{PutOptions, key_type_of, put_flags, prepare_get, put}
use lmdb_deno.Txn.Clearing.{clears, cleared, cleared_lem, Writes}
use lmdb_deno.Txn.Writing.{put_call, put-Writes}
use lmdb_deno.Cursor.{
  CurrentRecord, Cursor, current, clear_current_record, is_own, heard, replay, get_current_in, held,
  fetched, get_current,
}

drop-append :
    {A : Type 0} (n : ℕ) (xs ys : List A) → n ≤ length xs → drop n (xs ++ ys) ≡ drop n xs ++ ys
drop-append zero xs ys h = refl
drop-append (suc n) [] ys h = absurd (omega arith)
drop-append (suc n) (x ∷ xs) ys h = drop-append n xs ys (omega arith)

replay-append :
    (own : Option ℕ) (cs ds : List NativeCall) (r : CurrentRecord)
    → replay own (cs ++ ds) r ≡ replay own ds (replay own cs r)
unfolding replay
replay-append own [] ds r = refl
replay-append own (c ∷ cs) ds r = replay-append own cs ds (heard own c r)

replay-cleared :
    (own : Option ℕ) (cs : List ℕ)
    → replay own (clears cs) (clear_current_record true) ≡ clear_current_record true
unfolding replay
replay-cleared own [] = refl
replay-cleared own (c ∷ cs) =
    if-cases (λ r. replay own (clears cs) r ≡ clear_current_record true) (is_own own c) _ _
      (λ _. replay-cleared own cs) (λ _. replay-cleared own cs)

replay-clears :
    (b : ℕ) (cs : List ℕ) (r : CurrentRecord)
    → has b cs ≡ true
    → replay (some b) (clears cs) r ≡ clear_current_record true
unfolding replay
replay-clears b [] r h = absurd (ground arith)
replay-clears b (c ∷ cs) r h =
    if-cases (λ q. replay (some b) (clears cs) q ≡ clear_current_record true) (b == c) _ _
      (λ _. replay-cleared (some b) cs) (λ other. replay-clears b cs r (ground arith))

get_cursor_handle-Looks : (object : ℕ) → Looks (get_cursor_handle object)
unfolding get_cursor_handle require_live_cursor_binding assert_shared_state_usable
get_cursor_handle-Looks object w cs = ground arith

-- A cursor that belongs to a transaction.
pub record BelongsTo (c : Cursor) (txn : ℕ) (w : World) : Type 0 where
  pub binding : ℕ
  pub bound : w.cursor_bindings c.object ≡ some binding
  pub listed : has binding (w.transactions txn).cursors ≡ true
  pub since : c.since ≤ length w.calls

cleared-current :
    (c : Cursor) (txn : ℕ) (w : World)
    → BelongsTo c txn w
    → current c (cleared txn w) ≡ clear_current_record true
cleared-current c txn w h =
    rw
      (
        cleared_lem txn w,
        h.bound,
        drop-append c.since w.calls (clears (w.transactions txn).cursors) h.since,
      )
      (replay-append (some h.binding) (drop c.since w.calls) (clears (w.transactions txn).cursors)
          c.current
        ∙ replay-clears h.binding (w.transactions txn).cursors _ h.listed)

held-cleared : (detached : Bool) → held detached (clear_current_record true) ≡ none
held-cleared true = refl
held-cleared false = refl

module _ {S A : Type 0} (api : DataApi S) (convert : Bytes → Result A)
    (callback : Option (Key → A → Step S (Unit {0}))) where
  -- The cursor asks LMDB for its current record.
  abbrev pub Refetches : Bool → Option ℕ → Cursor → World → S → Type 0
  Refetches detached cursor c w s =
      get_current api convert callback detached c w s
      ≡ fetched api convert callback c w
          (api.cursor_get cursor none none CursorOperation.mdb_get_current w s)

  module _ (detached : Bool) (cursor : Option ℕ) (c : Cursor) (w : World)
      (handle : get_cursor_handle c.object w ≡ (ok cursor, w)) where
    cleared-Refetches :
        (txn : ℕ) (s : S) → BelongsTo c txn w → Refetches detached cursor c (cleared txn w) s
    unfolding get_current
    cleared-Refetches txn s h =
        let cs = w.calls ++ clears (w.transactions txn).cursors in
        let again : get_cursor_handle c.object (with_calls cs w) ≡ (ok cursor, with_calls cs w) =
          get_cursor_handle-Looks c.object w cs ∙ ap (λ x. (x.0, with_calls cs w)) handle in
        let found : get_cursor_handle c.object (cleared txn w) ≡ (ok cursor, cleared txn w) =
          subst (λ v. get_cursor_handle c.object v ≡ (ok cursor, v)) (sym (cleared_lem txn w))
            again in
        rw found (
          ap
            (λ (q : CurrentRecord).
              get_current_in api convert callback c cursor (cleared txn w) s (held detached q)
                q.fallback_allowed)
            (cleared-current c txn w h)
          ∙ ap (λ e. get_current_in api convert callback c cursor (cleared txn w) s e true)
              (held-cleared detached))

    -- After a put that returns, a usable cursor that belongs to the same transaction asks LMDB for its
    -- current record, whatever it held before.
    pub put-Refetches :
        (t : Txn) (dbi : ℕ) (k : Value) (value : Bytes) (o : Option PutOptions) (txn : ℕ)
        (w' : World) (s s' : S)
        → put api t dbi k value o w s ≡ (ok tt, w', s')
        → w.txn_bindings t.object ≡ some txn
        → BelongsTo c txn w
        → Refetches detached cursor c w' s'
    unfolding Writes
    put-Refetches t dbi k value o txn w' s s' done bound h =
        read (put-Writes api t dbi k value o w s)
      where
        read :
            Writes t
              (prepare_get t dbi k (key_type_of o))
              (put_call api t dbi k value (put_flags o))
              w
              s
              (put api t dbi k value o w s)
            → Refetches detached cursor c w' s'
        read (inl (e, f, _)) = absurd (ground arith)
        read (inr (p, txn', prepared, bound', f)) =
            let same : cleared txn' w ≡ w' =
              ap (λ (z : Result (Unit {0}) × World × S). z.1) (sym f ∙ done) in
            let one : txn' ≡ txn = ground arith in
            subst (λ v. Refetches detached cursor c v s') (ap (λ n. cleared n w) (sym one) ∙ same)
              (cleared-Refetches txn s' h)
