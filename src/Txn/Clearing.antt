-- ===== src/Txn/Clearing.antt =====
-- The steps of a method of a transaction: what it looks up, and the clearing of caches (txn.ts).
use lmdb_deno.Prelude.{
  ℕ, ◌≡◌, ◌⊎◌, inl, inr, refl, sym, ap, ◌∙◌, subst, Bool, true, false, Option, some, List, [], ◌∷◌,
  ◌++◌, map, append-nil, append_assoc, Exception, Result, ok, err, arith,
}
use lmdb_deno.Encoding.Values.{Value, KeyEncoding}
use lmdb_deno.State.World.{NativeCall, invalidate_current, World, proceed, run, call}
use lmdb_deno.State.Access.{require_transaction_binding, assert_shared_state_usable}
use lmdb_deno.State.Handles.{get_dbi_flags}
use lmdb_deno.State.Cursors.{invalidate_cursors, invalidate_transaction_cursor_caches_binding}
use lmdb_deno.State.Transactions.{invalidate_transaction_cursor_caches_for_write}
use lmdb_deno.Data.{Step, continue_with, beside, on_world, on_native, of_result, ◌>>=◌}
use lmdb_deno.Data.Observe.{
  with_calls, Observes, on_world-Observes, of_result-Observes, then-Observes, get_txn_handle-Looks,
  assert_txn_active-Looks, assert_same-Looks, get_dbi_key_format-Looks, get_dbi_flags-Looks,
  get_dbi_handle_for_txn-Looks,
}
use lmdb_deno.Data.Keys.{agreed_kind, encode_in}
use lmdb_deno.State.Writer.Reading.{require_transaction_binding-Reads}
use lmdb_deno.Native.Api.{Call}
use lmdb_deno.Txn.{Txn}
use lmdb_deno.Txn.Access.{
  encode_transaction_key, check_usable, both_handles, prepare_get, invalidate, sorts_duplicates,
  is_dup_sort,
}

abbrev pub clears : List ℕ → List NativeCall
clears cs = map (λ c. invalidate_current c true) cs

invalidate_cursors_lem :
    (cs : List ℕ) (w : World) → invalidate_cursors cs true w ≡ with_calls (w.calls ++ clears cs) w
unfolding invalidate_cursors
invalidate_cursors_lem [] w = rw (append-nil w.calls) refl
invalidate_cursors_lem (c ∷ cs) w =
    invalidate_cursors_lem cs (call (invalidate_current c true) w)
    ∙ ap (λ h. with_calls h w) (append_assoc w.calls (invalidate_current c true ∷ []) (clears cs))

-- The caches of the transaction's cursors are cleared.
abbrev pub cleared : ℕ → World → World
cleared txn w = invalidate_transaction_cursor_caches_binding txn true w

pub cleared_lem :
    (txn : ℕ) (w : World)
    → cleared txn w ≡ with_calls (w.calls ++ clears (w.transactions txn).cursors) w
unfolding invalidate_transaction_cursor_caches_binding
cleared_lem txn w = invalidate_cursors_lem (w.transactions txn).cursors w

-- A transaction that is found is bound.
require-bound :
    (owner txn : ℕ) (w v : World)
    → require_transaction_binding owner w ≡ (ok txn, v)
    → w.txn_bindings owner ≡ some txn
unfolding require_transaction_binding assert_shared_state_usable
require-bound owner txn w v e = ground arith

-- `invalidateTransactionCursorCachesForWrite` throws and does nothing, or finds the transaction.
abbrev Invalidated : ℕ → World → Result (Unit {0}) × World → Type 0
Invalidated owner w x =
    ((e : Exception) × (x ≡ (err e, w)))
    ⊎ ((txn : ℕ) × (w.txn_bindings owner ≡ some txn) × (x ≡ (ok tt, cleared txn w)))

invalidate-Invalidated :
    (owner : ℕ) (w : World)
    → Invalidated owner w (invalidate_transaction_cursor_caches_for_write owner w)
unfolding invalidate_transaction_cursor_caches_for_write
invalidate-Invalidated owner w =
    split (require_transaction_binding owner w) (require_transaction_binding-Reads owner w) refl
  where
    split :
        (x : Result ℕ × World)
        → x.1 ≡ w
        → require_transaction_binding owner w ≡ x
        → Invalidated owner w
            (proceed x (λ t. run (invalidate_transaction_cursor_caches_binding t true)))
    split (ok txn, v) stays e = inr (txn, require-bound owner txn w v e, rw stays)
    split (err x, v) stays e = inl (x, rw stays)

module _ {S P : Type 0} where
  -- A method throws what its checks or the clearing throw, and nothing has changed; or the caches of the transaction's cursors are
  -- cleared, and then LMDB is asked, once.
  unfoldable pub Writes :
      Txn
      → Step S P
      → (P → World → Call S (Unit {0}))
      → World
      → S
      → Result (Unit {0}) × World × S
      → Type 0
  Writes t prepared ask w s x =
      ((e : Exception) × (x ≡ (err e, w, s))
        × ((prepared w s ≡ (err e, w, s))
            ⊎ (invalidate_transaction_cursor_caches_for_write t.object w ≡ (err e, w))))
      ⊎ ((p : P) × (txn : ℕ) × (prepared w s ≡ (ok p, w, s))
          × (w.txn_bindings t.object ≡ some txn)
          × (x ≡ on_native (ask p) (cleared txn w) s))

  pub prepared-Writes :
      (t : Txn) (prepared : Step S P) (ask : P → World → Call S (Unit {0})) (w : World) (s : S)
      → Observes prepared
      → Writes t prepared ask w s ((prepared >>= λ p. invalidate t >>= λ _. on_native (ask p)) w s)
  unfolding Writes Observes
  prepared-Writes t prepared ask w s h = split (prepared w s) refl (h w w.calls s s)
    where
      asks :
          (p : P) (x : Result (Unit {0}) × World)
          → prepared w s ≡ (ok p, w, s)
          → invalidate_transaction_cursor_caches_for_write t.object w ≡ x
          → Invalidated t.object w x
          → Writes t prepared ask w s (continue_with (beside x s) (λ _. on_native (ask p)))
      asks p x e same (inl (y, f)) = inl (y, rw f, inr (same ∙ f))
      asks p x e same (inr (txn, bound, f)) = inr (p, txn, e, bound, rw f)

      split :
          (x : Result P × World × S)
          → prepared w s ≡ x
          → x ≡ (x.0, w, s)
          → Writes t prepared ask w s
              (continue_with x (λ p. invalidate t >>= λ _. on_native (ask p)))
      split (ok p, v, u) e stays =
          subst
            (λ y.
              Writes t prepared ask w s
                (continue_with y (λ q. invalidate t >>= λ _. on_native (ask q))))
            (sym stays) (asks p _ (e ∙ stays) refl (invalidate-Invalidated t.object w))
      split (err y, v, u) e stays = inl (
        y,
        ap (λ z. continue_with z (λ q. invalidate t >>= λ _. on_native (ask q))) stays,
        inl (e ∙ stays),
      )

module _ (S : Type 0) where
  pub check_usable-Observes : (t : Txn) (dbi : ℕ) → Observes {S = S} (check_usable t dbi)
  check_usable-Observes t dbi =
      then-Observes _ _ (on_world-Observes S _ (assert_same-Looks t.object dbi))
        (λ _. on_world-Observes S _ (assert_txn_active-Looks t.object))

  pub encode_transaction_key-Observes :
      (dbi : ℕ) (k : Value) (o : Option KeyEncoding)
      → Observes {S = S} (encode_transaction_key dbi k o)
  unfolding encode_transaction_key
  encode_transaction_key-Observes dbi k o =
      then-Observes _ _ (of_result-Observes S (agreed_kind k o)) (λ agreed.
        then-Observes _ _ (on_world-Observes S _ (get_dbi_key_format-Looks dbi))
          (λ format. of_result-Observes S (encode_in format agreed)))

  pub both_handles-Observes : (t : Txn) (dbi : ℕ) → Observes {S = S} (both_handles t dbi)
  both_handles-Observes t dbi =
      then-Observes _ _ (on_world-Observes S _ (get_txn_handle-Looks t.object)) (λ txn.
        then-Observes _ _ (on_world-Observes S _ (get_dbi_handle_for_txn-Looks dbi t.object))
          (λ h. on_world-Observes S _ (λ w cs. refl)))

  pub prepare_get-Observes :
      (t : Txn) (dbi : ℕ) (k : Value) (o : Option KeyEncoding)
      → Observes {S = S} (prepare_get t dbi k o)
  unfolding prepare_get
  prepare_get-Observes t dbi k o = then-Observes _ _ (check_usable-Observes t dbi) (λ _.
      then-Observes _ _ (encode_transaction_key-Observes dbi k o) (λ encoded.
        then-Observes _ _ (both_handles-Observes t dbi)
          (λ handles. of_result-Observes S (ok (encoded, handles.0, handles.1)))))

  pub sorts_duplicates-Observes : (dbi : ℕ) (b : Bool) → Observes {S = S} (sorts_duplicates dbi b)
  unfolding Observes
  sorts_duplicates-Observes dbi false w cs s s' = refl
  sorts_duplicates-Observes dbi true w cs s s' =
      then-Observes (on_world (get_dbi_flags dbi)) (λ flags. of_result (ok (is_dup_sort flags)))
        (on_world-Observes S (get_dbi_flags dbi) (get_dbi_flags-Looks dbi))
        (λ flags. of_result-Observes S (ok (is_dup_sort flags))) w cs s s'
