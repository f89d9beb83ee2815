-- ===== src/State/Quiet/Cursors.antt =====
-- The functions of State/Cursors: which native calls they make.
use lmdb_deno.Prelude.{
  ℕ, ◌≡◌, refl, Bool, true, false, not, ◌&&◌, Option, none, some, List, [], ◌∷◌, if-cases,
  if◌then◌else◌, arith,
}
use lmdb_deno.State.World.{NativeCall, cursor_close, dbi_close, invalidate_current, World, call}
use lmdb_deno.State.Access.{is_poisoned?, is_closed}
use lmdb_deno.State.Cursors.{
  close_cursor, forget_in_txn, forget_in_state, release_record, record_of_cursor,
  close_cursor_binding, detached, finish_cursor, finish_cursors, finish_transaction_cursors_binding,
  prepare_cursor, prepare_cursors, invalidate_cursors,
}
use lmdb_deno.State.Quiet.{
  Quiet, Quiet-refl, Quiet-trans, set_cursor-Quiet, set_record-Quiet, set_shared-Quiet,
  set_transaction-Quiet, call-Quiet,
}
use lmdb_deno.State.Quiet.Records.{finalize_empty_dbi_record-Quiet, close_dbi-Quiet}

module _ {may : NativeCall → Bool} where
  forget_in_txn-Quiet : (c : ℕ) (txn : Option ℕ) (w : World) → Quiet may w (forget_in_txn c txn w)
  forget_in_txn-Quiet c none w = Quiet-refl w
  forget_in_txn-Quiet c (some txn) w = set_transaction-Quiet txn _ w refl

  forget_in_state-Quiet :
      (c : ℕ) (state : Option ℕ) (w : World) → Quiet may w (forget_in_state c state w)
  forget_in_state-Quiet c none w = Quiet-refl w
  forget_in_state-Quiet c (some state) w = set_shared-Quiet state _ w refl refl

  module _ (caches : (c : ℕ) (fallback : Bool) → may (invalidate_current c fallback) ≡ true) where
    pub invalidate_cursors-Quiet :
        (cs : List ℕ) (fallback_allowed : Bool) (w : World)
        → Quiet may w (invalidate_cursors cs fallback_allowed w)
    unfolding invalidate_cursors
    invalidate_cursors-Quiet [] fallback_allowed w = Quiet-refl w
    invalidate_cursors-Quiet (c ∷ cs) fallback_allowed w =
        Quiet-trans (call-Quiet _ w (caches c fallback_allowed))
          (invalidate_cursors-Quiet cs fallback_allowed _)

    module _ (closes : (handle : ℕ) → may (cursor_close handle) ≡ true) where
      pub close_cursor-Quiet : (handle : Option ℕ) (w : World) → Quiet may w (close_cursor handle w)
      close_cursor-Quiet none w = Quiet-refl w
      close_cursor-Quiet (some handle) w = call-Quiet _ w (closes handle)

      prepare_cursor-Quiet : (txn c : ℕ) (w : World) → Quiet may w (prepare_cursor txn c w)
      unfolding prepare_cursor
      prepare_cursor-Quiet txn c w =
          if-cases (Quiet may w) (w.cursors c).read_only _ w
            (λ _. Quiet-trans (close_cursor-Quiet (w.cursors c).handle w) (
              Quiet-trans (call-Quiet _ _ (caches c false))
                (Quiet-trans (set_cursor-Quiet _ _ _) (forget_in_txn-Quiet c (some txn) _))))
            (λ _. Quiet-refl w)

      pub prepare_cursors-Quiet :
          (txn : ℕ) (cs : List ℕ) (w : World) → Quiet may w (prepare_cursors txn cs w)
      unfolding prepare_cursors
      prepare_cursors-Quiet txn [] w = Quiet-refl w
      prepare_cursors-Quiet txn (c ∷ cs) w =
          Quiet-trans (prepare_cursor-Quiet txn c w) (prepare_cursors-Quiet txn cs _)

    module _ (closes : (environment handle : ℕ) → may (dbi_close environment handle) ≡ true) where
      release_record-Quiet :
          (id : Option ℕ) (close_dbi_native : Bool) (w : World)
          → Quiet may w (release_record id close_dbi_native w)
      unfolding release_record
      release_record-Quiet none close_dbi_native w = Quiet-refl w
      release_record-Quiet (some id) close_dbi_native w = Quiet-trans (set_record-Quiet _ _ w) (
          Quiet-trans (finalize_empty_dbi_record-Quiet id close_dbi_native _)
            (close_dbi-Quiet closes _ _))

      -- The native cursor is closed only if that is asked for.
      pub close_cursor_binding-Quiet :
          (c : ℕ) (close_native close_dbi_native : Bool) (w : World)
          → (close_native ≡ true → (handle : ℕ) → may (cursor_close handle) ≡ true)
          → Quiet may w (close_cursor_binding c close_native close_dbi_native w)
      unfolding close_cursor_binding
      close_cursor_binding-Quiet c close_native close_dbi_native w cursors =
          let b = w.cursors c in
          let w₁ = call (invalidate_current c false) w in
          let first : Quiet may w w₁ = call-Quiet _ w (caches c false) in
          if-cases (Quiet may w) (is_closed b.phase) w₁ _ (λ _. first)
            (λ _. Quiet-trans first (
              Quiet-trans
                (native_close close_native (not (is_poisoned? b.state w₁)) b.handle w₁ cursors)
                (Quiet-trans (forget_in_txn-Quiet c b.txn _) (
                  Quiet-trans (forget_in_state-Quiet c b.state _) (
                    Quiet-trans (set_cursor-Quiet c _ _)
                      (release_record-Quiet (record_of_cursor b w) close_dbi_native _))))))
        where
          native_close :
              (close usable : Bool) (handle : Option ℕ) (v : World)
              → (close ≡ true → (h : ℕ) → may (cursor_close h) ≡ true)
              → Quiet may v (if close && usable then close_cursor handle v else v)
          native_close true true handle v allowed = close_cursor-Quiet (allowed refl) handle v
          native_close true false handle v allowed = Quiet-refl v
          native_close false usable handle v allowed = Quiet-refl v

      finish_cursor-Quiet : (txn c : ℕ) (w : World) → Quiet may w (finish_cursor txn c w)
      unfolding finish_cursor
      finish_cursor-Quiet txn c w =
          let b = w.cursors c in
          if-cases (Quiet may w) (b.read_only && not (is_poisoned? b.state w)) _ _
            (λ _. Quiet-trans (call-Quiet _ w (caches c false)) (
              Quiet-trans (set_cursor-Quiet c (detached b) _) (forget_in_txn-Quiet c (some txn) _)))
            (λ _. close_cursor_binding-Quiet c false true w (λ impossible. absurd (ground arith)))

      finish_cursors-Quiet :
          (txn : ℕ) (cs : List ℕ) (w : World) → Quiet may w (finish_cursors txn cs w)
      unfolding finish_cursors
      finish_cursors-Quiet txn [] w = Quiet-refl w
      finish_cursors-Quiet txn (c ∷ cs) w =
          Quiet-trans (finish_cursor-Quiet txn c w) (finish_cursors-Quiet txn cs _)

      pub finish_transaction_cursors_binding-Quiet :
          (txn : ℕ) (w : World) → Quiet may w (finish_transaction_cursors_binding txn w)
      unfolding finish_transaction_cursors_binding
      finish_transaction_cursors_binding-Quiet txn w =
          Quiet-trans (finish_cursors-Quiet txn (w.transactions txn).cursors w)
            (set_transaction-Quiet txn _ _ refl)
