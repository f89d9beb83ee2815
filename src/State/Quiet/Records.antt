-- ===== src/State/Quiet/Records.antt =====
-- The functions of State/Records, of which closes and invalidated views are the only native calls.
use lmdb_deno.Prelude.{
  ℕ, ◌≡◌, refl, Bool, true, false, Option, none, some, List, [], ◌∷◌, add, delete, if-cases,
}
use lmdb_deno.State.World.{
  SharedEnvironment, NativeCall, dbi_close, invalidate_current, World, call, set_dbi, set_record,
  set_shared,
}
use lmdb_deno.State.Records.{
  is_unused, is_entry, find_record, drop_record, finalize_empty_dbi_record, close_dbi,
  close_deferred_dbis, invalidate_caches_of, invalidate_dbi_cursor_caches, close_wrapper,
  release_dbi_binding, detach_pending_binding, detach_from, finalize_unless_pending, delete_key,
  invalidate_dbi_binding, invalidate_dbi_bindings, finalize_dbi_records, promote_bindings,
  promote_pending_dbi_bindings, invalidate_pending, finalize_committed,
  invalidate_pending_dbi_bindings,
}
use lmdb_deno.State.Quiet.{
  Quiet, Quiet-refl, Quiet-trans, set_dbi-Quiet, set_record-Quiet, set_shared-Quiet,
  set_transaction-Quiet, call-Quiet,
}

module _ {may : NativeCall → Bool} where
  pub drop_record-Quiet : (id : ℕ) (w : World) → Quiet may w (drop_record id w)
  unfolding drop_record
  drop_record-Quiet id w =
      let r = w.records id in
      let s = w.shared r.state in
      let left : SharedEnvironment = record s { dbi_records = delete_key r.handle s.dbi_records } in
      if-cases (Quiet may w) (is_entry (find_record r.handle s.dbi_records) id)
        (set_shared r.state left w) w (λ _. set_shared-Quiet r.state left w refl refl)
        (λ _. Quiet-refl w)

  pub finalize_empty_dbi_record-Quiet :
      (id : ℕ) (close_native : Bool) (w : World)
      → Quiet may w (finalize_empty_dbi_record id close_native w).1
  unfolding finalize_empty_dbi_record
  finalize_empty_dbi_record-Quiet id close_native w =
      if-cases (λ (a : Option (ℕ × ℕ) × World). Quiet may w (a.1)) (is_unused (w.records id)) _ _
        (λ _. drop_record-Quiet id w) (λ _. Quiet-refl w)

  pub close_wrapper-Quiet : (dbi : ℕ) (w : World) → Quiet may w (close_wrapper dbi w)
  unfolding close_wrapper
  close_wrapper-Quiet dbi w =
      Quiet-trans (set_dbi-Quiet _ _ w)
        (Quiet-trans (set_record-Quiet _ _ _) (set_shared-Quiet _ _ _ refl refl))

  detach_from-Quiet :
      (pending : Option ℕ) (dbi : ℕ) (w : World) → Quiet may w (detach_from pending dbi w)
  detach_from-Quiet none dbi w = Quiet-refl w
  detach_from-Quiet (some txn) dbi w =
      Quiet-trans (set_record-Quiet _ _ w)
        (Quiet-trans (set_transaction-Quiet txn _ _ refl) (set_dbi-Quiet _ _ _))

  pub detach_pending_binding-Quiet :
      (dbi : ℕ) (w : World) → Quiet may w (detach_pending_binding dbi w)
  unfolding detach_pending_binding
  detach_pending_binding-Quiet dbi w = detach_from-Quiet (w.dbis dbi).pending_txn dbi w

  pub finalize_dbi_records-Quiet :
      (records : List ℕ) (close_native : Bool) (w : World)
      → Quiet may w (finalize_dbi_records records close_native w).1
  unfolding finalize_dbi_records
  finalize_dbi_records-Quiet [] close_native w = Quiet-refl w
  finalize_dbi_records-Quiet (r ∷ records) close_native w =
      Quiet-trans (finalize_empty_dbi_record-Quiet r close_native w)
        (finalize_dbi_records-Quiet records close_native _)

  pub promote_bindings-Quiet :
      (dbis records : List ℕ) (w : World) → Quiet may w (promote_bindings dbis records w).1
  unfolding promote_bindings
  promote_bindings-Quiet [] records w = Quiet-refl w
  promote_bindings-Quiet (dbi ∷ dbis) records w =
      Quiet-trans (set_record-Quiet _ _ w)
        (Quiet-trans (set_dbi-Quiet _ _ _) (promote_bindings-Quiet dbis _ _))

  pub promote_pending_dbi_bindings-Quiet :
      (txn : ℕ) (w : World) → Quiet may w (promote_pending_dbi_bindings txn w).1
  unfolding promote_pending_dbi_bindings
  promote_pending_dbi_bindings-Quiet txn w = Quiet-trans (set_transaction-Quiet txn _ w refl) (
      Quiet-trans (promote_bindings-Quiet (w.transactions txn).pending_dbis [] _)
        (finalize_dbi_records-Quiet _ true _))

  pub invalidate_pending-Quiet :
      (dbis records : List ℕ) (w : World) → Quiet may w (invalidate_pending dbis records w).1
  unfolding invalidate_pending
  invalidate_pending-Quiet [] records w = Quiet-refl w
  invalidate_pending-Quiet (dbi ∷ dbis) records w =
      let d = w.dbis dbi in
      let r = w.records d.record_id in
      let w₁ =
        set_dbi dbi (record d { pending_txn = none })
          (set_record d.record_id (record r { pending = delete dbi r.pending }) w) in
      let first : Quiet may w w₁ = Quiet-trans (set_record-Quiet _ _ w) (set_dbi-Quiet _ _ _) in
      Quiet-trans
        (if-cases (Quiet may w) d.closed w₁ (close_wrapper dbi w₁) (λ _. first)
          (λ _. Quiet-trans first (close_wrapper-Quiet dbi w₁)))
        (invalidate_pending-Quiet dbis (add d.record_id records) _)

  pub finalize_committed-Quiet :
      (records : List ℕ) (close_committed : Bool) (w : World)
      → Quiet may w (finalize_committed records close_committed w).1
  unfolding finalize_committed
  finalize_committed-Quiet [] close_committed w = Quiet-refl w
  finalize_committed-Quiet (r ∷ records) close_committed w =
      Quiet-trans (finalize_empty_dbi_record-Quiet r _ w)
        (finalize_committed-Quiet records close_committed _)

  pub invalidate_pending_dbi_bindings-Quiet :
      (txn : ℕ) (close_committed : Bool) (w : World)
      → Quiet may w (invalidate_pending_dbi_bindings txn close_committed w).1
  unfolding invalidate_pending_dbi_bindings
  invalidate_pending_dbi_bindings-Quiet txn close_committed w =
      Quiet-trans (set_transaction-Quiet txn _ w refl) (
        Quiet-trans (invalidate_pending-Quiet (w.transactions txn).pending_dbis [] _)
          (finalize_committed-Quiet _ close_committed _))

  module _ (closes : (environment handle : ℕ) → may (dbi_close environment handle) ≡ true) where
    pub close_dbi-Quiet : (close : Option (ℕ × ℕ)) (w : World) → Quiet may w (close_dbi close w)
    close_dbi-Quiet none w = Quiet-refl w
    close_dbi-Quiet (some (environment, handle)) w = call-Quiet _ w (closes environment handle)

    pub close_deferred_dbis-Quiet :
        (due : List (ℕ × ℕ)) (w : World) → Quiet may w (close_deferred_dbis due w)
    unfolding close_deferred_dbis
    close_deferred_dbis-Quiet [] w = Quiet-refl w
    close_deferred_dbis-Quiet ((environment, handle) ∷ due) w =
        Quiet-trans (call-Quiet _ w (closes environment handle)) (close_deferred_dbis-Quiet due _)

  module _ (caches : (c : ℕ) (fallback : Bool) → may (invalidate_current c fallback) ≡ true) where
    pub invalidate_caches_of-Quiet :
        (dbi : ℕ) (cursors : List ℕ) (w : World) → Quiet may w (invalidate_caches_of dbi cursors w)
    unfolding invalidate_caches_of
    invalidate_caches_of-Quiet dbi [] w = Quiet-refl w
    invalidate_caches_of-Quiet dbi (c ∷ cs) w =
        Quiet-trans
          (if-cases (Quiet may w) _ (call (invalidate_current c false) w) w
            (λ _. call-Quiet _ w (caches c false)) (λ _. Quiet-refl w))
          (invalidate_caches_of-Quiet dbi cs _)

    pub close_after_caches-Quiet :
        (dbi : ℕ) (w : World) → Quiet may w (close_wrapper dbi (invalidate_dbi_cursor_caches dbi w))
    unfolding invalidate_dbi_cursor_caches
    close_after_caches-Quiet dbi w =
        Quiet-trans
          (invalidate_caches_of-Quiet dbi
            (w.shared (w.records (w.dbis dbi).record_id).state).cursors w)
          (close_wrapper-Quiet dbi _)

    pub invalidate_dbi_binding-Quiet :
        (dbi : ℕ) (w : World) → Quiet may w (invalidate_dbi_binding dbi w)
    unfolding invalidate_dbi_binding
    invalidate_dbi_binding-Quiet dbi w =
        if-cases (Quiet may w) (w.dbis dbi).closed w _ (λ _. Quiet-refl w)
          (λ _. Quiet-trans (close_after_caches-Quiet dbi w) (
            Quiet-trans (detach_pending_binding-Quiet dbi _)
              (finalize_empty_dbi_record-Quiet _ false _)))

    pub invalidate_dbi_bindings-Quiet :
        (dbis : List ℕ) (w : World) → Quiet may w (invalidate_dbi_bindings dbis w)
    unfolding invalidate_dbi_bindings
    invalidate_dbi_bindings-Quiet [] w = Quiet-refl w
    invalidate_dbi_bindings-Quiet (d ∷ ds) w =
        Quiet-trans (invalidate_dbi_binding-Quiet d w) (invalidate_dbi_bindings-Quiet ds _)

    finalize_unless_pending-Quiet :
        (pending : Option ℕ) (id : ℕ) (close_native : Bool) (w : World)
        → Quiet may w (finalize_unless_pending pending id close_native w).1
    finalize_unless_pending-Quiet none id close_native w =
        finalize_empty_dbi_record-Quiet id close_native w
    finalize_unless_pending-Quiet (some txn) id close_native w = Quiet-refl w

    pub release_dbi_binding-Quiet :
        (dbi : ℕ) (close_native : Bool) (w : World)
        → Quiet may w (release_dbi_binding dbi close_native w).1
    unfolding release_dbi_binding
    release_dbi_binding-Quiet dbi close_native w =
        let w₁ = close_wrapper dbi (invalidate_dbi_cursor_caches dbi w) in
        if-cases (λ (a : Option (ℕ × ℕ) × World). Quiet may w (a.1)) (w.dbis dbi).closed (none, w) _
          (λ _. Quiet-refl w)
          (λ _.
            Quiet-trans (close_after_caches-Quiet dbi w)
              (finalize_unless_pending-Quiet _ _ close_native w₁))
