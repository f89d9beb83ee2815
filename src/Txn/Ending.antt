-- ===== src/Txn/Ending.antt =====
-- How `commit` and `abort` leave a transaction (txn.ts).
use lmdb_deno.Prelude.{ℕ, ◌≡◌, ◌∙◌, refl, Bool, true, false, some, Result, ok, err, arith}
use lmdb_deno.State.World.{
  TransactionPhase, NativeCall, txn_abort, txn_commit, World, proceed, run, call, ◌>>=◌,
}
use lmdb_deno.State.Records.{
  close_deferred_dbis, promote_pending_dbi_bindings, invalidate_pending_dbi_bindings,
}
use lmdb_deno.State.Cursors.{prepare_cursors, prepare_transaction_cursors_for_end_binding}
use lmdb_deno.State.Transactions.{
  clear_txn_handle, prepare_transaction_cursors_for_end, detach_transaction_binding,
  unregister_owned_transaction, promote_pending_dbis, invalidate_pending_dbis,
}
use lmdb_deno.State.Quiet.{Quiet-trans, call-Quiet}
use lmdb_deno.State.Quiet.Records.{
  promote_pending_dbi_bindings-Quiet, invalidate_pending_dbi_bindings-Quiet,
  close_deferred_dbis-Quiet,
}
use lmdb_deno.State.Quiet.Cursors.{prepare_cursors-Quiet}
use lmdb_deno.State.Lifecycle.Phases.{
  IsLive, IsEnded, require-IsLive, get-IsLive, Quiet-IsLive, detach-IsEnded,
  clear_txn_handle-IsEnded,
}
use lmdb_deno.Txn.{
  TxnApi, Txn, remove_from_env, after_commit, commit_prepared, try_commit, end_pending, conclude,
  close_unless, commit, try_abort, abort,
}

abbrev anything : NativeCall → Bool
anything c = true

-- What `commit` and `abort` return, with the object that they leave.
abbrev Outcome : Type 0
Outcome = (Result (Unit {0}) × World) × Txn

-- The transaction has ended, is registered no more, and this is returned or thrown.
pub record Concludes (object txn : ℕ) (thrown : Result (Unit {0})) (r : Outcome) : Type 0 where
  pub returns : r.0.0 ≡ thrown
  pub ended : IsEnded object txn (r.0.1)
  pub unregistered : r.1.registered ≡ false

unregister-IsEnded :
    (object txn : ℕ) (w : World)
    → IsEnded object txn w
    → IsEnded object txn (unregister_owned_transaction object w)
unfolding unregister_owned_transaction
unregister-IsEnded object txn w e =
    let whole : unregister_owned_transaction object w ≡ detach_transaction_binding txn w =
      rw (unregister_owned_transaction, e.bound) refl in
    rw whole (detach-IsEnded object txn w e)

remove-Concludes :
    (t : Txn) (txn : ℕ) (thrown : Result (Unit {0})) (w : World) (registered : Bool)
    → t.registered ≡ registered
    → IsEnded t.object txn w
    → Concludes t.object txn thrown (let (t', w') = remove_from_env t w in ((thrown, w'), t'))
unfolding remove_from_env
remove-Concludes t txn thrown w true e h =
    rw e
      (record { returns = refl; ended = unregister-IsEnded t.object txn w h; unregistered = refl })
remove-Concludes t txn thrown w false e h =
    rw e (record { returns = refl; ended = h; unregistered = refl })

conclude-Concludes :
    (t : Txn) (txn : ℕ) (thrown : Result (Unit {0})) (x : Result (Unit {0}) × World)
    → x.0 ≡ ok tt
    → (x.1).txn_bindings t.object ≡ some txn
    → Concludes t.object txn thrown (conclude t thrown x)
conclude-Concludes t txn thrown (ok _, w) e bound =
    remove-Concludes t txn thrown (clear_txn_handle t.object w) t.registered refl
      (clear_txn_handle-IsEnded t.object txn w bound)
conclude-Concludes t txn thrown (err x, w) e bound = absurd (ground arith)

module _ (object txn handle : ℕ) (phase : TransactionPhase) where
  abbrev Live : World → Type 0
  Live w = IsLive object txn handle phase w

  -- A step that does not throw and leaves the transaction live.
  abbrev Passes : Result (Unit {0}) × World → Type 0
  Passes x = (x.0 ≡ ok tt) × Live (x.1)

  prepare-Passes : (w : World) → Live w → Passes (prepare_transaction_cursors_for_end object w)
  unfolding prepare_transaction_cursors_for_end prepare_transaction_cursors_for_end_binding
  prepare-Passes w h =
      let whole : prepare_transaction_cursors_for_end object w
          ≡ (ok tt, prepare_cursors txn (w.transactions txn).cursors w) =
        rw (prepare_transaction_cursors_for_end, require-IsLive object txn handle phase w h) refl in
      rw whole (
        refl,
        Quiet-IsLive object txn handle phase
            (prepare_cursors-Quiet {may = anything} (λ c f. refl) (λ i. refl) txn
              (w.transactions txn).cursors w)
            h,
      )

  promote-Passes :
      (w : World)
      → Live w
      → Passes ((promote_pending_dbis object >>= λ closes. run (close_deferred_dbis closes)) w)
  unfolding promote_pending_dbis
  promote-Passes w h =
      let closes = (promote_pending_dbi_bindings txn w).0 in
      let whole : (promote_pending_dbis object >>= λ cs. run (close_deferred_dbis cs)) w
          ≡ (ok tt, close_deferred_dbis closes (promote_pending_dbi_bindings txn w).1) =
        rw (promote_pending_dbis, require-IsLive object txn handle phase w h) refl in
      rw whole (
        refl,
        Quiet-IsLive object txn handle phase
            (Quiet-trans {may = anything} (promote_pending_dbi_bindings-Quiet txn w)
              (close_deferred_dbis-Quiet (λ e i. refl) closes _))
            h,
      )

  end_pending-Passes : (w : World) → Live w → Passes (end_pending object w)
  unfolding invalidate_pending_dbis
  end_pending-Passes w h =
      let closes = (invalidate_pending_dbi_bindings txn true w).0 in
      let whole : end_pending object w
          ≡ (ok tt, close_deferred_dbis closes (invalidate_pending_dbi_bindings txn true w).1) =
        rw (invalidate_pending_dbis, require-IsLive object txn handle phase w h) refl in
      rw whole (
        refl,
        Quiet-IsLive object txn handle phase
            (Quiet-trans {may = anything} (invalidate_pending_dbi_bindings-Quiet txn true w)
              (close_deferred_dbis-Quiet (λ e i. refl) closes _))
            h,
      )

  call-Live : (c : NativeCall) (w : World) → Live w → Live (call c w)
  call-Live c w h = Quiet-IsLive object txn handle phase (call-Quiet {may = anything} c w refl) h

  close_unless-Passes :
      (committed : Bool) (w : World) → Live w → Passes (close_unless committed object w)
  close_unless-Passes true w h = (refl, h)
  close_unless-Passes false w h = end_pending-Passes w h

  after_commit-Live :
      (answer : Result (Unit {0})) (w : World)
      → Live w
      → ((after_commit object answer w).0.0 ≡ answer) × Live ((after_commit object answer w).0.1)
  after_commit-Live (err e) w h = (refl, h)
  after_commit-Live (ok _) w h = promote-Passes w h

  commit_prepared-Live :
      (api : TxnApi) (x : Result (Unit {0}) × World)
      → Passes x
      → ((commit_prepared api object handle x).0.0 ≡ api.txn_commit handle (x.1))
        × Live ((commit_prepared api object handle x).0.1)
  commit_prepared-Live api (ok _, w) h =
      after_commit-Live (api.txn_commit handle w) (call (txn_commit handle) w)
        (call-Live (txn_commit handle) w (h.1))
  commit_prepared-Live api (err e, w) h = absurd (ground (arith, h.0))

abort_prepared-Passes :
    (object txn handle : ℕ) (phase : TransactionPhase) (x : Result (Unit {0}) × World)
    → (x.0 ≡ ok tt) × IsLive object txn handle phase (x.1)
    → ((proceed x (λ _. run (call (txn_abort handle)))).0 ≡ ok tt)
      × IsLive object txn handle phase (proceed x (λ _. run (call (txn_abort handle)))).1
abort_prepared-Passes object txn handle phase (ok _, w) h =
    (refl, call-Live object txn handle phase (txn_abort handle) w (h.1))
abort_prepared-Passes object txn handle phase (err e, w) h = absurd (ground (arith, h.0))

-- However LMDB answers the commit of a live transaction, which it is asked when the cursors are
-- prepared for the end, `commit` returns or throws that answer, and the transaction has ended: it
-- belongs to no environment, and whatever needs it throws.
pub commit-Concludes :
    (api : TxnApi) (t : Txn) (txn handle : ℕ) (phase : TransactionPhase) (w : World)
    → IsLive t.object txn handle phase w
    → Concludes t.object txn
        (api.txn_commit handle (prepare_transaction_cursors_for_end t.object w).1)
        (commit api t w)
unfolding commit try_commit
commit-Concludes api t txn handle phase w h =
    let prepared = prepare_transaction_cursors_for_end t.object w in
    let y = commit_prepared api t.object handle prepared in
    let tried =
      commit_prepared-Live t.object txn handle phase api prepared
        (prepare-Passes t.object txn handle phase w h) in
    let closed = close_unless-Passes t.object txn handle phase (y.1) (y.0.1) (tried.1) in
    let whole : commit api t w ≡ conclude t (y.0.0) (close_unless (y.1) t.object (y.0.1)) =
      rw (commit, get-IsLive t.object txn handle phase w h) refl in
    let done =
      conclude-Concludes t txn (y.0.0) (close_unless (y.1) t.object (y.0.1)) (closed.0)
        (closed.1.bound) in
    rw whole (record {
      returns = done.returns ∙ tried.0;
      ended = done.ended;
      unregistered = done.unregistered;
    })

-- A live transaction is aborted without a throw, and has ended.
pub abort-Concludes :
    (t : Txn) (txn handle : ℕ) (phase : TransactionPhase) (w : World)
    → IsLive t.object txn handle phase w
    → Concludes t.object txn (ok tt) (abort t w)
unfolding abort try_abort
abort-Concludes t txn handle phase w h =
    let y = try_abort t.object handle w in
    let tried =
      abort_prepared-Passes t.object txn handle phase
        (prepare_transaction_cursors_for_end t.object w)
        (prepare-Passes t.object txn handle phase w h) in
    let closed = end_pending-Passes t.object txn handle phase (y.1) (tried.1) in
    let whole : abort t w ≡ conclude t (y.0) (end_pending t.object (y.1)) =
      rw (abort, get-IsLive t.object txn handle phase w h) refl in
    let done =
      conclude-Concludes t txn (y.0) (end_pending t.object (y.1)) (closed.0) (closed.1.bound) in
    rw whole (record {
      returns = done.returns ∙ tried.0;
      ended = done.ended;
      unregistered = done.unregistered;
    })
