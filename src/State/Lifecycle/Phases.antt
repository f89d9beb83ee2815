-- ===== src/State/Lifecycle/Phases.antt =====
-- The phases of a transaction (`markTxnReset`, `markTxnRenewed`, `clearTxnHandle`).
use lmdb_deno.Prelude.{
  ℕ, ◌≡◌, refl, ap, ◌∙◌, Bool, true, false, Option, none, some, Exception, error, ok, err, arith,
}
use lmdb_deno.State.World.{TransactionBinding, TransactionPhase, NativeCall, World, set_transaction}
use lmdb_deno.State.Access.{
  is_poisoned, is_poisoned?, assert_shared_state_usable, transaction_closed,
  require_transaction_binding, get_txn_handle, assert_txn_active, assert_txn_reset,
}
use lmdb_deno.State.Cursors.{finish_transaction_cursors_binding}
use lmdb_deno.State.Transactions.{
  leave_state, detach_transaction_binding, close_transaction_binding, clear_txn_handle, set_phase,
  mark_txn_reset, mark_txn_renewed,
}
use lmdb_deno.State.Quiet.{Quiet, Core, core}
use lmdb_deno.State.Quiet.Cursors.{finish_transaction_cursors_binding-Quiet}

abbrev anything : NativeCall → Bool
anything c = true

-- An owner's transaction, which is live, in a phase, and usable.
pub record IsLive (owner txn handle : ℕ) (phase : TransactionPhase) (w : World) : Type 0 where
  pub bound : w.txn_bindings owner ≡ some txn
  pub live : (w.transactions txn).handle ≡ some handle
  pub in_phase : (w.transactions txn).phase ≡ phase
  pub usable : is_poisoned? (w.transactions txn).state w ≡ false

same-poison :
    (state : Option ℕ) (v w : World)
    → v.registry ≡ w.registry
    → is_poisoned? state v ≡ is_poisoned? state w
same-poison none v w e = refl
same-poison (some s) v w e = ap (λ r. is_poisoned s (record w { registry = r })) e

-- An owner whose binding has no handle.
ended-refused :
    (owner txn : ℕ) (w : World)
    → w.txn_bindings owner ≡ some txn
    → (w.transactions txn).handle ≡ none
    → require_transaction_binding owner w ≡ (err transaction_closed, w)
unfolding require_transaction_binding assert_shared_state_usable
ended-refused owner txn w bound no_handle = ground (arith, bound, no_handle)

module _ (owner txn handle : ℕ) where
  pub require-IsLive :
      (phase : TransactionPhase) (w : World)
      → IsLive owner txn handle phase w
      → require_transaction_binding owner w ≡ (ok txn, w)
  unfolding require_transaction_binding assert_shared_state_usable
  require-IsLive phase w h = ground (arith, h.bound, h.live, h.usable)

  pub get-IsLive :
      (phase : TransactionPhase) (w : World)
      → IsLive owner txn handle phase w
      → get_txn_handle owner w ≡ (ok handle, w)
  unfolding get_txn_handle assert_shared_state_usable
  get-IsLive phase w h = ground (arith, h.bound, h.live, h.usable)

  active-IsLive :
      (w : World)
      → IsLive owner txn handle TransactionPhase.active w
      → assert_txn_active owner w ≡ (ok tt, w)
  unfolding assert_txn_active
  active-IsLive w h =
      rw (get-IsLive TransactionPhase.active w h) (ground (arith, h.bound, h.in_phase))

  abbrev renew_first : Exception
  renew_first = error "The read-only transaction is reset; call renew() first"

  reset-IsLive :
      (w : World)
      → IsLive owner txn handle TransactionPhase.reset w
      → (assert_txn_active owner w ≡ (err renew_first, w)) × (assert_txn_reset owner w ≡ (ok tt, w))
  unfolding assert_txn_active assert_txn_reset
  reset-IsLive w h = (
    rw (get-IsLive TransactionPhase.reset w h) (ground (arith, h.bound, h.in_phase)),
    rw (get-IsLive TransactionPhase.reset w h) (ground (arith, h.bound, h.in_phase)),
  )

  set_phase-IsLive :
      (phase phase' : TransactionPhase) (w : World)
      → IsLive owner txn handle phase w
      → IsLive owner txn handle phase' (set_phase phase' txn w)
  set_phase-IsLive phase phase' w h = record {
    bound = h.bound;
    live = ground (arith, h.live);
    in_phase = ground arith;
    usable = ground (arith, h.usable);
  }

  pub Quiet-IsLive :
      {may : NativeCall → Bool} {w w' : World} (phase : TransactionPhase)
      → Quiet may w w'
      → IsLive owner txn handle phase w
      → IsLive owner txn handle phase w'
  Quiet-IsLive {may} {w} {w'} phase q h =
      let same = q.same_core txn in
      record {
        bound = ap (λ f. f owner) q.same_owners ∙ h.bound;
        live = ap (λ (c : Core). c.handle) same ∙ h.live;
        in_phase = ap (λ (c : Core). c.phase) same ∙ h.in_phase;
        usable =
            same-poison (w'.transactions txn).state w' w q.same_registry
            ∙ ap (λ (c : Core). is_poisoned? c.state w) same
            ∙ h.usable;
      }

  finish-IsLive :
      (phase : TransactionPhase) (w : World)
      → IsLive owner txn handle phase w
      → IsLive owner txn handle phase (finish_transaction_cursors_binding txn w)
  finish-IsLive phase w h =
      Quiet-IsLive phase
        (finish_transaction_cursors_binding-Quiet {may = anything} (λ c f. refl) (λ e i. refl) txn
          w)
        h

  -- A live, active transaction is reset: it then counts as reset, with the same handle, and is not
  -- active. Renewed after that, it is active again, with the same handle.
  pub mark_txn_reset-renewed :
      (w : World)
      → IsLive owner txn handle TransactionPhase.active w
      → (w₁ w₂ : World) × (mark_txn_reset owner w ≡ (ok tt, w₁))
        × IsLive owner txn handle TransactionPhase.reset w₁
        × (assert_txn_active owner w₁ ≡ (err renew_first, w₁))
        × (mark_txn_renewed owner w₁ ≡ (ok tt, w₂))
        × IsLive owner txn handle TransactionPhase.active w₂
        × (assert_txn_active owner w₂ ≡ (ok tt, w₂))
  unfolding mark_txn_reset mark_txn_renewed
  mark_txn_reset-renewed w h =
      let w₁ = finish_transaction_cursors_binding txn (set_phase TransactionPhase.reset txn w) in
      let h₁ =
        finish-IsLive TransactionPhase.reset _ (set_phase-IsLive _ TransactionPhase.reset w h) in
      let w₂ = set_phase TransactionPhase.active txn w₁ in
      let h₂ = set_phase-IsLive _ TransactionPhase.active w₁ h₁ in
      (
        w₁,
        w₂,
        rw (active-IsLive w h, require-IsLive TransactionPhase.active w h) refl,
        h₁,
        (reset-IsLive w₁ h₁).0,
        rw
            (
              get-IsLive TransactionPhase.reset w₁ h₁,
              require-IsLive TransactionPhase.reset w₁ h₁,
              h₁.in_phase,
            )
            refl,
        h₂,
        active-IsLive w₂ h₂,
      )

-- A transaction that has ended.
pub record IsEnded (owner txn : ℕ) (w : World) : Type 0 where
  pub in_phase : (w.transactions txn).phase ≡ TransactionPhase.closed
  pub no_state : (w.transactions txn).state ≡ none
  pub no_environment : (w.transactions txn).environment ≡ none
  pub no_handle : (w.transactions txn).handle ≡ none
  pub bound : w.txn_bindings owner ≡ some txn
  pub refused : require_transaction_binding owner w ≡ (err transaction_closed, w)

detach-core :
    (txn : ℕ) (w : World)
    → (core ((detach_transaction_binding txn w).transactions txn) ≡ record {
      handle = (w.transactions txn).handle;
      state = none;
      environment = none;
      read_only = (w.transactions txn).read_only;
      phase = (w.transactions txn).phase;
    })
      × ((detach_transaction_binding txn w).txn_bindings ≡ w.txn_bindings)
unfolding detach_transaction_binding leave_state
detach-core txn w = (ground arith, ground arith)

-- To detach it again changes nothing of that.
pub detach-IsEnded :
    (owner txn : ℕ) (w : World)
    → IsEnded owner txn w
    → IsEnded owner txn (detach_transaction_binding txn w)
detach-IsEnded owner txn w e =
    let h = detach-core txn w in
    let bound = ap (λ f. f owner) (h.1) ∙ e.bound in
    let no_handle = ap (λ (c : Core). c.handle) (h.0) ∙ e.no_handle in
    record {
      in_phase = ap (λ (c : Core). c.phase) (h.0) ∙ e.in_phase;
      no_state = ap (λ (c : Core). c.state) (h.0);
      no_environment = ap (λ (c : Core). c.environment) (h.0);
      no_handle = no_handle;
      bound = bound;
      refused = ended-refused owner txn _ bound no_handle;
    }

-- Whatever the state of an owner's transaction, `clearTxnHandle` ends it: it belongs to no
-- environment, and every function that needs the transaction throws.
pub clear_txn_handle-IsEnded :
    (owner txn : ℕ) (w : World)
    → w.txn_bindings owner ≡ some txn
    → IsEnded owner txn (clear_txn_handle owner w)
unfolding clear_txn_handle close_transaction_binding
clear_txn_handle-IsEnded owner txn w bound =
    let q =
      finish_transaction_cursors_binding-Quiet {may = anything} (λ c f. refl) (λ e i. refl) txn w in
    let w₁ = finish_transaction_cursors_binding txn w in
    let t : TransactionBinding = record (w₁.transactions txn) {
      handle = none;
      phase = TransactionPhase.closed;
    } in
    let w₂ = set_transaction txn t w₁ in
    let h = detach-core txn w₂ in
    let whole : clear_txn_handle owner w ≡ detach_transaction_binding txn w₂ =
      rw (clear_txn_handle, bound) refl in
    let still : (detach_transaction_binding txn w₂).txn_bindings owner ≡ some txn =
      ap (λ f. f owner) (h.1 ∙ q.same_owners) ∙ bound in
    let ended : IsEnded owner txn (detach_transaction_binding txn w₂) = record {
      in_phase = ap (λ (c : Core). c.phase) (h.0) ∙ ground arith;
      no_state = ap (λ (c : Core). c.state) (h.0);
      no_environment = ap (λ (c : Core). c.environment) (h.0);
      no_handle = ap (λ (c : Core). c.handle) (h.0) ∙ ground arith;
      bound = still;
      refused = ended-refused owner txn _ still (ap (λ (c : Core). c.handle) (h.0) ∙ ground arith);
    } in
    rw whole ended
