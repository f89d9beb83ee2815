-- ===== src/State/Order.antt =====
-- The native calls that end transactions and environments, in their order.
use lmdb_deno.Prelude.{
  ℕ, ◌≡◌, ◌≢◌, refl, ap, ◌∙◌, sym, Bool, true, false, not, ◌&&◌, ◌||◌, Option, none, some, List, [],
  ◌∷◌, ◌++◌, ◌==◌, append-nil, append_assoc, arith,
}
use lmdb_deno.State.World.{
  NativeCall, cursor_close, txn_abort, env_close, dbi_close, invalidate_current, World,
  TransactionPhase, set_transaction,
}
use lmdb_deno.State.Cursors.{finish_transaction_cursors_binding}
use lmdb_deno.State.Transactions.{
  leave_environment, leave_state, detach_transaction_binding, close_transaction_binding,
}
use lmdb_deno.State.Quiet.{Quiet, AllCalls, AllCalls-append}
use lmdb_deno.State.Quiet.Cursors.{finish_transaction_cursors_binding-Quiet}
pub mod Abort
pub mod Retire
pub mod Close

-- What is known of the registry and the calls, if nothing else is.
pub record Calm (may : NativeCall → Bool) (w w' : World) : Type 0 where
  pub same_registry : w'.registry ≡ w.registry
  pub same_paths : w'.environment_registry ≡ w.environment_registry
  pub same_owners : w'.txn_bindings ≡ w.txn_bindings
  pub new_calls : List NativeCall
  pub calls_grow : w'.calls ≡ w.calls ++ new_calls
  pub calls_allowed : AllCalls may new_calls

module _ {may : NativeCall → Bool} where
  pub Quiet-Calm : {w w' : World} → Quiet may w w' → Calm may w w'
  Quiet-Calm h = record {
    same_registry = h.same_registry;
    same_paths = h.same_paths;
    same_owners = h.same_owners;
    new_calls = h.new_calls;
    calls_grow = h.calls_grow;
    calls_allowed = h.calls_allowed;
  }

  pub Calm-trans : {u v w : World} → Calm may u v → Calm may v w → Calm may u w
  Calm-trans {u} h k = record {
    same_registry = k.same_registry ∙ h.same_registry;
    same_paths = k.same_paths ∙ h.same_paths;
    same_owners = k.same_owners ∙ h.same_owners;
    new_calls = h.new_calls ++ k.new_calls;
    calls_grow =
        k.calls_grow
        ∙ ap (λ cs. cs ++ k.new_calls) h.calls_grow
        ∙ append_assoc u.calls h.new_calls k.new_calls;
    calls_allowed = AllCalls-append may h.new_calls k.new_calls h.calls_allowed k.calls_allowed;
  }

  -- Nothing of it changes.
  pub still-Calm :
      {w w' : World}
      → w'.registry ≡ w.registry
      → w'.environment_registry ≡ w.environment_registry
      → w'.txn_bindings ≡ w.txn_bindings
      → w'.calls ≡ w.calls
      → Calm may w w'
  unfolding AllCalls
  still-Calm {w} registry paths owners calls = record {
    same_registry = registry;
    same_paths = paths;
    same_owners = owners;
    new_calls = [];
    calls_grow = calls ∙ sym (append-nil w.calls);
    calls_allowed = tt;
  }

  detach_transaction_binding-Calm :
      (txn : ℕ) (w : World) → Calm may w (detach_transaction_binding txn w)
  unfolding detach_transaction_binding leave_state
  detach_transaction_binding-Calm txn w =
      still-Calm (ground arith) (ground arith) (ground arith) (ground arith)

  pub close_transaction_binding-Calm :
      ((c : ℕ) (fallback : Bool) → may (invalidate_current c fallback) ≡ true)
      → ((environment handle : ℕ) → may (dbi_close environment handle) ≡ true)
      → (txn : ℕ) (w : World) → Calm may w (close_transaction_binding txn w)
  unfolding close_transaction_binding
  close_transaction_binding-Calm caches closes txn w =
      Calm-trans (Quiet-Calm (finish_transaction_cursors_binding-Quiet caches closes txn w))
        (Calm-trans (still-Calm refl refl refl refl) (detach_transaction_binding-Calm txn _))
