-- ===== src/State/Writer/Environments.antt =====
-- Environments (State/Environments) and the actions of State/Transactions, seen from the writer.
use lmdb_deno.Prelude.{ℕ, inl, refl, has, true, not, Option, none, some, if-cases, arith}
use lmdb_deno.State.World.{TransactionPhase, World, Action, proceed, run}
use lmdb_deno.State.Access.{
  is_poisoned, assert_shared_state_usable, require_environment_binding, require_environment_state,
  require_transaction_binding, get_shared_environment, get_txn_handle, assert_txn_active,
  is_phase_reset, must_be_reset,
}
use lmdb_deno.State.Cursors.{
  invalidate_transaction_cursor_caches_binding, prepare_transaction_cursors_for_end_binding,
}
use lmdb_deno.State.Transactions.{
  prepare_transaction_cursors_for_end, invalidate_transaction_cursor_caches_for_write,
  finish_transaction_cursors, mark_txn_reset, mark_txn_renewed, set_phase,
  invalidate_owned_transactions, abort_owned_transactions, promote_pending_dbis,
  invalidate_pending_dbis,
}
use lmdb_deno.State.Closing.{begin_shared_environment_operation}
use lmdb_deno.State.Environments.{
  register_env_handle, clear_env_handle, register_shared_environment, attach_shared_environment,
  leave, detach_environment_binding, detach_shared_environment, finalize_attached, finalize_with,
  finalize_environment_binding, close_env,
}
use lmdb_deno.State.Quiet.Records.{
  promote_pending_dbi_bindings-Quiet, invalidate_pending_dbi_bindings-Quiet,
}
use lmdb_deno.State.Quiet.Cursors.{invalidate_cursors-Quiet, prepare_cursors-Quiet}
use lmdb_deno.State.Writer.{Ends, Ends-refl, Ends-trans, Quiet-Ends}
use lmdb_deno.State.Writer.Ending.{
  anything, finish-Ends, set_transaction-Ends, abort_transactions-Ends,
  invalidate_transactions-Ends,
}
use lmdb_deno.State.Writer.Closing.{same-Ends, set_shared-Ends, close_if_unused-Ends}
use lmdb_deno.State.Writer.Reading.{
  Reads, reads-then, guard-then, assert_shared_state_usable-Reads,
  require_environment_binding-Reads, require_environment_state-Reads, get_shared_environment-Reads,
  require_transaction_binding-Reads, get_txn_handle-Reads,
}

pub register_env_handle-Ends :
    (owner handle : ℕ) (w : World) → Ends w (register_env_handle owner handle w)
unfolding register_env_handle
register_env_handle-Ends owner handle w = same-Ends refl refl

pub clear_env_handle-Ends : (owner : ℕ) (w : World) → Ends w (clear_env_handle owner w)
unfolding clear_env_handle
clear_env_handle-Ends owner w = same-Ends (ground arith) (ground arith)

pub register_shared_environment-Ends :
    (s : ℕ) (w : World) → Ends w (register_shared_environment s w).1
unfolding register_shared_environment
register_shared_environment-Ends s w = same-Ends (ground arith) (ground arith)

pub attach_shared_environment-Ends :
    (owner s : ℕ) (w : World) → Ends w (attach_shared_environment owner s w).1
unfolding attach_shared_environment
attach_shared_environment-Ends owner s w =
    reads-then Ends _ w (require_environment_binding owner w) Ends-refl
      (require_environment_binding-Reads owner w)
      (λ b.
        Ends-trans (set_shared-Ends s _ w (inl refl) (λ t e. refl) (λ t e k. e))
          (same-Ends refl refl))

leave-Ends : (binding : ℕ) (state : Option ℕ) (w : World) → Ends w (leave binding state w)
leave-Ends binding none w = Ends-refl w
leave-Ends binding (some s) w =
    if-cases (Ends w) (has binding (w.shared s).wrappers) _ w
      (λ _.
        Ends-trans (set_shared-Ends s _ w (inl refl) (λ t e. refl) (λ t e k. e))
          (same-Ends refl refl))
      (λ _. Ends-refl w)

detach_environment_binding-Ends : (b : ℕ) (w : World) → Ends w (detach_environment_binding b w)
unfolding detach_environment_binding
detach_environment_binding-Ends b w =
    Ends-trans (leave-Ends b (w.environments b).state w) (same-Ends refl refl)

pub detach_shared_environment-Ends :
    (owner : ℕ) (w : World) → Ends w (detach_shared_environment owner w).1
unfolding detach_shared_environment
detach_shared_environment-Ends owner w =
    reads-then Ends _ w (require_environment_binding owner w) Ends-refl
      (require_environment_binding-Reads owner w)
      (λ b.
        reads-then Ends _ w (require_environment_state b w) Ends-refl
          (require_environment_state-Reads b w)
          (λ s. Ends-trans (detach_environment_binding-Ends b w) (same-Ends refl refl)))

pub begin_operation-Ends :
    (owner : ℕ) (w : World) → Ends w (begin_shared_environment_operation owner w).1
unfolding begin_shared_environment_operation
begin_operation-Ends owner w =
    reads-then Ends _ w (get_shared_environment owner w) Ends-refl
      (get_shared_environment-Reads owner w)
      (λ s.
        reads-then Ends _ w (assert_shared_state_usable (some s) w) Ends-refl
          (assert_shared_state_usable-Reads (some s) w)
          (λ _. set_shared-Ends s _ w (inl refl) (λ t e. refl) (λ t e k. e)))

finalize_attached-Ends : (b s : ℕ) (w : World) → Ends w (finalize_attached b s w).1
unfolding finalize_attached
finalize_attached-Ends b s w =
    Ends-trans
      (if-cases (Ends w) (is_poisoned s w) _ _
        (λ _. invalidate_transactions-Ends (w.environments b).transactions w)
        (λ _. abort_transactions-Ends (w.environments b).transactions w))
      (Ends-trans (detach_environment_binding-Ends b _) (close_if_unused-Ends s _))

close_env-Ends : (handle : Option ℕ) (w : World) → Ends w (close_env handle w)
close_env-Ends none w = Ends-refl w
close_env-Ends (some h) w = same-Ends refl refl

finalize_with-Ends : (b : ℕ) (state : Option ℕ) (w : World) → Ends w (finalize_with state b w).1
finalize_with-Ends b (some s) w = finalize_attached-Ends b s w
finalize_with-Ends b none w =
    Ends-trans (close_env-Ends (w.environments b).handle w) (same-Ends refl refl)

pub finalize_environment_binding-Ends :
    (b : ℕ) (w : World) → Ends w (finalize_environment_binding b w).1
unfolding finalize_environment_binding
finalize_environment_binding-Ends b w = finalize_with-Ends b (w.environments b).state w

-- The actions on the transaction of an owner.
of_txn-Ends :
    (next : ℕ → Action (Unit {0})) (owner : ℕ) (w : World)
    → ((t : ℕ) → Ends w (next t w).1)
    → Ends w (proceed (require_transaction_binding owner w) next).1
of_txn-Ends next owner w follows =
    reads-then Ends next w (require_transaction_binding owner w) Ends-refl
      (require_transaction_binding-Reads owner w) follows

pub prepare_cursors_of-Ends :
    (owner : ℕ) (w : World) → Ends w (prepare_transaction_cursors_for_end owner w).1
unfolding prepare_transaction_cursors_for_end prepare_transaction_cursors_for_end_binding
prepare_cursors_of-Ends owner w = of_txn-Ends _ owner w (λ t. Quiet-Ends (
    prepare_cursors-Quiet {may = anything} (λ c f. refl) (λ h. refl) t (w.transactions t).cursors
      w))

pub invalidate_caches-Ends :
    (owner : ℕ) (w : World) → Ends w (invalidate_transaction_cursor_caches_for_write owner w).1
unfolding invalidate_transaction_cursor_caches_for_write
    invalidate_transaction_cursor_caches_binding
invalidate_caches-Ends owner w = of_txn-Ends _ owner w (λ t.
    Quiet-Ends
      (invalidate_cursors-Quiet {may = anything} (λ c f. refl) (w.transactions t).cursors true w))

pub finish_cursors_of-Ends : (owner : ℕ) (w : World) → Ends w (finish_transaction_cursors owner w).1
unfolding finish_transaction_cursors
finish_cursors_of-Ends owner w = of_txn-Ends _ owner w (λ t. finish-Ends t w)

assert_txn_active-Reads : (owner : ℕ) → Reads (assert_txn_active owner)
unfolding assert_txn_active get_txn_handle assert_shared_state_usable
assert_txn_active-Reads owner w = ground arith

pub mark_txn_reset-Ends : (owner : ℕ) (w : World) → Ends w (mark_txn_reset owner w).1
unfolding mark_txn_reset
mark_txn_reset-Ends owner w =
    reads-then Ends _ w (assert_txn_active owner w) Ends-refl (assert_txn_active-Reads owner w)
      (λ _.
        of_txn-Ends _ owner w
          (λ t. Ends-trans (set_transaction-Ends t _ w refl refl) (finish-Ends t _)))

pub mark_txn_renewed-Ends : (owner : ℕ) (w : World) → Ends w (mark_txn_renewed owner w).1
unfolding mark_txn_renewed
mark_txn_renewed-Ends owner w =
    reads-then Ends _ w (get_txn_handle owner w) Ends-refl (get_txn_handle-Reads owner w) (λ _.
      of_txn-Ends _ owner w (λ t.
        guard-then Ends (run (set_phase TransactionPhase.active t))
          (not (is_phase_reset (w.transactions t).phase)) must_be_reset w Ends-refl
          (λ _. set_transaction-Ends t _ w refl refl)))

pub invalidate_owned-Ends :
    (owner : ℕ) (w : World) → Ends w (invalidate_owned_transactions owner w).1
unfolding invalidate_owned_transactions
invalidate_owned-Ends owner w =
    reads-then Ends _ w (require_environment_binding owner w) Ends-refl
      (require_environment_binding-Reads owner w)
      (λ e. invalidate_transactions-Ends (w.environments e).transactions w)

pub abort_owned-Ends : (owner : ℕ) (w : World) → Ends w (abort_owned_transactions owner w).1
unfolding abort_owned_transactions
abort_owned-Ends owner w =
    reads-then Ends _ w (require_environment_binding owner w) Ends-refl
      (require_environment_binding-Reads owner w)
      (λ e. abort_transactions-Ends (w.environments e).transactions w)

pub promote_pending-Ends : (owner : ℕ) (w : World) → Ends w (promote_pending_dbis owner w).1
unfolding promote_pending_dbis
promote_pending-Ends owner w =
    reads-then Ends _ w (require_transaction_binding owner w) Ends-refl
      (require_transaction_binding-Reads owner w)
      (λ t. Quiet-Ends (promote_pending_dbi_bindings-Quiet {may = anything} t w))

pub invalidate_pending_of-Ends :
    (owner : ℕ) (w : World) → Ends w (invalidate_pending_dbis owner w).1
unfolding invalidate_pending_dbis
invalidate_pending_of-Ends owner w =
    reads-then Ends _ w (require_transaction_binding owner w) Ends-refl
      (require_transaction_binding-Reads owner w)
      (λ t. Quiet-Ends (invalidate_pending_dbi_bindings-Quiet {may = anything} t true w))
