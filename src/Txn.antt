-- ===== src/Txn.antt =====
-- The class `Txn` (txn.ts): how a transaction begins, is reset and renewed, and ends.
use lmdb_deno.Prelude.{
  ℕ, Bool, true, false, not, ◌&&◌, Option, none, some, List, [], ◌∷◌, Exception, error, Result, ok,
  err, if◌then◌else◌,
}
use lmdb_deno.State.World.{
  NativeCall, txn_abort, txn_commit, txn_reset, txn_renew, World, Action, proceed, pure, throw,
  throw_when, run, ◌>>=◌, ◌>>◌, call,
}
use lmdb_deno.State.Access.{get_env_handle, get_txn_handle, assert_txn_active, assert_txn_reset}
use lmdb_deno.State.Records.{close_deferred_dbis}
use lmdb_deno.State.Transactions.{
  clear_txn_handle, register_txn_handle, prepare_transaction_cursors_for_end, mark_txn_reset,
  mark_txn_renewed, has_owned_write_transaction, second_writer_error, register_owned_transaction,
  unregister_owned_transaction, promote_pending_dbis, invalidate_pending_dbis,
}
pub mod Ending
pub mod Access
pub mod Clearing
pub mod Writing
pub mod Batched

-- What LMDB answers, which may depend on all that was done before. An abort cannot fail.
pub record TxnApi : Type 0 where
  pub txn_begin : (environment : ℕ) (read_only : Bool) → World → Result ℕ
  pub txn_commit : (txn : ℕ) → World → Result (Unit {0})
  pub txn_renew : (txn : ℕ) → World → Result (Unit {0})

-- The fields of a `Txn`. `object` is its identity, `env` that of its `Env`.
pub record Txn : Type 0 where
  pub object : ℕ
  pub env : ℕ
  pub registered : Bool
  pub is_readonly : Bool

-- `#removeFromEnv`.
unfoldable pub remove_from_env : Txn → World → Txn × World
remove_from_env t w =
    if t.registered
    then (record t { registered = false }, unregister_owned_transaction t.object w)
    else (t, w)

-- A call that LMDB answers.
abbrev pub native : {A : Type 0} → NativeCall → (World → Result A) → Action A
native c answer w = (answer w, call c w)

abbrev pub end_pending : ℕ → Action (Unit {0})
end_pending object = invalidate_pending_dbis object >>= λ closes. run (close_deferred_dbis closes)

-- The `finally` of `commit` and of `abort`: what was thrown before is thrown after it.
abbrev pub conclude :
    Txn → Result (Unit {0}) → Result (Unit {0}) × World → (Result (Unit {0}) × World) × Txn
conclude t thrown (err e, w) = ((err e, w), t)
conclude t thrown (ok _, w) =
    let (t', w') = remove_from_env t (clear_txn_handle t.object w) in ((thrown, w'), t')

abbrev pub close_unless : Bool → ℕ → Action (Unit {0})
close_unless true object w = (ok tt, w)
close_unless false object w = end_pending object w

-- The `try` of `abort`.
unfoldable pub try_abort : ℕ → ℕ → Action (Unit {0})
try_abort object handle =
    prepare_transaction_cursors_for_end object >> run (call (txn_abort handle))

abbrev pub abort_live : Txn → Result ℕ × World → (Result (Unit {0}) × World) × Txn
abort_live t (err e, w) = ((err e, w), t)
abort_live t (ok handle, w) =
    let (thrown, w₁) = try_abort t.object handle w in conclude t thrown (end_pending t.object w₁)

unfoldable pub abort : Txn → World → (Result (Unit {0}) × World) × Txn
abort t w = abort_live t (get_txn_handle t.object w)

unfoldable pub reset : Txn → Action (Unit {0})
reset t =
    throw_when (not t.is_readonly) (error "Only read-only transactions can be reset")
    >> (assert_txn_active t.object
        >> (prepare_transaction_cursors_for_end t.object
            >> (get_txn_handle t.object >>= λ handle.
                run (call (txn_reset handle)) >> mark_txn_reset t.object)))

-- The `try` of `commit`, with whether the transaction was committed.
abbrev pub after_commit : ℕ → Result (Unit {0}) → World → (Result (Unit {0}) × World) × Bool
after_commit object (err e) w = ((err e, w), false)
after_commit object (ok _) w =
    ((promote_pending_dbis object >>= λ closes. run (close_deferred_dbis closes)) w, true)

module _ (api : TxnApi) where
  -- The constructor, once LMDB has begun the transaction.
  unfoldable pub register : ℕ → ℕ → Bool → ℕ → Action Txn
  register object env readonly handle w =
      let (registered, w₁) =
        register_owned_transaction env object readonly (register_txn_handle object handle w) in
      elim registered [
        | ok _ ↦ (
          ok (record { object = object; env = env; registered = true; is_readonly = readonly }),
          w₁,
        )
        | err e ↦ (err e, clear_txn_handle object (call (txn_abort handle) w₁))
      ]

  -- The constructor of the object `object`.
  unfoldable pub construct : ℕ → ℕ → Bool → Action Txn
  construct object env readonly =
      (if readonly then pure false else has_owned_write_transaction env) >>= λ owned.
      throw_when owned second_writer_error
      >> (get_env_handle env >>= λ handle w.
          ((λ v. (api.txn_begin handle readonly v, v)) >>= register object env readonly) w)

  abbrev pub commit_prepared :
      ℕ → ℕ → Result (Unit {0}) × World → (Result (Unit {0}) × World) × Bool
  commit_prepared object handle (err e, w) = ((err e, w), false)
  commit_prepared object handle (ok _, w) =
      after_commit object (api.txn_commit handle w) (call (txn_commit handle) w)

  unfoldable pub try_commit : ℕ → ℕ → World → (Result (Unit {0}) × World) × Bool
  try_commit object handle w =
      commit_prepared object handle (prepare_transaction_cursors_for_end object w)

  abbrev pub commit_with : Txn → Result ℕ × World → (Result (Unit {0}) × World) × Txn
  commit_with t (err e, w) = ((err e, w), t)
  commit_with t (ok handle, w) =
      let ((thrown, w₁), committed) = try_commit t.object handle w in
      conclude t thrown (close_unless committed t.object w₁)

  unfoldable pub commit : Txn → World → (Result (Unit {0}) × World) × Txn
  commit t w = commit_with t (get_txn_handle t.object w)

  unfoldable pub renew : Txn → Action (Unit {0})
  renew t =
      throw_when (not t.is_readonly) (error "Only read-only transactions can be renewed")
      >> (assert_txn_reset t.object
          >> (get_txn_handle t.object >>= λ handle.
              native (txn_renew handle) (api.txn_renew handle) >> mark_txn_renewed t.object))
