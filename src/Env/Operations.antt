-- ===== src/Env/Operations.antt =====
-- `copy` and `sync` of `Env` (env.ts): an operation of the shared environment is pending until the
-- promise of the native call is settled.
use lmdb_deno.Prelude.{
  ℕ, suc, ◌≡◌, refl, sym, ap, ◌∙◌, false, Option, none, some, Exception, error, Result, ok, err,
  ◌==◌, arith,
}
use lmdb_deno.State.World.{World, Action, set_shared, proceed, ◌>>◌}
use lmdb_deno.State.Access.{get_shared_environment, assert_shared_state_usable}
use lmdb_deno.State.Closing.{
  SharedEnvironmentOperation, begin_shared_environment_operation, end_shared_environment_operation,
}
use lmdb_deno.State.Environments.{assert_no_shared_environment_operations}
use lmdb_deno.Dbi.{ensure_with}
use lmdb_deno.Env.{EnvironmentStatus, Env, assert_open}
use lmdb_deno.Env.Opening.{leave, close_opened, close_with, close}

-- What `copy` and `sync` do before the native call, whose arguments have their types.
unfoldable pub start_operation : Env → Action SharedEnvironmentOperation
start_operation e = assert_open e >> begin_shared_environment_operation e.object

-- The `finally` of the promise, which settles as the native call has done unless that throws.
abbrev pub settled :
    Result (Unit {0})
    → (Result (Unit {0}) × World) × SharedEnvironmentOperation
    → (Result (Unit {0}) × World) × SharedEnvironmentOperation
settled answer (r, operation) = (ensure_with answer r, operation)

unfoldable pub settle_operation :
    Result (Unit {0})
    → SharedEnvironmentOperation
    → World
    → (Result (Unit {0}) × World) × SharedEnvironmentOperation
settle_operation answer operation w = settled answer (end_shared_environment_operation operation w)

-- What the callback is called with.
unfoldable pub callback_error : Result (Unit {0}) → Option Exception
callback_error (ok _) = none
callback_error (err e) = some e

abbrev pub active_operation : Exception
active_operation =
    error "Cannot close the environment while a sync or copy operation is still active"

-- The operation counts.
begin-counts :
    (object : ℕ) (operation : SharedEnvironmentOperation) (w w' : World)
    → begin_shared_environment_operation object w ≡ (ok operation, w')
    → ((w'.shared operation.state).active_async_operations == 0) ≡ false
unfolding begin_shared_environment_operation
begin-counts object operation w w' e = found (get_shared_environment object w) e
  where
    next : ℕ → Action SharedEnvironmentOperation
    next s = assert_shared_state_usable (some s) >> λ v. (
      ok (record { state = s; released = false }),
      set_shared s
          (record (v.shared s) {
            active_async_operations = suc (v.shared s).active_async_operations;
          })
          v,
    )

    usable :
        (s : ℕ) (x : Result (Unit {0}) × World)
        → proceed x (λ _ v. (
          ok (record { state = s; released = false }),
          set_shared s
              (record (v.shared s) {
                active_async_operations = suc (v.shared s).active_async_operations;
              })
              v,
        ))
          ≡ (ok operation, w')
        → ((w'.shared operation.state).active_async_operations == 0) ≡ false
    usable s (ok _, v) f =
        let same : operation ≡ record { state = s; released = false } = ground arith in
        let there = ap (λ x. x.1) f in rw (same, sym there) (ground arith)
    usable s (err y, v) f = absurd (ground arith)

    found :
        (x : Result ℕ × World)
        → proceed x next ≡ (ok operation, w')
        → ((w'.shared operation.state).active_async_operations == 0) ≡ false
    found (ok s, v) f = usable s (assert_shared_state_usable (some s) v) f
    found (err y, v) f = absurd (ground arith)

-- Right after a copy or a sync has begun, closing an open object of the same shared environment throws
-- and changes nothing.
pub start_operation-close :
    (e f : Env) (operation : SharedEnvironmentOperation) (w w' : World)
    → start_operation e w ≡ (ok operation, w')
    → f.status ≡ EnvironmentStatus.opened
    → get_shared_environment f.object w' ≡ (ok operation.state, w')
    → close f w' ≡ ((err active_operation, w'), f)
unfolding start_operation close assert_no_shared_environment_operations leave
start_operation-close e f operation w w' begun open_status shared =
    counted (begun_by (assert_open e w) begun)
  where
    begun_by :
        (x : Result (Unit {0}) × World)
        → proceed x (λ _. begin_shared_environment_operation e.object) ≡ (ok operation, w')
        → ((w'.shared operation.state).active_async_operations == 0) ≡ false
    begun_by (ok _, v) h = begin-counts e.object operation v w' h
    begun_by (err y, v) h = absurd (ground arith)

    counted :
        ((w'.shared operation.state).active_async_operations == 0) ≡ false
        → close f w' ≡ ((err active_operation, w'), f)
    counted h =
        let refused : assert_no_shared_environment_operations f.object w'
            ≡ (err active_operation, w') =
          rw (assert_no_shared_environment_operations, shared, h) refl in
        let stays : leave f.object w' ≡ (err active_operation, w') =
          rw (leave, shared, refused) refl in
        ap (λ st. close_with st f w') open_status ∙ ap (close_opened f) stays
