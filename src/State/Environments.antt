-- ===== src/State/Environments.antt =====
-- Environment handles (internal/native_state.ts): their wrappers, and the table of the paths.
use lmdb_deno.Prelude.{
  ℕ, suc, ◌+◌, ◌-◌, has, add, delete, Bool, true, false, not, Option, none, some, List, [], ◌∷◌,
  is_some, length, error, Result, ok, err, ◌==◌, if◌then◌else◌,
}
use lmdb_deno.Batch.Protocol.Descriptors.{update_state, poison_shared_environment_state}
use lmdb_deno.State.World.{
  WriterOwner, internal_writer, env_close, World, Action, throw_when, run, ◌>>=◌, ◌>>◌, at,
  set_shared, set_environment, call,
}
use lmdb_deno.State.Access.{
  is_poisoned, handle_of, get_shared_environment, require_environment_binding,
  require_environment_state,
}
use lmdb_deno.State.Records.{find_record}
use lmdb_deno.State.Transactions.{
  abort_transactions, invalidate_transactions, abort_transaction_binding,
}
use lmdb_deno.State.Closing.{has_batch_refs, close_shared_environment_if_unused}

-- `registerEnvHandle`, `clearEnvHandle`.
unfoldable pub register_env_handle : ℕ → ℕ → World → World
register_env_handle owner handle w =
    let id = w.next_object in
    record w {
      env_bindings = at owner (some id) w.env_bindings;
      environments =
          at id (record { handle = some handle; state = none; transactions = [] }) w.environments;
      next_object = suc id;
    }

abbrev pub forget_owner : ℕ → World → World
forget_owner owner w = record w { env_bindings = at owner none w.env_bindings }

unfoldable pub clear_env_handle : ℕ → World → World
clear_env_handle owner w = elim (w.env_bindings owner) [
  | none ↦ forget_owner owner w
  | some b ↦
      forget_owner owner
        (set_environment b (record (w.environments b) { handle = none; state = none }) w)
]

-- `findSharedEnvironment`, `registerSharedEnvironment`.
unfoldable pub find_shared_environment : ℕ → World → Option ℕ
find_shared_environment canonical_path w = find_record canonical_path w.environment_registry

unfoldable pub register_shared_environment : ℕ → Action (Unit {0})
register_shared_environment state w =
    let path = (w.shared state).canonical_path in
    (throw_when (is_some (find_record path w.environment_registry))
          (error "Environment is already registered")
        >> run (λ w₁. record w₁ { environment_registry = (path, state) ∷ w₁.environment_registry }))
      w

abbrev pub count_references : ℕ → (ℕ → ℕ) → World → World
count_references state change w = record w {
  registry = update_state state (λ s. record s { ref_count = change s.ref_count }) w.registry;
}

abbrev pub attach : ℕ → ℕ → World → World
attach binding state w =
    let b = w.environments binding in
    let s = w.shared state in
    count_references state suc (
      set_shared state (record s { wrappers = add binding s.wrappers })
        (set_environment binding
          (record b { handle = some (handle_of state w); state = some state }) w))

-- `attachSharedEnvironment`.
unfoldable pub attach_shared_environment : ℕ → ℕ → Action (Unit {0})
attach_shared_environment owner state =
    require_environment_binding owner >>= λ b. run (attach b state)

abbrev pub leave : ℕ → Option ℕ → World → World
leave binding none w = w
leave binding (some state) w =
    let s = w.shared state in
    if has binding s.wrappers
    then count_references state (λ n. n - 1)
        (set_shared state (record s { wrappers = delete binding s.wrappers }) w)
    else w

-- `detachEnvironmentBinding`.
unfoldable pub detach_environment_binding : ℕ → World → World
detach_environment_binding binding w =
    let b = w.environments binding in
    set_environment binding (record b { handle = none; state = none }) (leave binding b.state w)

-- `detachSharedEnvironment`.
unfoldable pub detach_shared_environment : ℕ → Action ℕ
detach_shared_environment owner = require_environment_binding owner >>= λ b.
    require_environment_state b >>= λ s w.
    (ok s, forget_owner owner (detach_environment_binding b w))

abbrev is_internal_writer_token : Option WriterOwner → Bool
is_internal_writer_token (some (internal_writer t)) = true
is_internal_writer_token _ = false

-- `assertNoSharedEnvironmentOperations`.
unfoldable pub assert_no_shared_environment_operations : ℕ → Action (Unit {0})
assert_no_shared_environment_operations owner = get_shared_environment owner >>= λ s w.
    (throw_when (not ((w.shared s).active_async_operations == 0))
          (error "Cannot close the environment while a sync or copy operation is still active")
        >> (throw_when (is_internal_writer_token (w.shared s).active_writer)
              (error "Cannot close the environment while a batch operation is pending or active")
            >> throw_when (has_batch_refs (w.shared s).dbi_records w)
                (error "Cannot close the environment while a batch DBI is retained")))
      w

-- `finalizeEnvironmentBinding` of a wrapper that is attached to a state, and of another.
unfoldable pub finalize_attached : ℕ → ℕ → Action (Unit {0})
finalize_attached binding state w =
    let transactions = (w.environments binding).transactions in
    let w₁ =
      if is_poisoned state w
      then invalidate_transactions transactions w
      else abort_transactions transactions w in
    close_shared_environment_if_unused state (detach_environment_binding binding w₁)

abbrev pub close_env : Option ℕ → World → World
close_env none w = w
close_env (some handle) w = call (env_close handle) w

abbrev pub finalize_with : Option ℕ → ℕ → Action (Unit {0})
finalize_with (some state) binding w = finalize_attached binding state w
finalize_with none binding w =
    let b = w.environments binding in
    (ok tt, set_environment binding (record b { handle = none }) (close_env b.handle w))

unfoldable pub finalize_environment_binding : ℕ → Action (Unit {0})
finalize_environment_binding binding w = finalize_with (w.environments binding).state binding w

-- `finalizeTransactionBinding`.
unfoldable pub finalize_transaction_binding : ℕ → World → World
finalize_transaction_binding txn w = abort_transaction_binding txn w

-- `NativeBindingCounts`.
pub record NativeBindingCounts : Type 0 where
  pub environments : ℕ
  pub transactions : ℕ
  pub dbis : ℕ
  pub cursors : ℕ
  pub pending_dbis : ℕ
  pub batch_dbi_leases : ℕ

unfoldable pub count_pending : List ℕ → World → ℕ
count_pending [] w = 0
count_pending (t ∷ ts) w = length (w.transactions t).pending_dbis + count_pending ts w

unfoldable pub count_leases : List (ℕ × ℕ) → World → ℕ
count_leases [] w = 0
count_leases ((handle, r) ∷ l) w = (w.records r).batch_refs + count_leases l w

-- `getSharedBindingCounts`.
unfoldable pub get_shared_binding_counts : ℕ → Action NativeBindingCounts
get_shared_binding_counts owner = get_shared_environment owner >>= λ s w. (
  ok (record {
    environments = length (w.shared s).wrappers;
    transactions = length (w.shared s).transactions;
    dbis = length (w.shared s).dbis;
    cursors = length (w.shared s).cursors;
    pending_dbis = count_pending (w.shared s).transactions w;
    batch_dbi_leases = count_leases (w.shared s).dbi_records w;
  }),
  w,
)

abbrev pub poison_state : ℕ → World → Option (Result (Unit {0}) × World)
poison_state state w = elim (w.registry.states state) [
  | none ↦ some (ok tt, w)
  | some s ↦ elim (poison_shared_environment_state state s w.registry) [
    | none ↦ none
    | some registry ↦ some (ok tt, record w { registry = registry })
  ]
]

-- `poisonSharedEnvironment`. There is no result if the random words run out.
unfoldable pub poison_shared_environment : ℕ → World → Option (Result (Unit {0}) × World)
poison_shared_environment owner w =
    let (found, w₁) = get_shared_environment owner w in
    elim found [ ok state ↦ poison_state state w₁ | err e ↦ some (err e, w₁) ]
