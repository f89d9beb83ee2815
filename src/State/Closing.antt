-- ===== src/State/Closing.antt =====
-- The end of a shared environment (`closeSharedEnvironmentIfUnused` of internal/native_state.ts), and
-- the operations that may bring it about.
use lmdb_deno.Prelude.{
  ℕ, suc, ◌-◌, Bool, true, false, not, ◌||◌, Option, none, some, List, [], ◌∷◌, is_some, error,
  Result, ok, err, ltb, ◌==◌, if◌then◌else◌,
}
use lmdb_deno.Batch.Protocol.Registry.{SharedState}
use lmdb_deno.Batch.Protocol.Descriptors.{retire_shared_environment_generation}
use lmdb_deno.State.World.{
  WriterOwner, internal_writer, SharedBatchClient, cursor_close, env_close, World, Action,
  throw_when, run, ◌>>=◌, ◌>>◌, set_shared, call,
}
use lmdb_deno.State.Access.{
  is_poisoned, handle_of, assert_shared_state_usable, get_shared_environment,
  environment_state_for_owner,
}
use lmdb_deno.State.Records.{is_entry, find_record, delete_key, invalidate_dbi_bindings}
use lmdb_deno.State.Cursors.{close_cursor_binding}
use lmdb_deno.State.Transactions.{close_transaction_binding, second_writer_error}

-- `hasBatchDbiLeases`.
abbrev pub has_batch_refs : List (ℕ × ℕ) → World → Bool
has_batch_refs [] w = false
has_batch_refs ((handle, r) ∷ l) w = not ((w.records r).batch_refs == 0) || has_batch_refs l w

-- The loop over the cursors: the handles of the read cursors, which are to be closed natively.
unfoldable pub close_cursors : List ℕ → World → List ℕ × World
close_cursors [] w = ([], w)
close_cursors (c ∷ cs) w =
    let b = w.cursors c in
    let (handles, w') = close_cursors cs (close_cursor_binding c false false w) in
    (elim b.handle [ none ↦ handles | some h ↦ if b.read_only then h ∷ handles else handles ], w')

unfoldable pub close_transactions : List ℕ → World → World
close_transactions [] w = w
close_transactions (t ∷ ts) w = close_transactions ts (close_transaction_binding t w)

-- `invalidateSharedEnvironmentChildren`.
unfoldable pub invalidate_shared_environment_children : ℕ → World → List ℕ × World
invalidate_shared_environment_children state w =
    let (handles, w₁) = close_cursors (w.shared state).cursors w in
    let w₂ = invalidate_dbi_bindings (w₁.shared state).dbis w₁ in
    let w₃ = close_transactions (w₂.shared state).transactions w₂ in
    (
      handles,
      set_shared state (record (w₃.shared state) { transactions = []; active_writer = none }) w₃,
    )

-- `unregisterSharedEnvironment`. The registry is a `Map` from canonical paths.
unfoldable pub unregister_shared_environment : ℕ → World → World
unregister_shared_environment state w =
    let path = (w.shared state).canonical_path in
    if is_entry (find_record path w.environment_registry) state
    then record w { environment_registry = delete_key path w.environment_registry }
    else w

unfoldable pub close_native_cursors : List ℕ → World → World
close_native_cursors [] w = w
close_native_cursors (h ∷ hs) w = close_native_cursors hs (call (cursor_close h) w)

-- `state.batchClient?.close()`: the client forgets itself, unless it is busy.
abbrev pub is_busy : SharedBatchClient → Bool
is_busy c = c.active || ltb 0 c.queued

abbrev pub close_client : Option SharedBatchClient → ℕ → Action (Unit {0})
close_client none state w = (ok tt, w)
close_client (some c) state w =
    if is_busy c
    then (
      err (error "Cannot close the environment while a batch operation is pending or active"),
      w,
    )
    else (ok tt, set_shared state (record (w.shared state) { batch_client = none }) w)

unfoldable pub close_shared_batch_client : ℕ → Action (Unit {0})
close_shared_batch_client state w = close_client (w.shared state).batch_client state w

abbrev pub with_state : (SharedState → World → World) → Option SharedState → World → World
with_state change none w = w
with_state change (some s) w = change s w

abbrev pub in_registry : (SharedState → World → World) → ℕ → World → World
in_registry change state w = with_state change (w.registry.states state) w

abbrev pub retire_known : ℕ → SharedState → World → World
retire_known state s w = record w {
  registry = retire_shared_environment_generation state s w.registry;
}

abbrev pub retire : ℕ → World → World
retire state w = in_registry (retire_known state) state w

-- What nothing refers to any more is closed, with the read cursors first.
unfoldable pub close_shared_environment : ℕ → World → World
close_shared_environment state w =
    let (handles, w₁) = invalidate_shared_environment_children state (retire state w) in
    if is_poisoned state w₁
    then w₁
    else call (env_close (handle_of state w₁))
        (close_native_cursors handles (unregister_shared_environment state w₁))

abbrev pub is_retired : ℕ → World → Bool
is_retired state w = elim (w.registry.states state) [ none ↦ true | some s ↦ s.generation == 0 ]

abbrev pub is_referenced : ℕ → World → Bool
is_referenced state w = elim (w.registry.states state) [
  | none ↦ false
  | some s ↦ not (s.ref_count == 0)
]

abbrev pub is_in_use : ℕ → World → Bool
is_in_use state w =
    is_referenced state w
    || not ((w.shared state).active_async_operations == 0)
    || is_some (w.shared state).active_writer
    || has_batch_refs (w.shared state).dbi_records w

unfoldable pub close_shared_environment_if_unused : ℕ → Action (Unit {0})
close_shared_environment_if_unused state w =
    if is_retired state w || is_in_use state w
    then (ok tt, w)
    else (close_shared_batch_client state >> run (close_shared_environment state)) w

-- `SharedEnvironmentOperation` and `InternalWriterReservation`.
pub record SharedEnvironmentOperation : Type 0 where
  pub state : ℕ
  pub released : Bool

pub record InternalWriterReservation : Type 0 where
  pub state : ℕ
  pub token : ℕ

unfoldable pub begin_shared_environment_operation : ℕ → Action SharedEnvironmentOperation
begin_shared_environment_operation owner = get_shared_environment owner >>= λ s.
    assert_shared_state_usable (some s) >> λ w. (
      ok (record { state = s; released = false }),
      set_shared s
          (record (w.shared s) {
            active_async_operations = suc (w.shared s).active_async_operations;
          })
          w,
    )

-- The operation object is marked too.
unfoldable pub end_shared_environment_operation :
    SharedEnvironmentOperation → World → (Result (Unit {0}) × World) × SharedEnvironmentOperation
end_shared_environment_operation operation w =
    let s = w.shared operation.state in
    if operation.released then ((ok tt, w), operation) else (
      close_shared_environment_if_unused operation.state (
          set_shared operation.state
            (record s { active_async_operations = s.active_async_operations - 1 }) w),
      record operation { released = true },
    )

-- The token is a new object.
abbrev pub reserve_in : ℕ → World → World
reserve_in s w =
    record (set_shared s
      (record (w.shared s) { active_writer = some (internal_writer w.next_object) }) w) {
        next_object = suc w.next_object;
      }

-- `reserveInternalWriter`.
unfoldable pub reserve_internal_writer : ℕ → Action InternalWriterReservation
reserve_internal_writer env_owner = environment_state_for_owner env_owner >>= λ s.
    assert_shared_state_usable (some s) >> λ w.
    (throw_when (is_some (w.shared s).active_writer) second_writer_error >> λ w₁.
    (ok (record { state = s; token = w₁.next_object }), reserve_in s w₁))
      w

abbrev pub holds_token : Option WriterOwner → ℕ → Bool
holds_token (some (internal_writer t)) token = t == token
holds_token _ token = false

-- `releaseInternalWriter`, of a reservation that is not `undefined`.
unfoldable pub release_internal_writer : InternalWriterReservation → Action (Unit {0})
release_internal_writer reservation w =
    let s = w.shared reservation.state in
    let free = set_shared reservation.state (record s { active_writer = none }) w in
    if holds_token s.active_writer reservation.token
    then close_shared_environment_if_unused reservation.state free
    else (ok tt, w)
