-- ===== src/Env/Opening.antt =====
-- `Env`: how an environment is created, opened and closed (env.ts).
use lmdb_deno.Prelude.{
  ℕ, Bool, true, false, not, ◌&&◌, Option, none, some, List, [], ◌∷◌, error, range_error, Result,
  ok, err, ◌==◌, if◌then◌else◌,
}
use lmdb_deno.Encoding.Text.{CodeUnits}
use lmdb_deno.Encoding.Values.{Number}
use lmdb_deno.Batch.Protocol.Registry.{Registry}
use lmdb_deno.Batch.Protocol.Descriptors.{next_environment_generation}
use lmdb_deno.State.World.{env_close, World, Action, pure, throw_when, ◌>>=◌, ◌>>◌, call}
use lmdb_deno.State.Access.{
  is_poisoned, handle_of, poisoned_error, get_shared_environment, get_env_handle,
}
use lmdb_deno.State.Transactions.{invalidate_owned_transactions, abort_owned_transactions}
use lmdb_deno.State.Closing.{
  invalidate_shared_environment_children, unregister_shared_environment, close_native_cursors,
  close_shared_batch_client, retire, is_retired, is_referenced,
}
use lmdb_deno.State.Environments.{
  register_env_handle, find_shared_environment, register_shared_environment,
  attach_shared_environment, detach_shared_environment, assert_no_shared_environment_operations,
}
use lmdb_deno.Txn
use lmdb_deno.Txn.{TxnApi, Txn}
use lmdb_deno.Dbi.{ask, when, DbiApi, DbiOptions, open_dbi}
use lmdb_deno.Env.Paths.{PathApi, canonicalize_environment_path}
use lmdb_deno.Env.{
  EnvApi, EnvironmentStatus, Env, EnvOptions, NativeOpenOptions, normalize_native_options,
  is_positive_integer, validate_open_options, already_open, already_closed, assert_open, handle,
  with_status, discard, fresh_state,
}

-- A method returns the object beside what it returns or throws.
abbrev pub Outcome : Type 0
Outcome = (Result (Unit {0}) × World) × Env

-- The end of `open`: the object is open unless that throws.
abbrev pub opened_by : Env → Result (Unit {0}) × World → Outcome
opened_by e (ok _, w) = ((ok tt, w), with_status e EnvironmentStatus.opened)
opened_by e (err x, w) = ((err x, w), e)

-- An environment that is open at the path already.
abbrev pub open_existing_at : Env → ℕ → Bool → Result ℕ × World → Outcome
open_existing_at e existing poisoned (err x, w) = ((err x, w), e)
open_existing_at e existing true (ok h, w) =
    ((err poisoned_error, discard e.object h w), with_status e EnvironmentStatus.closed)
open_existing_at e existing false (ok h, w) =
    opened_by e (attach_shared_environment e.object existing (call (env_close h) w))

unfoldable pub open_existing : Env → ℕ → World → Outcome
open_existing e existing w =
    open_existing_at e existing (is_poisoned existing w) (get_env_handle e.object w)

-- The new state is registered and attached. There is none if the random words run out.
abbrev pub publish_drawn : EnvApi → Env → ℕ → ℕ → World → Option (ℕ × Registry) → Option Outcome
publish_drawn api e path h w none = none
publish_drawn api e path h w (some (generation, registry)) =
    let (id, w₁) = fresh_state api.library_path path h generation registry w in
    some
      (opened_by e ((register_shared_environment id >> attach_shared_environment e.object id) w₁))

unfoldable pub publish : EnvApi → Env → ℕ → ℕ → World → Option Outcome
publish api e path h w = publish_drawn api e path h w (next_environment_generation w.registry)

unfoldable pub construct : EnvApi → ℕ → Action Env
construct api object = ask api.env_create >>= λ h w. (
  ok (record { object = object; status = EnvironmentStatus.unopened; use_worker = true }),
  register_env_handle object h w,
)

module _ (api : EnvApi) (paths : PathApi) where
  abbrev pub set_map_size : ℕ → Option Number → Action (Unit {0})
  set_map_size h none = pure tt
  set_map_size h (some size) = ask (api.env_set_mapsize h size)

  -- The `try` of `open`.
  unfoldable pub configure : ℕ → CodeUnits → NativeOpenOptions → Action (Unit {0})
  configure h path o =
      ask (api.env_set_maxdbs h o.max_dbs)
      >> (ask (api.env_set_maxreaders h o.max_readers)
          >> (set_map_size h o.map_size >> ask (api.env_open h path o.flags)))

  abbrev pub configured : Env → ℕ → ℕ → Result (Unit {0}) × World → Option Outcome
  configured e path h (err x, w) =
      some ((err x, discard e.object h w), with_status e EnvironmentStatus.closed)
  configured e path h (ok _, w) = publish api e path h w

  abbrev pub open_fresh_at : Env → ℕ → EnvOptions → Result ℕ × World → Option Outcome
  open_fresh_at e path o (err x, w) = some ((err x, w), e)
  open_fresh_at e path o (ok h, w) =
      configured e path h (configure h o.path (normalize_native_options o) w)

  abbrev pub open_found : Env → ℕ → EnvOptions → World → Option ℕ → Option Outcome
  open_found e path o w (some existing) = some (open_existing e existing w)
  open_found e path o w none = open_fresh_at e path o (get_env_handle e.object w)

  abbrev pub open_located : Env → EnvOptions → World → Result CodeUnits → Option Outcome
  open_located e o w (err x) = some ((err x, w), e)
  open_located e o w (ok canonical) =
      let path = paths.number_of canonical in
      open_found (record e { use_worker = o.use_worker }) path o w (find_shared_environment path w)

  abbrev pub open_at : Env → EnvOptions → Result (Unit {0}) × World → Option Outcome
  open_at e o (err x, w) = some ((err x, w), e)
  open_at e o (ok _, w) =
      open_located e o w (canonicalize_environment_path paths o.path o.no_subdir w)

  abbrev pub open_with : EnvironmentStatus → Env → EnvOptions → World → Option Outcome
  open_with EnvironmentStatus.opened e o w = some ((err already_open, w), e)
  open_with EnvironmentStatus.closed e o w = some ((err already_closed, w), e)
  open_with EnvironmentStatus.unopened e o w = open_at e o (validate_open_options o w)

  -- `open`.
  unfoldable pub open_env : Env → EnvOptions → World → Option Outcome
  open_env e o w = open_with e.status e o w

  -- `resize`.
  abbrev pub is_empty : List ℕ → Bool
  is_empty [] = true
  is_empty (t ∷ ts) = false

  unfoldable pub resize : Env → Number → Action (Unit {0})
  resize e size =
      assert_open e
      >> (get_shared_environment e.object >>= λ s w.
          (throw_when (not (is_empty (w.shared s).transactions)) (
                error
                  "There are active transactions within the environment. Commit or abort all transactions before calling env.resize()")
              >> (throw_when (not (is_positive_integer size))
                    (range_error "Environment map size must be a positive safe integer")
                  >> (handle e >>= λ h. ask (api.env_set_mapsize h size))))
            w)

-- `beginTxn` and `openDbi`, which create the objects of the identity that is given.
unfoldable pub begin_txn : TxnApi → ℕ → Env → Bool → Action Txn
begin_txn api object e read_only =
    assert_open e >> lmdb_deno.Txn.construct api object e.object read_only

unfoldable pub open_database : DbiApi → ℕ → Env → DbiOptions → Action (Unit {0})
open_database api object e o = assert_open e >> open_dbi api object e.object o

abbrev pub is_single : ℕ → World → Bool
is_single state w = elim (w.registry.states state) [ none ↦ false | some s ↦ s.ref_count == 1 ]

-- The end of `close`: the state that is detached is closed with its last wrapper.
unfoldable pub close_last : ℕ → World → World
close_last state w =
    let (cursors, w₁) = invalidate_shared_environment_children state (retire state w) in
    if is_poisoned state w₁
    then w₁
    else call (env_close (handle_of state w₁))
        (close_native_cursors cursors (unregister_shared_environment state w₁))

abbrev pub finish_close : ℕ → World → World
finish_close state w =
    if not (is_referenced state w) && not (is_retired state w) then close_last state w else w

-- The transactions of the object end, and with the last wrapper the batch client.
abbrev pub end_owned : ℕ → ℕ → Action (Unit {0})
end_owned object s w =
    (if is_poisoned s w
        then invalidate_owned_transactions object
        else abort_owned_transactions object)
      w

abbrev pub close_if_single : ℕ → Action (Unit {0})
close_if_single s w = when (is_single s w) (close_shared_batch_client s) w

-- What comes before the object is closed, and the state that it was attached to.
unfoldable pub leave : ℕ → Action ℕ
leave object = get_shared_environment object >>= λ s.
    assert_no_shared_environment_operations object
    >> (end_owned object s >> (close_if_single s >> detach_shared_environment object))

abbrev pub close_opened : Env → Result ℕ × World → Outcome
close_opened e (err x, w) = ((err x, w), e)
close_opened e (ok state, w) =
    ((ok tt, finish_close state w), with_status e EnvironmentStatus.closed)

abbrev pub close_unopened : Env → Result ℕ × World → Outcome
close_unopened e (err x, w) = ((err x, w), e)
close_unopened e (ok h, w) = ((ok tt, discard e.object h w), with_status e EnvironmentStatus.closed)

abbrev pub close_with : EnvironmentStatus → Env → World → Outcome
close_with EnvironmentStatus.closed e w = ((err already_closed, w), e)
close_with EnvironmentStatus.unopened e w = close_unopened e (get_env_handle e.object w)
close_with EnvironmentStatus.opened e w = close_opened e (leave e.object w)

-- `close`.
unfoldable pub close : Env → World → Outcome
close e w = close_with e.status e w
