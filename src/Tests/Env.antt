-- ===== src/Tests/Env.antt =====
-- Environments of env.ts at concrete inputs.
use lmdb_deno.Prelude.{◌≡◌, ◌⊎◌, refl, ap, true, false, none, [], ◌∷◌, Exception, ok, err}
use lmdb_deno.State.World.{World}
use lmdb_deno.State.Access.{
  require_environment_binding, require_environment_state, get_shared_environment,
  assert_shared_state_usable, get_env_handle,
}
use lmdb_deno.State.Closing.{SharedEnvironmentOperation, begin_shared_environment_operation}
use lmdb_deno.State.Environments.{register_env_handle, attach_shared_environment}
use lmdb_deno.State.Writer.Reading.{Reads-eq, get_shared_environment-Reads}
use lmdb_deno.State.Writer.Steps.{perform_all, new_env, attach_env}
use lmdb_deno.Env.{EnvApi, EnvironmentStatus, Env, EnvOptions, assert_open}
use lmdb_deno.Env.Paths.{PathApi}
use lmdb_deno.Env.Opening.{leave, close, open_env}
use lmdb_deno.Env.Leaving.{Keeps}
use lmdb_deno.Env.Closing.{ClosesEnvironment, close-ClosesEnvironment}
use lmdb_deno.Env.Attaching.{get_env_handle-Reads}
use lmdb_deno.Env.Sharing.{Opens, open_env-Opens}
use lmdb_deno.Env.Operations.{start_operation, active_operation, start_operation-close}
use lmdb_deno.Tests.State.{start}

abbrev accepting : EnvApi
accepting = record {
  env_create = λ w. ok 90;
  env_set_maxdbs = λ h n w. ok tt;
  env_set_maxreaders = λ h n w. ok tt;
  env_set_mapsize = λ h n w. ok tt;
  library_path = [];
  env_open = λ h path flags w. ok tt;
}

-- Every path exists, and is that of the environment that is open.
abbrev one_path : PathApi
one_path = record {
  real_path = λ p w. ok p;
  cwd = λ w. ok (47 ∷ []);
  is_not_found = λ e. false;
  number_of = λ p. 50;
}

abbrev options : EnvOptions
options = record {
  path = 47 ∷ 97 ∷ [];
  map_size = none;
  max_dbs = none;
  max_readers = none;
  no_subdir = false;
  no_sync = false;
  read_only = false;
  no_meta_sync = false;
  use_writemap = false;
  map_async = false;
  unsafe_no_lock = false;
  no_read_ahead = false;
  no_mem_init = false;
  use_previous_snapshot = false;
  use_worker = true;
}

-- The environment object 100, before and after it is attached.
abbrev created : World
created = perform_all (new_env 100 90 ∷ []) start

abbrev attached : World
attached = perform_all (new_env 100 90 ∷ attach_env 100 0 ∷ []) start

abbrev new_object : Env
new_object = record { object = 100; status = EnvironmentStatus.unopened; use_worker = true }

abbrev open_object : Env
open_object = record { object = 100; status = EnvironmentStatus.opened; use_worker = true }

open_env-Opens_example :
    Opens accepting one_path new_object options 90 created
      (open_env accepting one_path new_object options created)
unfolding register_env_handle get_env_handle assert_shared_state_usable
open_env-Opens_example =
    open_env-Opens accepting one_path new_object options 90 created
      (Reads-eq (get_env_handle 100) (ok 90) created (get_env_handle-Reads 100) refl) refl

close-ClosesEnvironment_example :
    ClosesEnvironment open_object attached (close open_object attached)
    ⊎ ((x : Exception) × (v : World) × (leave 100 attached ≡ (err x, v))
        × Keeps attached v
        × (close open_object attached ≡ ((err x, v), open_object)))
close-ClosesEnvironment_example = close-ClosesEnvironment open_object attached refl

abbrev pending : World
pending = (start_operation open_object attached).1

abbrev operation : SharedEnvironmentOperation
operation = record { state = 0; released = false }

start_operation-close_example :
    close open_object pending ≡ ((err active_operation, pending), open_object)
unfolding register_env_handle attach_shared_environment require_environment_binding
    require_environment_state get_shared_environment assert_shared_state_usable start_operation
    assert_open begin_shared_environment_operation
start_operation-close_example =
    start_operation-close open_object open_object operation attached pending
      (ap (λ q. (q, pending)) started) refl
      (Reads-eq (get_shared_environment 100) (ok 0) pending (get_shared_environment-Reads 100) refl)
  where
    started : (start_operation open_object attached).0 ≡ ok operation
    started = refl
