-- ===== src/Env.antt =====
-- The class `Env` (env.ts): its options, and how an environment is opened and closed.
pub mod Paths
pub mod Opening
pub mod Leaving
pub mod Closing
pub mod Attaching
pub mod Operations
pub mod Sharing
use lmdb_deno.Prelude.{
  ℕ, suc, ◌+◌, Bool, true, false, not, ◌&&◌, Option, none, some, List, [], ◌∷◌, pos, Exception,
  error, type_error, range_error, Result, ok, err, ltb, leb, ◌==◌, if◌then◌else◌, throw_if,
}
use lmdb_deno.Encoding.Text.{CodeUnits}
use lmdb_deno.Encoding.Values.{Number, integer, non_integer}
use lmdb_deno.Batch.Protocol.Registry.{Registry, SharedState}
use lmdb_deno.Batch.Protocol.Descriptors.{next_environment_generation}
use lmdb_deno.State.World.{
  SharedEnvironment, env_close, World, Action, pure, throw, throw_when, run, ◌>>=◌, ◌>>◌, at, call,
}
use lmdb_deno.State.Access.{
  is_poisoned, handle_of, poisoned_error, not_open, get_shared_environment, get_env_handle,
}
use lmdb_deno.State.Transactions.{invalidate_owned_transactions, abort_owned_transactions}
use lmdb_deno.State.Closing.{
  invalidate_shared_environment_children, unregister_shared_environment, close_native_cursors,
  close_shared_batch_client, retire,
}
use lmdb_deno.State.Environments.{
  register_env_handle, clear_env_handle, find_shared_environment, register_shared_environment,
  attach_shared_environment, detach_shared_environment, assert_no_shared_environment_operations,
}
use lmdb_deno.Dbi.{ask}

-- What LMDB answers, which may depend on all that was done before.
pub record EnvApi : Type 0 where
  pub env_create : World → Result ℕ
  pub env_set_maxdbs : (environment : ℕ) (count : Number) → World → Result (Unit {0})
  pub env_set_maxreaders : (environment : ℕ) (count : Number) → World → Result (Unit {0})
  pub env_set_mapsize : (environment : ℕ) (size : Number) → World → Result (Unit {0})
  -- The path of the default library.
  pub library_path : CodeUnits
  pub env_open : (environment : ℕ) (path : CodeUnits) (flags : ℕ) → World → Result (Unit {0})

pub data EnvironmentStatus : Type 0 where
  unopened opened closed : EnvironmentStatus

-- The fields of an `Env`; `object` is its identity, and `unopened` is the status 'new'.
pub record Env : Type 0 where
  pub object : ℕ
  pub status : EnvironmentStatus
  pub use_worker : Bool

-- `EnvOptions`, of which a Boolean field stands for the test that it is `true`, and `use_worker` for
-- the test that it is not `false`.
pub record EnvOptions : Type 0 where
  pub path : CodeUnits
  pub map_size : Option Number
  pub max_dbs : Option Number
  pub max_readers : Option Number
  pub no_subdir : Bool
  pub no_sync : Bool
  pub read_only : Bool
  pub no_meta_sync : Bool
  pub use_writemap : Bool
  pub map_async : Bool
  pub unsafe_no_lock : Bool
  pub no_read_ahead : Bool
  pub no_mem_init : Bool
  pub use_previous_snapshot : Bool
  pub use_worker : Bool

abbrev flag : Bool → ℕ → ℕ
flag b n = if b then n else 0

-- The bits are different, so that their sum is their disjunction.
unfoldable pub native_flags : EnvOptions → ℕ
native_flags o =
    0x200000
    + flag o.no_subdir 0x4000
    + flag o.no_sync 0x10000
    + flag o.read_only 0x20000
    + flag o.no_meta_sync 0x40000
    + flag o.use_writemap 0x80000
    + flag o.map_async 0x100000
    + flag o.unsafe_no_lock 0x400000
    + flag o.no_read_ahead 0x800000
    + flag o.no_mem_init 0x1000000
    + flag o.use_previous_snapshot 0x2000000

pub record NativeOpenOptions : Type 0 where
  pub flags : ℕ
  pub map_size : Option Number
  pub max_dbs : Number
  pub max_readers : Number

abbrev or_default : Option Number → ℕ → Number
or_default none n = integer (pos n)
or_default (some v) n = v

unfoldable pub normalize_native_options : EnvOptions → NativeOpenOptions
unfolding native_flags
normalize_native_options o = record {
  flags = native_flags o;
  map_size = o.map_size;
  max_dbs = or_default o.max_dbs 1;
  max_readers = or_default o.max_readers 126;
}

-- `Number.isSafeInteger(value) && value > 0`.
abbrev pub is_positive_integer : Number → Bool
is_positive_integer (integer (pos n)) = ltb 0 n && leb n 0x1fffffffffffff
is_positive_integer _ = false

-- `validatePositiveInteger`.
unfoldable pub validate_positive_integer : Option Number → Exception → Result (Unit {0})
validate_positive_integer none e = ok tt
validate_positive_integer (some v) e = throw_if (not (is_positive_integer v)) e

abbrev is_empty : CodeUnits → Bool
is_empty [] = true
is_empty (u ∷ us) = false

-- `validateOpenOptions`. Options are an object with a string for a path.
unfoldable pub validate_open_options : EnvOptions → Action (Unit {0})
validate_open_options o =
    throw_when (is_empty o.path) (type_error "Env.open requires a non-empty path")
    >> (ask (λ w.
          validate_positive_integer o.map_size
            (range_error "mapSize must be a positive safe integer"))
        >> (ask (λ w.
              validate_positive_integer o.max_dbs
                (range_error "maxDbs must be a positive safe integer"))
            >> ask (λ w.
              validate_positive_integer o.max_readers
                (range_error "maxReaders must be a positive safe integer"))))

abbrev pub already_open : Exception
already_open = error "The environment is already open"

abbrev pub already_closed : Exception
already_closed = error "The environment is already closed"

-- `#assertOpen`, `#handle`.
abbrev pub assert_status : EnvironmentStatus → Action (Unit {0})
assert_status EnvironmentStatus.opened = pure tt
assert_status EnvironmentStatus.closed = throw already_closed
assert_status EnvironmentStatus.unopened = throw not_open

unfoldable pub assert_open : Env → Action (Unit {0})
assert_open e =
    assert_status e.status
    >> (get_shared_environment e.object >>= λ s w. throw_when (is_poisoned s w) poisoned_error w)

unfoldable pub handle : Env → Action ℕ
handle e = assert_open e >> get_env_handle e.object

-- What a method returns or throws, with the object that it leaves.
abbrev pub with_status : Env → EnvironmentStatus → Env
with_status e status = record e { status = status }

-- The native handle is closed and forgotten.
abbrev pub discard : ℕ → ℕ → World → World
discard object handle w = clear_env_handle object (call (env_close handle) w)

-- A new `SharedEnvironmentState`. There is none if the random words run out.
abbrev pub fresh_state : CodeUnits → ℕ → ℕ → ℕ → Registry → World → ℕ × World
fresh_state library_path path handle generation registry w =
    let id = w.next_object in
    (
      id,
      record w {
        registry = record registry {
          states =
              at id
                (some (record {
                  library_path = library_path;
                  address = handle;
                  descriptor_tokens = [];
                  ref_count = 0;
                  poisoned = false;
                  generation = generation;
                }))
                registry.states;
        };
        shared =
            at id
              (record {
                canonical_path = path;
                wrappers = [];
                transactions = [];
                dbis = [];
                dbi_records = [];
                cursors = [];
                active_async_operations = 0;
                active_writer = none;
                batch_client = none;
              })
              w.shared;
        next_object = suc id;
      },
    )
