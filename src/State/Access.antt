-- ===== src/State/Access.antt =====
-- Looking objects up (the functions `require…`, `get…` and `assert…` of internal/native_state.ts).
use lmdb_deno.Prelude.{
  ℕ, Bool, true, false, not, ◌||◌, Option, none, some, List, [], ◌∷◌, is_some, Exception, error,
  ◌==◌, if◌then◌else◌,
}
use lmdb_deno.State.World.{
  TransactionPhase, SharedDbiRecord, CursorPhase, World, Action, pure, throw, throw_when, get,
  ◌>>=◌, ◌>>◌,
}

abbrev pub is_poisoned : ℕ → World → Bool
is_poisoned state w = elim (w.registry.states state) [ none ↦ false | some s ↦ s.poisoned ]

-- `state?.poisoned`.
abbrev pub is_poisoned? : Option ℕ → World → Bool
is_poisoned? none w = false
is_poisoned? (some state) w = is_poisoned state w

abbrev pub poisoned_error : Exception
poisoned_error = error "The environment is poisoned after a native Worker failure"

unfoldable pub assert_shared_state_usable : Option ℕ → Action (Unit {0})
assert_shared_state_usable state w = throw_when (is_poisoned? state w) poisoned_error w

abbrev pub or_throw : {A : Type 0} → Exception → Option A → Action A
or_throw e none = throw e
or_throw e (some a) = pure a

abbrev pub not_open : Exception
not_open = error "The environment is not open"

abbrev pub transaction_closed : Exception
transaction_closed = error "The transaction is already closed"

-- A binding with a handle, with the handle.
abbrev pub with_handle : Option ℕ → Option ℕ → Option (ℕ × ℕ)
with_handle none handle = none
with_handle (some binding) none = none
with_handle (some binding) (some handle) = some (binding, handle)

abbrev pub open_environment : ℕ → World → Option (ℕ × ℕ)
open_environment owner w = elim (w.env_bindings owner) [
  | none ↦ none
  | some b ↦ with_handle (some b) (w.environments b).handle
]

abbrev pub open_transaction : ℕ → World → Option (ℕ × ℕ)
open_transaction owner w = elim (w.txn_bindings owner) [
  | none ↦ none
  | some t ↦ with_handle (some t) (w.transactions t).handle
]

abbrev pub live_dbi : ℕ → World → Option ℕ
live_dbi owner w = elim (w.dbi_bindings owner) [
  | none ↦ none
  | some d ↦ if (w.dbis d).closed then none else some d
]

abbrev pub is_closed : CursorPhase → Bool
is_closed CursorPhase.closed = true
is_closed _ = false

abbrev pub live_cursor : ℕ → World → Option ℕ
live_cursor owner w = elim (w.cursor_bindings owner) [
  | none ↦ none
  | some c ↦ if is_closed (w.cursors c).phase then none else some c
]

-- `requireEnvironmentBinding`, `requireEnvironmentState`.
unfoldable pub require_environment_binding : ℕ → Action ℕ
require_environment_binding owner w =
    (get (open_environment owner) >>= or_throw not_open >>= λ b. pure (b.0)) w

unfoldable pub require_environment_state : ℕ → Action ℕ
require_environment_state binding w = or_throw not_open (w.environments binding).state w

unfoldable pub require_transaction_binding : ℕ → Action ℕ
unfolding assert_shared_state_usable
require_transaction_binding owner w =
    (get (open_transaction owner) >>= or_throw transaction_closed >>= λ t w₁.
    (assert_shared_state_usable (w₁.transactions (t.0)).state >> pure (t.0)) w₁)
      w

abbrev pub record_of_dbi : ℕ → World → SharedDbiRecord
record_of_dbi dbi w = w.records (w.dbis dbi).record_id

unfoldable pub require_live_dbi_binding : ℕ → Action ℕ
unfolding assert_shared_state_usable
require_live_dbi_binding owner w =
    (get (live_dbi owner) >>= or_throw (error "The database is already closed") >>= λ d w₁.
    (assert_shared_state_usable (some (record_of_dbi d w₁).state) >> pure d) w₁)
      w

unfoldable pub require_live_cursor_binding : ℕ → Action ℕ
unfolding assert_shared_state_usable
require_live_cursor_binding owner w =
    (get (live_cursor owner)
        >>= or_throw (error "Attempted to use an already closed cursor")
        >>= λ c w₁. (assert_shared_state_usable (w₁.cursors c).state >> pure c) w₁)
      w

-- `getSharedEnvironment`, `getEnvHandle`, `hasEnvHandle`.
unfoldable pub get_shared_environment : ℕ → Action ℕ
unfolding require_environment_binding require_environment_state
get_shared_environment owner = require_environment_binding owner >>= require_environment_state

unfoldable pub get_env_handle : ℕ → Action ℕ
unfolding assert_shared_state_usable
get_env_handle owner w =
    (get (open_environment owner)
        >>= or_throw (error "The environment is already closed")
        >>= λ b w₁. (assert_shared_state_usable (w₁.environments (b.0)).state >> pure (b.1)) w₁)
      w

unfoldable pub has_env_handle : ℕ → World → Bool
has_env_handle owner w = is_some (open_environment owner w)

-- `getTxnHandle`, `hasTxnHandle`.
unfoldable pub get_txn_handle : ℕ → Action ℕ
unfolding assert_shared_state_usable
get_txn_handle owner w =
    (get (open_transaction owner) >>= or_throw transaction_closed >>= λ t w₁.
    (assert_shared_state_usable (w₁.transactions (t.0)).state >> pure (t.1)) w₁)
      w

unfoldable pub has_txn_handle : ℕ → World → Bool
has_txn_handle owner w = is_some (open_transaction owner w)

abbrev pub first_some : {A : Type 0} → Option A → Option A → Option A
first_some (some a) other = some a
first_some none other = other

abbrev pub env_state : ℕ → World → Option ℕ
env_state owner w = elim (w.env_bindings owner) [ none ↦ none | some b ↦ (w.environments b).state ]

abbrev pub txn_state : ℕ → World → Option ℕ
txn_state owner w = elim (w.txn_bindings owner) [ none ↦ none | some t ↦ (w.transactions t).state ]

abbrev pub dbi_state : ℕ → World → Option ℕ
dbi_state owner w = elim (w.dbi_bindings owner) [
  | none ↦ none
  | some d ↦ some (record_of_dbi d w).state
]

abbrev pub cursor_state : ℕ → World → Option ℕ
cursor_state owner w = elim (w.cursor_bindings owner) [ none ↦ none | some c ↦ (w.cursors c).state ]

-- `environmentStateForOwner` and `stateForOwner`.
unfoldable pub environment_state_for_owner : ℕ → Action ℕ
environment_state_for_owner owner w =
    or_throw (error "A native LMDB handle is already closed")
      (first_some (env_state owner w) (dbi_state owner w)) w

unfoldable pub state_for_owner : ℕ → World → Option ℕ
state_for_owner owner w =
    first_some (env_state owner w)
      (first_some (txn_state owner w) (first_some (dbi_state owner w) (cursor_state owner w)))

abbrev pub all_states : List ℕ → World → List (Option ℕ)
all_states [] w = []
all_states (o ∷ os) w = state_for_owner o w ∷ all_states os w

abbrev pub some_missing : List (Option ℕ) → Bool
some_missing [] = false
some_missing (s ∷ ss) = not (is_some s) || some_missing ss

abbrev pub same_state : Option ℕ → ℕ → Bool
same_state none n = false
same_state (some m) n = m == n

abbrev pub some_other : ℕ → List (Option ℕ) → Bool
some_other first [] = false
some_other first (s ∷ ss) = not (same_state s first) || some_other first ss

abbrev pub different_environment : Exception
different_environment = error "Native LMDB handles belong to a different environment"

unfoldable pub assert_same_states : List (Option ℕ) → Action (Unit {0})
unfolding assert_shared_state_usable
assert_same_states [] = throw (error "A native LMDB handle is already closed")
assert_same_states (none ∷ rest) = throw (error "A native LMDB handle is already closed")
assert_same_states (some first ∷ rest) =
    throw_when (some_missing rest) (error "A native LMDB handle is already closed")
    >> (assert_shared_state_usable (some first)
        >> throw_when (some_other first rest) different_environment)

-- `assertSameSharedEnvironment`.
unfoldable pub assert_same_shared_environment : List ℕ → Action (Unit {0})
unfolding assert_same_states
assert_same_shared_environment owners w = assert_same_states (all_states owners w) w

-- The phase of a transaction that is found.
abbrev pub is_phase_active : TransactionPhase → Bool
is_phase_active TransactionPhase.active = true
is_phase_active _ = false

abbrev pub is_phase_reset : TransactionPhase → Bool
is_phase_reset TransactionPhase.reset = true
is_phase_reset _ = false

abbrev pub phase_is : (TransactionPhase → Bool) → ℕ → World → Bool
phase_is test owner w = elim (w.txn_bindings owner) [
  | none ↦ false
  | some t ↦ test (w.transactions t).phase
]

abbrev pub must_be_reset : Exception
must_be_reset = error "The read-only transaction must be reset before renew()"

unfoldable pub assert_txn_active : ℕ → Action (Unit {0})
unfolding get_txn_handle
assert_txn_active owner = get_txn_handle owner >>= λ _ w.
    throw_when (not (phase_is is_phase_active owner w))
      (error "The read-only transaction is reset; call renew() first") w

unfoldable pub assert_txn_reset : ℕ → Action (Unit {0})
unfolding get_txn_handle
assert_txn_reset owner = get_txn_handle owner >>= λ _ w.
    throw_when (not (phase_is is_phase_reset owner w)) must_be_reset w

-- The address of a shared state's handle; a state that a binding refers to is referenced.
abbrev pub handle_of : ℕ → World → ℕ
handle_of state w = elim (w.registry.states state) [ none ↦ 0 | some s ↦ s.address ]
