-- ===== src/Env/Attaching.antt =====
-- Objects with native handles, and their attachment to a shared environment (env.ts).
use lmdb_deno.Prelude.{
  ℕ, ◌≡◌, inl, inr, refl, subst, false, none, some, [], ◌∷◌, ◌++◌, Option-cases, ok, arith,
}
use lmdb_deno.State.World.{env_close, World}
use lmdb_deno.State.Access.{
  is_poisoned, handle_of, assert_shared_state_usable, get_env_handle, require_environment_binding,
}
use lmdb_deno.State.Records.{find_record}
use lmdb_deno.State.Environments.{
  clear_env_handle, register_shared_environment, attach, attach_shared_environment,
}
use lmdb_deno.State.Writer.Reading.{Reads}
use lmdb_deno.Encoding.Text.{CodeUnits}
use lmdb_deno.Env.Paths.{PathApi}
use lmdb_deno.Env.{EnvApi, EnvOptions, NativeOpenOptions, validate_open_options, discard}
use lmdb_deno.Env.Opening.{configure}

-- The native handle of an object that is not closed.
pub record HasHandle (object binding h : ℕ) (w : World) : Type 0 where
  pub bound : w.env_bindings object ≡ some binding
  pub held : (w.environments binding).handle ≡ some h

pub get_env_handle-HasHandle :
    (object h : ℕ) (w : World)
    → get_env_handle object w ≡ (ok h, w)
    → (b : ℕ) × HasHandle object b h w
unfolding get_env_handle assert_shared_state_usable
get_env_handle-HasHandle object h w e = elim (Option-cases (w.env_bindings object)) [
  | inl unbound ↦ absurd (ground arith)
  | inr (b, bound) ↦ (b, record { bound = bound; held = ground arith })
]

require-HasHandle :
    (object b h : ℕ) (w : World)
    → HasHandle object b h w
    → require_environment_binding object w ≡ (ok b, w)
unfolding require_environment_binding
require-HasHandle object b h w has = ground (arith, has.bound, has.held)

pub get_env_handle-Reads : (object : ℕ) → Reads (get_env_handle object)
unfolding get_env_handle assert_shared_state_usable
get_env_handle-Reads object w = ground arith

pub attach_shared_environment-ok :
    (object b h s : ℕ) (w : World)
    → HasHandle object b h w
    → attach_shared_environment object s w ≡ (ok tt, attach b s w)
unfolding attach_shared_environment
attach_shared_environment-ok object b h s w has =
    rw (attach_shared_environment, require-HasHandle object b h w has) refl

pub attach-handle :
    (object b h s : ℕ) (w : World)
    → HasHandle object b h w
    → is_poisoned s w ≡ false
    → get_env_handle object (attach b s w) ≡ (ok (handle_of s w), attach b s w)
unfolding get_env_handle assert_shared_state_usable
attach-handle object b h s w has usable = ground (arith, has.bound)

pub register-ok :
    (s path : ℕ) (w : World)
    → (w.shared s).canonical_path ≡ path
    → find_record path w.environment_registry ≡ none
    → register_shared_environment s w
      ≡ (ok tt, record w { environment_registry = (path, s) ∷ w.environment_registry })
unfolding register_shared_environment
register-ok s path w there missing =
    subst
      (λ p.
        register_shared_environment s w
        ≡ (ok tt, record w { environment_registry = (p, s) ∷ w.environment_registry }))
      there (ground (arith, there, missing))

pub discard-calls :
    (object h : ℕ) (w : World)
    → ((discard object h w).calls ≡ w.calls ++ env_close h ∷ [])
      × ((discard object h w).env_bindings object ≡ none)
      × ((discard object h w).environment_registry ≡ w.environment_registry)
unfolding clear_env_handle
discard-calls object h w = (ground arith, ground arith, ground arith)

pub configure-Reads :
    (api : EnvApi) (paths : PathApi) (h : ℕ) (path : CodeUnits) (o : NativeOpenOptions)
    → Reads (configure api paths h path o)
unfolding configure
configure-Reads api paths h path o w = ground arith

pub validate-Reads : (o : EnvOptions) → Reads (validate_open_options o)
unfolding validate_open_options
validate-Reads o w = ground arith
