-- ===== src/State/Writer/Reading.antt =====
-- Actions that only look objects up (State/Access), and what follows them.
use lmdb_deno.Prelude.{
  ℕ, ◌≡◌, refl, sym, ap, Bool, true, false, Option, none, some, Exception, Result, ok, err, subst,
  arith,
}
use lmdb_deno.State.World.{World, Action, proceed, throw_when, ◌>>◌}
use lmdb_deno.State.Access.{
  assert_shared_state_usable, or_throw, require_environment_binding, require_environment_state,
  require_transaction_binding, require_live_dbi_binding, require_live_cursor_binding,
  get_shared_environment, get_txn_handle, environment_state_for_owner,
}

-- The world stays as it is.
abbrev pub Reads : {A : Type 0} → Action A → Type 0
Reads m = (w : World) → (m w).1 ≡ w

-- What such an action returns says it all.
pub Reads-eq :
    {A : Type 0} (m : Action A) (r : Result A) (w : World) → Reads m → (m w).0 ≡ r → m w ≡ (r, w)
Reads-eq m r w h e = subst (λ v. m w ≡ (r, v)) (h w) (ap (λ q. (q, (m w).1)) e)

module _ {A B : Type 0} where
  -- A relation that holds of what follows an action that reads holds of the whole.
  pub reads-then :
      (R : World → World → Type 0) (next : A → Action B) (w : World) (x : Result A × World)
      → ((v : World) → R v v)
      → x.1 ≡ w
      → ((a : A) → R w (next a w).1)
      → R w (proceed x next).1
  reads-then R next w (ok a, v) stays e follows = subst (λ u. R w (next a u).1) (sym e) (follows a)
  reads-then R next w (err x, v) stays e follows = subst (λ u. R w u) (sym e) (stays w)

-- What follows a test is done only if the test fails.
pub guard-then :
    (R : World → World → Type 0) {A : Type 0} (next : Action A) (b : Bool) (e : Exception)
    (w : World)
    → ((v : World) → R v v)
    → (b ≡ false → R w (next w).1)
    → R w ((throw_when b e >> next) w).1
guard-then R next true e w stays follows = stays w
guard-then R next false e w stays follows = follows refl

pub throw_when-Reads : (b : Bool) (e : Exception) → Reads (throw_when b e)
throw_when-Reads true e w = refl
throw_when-Reads false e w = refl

pub or_throw-Reads : {A : Type 0} (e : Exception) (a : Option A) → Reads (or_throw e a)
or_throw-Reads e none w = refl
or_throw-Reads e (some a) w = refl

pub assert_shared_state_usable-Reads : (s : Option ℕ) → Reads (assert_shared_state_usable s)
unfolding assert_shared_state_usable
assert_shared_state_usable-Reads s w = ground arith

pub require_environment_binding-Reads : (owner : ℕ) → Reads (require_environment_binding owner)
unfolding require_environment_binding
require_environment_binding-Reads owner w = ground arith

pub require_environment_state-Reads : (b : ℕ) → Reads (require_environment_state b)
unfolding require_environment_state
require_environment_state-Reads b w = ground arith

pub get_shared_environment-Reads : (owner : ℕ) → Reads (get_shared_environment owner)
unfolding get_shared_environment require_environment_binding require_environment_state
get_shared_environment-Reads owner w = ground arith

pub require_transaction_binding-Reads : (owner : ℕ) → Reads (require_transaction_binding owner)
unfolding require_transaction_binding assert_shared_state_usable
require_transaction_binding-Reads owner w = ground arith

pub require_live_dbi_binding-Reads : (owner : ℕ) → Reads (require_live_dbi_binding owner)
unfolding require_live_dbi_binding assert_shared_state_usable
require_live_dbi_binding-Reads owner w = ground arith

pub require_live_cursor_binding-Reads : (owner : ℕ) → Reads (require_live_cursor_binding owner)
unfolding require_live_cursor_binding assert_shared_state_usable
require_live_cursor_binding-Reads owner w = ground arith

pub environment_state_for_owner-Reads : (owner : ℕ) → Reads (environment_state_for_owner owner)
unfolding environment_state_for_owner
environment_state_for_owner-Reads owner w = ground arith

pub get_txn_handle-Reads : (owner : ℕ) → Reads (get_txn_handle owner)
unfolding get_txn_handle assert_shared_state_usable
get_txn_handle-Reads owner w = ground arith
