-- ===== src/Data/Observe.antt =====
-- Steps that look things up in the world, and depend neither on the calls made so far nor on LMDB.
use lmdb_deno.Prelude.{ℕ, ◌≡◌, refl, ap, List, [], ◌∷◌, Result, ok, err, arith}
use lmdb_deno.State.World.{NativeCall, World, Action}
use lmdb_deno.State.Access.{
  get_txn_handle, assert_txn_active, require_transaction_binding, require_live_dbi_binding,
  assert_shared_state_usable, assert_same_states, assert_same_shared_environment, state_for_owner,
}
use lmdb_deno.State.Handles.{get_dbi_key_format, get_dbi_flags, get_dbi_handle_for_txn}
use lmdb_deno.Data.{Step, beside, continue_with, on_world, of_result, ◌>>=◌}

-- Another history.
abbrev pub with_calls : List NativeCall → World → World
with_calls cs w = record w { calls = cs }

abbrev pub Looks : {A : Type 0} → Action A → Type 0
Looks m = (w : World) (cs : List NativeCall) → m (with_calls cs w) ≡ ((m w).0, with_calls cs w)

module _ {S A : Type 0} where
  unfoldable pub Observes : Step S A → Type 0
  Observes m =
      (w : World) (cs : List NativeCall) (s s' : S)
      → m (with_calls cs w) s' ≡ ((m w s).0, with_calls cs w, s')

module _ (S : Type 0) {A : Type 0} where
  pub on_world-Observes : (m : Action A) → Looks m → Observes {S = S} (on_world m)
  unfolding Observes
  on_world-Observes m h w cs s s' = ap (λ x. beside x s') (h w cs)

  pub of_result-Observes : (r : Result A) → Observes {S = S} (of_result r)
  unfolding Observes
  of_result-Observes r w cs s s' = refl

module _ {S A B : Type 0} where
  pub then-Observes :
      (m : Step S A) (next : A → Step S B)
      → Observes m
      → ((a : A) → Observes (next a))
      → Observes (m >>= next)
  unfolding Observes
  then-Observes m next h k w cs s s' = rw (h w cs s s', h w w.calls s s) (split ((m w s).0))
    where
      split :
          (r : Result A)
          → continue_with (r, with_calls cs w, s') next
            ≡ ((continue_with (r, w, s) next).0, with_calls cs w, s')
      split (ok a) = k a w cs s s'
      split (err e) = refl

pub get_txn_handle-Looks : (owner : ℕ) → Looks (get_txn_handle owner)
unfolding get_txn_handle assert_shared_state_usable
get_txn_handle-Looks owner w cs = ground arith

pub assert_txn_active-Looks : (owner : ℕ) → Looks (assert_txn_active owner)
unfolding assert_txn_active get_txn_handle assert_shared_state_usable
assert_txn_active-Looks owner w cs = ground arith

pub assert_same-Looks : (a b : ℕ) → Looks (assert_same_shared_environment (a ∷ b ∷ []))
unfolding assert_same_shared_environment assert_same_states state_for_owner
    assert_shared_state_usable
assert_same-Looks a b w cs = ground arith

pub get_dbi_key_format-Looks : (dbi : ℕ) → Looks (get_dbi_key_format dbi)
unfolding get_dbi_key_format require_live_dbi_binding assert_shared_state_usable
get_dbi_key_format-Looks dbi w cs = ground arith

pub get_dbi_flags-Looks : (dbi : ℕ) → Looks (get_dbi_flags dbi)
unfolding get_dbi_flags require_live_dbi_binding assert_shared_state_usable
get_dbi_flags-Looks dbi w cs = ground arith

pub get_dbi_handle_for_txn-Looks : (dbi txn : ℕ) → Looks (get_dbi_handle_for_txn dbi txn)
unfolding get_dbi_handle_for_txn require_live_dbi_binding require_transaction_binding
    assert_shared_state_usable
get_dbi_handle_for_txn-Looks dbi txn w cs = ground arith
