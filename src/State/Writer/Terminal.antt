-- ===== src/State/Writer/Terminal.antt =====
-- Finalizers, poisoning and the parts of an environment's end (State), seen from the writer.
use lmdb_deno.Prelude.{ℕ, ◌≡◌, arith, refl, true, Option, none, some, error, Result, ok, err}
use lmdb_deno.Batch.Protocol.Registry.{Registry, SharedState}
use lmdb_deno.Batch.Protocol.Descriptors.{poison_shared_environment_state}
use lmdb_deno.State.World.{World}
use lmdb_deno.State.Access.{
  or_throw, require_live_cursor_binding, assert_shared_state_usable, get_shared_environment,
}
use lmdb_deno.State.Handles.{get_cursor_handle}
use lmdb_deno.State.Records.{release_dbi_binding}
use lmdb_deno.State.Cursors.{invalidate_transaction_cursor_caches_binding}
use lmdb_deno.State.Databases.{
  finalize_dbi_binding, finalize_cursor_binding, invalidate_cursor_transaction_caches_for_write,
  txn_of,
}
use lmdb_deno.State.Closing.{retire, close_shared_batch_client}
use lmdb_deno.State.Environments.{poison_state, poison_shared_environment}
use lmdb_deno.State.Quiet.{Quiet-trans}
use lmdb_deno.State.Quiet.Records.{close_dbi-Quiet, release_dbi_binding-Quiet}
use lmdb_deno.State.Quiet.Cursors.{close_cursor_binding-Quiet, invalidate_cursors-Quiet}
use lmdb_deno.State.Writer.{Ends, Ends-refl, Quiet-Ends}
use lmdb_deno.State.Writer.Ending.{anything}
use lmdb_deno.State.Writer.Closing.{same-Ends, retire-Ends, close_client-Ends}
use lmdb_deno.State.Writer.Reading.{Reads, reads-then, or_throw-Reads, get_shared_environment-Reads}

pub finalize_dbi_binding-Ends : (dbi : ℕ) (w : World) → Ends w (finalize_dbi_binding dbi w)
unfolding finalize_dbi_binding
finalize_dbi_binding-Ends dbi w = Quiet-Ends (
    Quiet-trans (release_dbi_binding-Quiet {may = anything} (λ c f. refl) dbi true w)
      (close_dbi-Quiet (λ e h. refl) (release_dbi_binding dbi true w).0 _))

pub finalize_cursor_binding-Ends :
    (cursor : ℕ) (w : World) → Ends w (finalize_cursor_binding cursor w)
unfolding finalize_cursor_binding
finalize_cursor_binding-Ends cursor w = Quiet-Ends (
    close_cursor_binding-Quiet {may = anything} (λ c f. refl) (λ e h. refl) cursor true true w
      (λ _ h. refl))

cursor_handle-Reads : (owner : ℕ) → Reads (get_cursor_handle owner)
unfolding get_cursor_handle require_live_cursor_binding assert_shared_state_usable
cursor_handle-Reads owner w = ground arith

pub invalidate_cursor_caches-Ends :
    (owner : ℕ) (w : World) → Ends w (invalidate_cursor_transaction_caches_for_write owner w).1
unfolding invalidate_cursor_transaction_caches_for_write
    invalidate_transaction_cursor_caches_binding
invalidate_cursor_caches-Ends owner w =
    reads-then Ends _ w (get_cursor_handle owner w) Ends-refl (cursor_handle-Reads owner w) (λ _.
      reads-then Ends _ w (or_throw (error "The cursor transaction has ended") (txn_of owner w) w)
        Ends-refl (or_throw-Reads (error "The cursor transaction has ended") (txn_of owner w) w)
        (λ t. Quiet-Ends (
          invalidate_cursors-Quiet {may = anything} (λ c f. refl) (w.transactions t).cursors true
            w)))

pub retire_of-Ends : (s : ℕ) (w : World) → Ends w (retire s w)
retire_of-Ends s w = retire-Ends s (w.registry.states s) w

pub close_batch_client-Ends : (s : ℕ) (w : World) → Ends w (close_shared_batch_client s w).1
unfolding close_shared_batch_client
close_batch_client-Ends s w = close_client-Ends (w.shared s).batch_client s w

-- The world after a call that has a result; otherwise the call does not come to an end.
abbrev pub world_of : World → Option (Result (Unit {0}) × World) → World
world_of w none = w
world_of w (some x) = x.1

drawn-Ends :
    (drawn : Option Registry) (w : World)
    → Ends w (
        world_of w (elim drawn as (λ _. Option (Result (Unit {0}) × World)) [
          | none ↦ none
          | some registry ↦ some (ok tt, record w { registry = registry })
        ]))
drawn-Ends none w = Ends-refl w
drawn-Ends (some registry) w = same-Ends refl refl

known-Ends :
    (known : Option SharedState) (s : ℕ) (w : World)
    → Ends w (
        world_of w (elim known as (λ _. Option (Result (Unit {0}) × World)) [
          | none ↦ some (ok tt, w)
          | some state ↦ elim (poison_shared_environment_state s state w.registry) [
            | none ↦ none
            | some registry ↦ some (ok tt, record w { registry = registry })
          ]
        ]))
known-Ends none s w = Ends-refl w
known-Ends (some state) s w = drawn-Ends (poison_shared_environment_state s state w.registry) w

pub poison_state-Ends : (s : ℕ) (w : World) → Ends w (world_of w (poison_state s w))
poison_state-Ends s w = known-Ends (w.registry.states s) s w

pub poison_environment-Ends :
    (owner : ℕ) (w : World) → Ends w (world_of w (poison_shared_environment owner w))
unfolding poison_shared_environment
poison_environment-Ends owner w =
    found (get_shared_environment owner w) (get_shared_environment-Reads owner w)
  where
    found :
        (x : Result ℕ × World)
        → x.1 ≡ w
        → Ends w (
            world_of w (elim x.0 as (λ _. Option (Result (Unit {0}) × World)) [
              | ok s ↦ poison_state s x.1
              | err e ↦ some (err e, x.1)
            ]))
    found (ok s, v) stays = rw stays (poison_state-Ends s w)
    found (err e, v) stays = rw stays (Ends-refl w)
