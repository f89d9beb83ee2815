-- ===== src/State/Leases.antt =====
-- The leases of databases that batches hold (internal/native_state.ts).
use lmdb_deno.Prelude.{
  ℕ, suc, ◌-◌, Bool, true, false, not, ◌&&◌, ◌||◌, Option, none, [], ◌∷◌, is_some, error, ok,
  if◌then◌else◌,
}
use lmdb_deno.Encoding.Values.{KeyEncoding}
use lmdb_deno.State.World.{DbiBinding, World, Action, pure, throw_when, ◌>>=◌, ◌>>◌, set_record}
use lmdb_deno.State.Access.{
  is_poisoned, require_live_dbi_binding, assert_same_shared_environment, record_of_dbi,
}
use lmdb_deno.State.Records.{finalize_empty_dbi_record}
use lmdb_deno.State.Closing.{close_shared_environment_if_unused}

-- `BatchDbiLease`.
pub record BatchDbiLease : Type 0 where
  pub handle : ℕ
  pub key_format : KeyEncoding
  pub flags : ℕ
  pub owner : ℕ
  pub record_id : ℕ
  pub released : Bool

abbrev is_pending : ℕ → World → Bool
is_pending dbi w = is_some (w.dbis dbi).pending_txn || not (record_of_dbi dbi w).committed

-- The tests that `retainDbiForBatch` and `validateDbiForBatch` start with.
unfoldable pub require_committed_dbi : ℕ → ℕ → Action ℕ
require_committed_dbi env_owner owner =
    assert_same_shared_environment (env_owner ∷ owner ∷ [])
    >> (require_live_dbi_binding owner >>= λ d w.
        (throw_when (is_pending d w)
              (error "The database is pending and cannot be used by a batch operation")
            >> pure d)
          w)

abbrev pub lease_of : ℕ → DbiBinding → BatchDbiLease
lease_of owner d = record {
  handle = d.handle;
  key_format = d.key_format;
  flags = d.flags;
  owner = owner;
  record_id = d.record_id;
  released = false;
}

abbrev pub retain : ℕ → World → World
retain id w = let r = w.records id in set_record id (record r { batch_refs = suc r.batch_refs }) w

-- `retainDbiForBatch`.
unfoldable pub retain_dbi_for_batch : ℕ → ℕ → Action BatchDbiLease
retain_dbi_for_batch env_owner owner = require_committed_dbi env_owner owner >>= λ d w.
    (ok (lease_of owner (w.dbis d)), retain (w.dbis d).record_id w)

-- `validateDbiForBatch`.
unfoldable pub validate_dbi_for_batch : ℕ → ℕ → Action (Unit {0})
validate_dbi_for_batch env_owner owner = require_committed_dbi env_owner owner >>= λ _. pure tt

-- `releaseBatchDbiLease`. The lease object is marked too.
unfoldable pub release_batch_dbi_lease :
    BatchDbiLease → World → (Option (ℕ × ℕ) × World) × BatchDbiLease
release_batch_dbi_lease lease w =
    let id = lease.record_id in
    let r = w.records id in
    let w₁ = set_record id (record r { batch_refs = r.batch_refs - 1 }) w in
    if lease.released then ((none, w), lease) else (
      finalize_empty_dbi_record id (r.committed && not (is_poisoned r.state w)) w₁,
      record lease { released = true },
    )

-- `finishBatchDbiLeaseRelease`.
unfoldable pub finish_batch_dbi_lease_release : BatchDbiLease → Action (Unit {0})
finish_batch_dbi_lease_release lease w =
    close_shared_environment_if_unused (w.records lease.record_id).state w
