-- ===== src/State/Lifecycle/Leases.antt =====
-- The leases that batches hold of databases (`retainDbiForBatch`, `releaseBatchDbiLease`).
use lmdb_deno.Prelude.{
  ℕ, ◌-◌, ◌≡◌, refl, ap, ◌∙◌, sym, Bool, true, false, not, ◌&&◌, none, Result, ok, err, arith,
}
use lmdb_deno.State.World.{World, proceed, set_record}
use lmdb_deno.State.Access.{is_poisoned}
use lmdb_deno.State.Records.{is_unused, finalize_empty_dbi_record}
use lmdb_deno.State.Writer.Databases.{require_committed_dbi-Reads}
use lmdb_deno.State.Leases.{
  require_committed_dbi, lease_of, retain, retain_dbi_for_batch, BatchDbiLease,
  release_batch_dbi_lease,
}

-- A record that is retained, or has a wrapper, is not finalized.
finalize-retained :
    (id : ℕ) (close_native : Bool) (w : World)
    → is_unused (w.records id) ≡ false
    → finalize_empty_dbi_record id close_native w ≡ (none, w)
unfolding finalize_empty_dbi_record
finalize-retained id close_native w used = rw used refl

-- What `retainDbiForBatch` has done, if it did not throw.
retained :
    (owner : ℕ) (lease : BatchDbiLease) (w w' : World) (x : Result ℕ × World)
    → x.1 ≡ w
    → proceed x (λ d v. (ok (lease_of owner (v.dbis d)), retain (v.dbis d).record_id v))
      ≡ (ok lease, w')
    → (lease.released ≡ false) × (w' ≡ retain lease.record_id w)
retained owner lease w w' (ok d, v) e f =
    let lease_is : ok (lease_of owner (v.dbis d)) ≡ ok lease = ap (λ p. p.0) f in
    let same : lease_of owner (v.dbis d) ≡ lease = ground (arith, lease_is) in
    (
      sym (ap (λ l. l.released) same),
      sym (ap (λ p. p.1) f)
          ∙ ap (λ i. retain i v) (ap (λ l. l.record_id) same)
          ∙ ap (λ u. retain lease.record_id u) e,
    )
retained owner lease w w' (err x, v) e f = absurd (ground arith)

-- One more batch counts on the record, and nothing else changes.
release-retain :
    (lease : BatchDbiLease) (w : World)
    → lease.released ≡ false
    → is_unused (w.records lease.record_id) ≡ false
    → (w' : World) × (release_batch_dbi_lease lease (retain lease.record_id w)
        ≡ ((none, w'), record lease { released = true }))
      × ((j : ℕ) → w'.records j ≡ w.records j)
      × (w'.calls ≡ w.calls)
      × (w'.shared ≡ w.shared)
unfolding release_batch_dbi_lease
release-retain lease w fresh used =
    let id = lease.record_id in
    let v = retain id w in
    let r = v.records id in
    let w₁ = set_record id (record r { batch_refs = r.batch_refs - 1 }) v in
    let still : is_unused (w₁.records id) ≡ false = ground arith in
    (
      w₁,
      rw (fresh, finalize-retained id (r.committed && not (is_poisoned r.state v)) w₁ still) refl,
      (λ j. ground arith),
      refl,
      refl,
    )

-- A batch that retains a database and gives its lease back leaves every database record as it was
-- and closes nothing, provided that a wrapper, a pending transaction, a cursor or another batch
-- refers to the record.
pub retain_dbi_for_batch-release :
    (env_owner owner : ℕ) (lease : BatchDbiLease) (w w' : World)
    → retain_dbi_for_batch env_owner owner w ≡ (ok lease, w')
    → is_unused (w.records lease.record_id) ≡ false
    → (w'' : World) × (release_batch_dbi_lease lease w'
        ≡ ((none, w''), record lease { released = true }))
      × ((j : ℕ) → w''.records j ≡ w.records j)
      × (w''.calls ≡ w.calls)
      × (w''.shared ≡ w.shared)
unfolding retain_dbi_for_batch
retain_dbi_for_batch-release env_owner owner lease w w' e used =
    let h =
      retained owner lease w w' (require_committed_dbi env_owner owner w)
        (require_committed_dbi-Reads env_owner owner w) e in
    rw (h.1) (release-retain lease w (h.0) used)
