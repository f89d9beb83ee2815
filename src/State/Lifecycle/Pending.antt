-- ===== src/State/Lifecycle/Pending.antt =====
-- The databases that a transaction opened, when it ends (`promotePendingDbiBindings` and
-- `invalidatePendingDbiBindings` of internal/native_state.ts).
use lmdb_deno.Prelude.{
  ℕ, ◌≡◌, ◌≢◌, refl, ap, ◌∙◌, sym, has, add, Bool, true, false, none, List, [], ◌∷◌, ◌==◌, subst,
  arith,
}
use lmdb_deno.State.World.{DbiBinding, World}
use lmdb_deno.State.Records.{
  drop_record, finalize_empty_dbi_record, close_wrapper, finalize_dbi_records, promote_bindings,
  take_pending, promote_one, invalidate_one, promote_pending_dbi_bindings, invalidate_pending,
  finalize_committed, invalidate_pending_dbi_bindings,
}

-- Wrappers, records and transactions stay as they are.
record Same (w w' : World) : Type 0 where
  dbis : w'.dbis ≡ w.dbis
  records : w'.records ≡ w.records
  transactions : w'.transactions ≡ w.transactions

Same-trans : {u v w : World} → Same u v → Same v w → Same u w
Same-trans h k = record {
  dbis = k.dbis ∙ h.dbis;
  records = k.records ∙ h.records;
  transactions = k.transactions ∙ h.transactions;
}

finalize-Same :
    (id : ℕ) (close_native : Bool) (w : World)
    → Same w (finalize_empty_dbi_record id close_native w).1
unfolding finalize_empty_dbi_record drop_record
finalize-Same id close_native w = record {
  dbis = ground arith;
  records = ground arith;
  transactions = ground arith;
}

finalize_dbi_records-Same :
    (rs : List ℕ) (close_native : Bool) (w : World)
    → Same w (finalize_dbi_records rs close_native w).1
unfolding finalize_dbi_records
finalize_dbi_records-Same [] close_native w = record {
  dbis = refl;
  records = refl;
  transactions = refl;
}
finalize_dbi_records-Same (r ∷ rs) close_native w =
    Same-trans (finalize-Same r close_native w) (finalize_dbi_records-Same rs close_native _)

finalize_committed-Same :
    (rs : List ℕ) (close_committed : Bool) (w : World)
    → Same w (finalize_committed rs close_committed w).1
unfolding finalize_committed
finalize_committed-Same [] close_committed w = record {
  dbis = refl;
  records = refl;
  transactions = refl;
}
finalize_committed-Same (r ∷ rs) close_committed w =
    Same-trans (finalize-Same r _ w) (finalize_committed-Same rs close_committed _)

-- A database whose transaction was aborted.
abbrev pub IsInvalid : DbiBinding → Type 0
IsInvalid d = (d.closed ≡ true) × (d.pending_txn ≡ none)

invalidate_one_self : (dbi : ℕ) (w : World) → IsInvalid ((invalidate_one dbi w).dbis dbi)
unfolding close_wrapper
invalidate_one_self dbi w = (ground arith, ground arith)

invalidate_one-other : (dbi d : ℕ) (w : World) → d ≢ dbi → (invalidate_one dbi w).dbis d ≡ w.dbis d
unfolding close_wrapper
invalidate_one-other dbi d w other = ground arith

invalidate_one-transactions :
    (dbi : ℕ) (w : World) → (invalidate_one dbi w).transactions ≡ w.transactions
unfolding close_wrapper
invalidate_one-transactions dbi w = ground arith

invalidate_one-keeps :
    (dbi d : ℕ) (w : World) → IsInvalid (w.dbis d) → IsInvalid ((invalidate_one dbi w).dbis d)
invalidate_one-keeps dbi d w h =
    elim (d == dbi) as (λ b. (d == dbi) ≡ b → IsInvalid ((invalidate_one dbi w).dbis d)) [
      | true ↦ λ same.
          let e : dbi ≡ d = ground arith in
          subst (λ i. IsInvalid ((invalidate_one dbi w).dbis i)) e (invalidate_one_self dbi w)
      | false ↦ λ other. rw (invalidate_one-other dbi d w (ground arith)) h
    ]
      refl

invalidate_pending-keeps :
    (dbis records : List ℕ) (d : ℕ) (w : World)
    → IsInvalid (w.dbis d)
    → IsInvalid ((invalidate_pending dbis records w).1.dbis d)
unfolding invalidate_pending
invalidate_pending-keeps [] records d w h = h
invalidate_pending-keeps (dbi ∷ dbis) records d w h =
    invalidate_pending-keeps dbis _ d _ (invalidate_one-keeps dbi d w h)

invalidate_pending-closes :
    (dbis records : List ℕ) (d : ℕ) (w : World)
    → has d dbis ≡ true
    → IsInvalid ((invalidate_pending dbis records w).1.dbis d)
unfolding invalidate_pending
invalidate_pending-closes [] records d w there = absurd (ground arith)
invalidate_pending-closes (dbi ∷ dbis) records d w there =
    elim (d == dbi)
        as (λ b.
          (d == dbi) ≡ b → IsInvalid ((invalidate_pending (dbi ∷ dbis) records w).1.dbis d)) [
            | true ↦ λ same.
                let e : dbi ≡ d = ground arith in
                invalidate_pending-keeps dbis _ d (invalidate_one dbi w) (
                  subst (λ i. IsInvalid ((invalidate_one dbi w).dbis i)) e
                    (invalidate_one_self dbi w))
            | false ↦
                λ other. invalidate_pending-closes dbis _ d (invalidate_one dbi w) (ground arith)
          ]
      refl

invalidate_pending-transactions :
    (dbis records : List ℕ) (w : World)
    → (invalidate_pending dbis records w).1.transactions ≡ w.transactions
unfolding invalidate_pending
invalidate_pending-transactions [] records w = refl
invalidate_pending-transactions (dbi ∷ dbis) records w =
    invalidate_pending-transactions dbis _ (invalidate_one dbi w)
    ∙ invalidate_one-transactions dbi w

-- When a transaction is aborted, each database that it opened is closed and pending no more, and
-- the transaction has no pending databases left.
pub invalidate_pending_dbi_bindings_closes :
    (txn : ℕ) (close_committed : Bool) (w : World)
    → ((d : ℕ)
        → has d (w.transactions txn).pending_dbis ≡ true
        → IsInvalid ((invalidate_pending_dbi_bindings txn close_committed w).1.dbis d))
      × (((invalidate_pending_dbi_bindings txn close_committed w).1.transactions txn).pending_dbis
          ≡ [])
unfolding invalidate_pending_dbi_bindings
invalidate_pending_dbi_bindings_closes txn close_committed w =
    let taken = take_pending txn w in
    let looped = invalidate_pending (w.transactions txn).pending_dbis [] taken in
    let same = finalize_committed-Same (looped.0) close_committed (looped.1) in
    (
      (λ d there.
          rw same.dbis
            (invalidate_pending-closes (w.transactions txn).pending_dbis [] d taken there)),
      ap (λ f. (f txn).pending_dbis)
            (same.transactions
              ∙ invalidate_pending-transactions (w.transactions txn).pending_dbis [] taken)
          ∙ ground arith,
    )

-- A database whose transaction has committed: as it was before, and no longer pending.
pub record IsPromoted (w w' : World) (d : ℕ) : Type 0 where
  pub not_pending : (w'.dbis d).pending_txn ≡ none
  pub same_handle : (w'.dbis d).handle ≡ (w.dbis d).handle
  pub same_closed : (w'.dbis d).closed ≡ (w.dbis d).closed
  pub same_record : (w'.dbis d).record_id ≡ (w.dbis d).record_id
  pub committed : (w'.records (w.dbis d).record_id).committed ≡ true

promote_one-promotes : (dbi : ℕ) (w : World) → IsPromoted w (promote_one dbi w) dbi
promote_one-promotes dbi w = record {
  not_pending = ground arith;
  same_handle = ground arith;
  same_closed = ground arith;
  same_record = ground arith;
  committed = ground arith;
}

promote_one-keeps :
    (dbi d : ℕ) (v w : World) → IsPromoted v w d → IsPromoted v (promote_one dbi w) d
promote_one-keeps dbi d v w h = record {
  not_pending = ground (arith, h.not_pending);
  same_handle = ground (arith, h.same_handle);
  same_closed = ground (arith, h.same_closed);
  same_record = ground (arith, h.same_record);
  committed = ground (arith, h.committed);
}

promote_bindings-keeps :
    (dbis records : List ℕ) (d : ℕ) (v w : World)
    → IsPromoted v w d
    → IsPromoted v (promote_bindings dbis records w).1 d
unfolding promote_bindings
promote_bindings-keeps [] records d v w h = h
promote_bindings-keeps (dbi ∷ dbis) records d v w h =
    promote_bindings-keeps dbis _ d v _ (promote_one-keeps dbi d v w h)

promote_one-other : (dbi d : ℕ) (w : World) → d ≢ dbi → (promote_one dbi w).dbis d ≡ w.dbis d
promote_one-other dbi d w other = ground arith

promote_bindings-promotes :
    (dbis records : List ℕ) (d : ℕ) (w : World)
    → has d dbis ≡ true
    → IsPromoted w (promote_bindings dbis records w).1 d
unfolding promote_bindings
promote_bindings-promotes [] records d w there = absurd (ground arith)
promote_bindings-promotes (dbi ∷ dbis) records d w there =
    elim (d == dbi)
        as (λ b. (d == dbi) ≡ b → IsPromoted w (promote_bindings (dbi ∷ dbis) records w).1 d) [
          | true ↦ λ same.
              let e : dbi ≡ d = ground arith in
              promote_bindings-keeps dbis _ d w _
                (subst (λ i. IsPromoted w (promote_one dbi w) i) e (promote_one-promotes dbi w))
          | false ↦ λ other.
              let kept = promote_one-other dbi d w (ground arith) in
              let h =
                promote_bindings-promotes dbis (add (w.dbis dbi).record_id records) d
                  (promote_one dbi w) (ground arith) in
              record {
                not_pending = h.not_pending;
                same_handle = h.same_handle ∙ ap (λ b. b.handle) kept;
                same_closed = h.same_closed ∙ ap (λ b. b.closed) kept;
                same_record = h.same_record ∙ ap (λ b. b.record_id) kept;
                committed = rw (sym (ap (λ b. b.record_id) kept)) h.committed;
              }
        ]
      refl

promote_bindings-transactions :
    (dbis records : List ℕ) (w : World)
    → (promote_bindings dbis records w).1.transactions ≡ w.transactions
unfolding promote_bindings
promote_bindings-transactions [] records w = refl
promote_bindings-transactions (dbi ∷ dbis) records w =
    promote_bindings-transactions dbis _ (promote_one dbi w)

-- When a transaction commits, each database that it opened is pending no more, its record counts as
-- committed, it is closed only if it was, and the transaction has no pending databases left.
pub promote_pending_dbi_bindings_promotes :
    (txn : ℕ) (w : World)
    → ((d : ℕ)
        → has d (w.transactions txn).pending_dbis ≡ true
        → IsPromoted w (promote_pending_dbi_bindings txn w).1 d)
      × (((promote_pending_dbi_bindings txn w).1.transactions txn).pending_dbis ≡ [])
unfolding promote_pending_dbi_bindings
promote_pending_dbi_bindings_promotes txn w =
    let taken = take_pending txn w in
    let looped = promote_bindings (w.transactions txn).pending_dbis [] taken in
    let same = finalize_dbi_records-Same (looped.0) true (looped.1) in
    (
      (λ d there.
          let h = promote_bindings-promotes (w.transactions txn).pending_dbis [] d taken there in
          record {
            not_pending = ap (λ f. (f d).pending_txn) same.dbis ∙ h.not_pending;
            same_handle = ap (λ f. (f d).handle) same.dbis ∙ h.same_handle;
            same_closed = ap (λ f. (f d).closed) same.dbis ∙ h.same_closed;
            same_record = ap (λ f. (f d).record_id) same.dbis ∙ h.same_record;
            committed = ap (λ f. (f (w.dbis d).record_id).committed) same.records ∙ h.committed;
          }),
      ap (λ f. (f txn).pending_dbis)
            (same.transactions
              ∙ promote_bindings-transactions (w.transactions txn).pending_dbis [] taken)
          ∙ ground arith,
    )
