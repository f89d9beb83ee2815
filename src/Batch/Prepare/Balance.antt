-- ===== src/Batch/Prepare/Balance.antt =====
-- Which leases are retained and given back while a batch is prepared and when it is released.
use lmdb_deno.Prelude.{
  ℕ, ◌+◌, ◌≡◌, ap, ◌++◌, refl, false, Option, none, some, List, [], ◌∷◌, Result, ok, err, if-cases,
  arith,
}
use lmdb_deno.Bytes.{Bytes}
use lmdb_deno.Batch.Client.Accounting.{count, count-append}
use lmdb_deno.Encoding.Values.{Value, KeyKind}
use lmdb_deno.Batch.Request.{NormalizedBatchCondition, NormalizedBatchOperation}
use lmdb_deno.Batch.Prepare.Normalize.{
  encode_batch_key, normalize_batch_value, infer_batch_key_kind, put_flags,
}
use lmdb_deno.Batch.Prepare.Snapshot.{
  BatchOptionsSnapshot, BatchOperationSnapshot, BatchInputSnapshot,
}
use lmdb_deno.Batch.Prepare.Leases.{
  BatchDbiLease, has_lease, LeaseApi, BatchDbiTarget, Preparation, PreparedBatch, find_target,
  has_condition, or_else, owners_of, and_then, validate_owners, keep_lease, new_target, lease_dbi,
  normalize_condition, normalize_operation, normalize_operations, normalize_batch, release_lease,
  release_leases, release_prepared_batch, prepare_batch_snapshot,
}

-- The records whose leases were retained, released and finished, the last first.
pub record Tally : Type 0 where
  pub retained : List ℕ
  pub released : List ℕ
  pub finished : List ℕ

abbrev pub nothing_yet : Tally
nothing_yet = record { retained = []; released = []; finished = [] }

abbrev pub note_retained : Result BatchDbiLease → Tally → Tally
note_retained (ok l) t = record t { retained = l.record_id ∷ t.retained }
note_retained (err e) t = t

-- The same operations, which also keep the tally.
unfoldable pub tallied : {S : Type 0} → LeaseApi S → LeaseApi (S × Tally)
tallied api = record {
  validate = λ o s. let (r, s') = api.validate o s.0 in (r, (s', s.1));
  retain = λ o s. let (r, s') = api.retain o s.0 in (r, (s', note_retained r s.1));
  release = λ l s.
      let (close, s') = api.release l s.0 in
      (close, (s', record (s.1) { released = l.record_id ∷ s.1.released }));
  finish = λ l s.
      let (r, s') = api.finish l s.0 in
      (r, (s', record (s.1) { finished = l.record_id ∷ s.1.finished }));
  dbi_close = λ c s. let (r, s') = api.dbi_close c s.0 in (r, (s', s.1));
}

abbrev pub records : List BatchDbiLease → List ℕ
records [] = []
records (l ∷ ls) = l.record_id ∷ records ls

records-append : (xs ys : List BatchDbiLease) → records (xs ++ ys) ≡ records xs ++ records ys
records-append [] ys = refl
records-append (x ∷ xs) ys = ap (λ (l : List ℕ). x.record_id ∷ l) (records-append xs ys)

-- Each lease that was retained is one of the list or was released, and what was released was
-- finished.
pub record Balances (t : Tally) (leases : List BatchDbiLease) : Type 0 where
  pub even : (i : ℕ) → count i t.retained ≡ count i t.released + count i (records leases)
  pub settled : t.finished ≡ t.released

Balances-snoc :
    (t : Tally) (l : BatchDbiLease) (ls : List BatchDbiLease)
    → Balances t (l ∷ ls)
    → Balances t (ls ++ l ∷ [])
Balances-snoc t l ls h = record {
  even = λ i.
      rw (records-append ls (l ∷ []))
        (omega (arith, h.even i, count-append i (records ls) (l.record_id ∷ [])));
  settled = h.settled;
}

-- A lease of the list is released and finished.
Balances-release :
    (t : Tally) (l : BatchDbiLease) (ls : List BatchDbiLease)
    → Balances t (l ∷ ls)
    → Balances
        (record {
          retained = t.retained;
          released = l.record_id ∷ t.released;
          finished = l.record_id ∷ t.finished;
        })
        ls
Balances-release t l ls h = record {
  even = λ i. omega (arith, h.even i);
  settled = ap (λ (r : List ℕ). l.record_id ∷ r) h.settled;
}

none_out : Balances nothing_yet []
none_out = record { even = λ i. refl; settled = refl }

module _ {S : Type 0} (api : LeaseApi S) where
  validate_owners-same :
      (owners : List Value) (s : S × Tally) → (validate_owners (tallied api) owners s).1.1 ≡ s.1
  unfolding validate_owners tallied
  validate_owners-same [] s = refl
  validate_owners-same (o ∷ owners) s =
      ground (arith, validate_owners-same owners ((api.validate o s.0).1, s.1))

  release_lease-tally :
      (l : BatchDbiLease) (s : S × Tally)
      → (release_lease (tallied api) l s).1.1 ≡ record {
        retained = s.1.retained;
        released = l.record_id ∷ s.1.released;
        finished = l.record_id ∷ s.1.finished;
      }
  unfolding release_lease tallied
  release_lease-tally l s = ground arith

  release_leases-Balances :
      (ls : List BatchDbiLease) (s : S × Tally)
      → Balances s.1 ls
      → Balances (release_leases (tallied api) ls s).1.1 []
  unfolding release_leases
  release_leases-Balances [] s h = h
  release_leases-Balances (l ∷ ls) s h =
      release_leases-Balances ls (release_lease (tallied api) l s).1
        (rw (release_lease-tally l s) (Balances-release s.1 l ls h))

  -- The leases that are out are those of the preparation.
  abbrev Balanced : Preparation (S × Tally) → Type 0
  Balanced p = Balances p.native.1 p.leases

  and_then-Balanced :
      {A B : Type 0} (x : Result A × Preparation (S × Tally))
      (next : A → Preparation (S × Tally) → Result B × Preparation (S × Tally))
      → Balanced x.1
      → ((a : A) (p : Preparation (S × Tally)) → Balanced p → Balanced (next a p).1)
      → Balanced (and_then x next).1
  and_then-Balanced (ok a, p) next h n = n a p h
  and_then-Balanced (err e, p) next h n = h

  keep_lease-Balanced :
      (l : BatchDbiLease) (p : Preparation (S × Tally))
      → Balances p.native.1 (l ∷ p.leases)
      → Balanced (keep_lease (tallied api) l p).1
  unfolding keep_lease tallied
  keep_lease-Balanced l p h =
      if-cases (λ (x : Result (Unit {0}) × Preparation (S × Tally)). Balanced x.1)
        (has_lease l.record_id p.leases) _ _ (λ _. Balances-release p.native.1 l p.leases h)
        (λ _. Balances-snoc p.native.1 l p.leases h)

  -- Once a lease is retained, it is out.
  abbrev Retained : Result BatchDbiLease → Preparation (S × Tally) → Type 0
  Retained (ok l) p = Balances p.native.1 (l ∷ p.leases)
  Retained (err e) p = Balanced p

  and_then-Retained :
      {B : Type 0} (r : Result BatchDbiLease) (p : Preparation (S × Tally))
      (next : BatchDbiLease → Preparation (S × Tally) → Result B × Preparation (S × Tally))
      → Retained r p
      → ((l : BatchDbiLease) (q : Preparation (S × Tally))
          → Balances q.native.1 (l ∷ q.leases)
          → Balanced (next l q).1)
      → Balanced (and_then (r, p) next).1
  and_then-Retained (ok l) p next h n = n l p h
  and_then-Retained (err e) p next h n = h

  noted :
      (r : Result BatchDbiLease) (s : S) (p : Preparation (S × Tally))
      → Balanced p
      → Retained r (record p { native = (s, note_retained r p.native.1) })
  noted (ok l) s p h = record { even = λ i. omega (arith, h.even i); settled = h.settled }
  noted (err e) s p h = h

  new_target-Balanced :
      (o : Value) (p : Preparation (S × Tally))
      → Balanced p
      → Balanced (new_target (tallied api) o p).1
  unfolding new_target tallied
  new_target-Balanced o p h =
      and_then-Retained (api.retain o p.native.0).0 _ _
        (noted (api.retain o p.native.0).0 (api.retain o p.native.0).1 p h)
        (λ l q e.
          and_then-Balanced (keep_lease (tallied api) l q) _ (keep_lease-Balanced l q e)
            (λ _ q' b. b))

  lease_dbi-Balanced :
      (o : Value) (p : Preparation (S × Tally))
      → Balanced p
      → Balanced (lease_dbi (tallied api) o p).1
  unfolding lease_dbi
  lease_dbi-Balanced o p h = go (find_target o p.targets)
    where
      go :
          (t : Option BatchDbiTarget)
          → Balanced
              (elim t as (λ _. Result BatchDbiTarget × Preparation (S × Tally)) [
                | some target ↦ (ok target, p)
                | none ↦ new_target (tallied api) o p
              ]).1
      go (some t) = h
      go none = new_target-Balanced o p h

  normalize_condition-Balanced :
      (input : BatchOperationSnapshot) (kind : KeyKind) (key : Bytes) (p : Preparation (S × Tally))
      → Balanced p
      → Balanced (normalize_condition (tallied api) input kind key p).1
  unfolding normalize_condition
  normalize_condition-Balanced input kind key p h =
      if-cases
        (λ (x : Result (Option NormalizedBatchCondition) × Preparation (S × Tally)). Balanced x.1)
        (has_condition input) _ _
        (λ _.
          and_then-Balanced (lease_dbi (tallied api) (or_else input.if_db input.db) p) _
            (lease_dbi-Balanced (or_else input.if_db input.db) p h) (λ t q b. b))
        (λ _. h)

  normalize_operation-Balanced :
      (input : BatchOperationSnapshot) (kind : KeyKind) (p : Preparation (S × Tally))
      → Balanced p
      → Balanced (normalize_operation (tallied api) input kind p).1
  unfolding normalize_operation
  normalize_operation-Balanced input kind p h =
      and_then-Balanced (lease_dbi (tallied api) input.db p) _ (lease_dbi-Balanced input.db p h)
        (λ t p₁ b₁.
          and_then-Balanced (encode_batch_key input.op_key kind, p₁) _ b₁
            (λ key p₂ b₂.
              and_then-Balanced (normalize_batch_value input.value, p₂) _ b₂
                (λ value p₃ b₃.
                  and_then-Balanced (normalize_condition (tallied api) input kind key p₃) _
                    (normalize_condition-Balanced input kind key p₃ b₃) (λ c p₄ b₄. b₄))))

  normalize_operations-Balanced :
      (inputs : List BatchOperationSnapshot) (kind : KeyKind) (p : Preparation (S × Tally))
      → Balanced p
      → Balanced (normalize_operations (tallied api) inputs kind p).1
  unfolding normalize_operations
  normalize_operations-Balanced [] kind p h = h
  normalize_operations-Balanced (input ∷ inputs) kind p h =
      and_then-Balanced (normalize_operation (tallied api) input kind p) _
        (normalize_operation-Balanced input kind p h)
        (λ first q b.
          and_then-Balanced (normalize_operations (tallied api) inputs kind q) _
            (normalize_operations-Balanced inputs kind q b) (λ rest q' b'. b'))

  normalize_batch-Balanced :
      (inputs : List BatchOperationSnapshot) (options : BatchOptionsSnapshot)
      (p : Preparation (S × Tally))
      → Balanced p
      → Balanced (normalize_batch (tallied api) inputs options p).1
  unfolding normalize_batch
  normalize_batch-Balanced [] options p h = h
  normalize_batch-Balanced (first ∷ rest) options p h =
      and_then-Balanced (lease_dbi (tallied api) first.db p) _ (lease_dbi-Balanced first.db p h)
        (λ t q b.
          and_then-Balanced (infer_batch_key_kind first.op_key options.key_type t.key_format, q) _ b
            (λ kind q' b'. normalize_operations-Balanced (first ∷ rest) kind q' b'))

  -- What is out once a batch was prepared, by whether it was.
  abbrev pub Leased : Result PreparedBatch × (S × Tally) → Type 0
  Leased (ok prepared, s) = Balances s.1 prepared.leases × (prepared.released ≡ false)
  Leased (err e, s) = Balances s.1 []

  -- When a batch is prepared, every lease that `retainDbiForBatch` has given is one of the prepared
  -- batch or has been released and finished, record by record and as often; if preparing throws,
  -- wherever it throws, all of them have been released and finished. This is so whatever the calls of
  -- the native state answer.
  pub prepare_batch_snapshot-Leased :
      (snapshot : BatchInputSnapshot) (s : S)
      → Leased (prepare_batch_snapshot (tallied api) snapshot (s, nothing_yet))
  unfolding prepare_batch_snapshot
  prepare_batch_snapshot-Leased snapshot s =
      let owners = owners_of snapshot.operations [] in
      first (validate_owners (tallied api) owners (s, nothing_yet))
        (validate_owners-same owners (s, nothing_yet))
    where
      normalized :
          (x : Result (List NormalizedBatchOperation) × Preparation (S × Tally))
          → Balanced x.1
          → Leased (elim x.0 as (λ _. Result PreparedBatch × (S × Tally)) [
            | ok operations ↦ (
              ok (record {
                request = record {
                  operations = operations;
                  put_flags = put_flags snapshot.options;
                };
                leases = x.1.leases;
                released = false;
              }),
              x.1.native,
            )
            | err e ↦ (err e, (release_leases (tallied api) x.1.leases x.1.native).1)
          ])
      normalized (ok operations, p) b = (b, refl)
      normalized (err e, p) b = release_leases-Balances p.leases p.native b

      first :
          (x : Result (Unit {0}) × (S × Tally))
          → x.1.1 ≡ nothing_yet
          → Leased (
              and_then x (λ _ s₁.
                let (r, p) =
                  normalize_batch
                    (tallied api)
                    snapshot.operations
                    snapshot.options
                    (record { native = s₁; targets = []; leases = [] }) in
                elim r as (λ _. Result PreparedBatch × (S × Tally)) [
                  | ok operations ↦ (
                    ok (record {
                      request = record {
                        operations = operations;
                        put_flags = put_flags snapshot.options;
                      };
                      leases = p.leases;
                      released = false;
                    }),
                    p.native,
                  )
                  | err e ↦ (err e, (release_leases (tallied api) p.leases p.native).1)
                ]))
      first (err e, s₁) h = rw h none_out
      first (ok _, s₁) h =
          normalized
            (normalize_batch (tallied api) snapshot.operations snapshot.options
              (record { native = s₁; targets = []; leases = [] }))
            (normalize_batch-Balanced snapshot.operations snapshot.options
              (record { native = s₁; targets = []; leases = [] }) (rw h none_out))

  -- Releasing a prepared batch releases and finishes each lease that it holds, once: a second release
  -- changes nothing.
  pub release_prepared_batch_once :
      (prepared : PreparedBatch) (s : S × Tally)
      → prepared.released ≡ false
      → Balances s.1 prepared.leases
      → let (e, prepared', s') = release_prepared_batch (tallied api) prepared s in
        Balances s'.1 []
        × (release_prepared_batch (tallied api) prepared' s' ≡ (none, prepared', s'))
  unfolding release_prepared_batch
  release_prepared_batch_once prepared s h b =
      let out = release_leases-Balances prepared.leases s b in (rw h out, ground (arith, h))
