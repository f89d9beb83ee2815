-- ===== src/Batch/Prepare/Leases.antt =====
-- `prepareBatchSnapshot` and `releasePreparedBatch` (batch/executor.ts): the databases of a batch are
-- leased from internal/native_state.ts, one lease for each native record.
use lmdb_deno.Prelude.{
  ℕ, Bool, true, false, Option, none, some, List, [], ◌∷◌, ◌++◌, Exception, Result, ok, err, ◌>>=◌,
  or_first, ◌==◌, if◌then◌else◌,
}
use lmdb_deno.Bytes.{Bytes}
use lmdb_deno.Encoding.Values.{Value, undefined, null, object, KeyEncoding, KeyKind}
use lmdb_deno.Batch.Request.{
  NormalizedBatchCondition, NormalizedBatchOperation, NormalizedBatchRequest,
}
use lmdb_deno.Batch.Prepare.Snapshot.{
  BatchOptionsSnapshot, BatchOperationSnapshot, BatchInputSnapshot,
}
use lmdb_deno.Batch.Prepare.Normalize.{
  infer_batch_key_kind, encode_batch_key, normalize_batch_value, put_flags,
}

-- `record` is the identity of the native record that is retained.
pub record BatchDbiLease : Type 0 where
  pub record_id : ℕ
  pub handle : ℕ
  pub key_format : KeyEncoding

-- The operations on shared native state, `S`, for one environment.
pub record LeaseApi (S : Type 0) : Type 0 where
  -- `validateDbiForBatch(env, owner)` and `retainDbiForBatch(env, owner)`
  pub validate : Value → S → Result (Unit {0}) × S
  pub retain : Value → S → Result BatchDbiLease × S
  -- `releaseBatchDbiLease`, with the native close that is due, and `finishBatchDbiLeaseRelease`
  pub release : BatchDbiLease → S → Option (ℕ × ℕ) × S
  pub finish : BatchDbiLease → S → Result (Unit {0}) × S
  pub dbi_close : ℕ × ℕ → S → Result (Unit {0}) × S

pub record BatchDbiTarget : Type 0 where
  pub handle : ℕ
  pub key_format : KeyEncoding

-- `targetsByOwner` and `leasesByRecord`, beside the native state.
pub record Preparation (S : Type 0) : Type 0 where
  pub native : S
  pub targets : List (Value × BatchDbiTarget)
  pub leases : List BatchDbiLease

pub record PreparedBatch : Type 0 where
  pub request : NormalizedBatchRequest
  pub leases : List BatchDbiLease
  pub released : Bool

-- The same object. Owners of other types do not get past their validation.
abbrev pub same_owner : Value → Value → Bool
same_owner (object n) (object m) = n == m
same_owner _ _ = false

abbrev pub find_target : Value → List (Value × BatchDbiTarget) → Option BatchDbiTarget
find_target owner [] = none
find_target owner ((o, target) ∷ l) =
    if same_owner o owner then some target else find_target owner l

abbrev pub has_lease : ℕ → List BatchDbiLease → Bool
has_lease id [] = false
has_lease id (l ∷ ls) = if l.record_id == id then true else has_lease id ls

abbrev pub add_owner : Value → List Value → List Value
add_owner owner [] = owner ∷ []
add_owner owner (o ∷ l) = if same_owner o owner then o ∷ l else o ∷ add_owner owner l

-- `value ?? other`.
abbrev pub or_else : Value → Value → Value
or_else undefined other = other
or_else null other = other
or_else value other = value

abbrev pub has_condition : BatchOperationSnapshot → Bool
has_condition input = elim input.if_value [ undefined ↦ false | _ ↦ true ]

unfoldable pub owners_of : List BatchOperationSnapshot → List Value → List Value
owners_of [] owners = owners
owners_of (input ∷ inputs) owners =
    let own = add_owner input.db owners in
    owners_of inputs
      (if has_condition input then add_owner (or_else input.if_db input.db) own else own)

-- The next call of a computation that may throw and changes the state anyway.
abbrev pub and_then : {A B P : Type 0} → Result A × P → (A → P → Result B × P) → Result B × P
and_then (ok a, p) next = next a p
and_then (err e, p) next = (err e, p)

abbrev thrown : {A : Type 0} → Result A → Option Exception
thrown (ok _) = none
thrown (err e) = some e

module _ {S : Type 0} (api : LeaseApi S) where
  unfoldable pub validate_owners : List Value → S → Result (Unit {0}) × S
  validate_owners [] s = (ok tt, s)
  validate_owners (owner ∷ owners) s =
      and_then (api.validate owner s) (λ _ s'. validate_owners owners s')

  -- A lease that was just retained: kept, or given back if its record has a lease already.
  unfoldable pub keep_lease : BatchDbiLease → Preparation S → Result (Unit {0}) × Preparation S
  keep_lease candidate p =
      let (_, s) = api.release candidate p.native in
      let (r, s') = api.finish candidate s in
      if has_lease candidate.record_id p.leases
      then (r, record p { native = s' })
      else (ok tt, record p { leases = p.leases ++ candidate ∷ [] })

  unfoldable pub new_target : Value → Preparation S → Result BatchDbiTarget × Preparation S
  new_target owner p =
      let (r, s) = api.retain owner p.native in
      let p' = record p { native = s } in
      and_then (r, p')
        (λ candidate p₁.
          let target : BatchDbiTarget = record {
            handle = candidate.handle;
            key_format = candidate.key_format;
          } in
          and_then (keep_lease candidate p₁)
            (λ _ p₂. (ok target, record p₂ { targets = p₂.targets ++ (owner, target) ∷ [] })))

  -- The function `lease`.
  unfoldable pub lease_dbi : Value → Preparation S → Result BatchDbiTarget × Preparation S
  lease_dbi owner p = elim (find_target owner p.targets) [
    | some target ↦ (ok target, p)
    | none ↦ new_target owner p
  ]

  unfoldable pub normalize_condition :
      BatchOperationSnapshot
      → KeyKind
      → Bytes
      → Preparation S
      → Result (Option NormalizedBatchCondition) × Preparation S
  normalize_condition input kind encoded_key p =
      let own_key : Result Bytes = elim input.if_key [
        | undefined ↦ ok encoded_key
        | null ↦ ok encoded_key
        | _ ↦ encode_batch_key input.if_key kind
      ] in
      if has_condition input
      then and_then (lease_dbi (or_else input.if_db input.db) p) (λ target p'. (
        own_key >>= (λ key. normalize_batch_value input.if_value >>= (λ value. ok (
            some (record { dbi = target.handle; key = key; value = value; exact = input.exact })))),
        p',
      ))
      else (ok none, p)

  unfoldable pub normalize_operation :
      BatchOperationSnapshot
      → KeyKind
      → Preparation S
      → Result NormalizedBatchOperation × Preparation S
  normalize_operation input kind p = and_then (lease_dbi input.db p) (λ target p₁.
      and_then (encode_batch_key input.op_key kind, p₁)
        (λ encoded_key p₂.
          and_then (normalize_batch_value input.value, p₂)
            (λ value p₃. and_then (normalize_condition input kind encoded_key p₃) (λ condition p₄. (
              ok (record {
                dbi = target.handle;
                key = encoded_key;
                value = value;
                condition = condition;
              }),
              p₄,
            )))))

  unfoldable pub normalize_operations :
      List BatchOperationSnapshot
      → KeyKind
      → Preparation S
      → Result (List NormalizedBatchOperation) × Preparation S
  normalize_operations [] kind p = (ok [], p)
  normalize_operations (input ∷ inputs) kind p =
      and_then (normalize_operation input kind p) (λ first p'.
        and_then (normalize_operations inputs kind p') (λ rest p''. (ok (first ∷ rest), p'')))

  -- The first operation's key settles the kind of all keys.
  unfoldable pub normalize_batch :
      List BatchOperationSnapshot
      → BatchOptionsSnapshot
      → Preparation S
      → Result (List NormalizedBatchOperation) × Preparation S
  normalize_batch [] options p = (ok [], p)
  normalize_batch (first ∷ rest) options p = and_then (lease_dbi first.db p) (λ target p₁.
      and_then (infer_batch_key_kind first.op_key options.key_type target.key_format, p₁)
        (λ kind p₂. normalize_operations (first ∷ rest) kind p₂))

  -- One round of `releasePreparedBatch`, with its error.
  unfoldable pub release_lease : BatchDbiLease → S → Option Exception × S
  release_lease lease s =
      let (close, s₁) = api.release lease s in
      let (closed, s₂) = elim close as (λ _. Result (Unit {0}) × S) [
        | none ↦ (ok tt, s₁)
        | some c ↦ api.dbi_close c s₁
      ] in
      let (finished, s₃) = api.finish lease s₂ in (or_first (thrown closed) (thrown finished), s₃)

  unfoldable pub release_leases : List BatchDbiLease → S → Option Exception × S
  release_leases [] s = (none, s)
  release_leases (lease ∷ leases) s =
      let (e, s') = release_lease lease s in
      let (later, s'') = release_leases leases s' in (or_first e later, s'')

  unfoldable pub release_prepared_batch : PreparedBatch → S → Option Exception × PreparedBatch × S
  release_prepared_batch prepared s =
      let (e, s') = release_leases prepared.leases s in
      if prepared.released
      then (none, prepared, s)
      else (e, record prepared { released = true }, s')

  -- The `catch` gives every lease back and throws the error of the normalization.
  unfoldable pub prepare_batch_snapshot : BatchInputSnapshot → S → Result PreparedBatch × S
  prepare_batch_snapshot snapshot s =
      and_then (validate_owners (owners_of snapshot.operations []) s) (λ _ s₁.
        let (r, p) =
          normalize_batch snapshot.operations snapshot.options
            (record { native = s₁; targets = []; leases = [] }) in
        elim r [
          | ok operations ↦ (
            ok (record {
              request = record { operations = operations; put_flags = put_flags snapshot.options };
              leases = p.leases;
              released = false;
            }),
            p.native,
          )
          | err e ↦ (err e, (release_leases p.leases p.native).1)
        ])
