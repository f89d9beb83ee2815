-- ===== src/Tests/Memory.antt =====
-- A small transactional key-value library in memory, to run batches against.
use lmdb_deno.Prelude.{
  ℕ, suc, Bool, true, false, Option, none, some, List, [], ◌∷◌, length, negsuc, lmdb_error, ok, err,
  ltb, ◌==◌, if◌then◌else◌,
}
use lmdb_deno.Bytes.{Bytes}
use lmdb_deno.Native.Api.{Call, NativeApi}
use lmdb_deno.Batch.Executor.{mdb_notfound, mdb_bad_valsize}

abbrev pub Records : Type 0
Records = List (Bytes × Bytes)

-- The committed records, those of the open transaction, and the transactions begun so far.
pub record Memory : Type 0 where
  pub stored : Records
  pub working : Records
  pub begun : ℕ

abbrev same : Bytes → Bytes → Bool
same [] [] = true
same [] (b ∷ bs) = false
same (a ∷ rest) [] = false
same (a ∷ rest) (b ∷ bs) = if a == b then same rest bs else false

abbrev find : Bytes → Records → Option Bytes
find key [] = none
find key ((k, v) ∷ records) = if same key k then some v else find key records

abbrev without : Bytes → Records → Records
without key [] = []
without key ((k, v) ∷ records) =
    let rest = without key records in if same key k then rest else (k, v) ∷ rest

-- Keys of more than three bytes are refused as too long.
abbrev too_long : Bytes → Bool
too_long key = ltb 3 (length key)

abbrev lookup : Bytes → Call Memory (Option Bytes)
lookup key m =
    if too_long key then (err (lmdb_error mdb_bad_valsize ""), m) else (ok (find key m.working), m)

abbrev store : Bytes → Bytes → Call Memory (Unit {0})
store key value m =
    if too_long key
    then (err (lmdb_error mdb_bad_valsize ""), m)
    else (ok tt, record m { working = (key, value) ∷ without key m.working })

abbrev remove : Bytes → Call Memory (Unit {0})
remove key m = elim (find key m.working) [
  | none ↦ (err (lmdb_error mdb_notfound ""), m)
  | some _ ↦ (ok tt, record m { working = without key m.working })
]

abbrev pub memory_api : NativeApi Memory
memory_api = record {
  txn_begin =
      λ env read_only m. (ok (suc m.begun), record m { working = m.stored; begun = suc m.begun });
  txn_commit = λ txn m. (ok tt, record m { stored = m.working });
  txn_abort = λ txn m. record m { working = m.stored };
  get = λ txn dbi key m. lookup key m;
  put = λ txn dbi key value flags m. store key value m;
  del = λ txn dbi key value m. remove key m;
}

-- A library whose writes always fail with a full map (-30792).
abbrev pub full_api : NativeApi Memory
full_api = record memory_api {
  put = λ txn dbi key value flags m. (err (lmdb_error (negsuc 30791) ""), m);
}

abbrev pub empty_memory : Memory
empty_memory = record { stored = []; working = []; begun = 0 }
