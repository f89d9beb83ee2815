-- ===== src/Native/Api.antt =====
-- The native operations that batches use (the interface `NativeApi` of native/api.ts), over the
-- state `S` of the LMDB library. LMDB is not part of this code: an implementation is an argument of
-- whatever calls it. Pointers and database handles are numbers.
use lmdb_deno.Prelude.{ℕ, Bool, Option, Result}
use lmdb_deno.Bytes.{Bytes}

-- What a call does to the state of the library: it may throw, and it returns the new state anyway.
abbrev pub Call : Type 0 → Type 0 → Type 0
Call S A = S → Result A × S

pub record NativeApi (S : Type 0) : Type 0 where
  pub txn_begin : (env : ℕ) (read_only : Bool) → Call S ℕ
  pub txn_commit : (txn : ℕ) → Call S (Unit {0})
  -- `mdb_txn_abort` returns nothing and cannot throw.
  pub txn_abort : (txn : ℕ) → S → S
  pub get : (txn dbi : ℕ) (key : Bytes) → Call S (Option Bytes)
  pub put : (txn dbi : ℕ) (key value : Bytes) (flags : ℕ) → Call S (Unit {0})
  pub del : (txn dbi : ℕ) (key : Bytes) (value : Option Bytes) → Call S (Unit {0})
