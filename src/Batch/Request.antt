-- ===== src/Batch/Request.antt =====
-- Batch requests and results (batch/protocol.ts, types.ts).
use lmdb_deno.Prelude.{ℕ, Bool, Option, List}
use lmdb_deno.Bytes.{Bytes}

-- `enum BatchResult`.
pub data BatchResult : Type 0 where
  success condition_not_met not_found bad_valsize : BatchResult

pub record NormalizedBatchCondition : Type 0 where
  pub dbi : ℕ
  pub key : Bytes
  pub value : Option Bytes
  pub exact : Bool

-- A value that is `null` deletes the key.
pub record NormalizedBatchOperation : Type 0 where
  pub dbi : ℕ
  pub key : Bytes
  pub value : Option Bytes
  pub condition : Option NormalizedBatchCondition

pub record NormalizedBatchRequest : Type 0 where
  pub operations : List NormalizedBatchOperation
  pub put_flags : ℕ
