-- ===== src/Txn/Batched.antt =====
-- A record that a transaction writes (txn.ts) and the same record in a batch (batch/executor.ts).
use lmdb_deno.Prelude.{◌≡◌, Option, none, some, Result, ok, err, ◌>>=◌, arith}
use lmdb_deno.Bytes.{Bytes}
use lmdb_deno.Encoding.Values.{
  text, number, bytes, Value, undefined, null, boolean, key, object, function, KeyEncoding,
}
use lmdb_deno.Encoding.Keys.{encode_key}
use lmdb_deno.Batch.Prepare.Snapshot.{BatchOptionsSnapshot}
use lmdb_deno.Batch.Prepare.Normalize.{
  infer_key_kind, key_kind_from_options, infer_batch_key_kind, encode_batch_key,
}
use lmdb_deno.Data.Keys.{agreed_kind, encode_in}
use lmdb_deno.Txn.Access.{PutOptions, put_flags}

abbrev pub returned : {A : Type 0} → Result A → Option A
returned (ok a) = some a
returned (err e) = none

-- The key that a batch writes, of which this is the first.
abbrev pub batch_key : Value → KeyEncoding → KeyEncoding → Result Bytes
batch_key value options format =
    infer_batch_key_kind value options format >>= λ kind. encode_batch_key value kind

-- The options of a batch as those of a put.
abbrev pub put_options : BatchOptionsSnapshot → PutOptions
put_options o = record {
  key_type = o.key_type;
  append = o.append;
  no_overwrite = o.no_overwrite;
  no_dup_data = o.no_dup_data;
  append_dup = o.append_dup;
}

-- A transaction and a batch that begins with the key, with the same options for the same database,
-- encode the key to the same bytes or both refuse it, and give the options the same flags.
pub agreed_kind-batch :
    (value : Value) (o : BatchOptionsSnapshot) (format : KeyEncoding)
    → (returned (agreed_kind value (some o.key_type) >>= encode_in format)
        ≡ returned (batch_key value o.key_type format))
      × (put_flags (some (put_options o)) ≡ lmdb_deno.Batch.Prepare.Normalize.put_flags o)
unfolding agreed_kind encode_in infer_key_kind lmdb_deno.Data.Keys.key_kind_from_options
    key_kind_from_options infer_batch_key_kind encode_batch_key encode_key put_flags
    lmdb_deno.Batch.Prepare.Normalize.put_flags
agreed_kind-batch undefined o format = (ground arith, ground arith)
agreed_kind-batch null o format = (ground arith, ground arith)
agreed_kind-batch (boolean b) o format = (ground arith, ground arith)
agreed_kind-batch (object b) o format = (ground arith, ground arith)
agreed_kind-batch (function b) o format = (ground arith, ground arith)
agreed_kind-batch (key (text b)) o format = (ground arith, ground arith)
agreed_kind-batch (key (number b)) o format = (ground arith, ground arith)
agreed_kind-batch (key (bytes b)) o format = (ground arith, ground arith)
