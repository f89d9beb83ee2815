-- ===== src/Data/Keys.antt =====
-- The functions on keys and values that txn.ts and cursor.ts both have; their `inferKeyKind` is that of
-- batch/executor.ts.
use lmdb_deno.Prelude.{
  ◌+◌, not, ◌&&◌, Option, none, some, error, type_error, Result, ok, err, ◌>>=◌, ltb, if◌then◌else◌,
  throw_if,
}
use lmdb_deno.Bytes.{Bytes}
use lmdb_deno.Encoding.Text.{encode_string}
use lmdb_deno.Encoding.Values.{
  Number, Key, text, number, bytes, Value, boolean, key, KeyEncoding, KeyKind, string_kind,
  uint32_kind, buffer_kind, kind_encoding,
}
use lmdb_deno.Batch.Prepare.Normalize.{same_kind, one_if, differs, infer_key_kind}
use lmdb_deno.Encoding.Keys.{encode_key, encode_number, encode_boolean}

abbrev pub kind_of_options : KeyEncoding → Option KeyKind
kind_of_options o =
    if o.key_is_uint32
    then some uint32_kind
    else if o.key_is_buffer
    then some buffer_kind
    else if o.key_is_string
    then some string_kind
    else none

-- `keyKindFromOptions`. Options are an object or missing.
unfoldable pub key_kind_from_options : Option KeyEncoding → Result (Option KeyKind)
key_kind_from_options none = ok none
key_kind_from_options (some o) =
    throw_if (ltb 1 (one_if o.key_is_uint32 + one_if o.key_is_buffer + one_if o.key_is_string)) (
      error
        "You can't specify multiple key types at once. Either set keyIsUint32, or keyIsBuffer or keyIsString (default).")
    >>= λ _. ok (kind_of_options o)

-- The key with its kind, which the options do not contradict.
unfoldable pub agreed_kind : Value → Option KeyEncoding → Result (Key × KeyKind)
agreed_kind value options = key_kind_from_options options >>= λ explicit.
    infer_key_kind value >>= λ inferred.
    throw_if (differs explicit (inferred.1))
      (error "Specified key type doesn't match the key you gave.")
    >>= λ _. ok inferred

-- A key of a database or a cursor that has a format.
unfoldable pub encode_in : KeyEncoding → Key × KeyKind → Result Bytes
encode_in format (k, kind) =
    throw_if (format.key_is_uint32 && not (same_kind kind uint32_kind))
      (error "You specified keyIsUint32 on the Dbi, so you can't use other key types with it.")
    >>= λ _. encode_key k (some (kind_encoding kind))

module _ (set_float64 : Number → Bytes) (get_float64 : Bytes → Number) where
  -- `encodeDeleteValue` of txn.ts and `encodeCursorValue`.
  unfoldable pub encode_value : Value → Result Bytes
  encode_value (key (bytes b)) = ok b
  encode_value (key (text s)) = ok (encode_string s)
  encode_value (key (number n)) = ok (encode_number set_float64 get_float64 n)
  encode_value (boolean b) = ok (encode_boolean b)
  encode_value _ = err (type_error "Invalid data type.")
