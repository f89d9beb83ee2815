-- ===== src/Batch/Prepare/Normalize.antt =====
-- Keys, values and flags of a request (batch/executor.ts).
use lmdb_deno.Prelude.{
  ℕ, ◌+◌, Bool, true, false, not, ◌&&◌, Option, none, some, error, type_error, Result, ok, err,
  ◌>>=◌, ltb, if◌then◌else◌, throw_if,
}
use lmdb_deno.Bytes.{Bytes}
use lmdb_deno.Encoding.Values.{
  Key, text, number, bytes, Value, undefined, null, key, KeyEncoding, KeyKind, string_kind,
  uint32_kind, buffer_kind, kind_encoding,
}
use lmdb_deno.Encoding.Keys.{encode_key}
use lmdb_deno.Batch.Prepare.Snapshot.{BatchOptionsSnapshot, invalid_batch_value}

abbrev pub same_kind : KeyKind → KeyKind → Bool
same_kind string_kind string_kind = true
same_kind uint32_kind uint32_kind = true
same_kind buffer_kind buffer_kind = true
same_kind _ _ = false

abbrev pub key_kind : Key → KeyKind
key_kind (text s) = string_kind
key_kind (number n) = uint32_kind
key_kind (bytes b) = buffer_kind

-- `inferKeyKind`, with the key that the value is.
unfoldable pub infer_key_kind : Value → Result (Key × KeyKind)
infer_key_kind (key k) = ok (k, key_kind k)
infer_key_kind _ = err (type_error "Invalid key type")

abbrev pub one_if : Bool → ℕ
one_if b = if b then 1 else 0

unfoldable pub key_kind_from_options : KeyEncoding → Result (Option KeyKind)
key_kind_from_options options =
    throw_if
      (ltb 1 (
        one_if options.key_is_uint32 + one_if options.key_is_buffer + one_if options.key_is_string))
      (error "You can't specify multiple key types at once.")
    >>= λ _. ok (
        if options.key_is_uint32
        then some uint32_kind
        else if options.key_is_buffer
        then some buffer_kind
        else if options.key_is_string
        then some string_kind
        else none)

abbrev pub differs : Option KeyKind → KeyKind → Bool
differs none kind = false
differs (some explicit) kind = not (same_kind explicit kind)

unfoldable pub infer_batch_key_kind : Value → KeyEncoding → KeyEncoding → Result KeyKind
infer_batch_key_kind value options first_dbi_format = infer_key_kind value >>= λ inferred.
    key_kind_from_options options >>= λ explicit.
    throw_if (differs explicit inferred.1)
      (error "Specified key type doesn't match the key you gave.")
    >>= λ _.
        throw_if (first_dbi_format.key_is_uint32 && not (same_kind inferred.1 uint32_kind))
          (error "You specified keyIsUint32 on the Dbi, so you can't use other key types with it.")
        >>= λ _. ok inferred.1

unfoldable pub encode_batch_key : Value → KeyKind → Result Bytes
encode_batch_key value kind = infer_key_kind value >>= λ inferred.
    throw_if (not (same_kind inferred.1 kind)) (type_error "Invalid key.") >>= λ _.
    encode_key inferred.0 (some (kind_encoding kind))

unfoldable pub normalize_batch_value : Value → Result (Option Bytes)
normalize_batch_value undefined = ok none
normalize_batch_value null = ok none
normalize_batch_value (key (bytes b)) = ok (some b)
normalize_batch_value _ = err invalid_batch_value

-- The flags are different bits, so that `|=` adds them.
unfoldable pub put_flags : BatchOptionsSnapshot → ℕ
put_flags options =
    (if options.no_overwrite then 0x10 else 0)
    + (if options.no_dup_data then 0x20 else 0)
    + (if options.append then 0x20000 else 0)
    + (if options.append_dup then 0x40000 else 0)
