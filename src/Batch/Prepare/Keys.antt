-- ===== src/Batch/Prepare/Keys.antt =====
-- What the keys and the flags of a normalized request stand for.
use lmdb_deno.Prelude.{
  ℕ, ◌+◌, ◌/◌, ◌^◌, ◌%◌, ◌≡◌, refl, Bool, err, type_error, none, if◌then◌else◌, arith,
}
use lmdb_deno.Encoding.Values.{
  Key, text, number, bytes, key, KeyKind, string_kind, uint32_kind, buffer_kind,
}
use lmdb_deno.Encoding.Keys.{encode_key}
use lmdb_deno.Batch.Prepare.Snapshot.{BatchOptionsSnapshot}
use lmdb_deno.Batch.Prepare.Normalize.{
  same_kind, key_kind, one_if, infer_key_kind, encode_batch_key, put_flags,
}

-- A key of the kind that the first key of the batch has is encoded by its own type, as by
-- `encodeKey` without options; a key of another kind is refused.
pub encode_batch_key_lem :
    (k : Key) (kind : KeyKind)
    → encode_batch_key (key k) kind
      ≡ (if same_kind (key_kind k) kind then encode_key k none else err (type_error "Invalid key."))
unfolding encode_batch_key infer_key_kind encode_key
encode_batch_key_lem (text s) string_kind = refl
encode_batch_key_lem (text s) uint32_kind = refl
encode_batch_key_lem (text s) buffer_kind = refl
encode_batch_key_lem (number n) string_kind = refl
encode_batch_key_lem (number n) uint32_kind = refl
encode_batch_key_lem (number n) buffer_kind = refl
encode_batch_key_lem (bytes b) string_kind = refl
encode_batch_key_lem (bytes b) uint32_kind = refl
encode_batch_key_lem (bytes b) buffer_kind = refl

-- Each of the four options is one bit of the flags: 4, 5, 17 and 18.
pub put_flags_bits :
    (o : BatchOptionsSnapshot)
    → (put_flags o / 2 ^ 4 % 2 ≡ one_if o.no_overwrite)
      × (put_flags o / 2 ^ 5 % 2 ≡ one_if o.no_dup_data)
      × (put_flags o / 2 ^ 17 % 2 ≡ one_if o.append)
      × (put_flags o / 2 ^ 18 % 2 ≡ one_if o.append_dup)
unfolding put_flags
put_flags_bits o = bits o.no_overwrite o.no_dup_data o.append o.append_dup
  where
    sum : Bool → Bool → Bool → Bool → ℕ
    sum a b c d =
        (if a then 0x10 else 0)
        + (if b then 0x20 else 0)
        + (if c then 0x20000 else 0)
        + (if d then 0x40000 else 0)

    bits :
        (a b c d : Bool)
        → (sum a b c d / 2 ^ 4 % 2 ≡ one_if a)
          × (sum a b c d / 2 ^ 5 % 2 ≡ one_if b)
          × (sum a b c d / 2 ^ 17 % 2 ≡ one_if c)
          × (sum a b c d / 2 ^ 18 % 2 ≡ one_if d)
    bits a b c d = ground arith
