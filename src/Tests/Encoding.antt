-- ===== src/Tests/Encoding.antt =====
-- Strings and keys at concrete values.
use lmdb_deno.Prelude.{ℕ, ◌≡◌, refl, ◌<◌, ◌^◌, ◌⊎◌, [], ◌∷◌, pos, ok, err, arith}
use lmdb_deno.Bytes.{Bytes}
use lmdb_deno.Encoding.Text.{CodeUnits, encode_string, decode_string}
use lmdb_deno.Encoding.Text.RoundTrip.{decode_string-encode_string}
use lmdb_deno.Encoding.Values.{integer, text, string_kind}
use lmdb_deno.Encoding.Keys.{encode_uint32_key, decode_uint32_key, uint32_range, encode_key}
use lmdb_deno.Encoding.Keys.RoundTrip.{encode_uint32_key_total, encode_key_injective}

-- "h€"
abbrev sample : CodeUnits
sample = b'h' ∷ 0x20ac ∷ []

sample_encoding : encode_string sample ≡ b'h' ∷ 0 ∷ 0xac ∷ 0x20 ∷ 0 ∷ 0 ∷ []
unfolding encode_string
sample_encoding = refl

decode_string-encode_string_example : decode_string (encode_string sample) ≡ ok sample
decode_string-encode_string_example = decode_string-encode_string sample (omega arith)

encode_uint32_key_total_example :
    ((k : ℕ) × (v : Bytes) × (integer (pos 258) ≡ integer (pos k))
      × (k < 2 ^ 32)
      × (encode_uint32_key (integer (pos 258)) ≡ ok v)
      × (decode_uint32_key v ≡ ok k))
    ⊎ (((k : ℕ) → k < 2 ^ 32 → integer (pos 258) ≡ integer (pos k) → ⊥)
        × (encode_uint32_key (integer (pos 258)) ≡ err uint32_range))
encode_uint32_key_total_example = encode_uint32_key_total (integer (pos 258))

encode_key_injective_example : text (b'a' ∷ []) ≡ text (b'a' ∷ [])
unfolding encode_key
encode_key_injective_example =
    encode_key_injective string_kind (text (b'a' ∷ [])) (text (b'a' ∷ [])) (b'a' ∷ 0 ∷ 0 ∷ 0 ∷ [])
      (omega arith) (omega arith) refl refl
