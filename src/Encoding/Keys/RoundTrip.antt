-- ===== src/Encoding/Keys/RoundTrip.antt =====
-- Keys, their encodings and back.
use lmdb_deno.Prelude.{
  ℕ, ◌≤◌, ◌<◌, ◌^◌, ◌≡◌, refl, ap, ◌∙◌, sym, [], ◌∷◌, pos, negsuc, ok, err, arith, some, ◌⊎◌, inl,
  inr, Bool-cases, leb,
}
use lmdb_deno.Bytes.{Bytes, AreBytes, le_bytes, le_value}
use lmdb_deno.Bytes.Laws.{le_value-le_bytes, le_bytes-le_value}
use lmdb_deno.Encoding.Text.{CodeUnits, AreCodeUnits, encode_string}
use lmdb_deno.Encoding.Text.RoundTrip.{decode_string-encode_string}
use lmdb_deno.Encoding.Values.{
  Number, integer, non_integer, Key, text, number, bytes, KeyKind, string_kind, uint32_kind,
  buffer_kind, kind_encoding, IsKey,
}
use lmdb_deno.Encoding.Keys.{encode_uint32_key, decode_uint32_key, uint32_range, encode_key}

encode_uint32_key_lem :
    (n : ℕ) → n ≤ 0xffff_ffff → encode_uint32_key (integer (pos n)) ≡ ok (le_bytes 4 n)
unfolding encode_uint32_key
encode_uint32_key_lem n h = ground arith

decode_uint32_key-le_bytes : (n : ℕ) → n ≤ 0xffff_ffff → decode_uint32_key (le_bytes 4 n) ≡ ok n
unfolding decode_uint32_key
decode_uint32_key-le_bytes n h = ap ok (omega (arith, le_value-le_bytes 4 n (omega arith)))

-- A number is accepted as a key exactly when it is an integer that fits 32 bits without a sign,
-- and the bytes that it is given are read back to it.
pub encode_uint32_key_total :
    (n : Number)
    → ((k : ℕ) × (v : Bytes) × (n ≡ integer (pos k))
        × (k < 2 ^ 32)
        × (encode_uint32_key n ≡ ok v)
        × (decode_uint32_key v ≡ ok k))
      ⊎ (((k : ℕ) → k < 2 ^ 32 → n ≡ integer (pos k) → ⊥)
          × (encode_uint32_key n ≡ err uint32_range))
unfolding encode_uint32_key
encode_uint32_key_total (non_integer m) = inr ((λ k h e. cc), refl)
encode_uint32_key_total (integer (negsuc m)) = inr ((λ k h e. ground arith), refl)
encode_uint32_key_total (integer (pos n)) = elim (Bool-cases (leb n 0xffff_ffff)) [
  | inl fits ↦
      let small : n ≤ 0xffff_ffff = ground arith in
      inl (
        n,
        le_bytes 4 n,
        refl,
        omega arith,
        encode_uint32_key_lem n small,
        decode_uint32_key-le_bytes n small,
      )
  | inr big ↦ inr ((λ k h e. ground arith), rw big)
]

-- Four bytes are read as the number whose encoding they are.
pub encode_uint32_key-decode_uint32_key :
    (v : Bytes) (k : ℕ)
    → AreBytes v
    → decode_uint32_key v ≡ ok k
    → encode_uint32_key (integer (pos k)) ≡ ok v
unfolding decode_uint32_key
encode_uint32_key-decode_uint32_key (a ∷ b ∷ c ∷ d ∷ []) k h e =
    let value : k ≡ le_value (a ∷ b ∷ c ∷ d ∷ []) = ground arith in
    encode_uint32_key_lem k (omega arith)
    ∙ ap ok (rw value (le_bytes-le_value (a ∷ b ∷ c ∷ d ∷ []) h))
encode_uint32_key-decode_uint32_key v k h e = absurd (ground arith)

encode_uint32_key_injective :
    (m n : Number) (v : Bytes) → encode_uint32_key m ≡ ok v → encode_uint32_key n ≡ ok v → m ≡ n
encode_uint32_key_injective m n v e f =
    ground (arith, encode_uint32_key_total m, encode_uint32_key_total n)

encode_string_injective :
    (s t : CodeUnits) → AreCodeUnits s → AreCodeUnits t → encode_string s ≡ encode_string t → s ≡ t
encode_string_injective s t hs ht e =
    let both : ok s ≡ ok t =
      sym (decode_string-encode_string s hs) ∙ (rw (← e) at (decode_string-encode_string t ht)) in
    cc

-- Within one kind of key, two keys with the same bytes are the same key.
pub encode_key_injective :
    (kind : KeyKind) (k l : Key) (v : Bytes)
    → IsKey k
    → IsKey l
    → encode_key k (some (kind_encoding kind)) ≡ ok v
    → encode_key l (some (kind_encoding kind)) ≡ ok v
    → k ≡ l
unfolding encode_key
encode_key_injective string_kind (text s) (text t) v hk hl e f =
    ap text (encode_string_injective s t hk hl (cc))
encode_key_injective uint32_kind (number m) (number n) v hk hl e f =
    ap number (encode_uint32_key_injective m n v e f)
encode_key_injective buffer_kind (bytes a) (bytes b) v hk hl e f = cc
encode_key_injective kind k l v hk hl e f = cc
