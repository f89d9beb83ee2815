-- ===== src/Encoding/Keys.antt =====
-- Keys, numbers and booleans as bytes (encoding.ts).
pub mod RoundTrip
use lmdb_deno.Prelude.{
  ℕ, ◌≡◌, refl, Bool, Option, none, some, List, [], ◌∷◌, length, replicate, ℤ, pos, negsuc, Result,
  ok, err, Exception, error, type_error, range_error, leb, ◌==◌, if◌then◌else◌,
}
use lmdb_deno.Bytes.{Bytes, set_le, get_le}
use lmdb_deno.Encoding.Text.{encode_string}
use lmdb_deno.Encoding.Values.{Number, integer, non_integer, Key, text, number, bytes, KeyEncoding}

abbrev pub uint32_range : Exception
uint32_range =
    range_error
      "Numeric keys must be positive and less than maximum unsigned 32-bit value of 0xFFFFFFFF"

-- `!Number.isInteger(value) || value < 0 || value > 0xffff_ffff` throws.
unfoldable pub encode_uint32_key : Number → Result Bytes
unfolding set_le
encode_uint32_key (non_integer n) = err uint32_range
encode_uint32_key (integer (negsuc n)) = err uint32_range
encode_uint32_key (integer (pos n)) =
    if leb n 0xffff_ffff then ok (set_le (replicate 4 0) 0 4 n) else err uint32_range

unfoldable pub decode_uint32_key : Bytes → Result ℕ
unfolding get_le
decode_uint32_key value =
    if length value == 4
    then ok (get_le value 0 4)
    else err (error "Invalid Uint32 key byte length")

unfoldable pub encode_boolean : Bool → Bytes
encode_boolean value = (if value then 1 else 0) ∷ []

as_binary : Key → Result Bytes
as_binary (bytes b) = ok b
as_binary _ = err (type_error "Binary keys must be Uint8Array values")

as_uint32 : Key → Result Bytes
unfolding encode_uint32_key
as_uint32 (number n) = encode_uint32_key n
as_uint32 _ = err (type_error "Uint32 keys must be numbers")

as_string : Key → Result Bytes
unfolding encode_string
as_string (text s) = ok (encode_string s)
as_string _ = err (type_error "String keys must be strings")

-- The key's own type decides.
by_type : Key → Result Bytes
unfolding encode_string encode_uint32_key
by_type (text s) = ok (encode_string s)
by_type (number n) = encode_uint32_key n
by_type (bytes b) = ok b

unfoldable pub encode_key : Key → Option KeyEncoding → Result Bytes
unfolding as_binary as_uint32 as_string by_type
encode_key key none = by_type key
encode_key key (some options) =
    if options.key_is_buffer
    then as_binary key
    else if options.key_is_uint32
    then as_uint32 key
    else if options.key_is_string
    then as_string key
    else by_type key

-- `setFloat64` and `getFloat64` belong to the JavaScript runtime: the eight bytes of a number, and
-- the number of eight bytes.
module _ (set_float64 : Number → Bytes) (get_float64 : Bytes → Number) where
  pub encode_number : Number → Bytes
  encode_number value = set_float64 value

  unfoldable pub decode_number : Bytes → Result Number
  decode_number value =
      if length value == 8
      then ok (get_float64 value)
      else err (error "Invalid Float64 byte length")
