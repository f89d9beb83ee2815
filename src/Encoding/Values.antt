-- ===== src/Encoding/Values.antt =====
-- The JavaScript values that reach the package: keys, numbers, and what untyped callers may pass
-- in their place.
use lmdb_deno.Prelude.{ℕ, Bool, true, false, ℤ}
use lmdb_deno.Bytes.{Bytes, AreBytes}
use lmdb_deno.Encoding.Text.{CodeUnits, AreCodeUnits}

-- A JavaScript number: an integer (`Number.isInteger`), or any other, a fraction, an infinity or
-- NaN, told apart by an arbitrary label since the package never looks inside.
pub data Number : Type 0 where
  integer : ℤ → Number
  non_integer : ℕ → Number

-- `type Key`.
pub data Key : Type 0 where
  text : CodeUnits → Key
  number : Number → Key
  bytes : Bytes → Key

-- A value of any type; an object is its identity.
pub data Value : Type 0 where
  undefined null : Value
  boolean : Bool → Value
  key : Key → Value
  object : ℕ → Value
  function : ℕ → Value

-- `type KeyEncoding`; a flag that is missing is not set.
pub record KeyEncoding : Type 0 where
  pub key_is_string : Bool
  pub key_is_uint32 : Bool
  pub key_is_buffer : Bool

-- `type KeyKind`, of executor.ts, cursor.ts and txn.ts.
pub data KeyKind : Type 0 where
  string_kind uint32_kind buffer_kind : KeyKind

-- The options by which those files call `encodeKey` once the kind is known.
abbrev pub kind_encoding : KeyKind → KeyEncoding
kind_encoding string_kind = record {
  key_is_string = true;
  key_is_uint32 = false;
  key_is_buffer = false;
}
kind_encoding uint32_kind = record {
  key_is_string = false;
  key_is_uint32 = true;
  key_is_buffer = false;
}
kind_encoding buffer_kind = record {
  key_is_string = false;
  key_is_uint32 = false;
  key_is_buffer = true;
}

-- The code units of a string key are 16-bit numbers, and the elements of a binary key are bytes.
abbrev pub IsKey : Key → Type 0
IsKey (text s) = AreCodeUnits s
IsKey (number n) = Unit {0}
IsKey (bytes b) = AreBytes b
