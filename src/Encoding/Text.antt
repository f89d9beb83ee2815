-- ===== src/Encoding/Text.antt =====
-- Zero-terminated UTF-16LE strings (encoding.ts). A JavaScript string is the list of its UTF-16
-- code units, numbers below 2 ^ 16.
pub mod Loops
pub mod RoundTrip
use lmdb_deno.Prelude.{
  ℕ, zero, suc, ◌+◌, ◌-◌, ◌*◌, ◌/◌, ◌%◌, ◌^◌, ◌<◌, min, Bool, true, false, not, ◌||◌, Option, none,
  some, List, [], ◌∷◌, ◌++◌, All, length, get_elem?, take, replicate, Result, ok, err, error, ltb,
  ◌==◌, ◌≡◌, refl, if◌then◌else◌,
}
use lmdb_deno.Bytes.{Bytes, set_le, get_le}

abbrev pub CodeUnits : Type 0
CodeUnits = List ℕ

abbrev pub IsCodeUnit : ℕ → Type 0
IsCodeUnit c = c < 2 ^ 16

abbrev pub AreCodeUnits : CodeUnits → Type 0
AreCodeUnits = All IsCodeUnit

-- `for (index …) view.setUint16(index * 2, value.charCodeAt(index), true)`, from `index` on.
unfoldable pub write_units : ℕ → CodeUnits → Bytes → Bytes
write_units index [] bytes = bytes
write_units index (c ∷ cs) bytes = write_units (suc index) cs (set_le bytes (index * 2) 2 c)

unfoldable pub encode_string : CodeUnits → Bytes
unfolding write_units set_le
encode_string value = write_units 0 value (replicate ((length value + 1) * 2) 0)

-- `value[index] !== 0`; past the end the element is `undefined`, which is not 0 either.
abbrev pub is_not_zero : Bytes → ℕ → Bool
is_not_zero value index = elim (get_elem? value index) [ none ↦ true | some b ↦ not (b == 0) ]

-- `for (index = start; index < end; index++) codeUnits[index - start] = view.getUint16(…)`, over
-- the `count` indices that are left.
unfoldable pub code_units : Bytes → ℕ → ℕ → CodeUnits
code_units view index zero = []
code_units view index (suc count) = get_le view (index * 2) 2 ∷ code_units view (suc index) count

abbrev pub chunk_size : ℕ
chunk_size = 0x8000

-- The loop over the chunks. Every round consumes a code unit, so `code_unit_count` rounds are
-- enough; a string that was cut short by the fuel would not be the right one.
unfoldable pub decode_chunks : ℕ → Bytes → ℕ → ℕ → CodeUnits → CodeUnits
decode_chunks zero view code_unit_count start result = result
decode_chunks (suc fuel) view code_unit_count start result =
    let end = min (start + chunk_size) code_unit_count in
    let rest =
      decode_chunks fuel view code_unit_count (start + chunk_size)
        (result ++ code_units view start (end - start)) in
    if ltb start code_unit_count then rest else result

unfoldable pub decode_string : Bytes → Result CodeUnits
unfolding decode_chunks code_units get_le
decode_string value =
    if ltb (length value) 2
      || not (length value % 2 == 0)
      || is_not_zero value (length value - 2)
      || is_not_zero value (length value - 1)
    then err (error "Invalid zero-terminated UTF-16 string")
    else (let view = take (length value - 2) value in
        let code_unit_count = length view / 2 in
        ok (decode_chunks code_unit_count view code_unit_count 0 []))
