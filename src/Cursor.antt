-- ===== src/Cursor.antt =====
-- The class `Cursor` (cursor.ts): the current record and the private methods.
pub mod Methods
pub mod Serving
pub mod Fresh
pub mod Closing
pub mod Keys
use lmdb_deno.Prelude.{
  ℕ, Bool, true, false, Option, none, some, List, [], ◌∷◌, length, drop, Result, ok, err, pos, ◌==◌,
  if◌then◌else◌,
}
use lmdb_deno.Bytes.{Bytes}
use lmdb_deno.Encoding.Text.{decode_string}
use lmdb_deno.Encoding.Values.{
  integer, Key, text, number, bytes, Value, KeyEncoding, KeyKind, kind_encoding,
}
use lmdb_deno.Encoding.Keys.{decode_uint32_key}
use lmdb_deno.State.World.{NativeCall, invalidate_current, World}
use lmdb_deno.State.Access.{first_some}
use lmdb_deno.State.Handles.{get_cursor_handle}
use lmdb_deno.Data.{CursorOperation, DataApi, Step, of_result, ◌>>=◌}
use lmdb_deno.Data.Keys.{key_kind_from_options, agreed_kind, encode_in}

-- `CurrentRecord`; `value` is its `data`.
pub record CurrentRecord : Type 0 where
  pub key : Option Bytes
  pub value : Option Bytes
  pub fallback_allowed : Bool

-- The object `object`. The callback of `registerCursorHandle` may clear the current record whenever
-- the world records a call of it, so the field is the record as it was when `since` calls were made.
pub record Cursor : Type 0 where
  pub object : ℕ
  pub key_format : KeyEncoding
  pub current : CurrentRecord
  pub since : ℕ

-- `clearCurrentRecord`.
abbrev pub clear_current_record : Bool → CurrentRecord
clear_current_record fallback_allowed = record {
  key = none;
  value = none;
  fallback_allowed = fallback_allowed;
}

abbrev pub is_own : Option ℕ → ℕ → Bool
is_own none c = false
is_own (some binding) c = binding == c

-- What the calls of the callback make of a record.
abbrev pub heard : Option ℕ → NativeCall → CurrentRecord → CurrentRecord
heard own (invalidate_current c fallback_allowed) r =
    if is_own own c then clear_current_record fallback_allowed else r
heard own _ r = r

unfoldable pub replay : Option ℕ → List NativeCall → CurrentRecord → CurrentRecord
replay own [] r = r
replay own (c ∷ cs) r = replay own cs (heard own c r)

-- `#current`, and what is stored in it.
abbrev pub current : Cursor → World → CurrentRecord
current c w = replay (w.cursor_bindings c.object) (drop c.since w.calls) c.current

abbrev pub store : CurrentRecord → Cursor → World → Cursor
store r c w = record c { current = r; since = length w.calls }

abbrev pub clear : Cursor → World → Cursor
clear c w = store (clear_current_record false) c w

-- `#formatKey`.
unfoldable pub format_key : KeyEncoding → Bytes → Result Key
format_key format b =
    if format.key_is_uint32
    then elim (decode_uint32_key b) [ err e ↦ err e | ok n ↦ ok (number (integer (pos n))) ]
    else if format.key_is_buffer
    then ok (bytes b)
    else elim (decode_string b) [ err e ↦ err e | ok s ↦ ok (text s) ]

-- `keyFormatFromOptions`.
abbrev pub kind_format : KeyEncoding → Option KeyKind → KeyEncoding
kind_format fallback none = fallback
kind_format fallback (some kind) = kind_encoding kind

unfoldable pub key_format_from_options : Option KeyEncoding → KeyEncoding → Result KeyEncoding
key_format_from_options options fallback = elim (key_kind_from_options options) [
  | err e ↦ err e
  | ok kind ↦ ok (kind_format fallback kind)
]

-- `encodeCursorKey`.
unfoldable pub encode_cursor_key : Value → Option KeyEncoding → KeyEncoding → Result Bytes
encode_cursor_key k options format = elim (agreed_kind k options) [
  | err e ↦ err e
  | ok agreed ↦ encode_in format agreed
]

-- A method returns the cursor beside what it returns or throws.
abbrev pub Method : Type 0 → Type 0 → Type 0
Method S A = Cursor → World → S → (Result A × World × S) × Cursor

-- The record that is held, unless its buffer is detached.
abbrev pub held : Bool → CurrentRecord → Option (Bytes × Bytes)
held true r = none
held false r = elim r.key [
  | none ↦ none
  | some k ↦ elim r.value [ none ↦ none | some v ↦ some (k, v) ]
]

module _ {S : Type 0} where
  -- `#navigate`, when the key is decoded.
  abbrev pub formatted :
      Cursor → Bytes × Bytes → World → S → Result Key → (Result (Option Key) × World × S) × Cursor
  formatted c entry w s (err e) = ((err e, w, s), clear c w)
  formatted c (k, v) w s (ok shown) = (
    (ok (some shown), w, s),
    store (record { key = some k; value = some v; fallback_allowed = true }) c w,
  )

  -- `#navigate`, when LMDB has answered.
  unfoldable pub navigated :
      Cursor
      → World
      → Result (Option (Bytes × Bytes)) × S
      → (Result (Option Key) × World × S) × Cursor
  navigated c w (err e, s) = ((err e, w, s), clear c w)
  navigated c w (ok none, s) = ((ok none, w, s), clear c w)
  navigated c w (ok (some (k, v)), s) = formatted c (k, v) w s (format_key c.key_format k)

  -- The value, after the callback has seen it. A callback may do anything, except to call this cursor.
  abbrev pub shown_to :
      {A : Type 0} → Option (Key → A → Step S (Unit {0})) → Result Key → A → Step S A
  shown_to none k a = of_result (ok a)
  shown_to (some callback) k a = of_result k >>= λ shown. callback shown a >>= λ _. of_result (ok a)

  -- `#getCurrent`, when there is a record. A copy of the value is the same bytes.
  abbrev pub deliver :
      {A : Type 0}
      → (Bytes → Result A)
      → Option (Key → A → Step S (Unit {0}))
      → KeyEncoding
      → Bytes
      → Bytes
      → Step S (Option A)
  deliver convert callback format k v = of_result (convert v) >>= λ a.
      shown_to callback (format_key format k) a >>= λ shown. of_result (ok (some shown))

module _ {S : Type 0} (api : DataApi S) where
  abbrev pub navigate_at :
      Cursor
      → CursorOperation
      → Option Bytes
      → Option Bytes
      → S
      → Result (Option ℕ) × World
      → (Result (Option Key) × World × S) × Cursor
  navigate_at c operation k v s (err e, w) = ((err e, w, s), c)
  navigate_at c operation k v s (ok cursor, w) = navigated c w (
      api.cursor_get cursor (first_some k (current c w).key) (first_some v (current c w).value)
        operation w s)

  -- `#navigate`.
  unfoldable pub navigate : CursorOperation → Option Bytes → Option Bytes → Method S (Option Key)
  navigate operation k v c w s = navigate_at c operation k v s (get_cursor_handle c.object w)

  module _ {A : Type 0} (convert : Bytes → Result A)
      (callback : Option (Key → A → Step S (Unit {0}))) where
    -- `#getCurrent`, when LMDB has answered.
    abbrev pub fetched :
        Cursor
        → World
        → Result (Option (Bytes × Bytes)) × S
        → (Result (Option A) × World × S) × Cursor
    fetched c w (err e, s) = ((err e, w, s), c)
    fetched c w (ok none, s) = ((ok none, w, s), c)
    fetched c w (ok (some (k, v)), s) = (
      deliver convert callback c.key_format k v w s,
      store (record { key = some k; value = some v; fallback_allowed = true }) c w,
    )

    abbrev pub get_current_in :
        Cursor
        → Option ℕ
        → World
        → S
        → Option (Bytes × Bytes)
        → Bool
        → (Result (Option A) × World × S) × Cursor
    get_current_in c cursor w s (some (k, v)) fallback =
        (deliver convert callback c.key_format k v w s, c)
    get_current_in c cursor w s none false = ((ok none, w, s), c)
    get_current_in c cursor w s none true =
        fetched c w (api.cursor_get cursor none none CursorOperation.mdb_get_current w s)

    abbrev pub get_current_at :
        Bool → Cursor → S → Result (Option ℕ) × World → (Result (Option A) × World × S) × Cursor
    get_current_at detached c s (err e, w) = ((err e, w, s), c)
    get_current_at detached c s (ok cursor, w) =
        get_current_in c cursor w s (held detached (current c w)) (current c w).fallback_allowed

    -- `#getCurrent`; the argument says whether the caller has detached the buffer of the value.
    unfoldable pub get_current : Bool → Method S (Option A)
    get_current detached c w s = get_current_at detached c s (get_cursor_handle c.object w)
