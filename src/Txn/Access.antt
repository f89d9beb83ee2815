-- ===== src/Txn/Access.antt =====
-- How a transaction reads and writes (txn.ts).
use lmdb_deno.Prelude.{
  ℕ, ◌+◌, ◌/◌, ◌%◌, Bool, true, false, not, Option, none, some, [], ◌∷◌, type_error, Result, ok,
  err, ◌==◌, if◌then◌else◌,
}
use lmdb_deno.Bytes.{Bytes}
use lmdb_deno.Encoding.Text.{CodeUnits, encode_string, decode_string}
use lmdb_deno.Encoding.Values.{
  Number, text, number, bytes, Value, undefined, boolean, key, KeyEncoding,
}
use lmdb_deno.Encoding.Keys.{encode_number, decode_number, encode_boolean}
use lmdb_deno.State.World.{pure}
use lmdb_deno.State.Access.{assert_same_shared_environment, assert_txn_active, get_txn_handle}
use lmdb_deno.State.Handles.{get_dbi_key_format, get_dbi_flags, get_dbi_handle_for_txn}
use lmdb_deno.State.Transactions.{invalidate_transaction_cursor_caches_for_write}
use lmdb_deno.Data.{DataApi, Step, on_world, on_native, of_result, ◌>>=◌}
use lmdb_deno.Data.Keys.{agreed_kind, encode_in, encode_value}
use lmdb_deno.Txn.{Txn}

-- `PutOptions`; an option that is missing is not set.
pub record PutOptions : Type 0 where
  pub key_type : KeyEncoding
  pub append : Bool
  pub no_overwrite : Bool
  pub no_dup_data : Bool
  pub append_dup : Bool

abbrev pub key_type_of : Option PutOptions → Option KeyEncoding
key_type_of none = none
key_type_of (some o) = some o.key_type

-- The flags of `#put`. They are different bits, so that `|=` adds them.
unfoldable pub put_flags : Option PutOptions → ℕ
put_flags none = 0
put_flags (some o) =
    (if o.append then 0x20000 else 0)
    + (if o.no_overwrite then 0x10 else 0)
    + (if o.no_dup_data then 0x20 else 0)
    + (if o.append_dup then 0x40000 else 0)

-- The third argument of `del`. An object that is no `Uint8Array` is options; `datum` is any other
-- value.
pub data DelArgument : Type 0 where
  key_type : KeyEncoding → DelArgument
  datum : Value → DelArgument

-- `dataOrOptions` where `thirdArgumentIsOptions`, else `explicitOptions`.
unfoldable pub key_options : DelArgument → Option KeyEncoding → Option KeyEncoding
key_options (key_type o) none = some o
key_options _ explicit = explicit

-- `hasData`.
unfoldable pub has_data : DelArgument → Option KeyEncoding → Bool
has_data (key_type o) none = false
has_data (key_type o) (some explicit) = true
has_data (datum undefined) explicit = false
has_data (datum v) explicit = true

-- `MDB_DUPSORT`.
abbrev pub is_dup_sort : ℕ → Bool
is_dup_sort flags = flags / 4 % 2 == 1

abbrev pub some_result : {A : Type 0} → Result A → Result (Option A)
some_result (ok a) = ok (some a)
some_result (err e) = err e

module _ {S : Type 0} where
  -- `encodeTransactionKey`.
  unfoldable pub encode_transaction_key : ℕ → Value → Option KeyEncoding → Step S Bytes
  encode_transaction_key dbi k options = of_result (agreed_kind k options) >>= λ agreed.
      on_world (get_dbi_key_format dbi) >>= λ format. of_result (encode_in format agreed)

  -- What `#get`, `#put` and `del` assert.
  abbrev pub check_usable : Txn → ℕ → Step S (Unit {0})
  check_usable t dbi = on_world (assert_same_shared_environment (t.object ∷ dbi ∷ [])) >>= λ _.
      on_world (assert_txn_active t.object)

  -- The handles of the transaction and of the database.
  abbrev pub both_handles : Txn → ℕ → Step S (ℕ × ℕ)
  both_handles t dbi = on_world (get_txn_handle t.object) >>= λ txn.
      on_world (get_dbi_handle_for_txn dbi t.object) >>= λ handle. on_world (pure (txn, handle))

  -- Whether the value is wanted, which it is where the database has duplicates.
  abbrev pub sorts_duplicates : ℕ → Bool → Step S Bool
  sorts_duplicates dbi false w s = (ok false, w, s)
  sorts_duplicates dbi true w s =
      (on_world (get_dbi_flags dbi) >>= λ flags. of_result (ok (is_dup_sort flags))) w s

  -- What `#get` does before it asks LMDB.
  unfoldable pub prepare_get : Txn → ℕ → Value → Option KeyEncoding → Step S (Bytes × ℕ × ℕ)
  prepare_get t dbi k options = check_usable t dbi >>= λ _.
      encode_transaction_key dbi k options >>= λ encoded.
      both_handles t dbi >>= λ handles. of_result (ok (encoded, handles.0, handles.1))

  abbrev pub invalidate : Txn → Step S (Unit {0})
  invalidate t = on_world (invalidate_transaction_cursor_caches_for_write t.object)

module _ {S : Type 0} (api : DataApi S) where
  -- `#get`, where LMDB is asked.
  abbrev pub ask_get : Bool → Bytes × ℕ × ℕ → Step S (Option Bytes)
  ask_get unsafe (k, txn, dbi) =
      on_native (if unsafe then api.get_unsafe txn dbi k else api.get txn dbi k)

  unfoldable pub get : Txn → ℕ → Value → Option KeyEncoding → Bool → Step S (Option Bytes)
  get t dbi k options unsafe = prepare_get t dbi k options >>= ask_get unsafe

  -- `#put`, where the caches are cleared and LMDB is asked.
  abbrev pub ask_put : Txn → Bytes → ℕ → Bytes × ℕ × ℕ → Step S (Unit {0})
  ask_put t value flags (k, txn, dbi) =
      invalidate t >>= λ _. on_native (api.put txn dbi k value flags)

  unfoldable pub put : Txn → ℕ → Value → Bytes → Option PutOptions → Step S (Unit {0})
  put t dbi k value options =
      prepare_get t dbi k (key_type_of options) >>= ask_put t value (put_flags options)

  -- The result of `#get`, if there is one, as a value.
  abbrev pub read_as :
      {A : Type 0} → (Bytes → Result A) → Txn → ℕ → Value → Option KeyEncoding → Step S (Option A)
  read_as convert t dbi k options = get t dbi k options false >>= λ result.
      of_result (elim result [ none ↦ ok none | some b ↦ some_result (convert b) ])

  -- `getString` and `getStringUnsafe`, `getBinary`, `getBinaryUnsafe`, `getBoolean`.
  unfoldable pub get_string : Txn → ℕ → Value → Option KeyEncoding → Step S (Option CodeUnits)
  get_string = read_as decode_string

  unfoldable pub get_binary : Txn → ℕ → Value → Option KeyEncoding → Step S (Option Bytes)
  get_binary t dbi k options = get t dbi k options false

  unfoldable pub get_binary_unsafe : Txn → ℕ → Value → Option KeyEncoding → Step S (Option Bytes)
  get_binary_unsafe t dbi k options = get t dbi k options true

  abbrev pub as_boolean : Bytes → Bool
  as_boolean [] = false
  as_boolean (b ∷ bs) = not (b == 0)

  unfoldable pub get_boolean : Txn → ℕ → Value → Option KeyEncoding → Step S (Option Bool)
  get_boolean = read_as (λ b. ok (as_boolean b))

  -- `putString`, `putBinary` and `putBoolean`, of a value of any type.
  unfoldable pub put_string : Txn → ℕ → Value → Value → Option PutOptions → Step S (Unit {0})
  put_string t dbi k (key (text v)) options = put t dbi k (encode_string v) options
  put_string t dbi k _ options = of_result (err (type_error "Value must be a string."))

  unfoldable pub put_binary : Txn → ℕ → Value → Value → Option PutOptions → Step S (Unit {0})
  put_binary t dbi k (key (bytes v)) options = put t dbi k v options
  put_binary t dbi k _ options = of_result (err (type_error "Value must be a Uint8Array."))

  unfoldable pub put_boolean : Txn → ℕ → Value → Value → Option PutOptions → Step S (Unit {0})
  put_boolean t dbi k (boolean v) options = put t dbi k (encode_boolean v) options
  put_boolean t dbi k _ options = of_result (err (type_error "Value must be a boolean."))

  module _ (set_float64 : Number → Bytes) (get_float64 : Bytes → Number) where
    -- `getNumber` and `putNumber`.
    unfoldable pub get_number : Txn → ℕ → Value → Option KeyEncoding → Step S (Option Number)
    get_number = read_as (decode_number set_float64 get_float64)

    unfoldable pub put_number : Txn → ℕ → Value → Value → Option PutOptions → Step S (Unit {0})
    put_number t dbi k (key (number v)) options =
        put t dbi k (encode_number set_float64 get_float64 v) options
    put_number t dbi k _ options = of_result (err (type_error "Value must be a number."))

    -- `encodeDeleteValue`; an object is no value.
    abbrev pub encode_datum : DelArgument → Result Bytes
    encode_datum (key_type o) = err (type_error "Invalid data type.")
    encode_datum (datum v) = encode_value set_float64 get_float64 v

    abbrev pub data_if : DelArgument → Bool → Step S (Option Bytes)
    data_if third false w s = (ok none, w, s)
    data_if third true w s = (some_result (encode_datum third), w, s)

    -- What `del` does before it asks LMDB.
    unfoldable pub prepare_del :
        Txn → ℕ → Value → DelArgument → Option KeyEncoding → Step S (Bytes × Option Bytes × ℕ × ℕ)
    prepare_del t dbi k third explicit = check_usable t dbi >>= λ _.
        encode_transaction_key dbi k (key_options third explicit) >>= λ encoded.
        sorts_duplicates dbi (has_data third explicit) >>= λ wanted.
        data_if third wanted >>= λ value.
        both_handles t dbi >>= λ handles. of_result (ok (encoded, value, handles.0, handles.1))

    -- `del`, where the caches are cleared and LMDB is asked.
    abbrev pub ask_del : Txn → Bytes × Option Bytes × ℕ × ℕ → Step S (Unit {0})
    ask_del t (k, value, txn, dbi) = invalidate t >>= λ _. on_native (api.del txn dbi k value)

    unfoldable pub del : Txn → ℕ → Value → DelArgument → Option KeyEncoding → Step S (Unit {0})
    del t dbi k third explicit = prepare_del t dbi k third explicit >>= ask_del t
