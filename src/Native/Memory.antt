-- ===== src/Native/Memory.antt =====
-- Structures of the native library as bytes (native/memory.ts). A structure of 64-bit fields on a
-- little-endian machine is its storage; the view of it has no state of its own.
pub mod Layout
use lmdb_deno.Prelude.{
  ℕ, zero, suc, ◌-◌, ◌^◌, Bool, true, false, not, Option, none, some, length, replicate, Exception,
  error, range_error, Result, ok, err, ◌>>=◌, throw_if, ltb, ◌==◌, if◌then◌else◌,
}
use lmdb_deno.Bytes.{Bytes, set_le, get_le}

abbrev pub mdb_val_size : ℕ
mdb_val_size = 16

-- An `MDB_val`, and the bytes that it keeps alive. The offsets of its size and data are 0 and 8.
pub record OwnedMdbVal : Type 0 where
  pub storage : Bytes
  pub value : Option Bytes

pub record MdbStat : Type 0 where
  pub psize : ℕ
  pub depth : ℕ
  pub branch_pages : ℕ
  pub leaf_pages : ℕ
  pub overflow_pages : ℕ
  pub entries : ℕ

pub record MdbEnvInfo : Type 0 where
  pub map_address : ℕ
  pub map_size : ℕ
  pub last_page_number : ℕ
  pub last_txn_id : ℕ
  pub max_readers : ℕ
  pub num_readers : ℕ

-- `Deno.UnsafePointer.create(address)`: the null pointer is `none`.
abbrev pub pointer_create : ℕ → Option ℕ
pointer_create zero = none
pointer_create (suc a) = some (suc a)

abbrev pub no_pointer : Exception
no_pointer = error "Unable to obtain a pointer for an LMDB value"

-- The address of the data, by what `Deno.UnsafePointer.of` returns.
unfoldable pub set_data : Option ℕ → Bytes → Result Bytes
set_data none storage = err no_pointer
set_data (some address) storage = ok (set_le storage 8 8 address)

-- The size and, of a value that is not empty, the address.
unfoldable pub set_value : (Bytes → Option ℕ) → Bytes → Bytes → Result Bytes
set_value address storage value =
    let sized = set_le storage 0 8 (length value) in
    if ltb 0 (length value) then set_data (address value) sized else ok sized

-- `address` is `Deno.UnsafePointer.of`.
unfoldable pub mdb_val : (Bytes → Option ℕ) → Option Bytes → Result OwnedMdbVal
mdb_val address none =
    ok (record { storage = set_le (replicate mdb_val_size 0) 0 8 0; value = none })
mdb_val address (some value) = set_value address (replicate mdb_val_size 0) value >>= λ storage.
    ok (record { storage = storage; value = some value })

-- `storage.fill(0)`, and the input is forgotten.
unfoldable pub clear : OwnedMdbVal → OwnedMdbVal
clear v = record { storage = replicate (length v.storage) 0; value = none }

-- `setInput` of a scratch slot. What `try` wrote before an error is cleared again.
unfoldable pub set_input :
    (Bytes → Option ℕ) → Bytes → OwnedMdbVal → Result (Unit {0}) × OwnedMdbVal
set_input address input v = elim (set_value address (clear v).storage input) [
  | ok storage ↦ (ok tt, record { storage = storage; value = some input })
  | err e ↦ (err e, clear v)
]

unfoldable pub read_mdb_val : OwnedMdbVal → Result (ℕ × Option ℕ)
read_mdb_val v =
    let raw_length = get_le v.storage 0 8 in
    if ltb (2 ^ 53 - 1) raw_length
    then err (range_error "LMDB value is too large for JavaScript")
    else ok (raw_length, pointer_create (get_le v.storage 8 8))

abbrev pub require_size : Bytes → ℕ → Result (Unit {0})
require_size storage expected =
    throw_if (not (length storage == expected)) (range_error "The structure has another size")

unfoldable pub read_stat : Bytes → Result MdbStat
read_stat storage = require_size storage 40 >>= λ _. ok (record {
  psize = get_le storage 0 4;
  depth = get_le storage 4 4;
  branch_pages = get_le storage 8 8;
  leaf_pages = get_le storage 16 8;
  overflow_pages = get_le storage 24 8;
  entries = get_le storage 32 8;
})

unfoldable pub read_env_info : Bytes → Result MdbEnvInfo
read_env_info storage = require_size storage 40 >>= λ _. ok (record {
  map_address = get_le storage 0 8;
  map_size = get_le storage 8 8;
  last_page_number = get_le storage 16 8;
  last_txn_id = get_le storage 24 8;
  max_readers = get_le storage 32 4;
  num_readers = get_le storage 36 4;
})
