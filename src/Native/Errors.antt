-- ===== src/Native/Errors.antt =====
-- Result codes of the native library as errors (native/errors.ts).
pub mod Codes
use lmdb_deno.Prelude.{
  Option, none, some, List, [], ◌∷◌, ℤ, pos, negsuc, String, lmdb_error, Result, ok, err, ◌==ℤ◌,
  if◌then◌else◌,
}

-- The codes are -30798, -30799, -30781, -30778, -30774, -30773, -30771, -30770, -30769 and 13.
abbrev pub known_messages : List (ℤ × String)
known_messages =
    (negsuc 30797, "MDB_NOTFOUND: No matching key/data pair found")
    ∷ (negsuc 30798, "MDB_KEYEXIST: Key/data pair already exists")
    ∷ (negsuc 30780, "MDB_BAD_VALSIZE: Unsupported size of key/DB name/data")
    ∷ (negsuc 30777, "MDB_BAD_CHECKSUM: Page checksum incorrect")
    ∷ (negsuc 30773, "MDB_CANT_ROLLBACK: Environment can't rollback the last transaction")
    ∷ (negsuc 30772, "MDB_DBIS_BUSY: Can't drop main DBI while other DBIs are open")
    ∷ (negsuc 30770, "MDB_ENV_BUSY: Env is busy, can't use previous snapshot")
    ∷ (negsuc 30769, "MDB_IS_READONLY: Env or txn is read-only, can't write")
    ∷ (negsuc 30768, "MDB_ADDR_BUSY: Requested map address is unavailable")
    ∷ (pos 13, "Permission denied")
    ∷ []

abbrev pub find_message : ℤ → List (ℤ × String) → Option String
find_message code [] = none
find_message code ((c, m) ∷ l) = if c ==ℤ code then some m else find_message code l

-- What `strerror` and the reading of its string give: they may throw, and the pointer may be null.
abbrev pub Strerror : Type 0
Strerror = ℤ → Result (Option String)

abbrev or_unknown : Result (Option String) → String
or_unknown (ok (some m)) = m
or_unknown (ok none) = "LMDB error"
or_unknown (err e) = "LMDB error"

unfoldable pub read_native_message : ℤ → Option Strerror → String
read_native_message code none = "LMDB error"
read_native_message code (some strerror) = or_unknown (strerror code)

abbrev or_native : Option String → ℤ → Option Strerror → String
or_native (some m) code strerror = m
or_native none code strerror = read_native_message code strerror

unfoldable pub check_lmdb_result : ℤ → Option Strerror → Result (Unit {0})
unfolding read_native_message
check_lmdb_result code strerror =
    if code ==ℤ pos 0
    then ok tt
    else err (lmdb_error code (or_native (find_message code known_messages) code strerror))

-- -30770 is `MDB_IS_READONLY`, and 13 is `EACCES`.
unfoldable pub check_node_write_result : ℤ → Option Strerror → Result (Unit {0})
unfolding check_lmdb_result
check_node_write_result code strerror =
    check_lmdb_result (if code ==ℤ negsuc 30769 then pos 13 else code) strerror
