-- ===== src/Bytes.antt =====
-- `Uint8Array` and `DataView`: bytes are a list of numbers below 256, and the little-endian reads
-- and writes of `DataView` (`setUint16`, `getUint32`, `setBigUint64` and the like, all called with
-- `true`) are those of 2, 4 and 8 bytes. The callers keep every offset in bounds.
pub mod Laws
use lmdb_deno.Prelude.{ℕ, zero, suc, ◌+◌, ◌*◌, ◌/◌, ◌%◌, ◌<◌, List, [], ◌∷◌, All, get_or, set}

abbrev pub Bytes : Type 0
Bytes = List ℕ

abbrev pub IsByte : ℕ → Type 0
IsByte b = b < 256

abbrev pub AreBytes : Bytes → Type 0
AreBytes = All IsByte

-- The `n` bytes of `v`, least significant first.
abbrev pub le_bytes : ℕ → ℕ → Bytes
le_bytes zero v = []
le_bytes (suc n) v = (v % 256) ∷ le_bytes n (v / 256)

abbrev pub le_value : Bytes → ℕ
le_value [] = 0
le_value (b ∷ bs) = b + 256 * le_value bs

-- `view.setUint…(offset, v, true)` of `n` bytes.
unfoldable pub set_le : Bytes → ℕ → ℕ → ℕ → Bytes
set_le view offset zero v = view
set_le view offset (suc n) v = set_le (set view offset (v % 256)) (suc offset) n (v / 256)

-- `view.getUint…(offset, true)` of `n` bytes.
unfoldable pub get_le : Bytes → ℕ → ℕ → ℕ
get_le view offset zero = 0
get_le view offset (suc n) = get_or view offset 0 + 256 * get_le view (suc offset) n
