-- ===== src/Native/Memory/Layout.antt =====
-- Structures written and read.
use lmdb_deno.Prelude.{
  ℕ, zero, suc, ◌^◌, ◌<◌, ◌≡◌, ◌∙◌, ap, sym, refl, Option, none, some, ◌++◌, length, replicate, ok,
  err, ltb, if◌then◌else◌, arith, Exception, ◌⊎◌, inl, inr, Result-cases, Bool-cases,
}
use lmdb_deno.Bytes.{Bytes, set_le, get_le, le_bytes, le_value}
use lmdb_deno.Bytes.Laws.{le_value-le_bytes}
use lmdb_deno.Native.Memory.{
  OwnedMdbVal, MdbStat, pointer_create, set_data, set_value, mdb_val, clear, set_input,
  read_mdb_val, read_stat,
}

written_size :
    (n a : ℕ) → get_le (set_le (set_le (replicate 16 0) 0 8 n) 8 8 a) 0 8 ≡ le_value (le_bytes 8 n)
unfolding set_le get_le
written_size n a = refl

written_address :
    (n a : ℕ) → get_le (set_le (set_le (replicate 16 0) 0 8 n) 8 8 a) 8 8 ≡ le_value (le_bytes 8 a)
unfolding set_le get_le
written_address n a = refl

sized_only : (n : ℕ) → get_le (set_le (replicate 16 0) 0 8 n) 0 8 ≡ le_value (le_bytes 8 n)
unfolding set_le get_le
sized_only n = refl

no_address : (n : ℕ) → get_le (set_le (replicate 16 0) 0 8 n) 8 8 ≡ 0
unfolding set_le get_le
no_address n = refl

pointer_create-positive : (a : ℕ) → 0 < a → pointer_create a ≡ some a
pointer_create-positive zero h = absurd (omega arith)
pointer_create-positive (suc a) h = refl

read_fields :
    (m : OwnedMdbVal) (n : ℕ) (p : Option ℕ)
    → get_le m.storage 0 8 ≡ n
    → pointer_create (get_le m.storage 8 8) ≡ p
    → n < 2 ^ 53
    → read_mdb_val m ≡ ok (n, p)
unfolding read_mdb_val
read_fields m n p sized placed short = rw (sized, placed) (ground arith)

-- An `MDB_val` made for bytes reads back as their number and their address, and as a null pointer
-- if there are none, if the address is a 64-bit one and not null and the number is a safe integer.
pub mdb_val-read_mdb_val :
    (address : Bytes → Option ℕ) (value : Bytes) (m : OwnedMdbVal) (a : ℕ)
    → address value ≡ some a
    → 0 < a
    → a < 2 ^ 64
    → length value < 2 ^ 53
    → mdb_val address (some value) ≡ ok m
    → read_mdb_val m ≡ ok (length value, if ltb 0 (length value) then some a else none)
unfolding mdb_val set_value set_data
mdb_val-read_mdb_val address value m a h positive small short e =
    let n = length value in
    let size : le_value (le_bytes 8 n) ≡ n = le_value-le_bytes 8 n (omega (arith, short)) in
    let place : le_value (le_bytes 8 a) ≡ a = le_value-le_bytes 8 a small in
    let full : OwnedMdbVal = record {
      storage = set_le (set_le (replicate 16 0) 0 8 n) 8 8 a;
      value = some value;
    } in
    let empty : OwnedMdbVal = record {
      storage = set_le (replicate 16 0) 0 8 n;
      value = some value;
    } in
    elim (Bool-cases (ltb 0 n)) [
      | inl some_bytes ↦
          let same : full ≡ m = ground (arith, e, h, some_bytes) in
          rw (sym same) (
            read_fields full n _ (written_size n a ∙ size)
              (ap pointer_create (written_address n a ∙ place)
                ∙ pointer_create-positive a positive
                ∙ ground (arith, some_bytes))
              short)
      | inr no_bytes ↦
          let same : empty ≡ m = ground (arith, e, no_bytes) in
          rw (sym same) (
            read_fields empty n _ (sized_only n ∙ size)
              (ap pointer_create (no_address n) ∙ ground (arith, no_bytes)) short)
    ]

-- A scratch slot that is given an input, whatever it held before, holds what a new `MDB_val` for
-- that input holds; if that throws, the slot is all zeros and holds no input.
pub set_input_lem :
    (address : Bytes → Option ℕ) (input : Bytes) (v : OwnedMdbVal)
    → length v.storage ≡ 16
    → ((m : OwnedMdbVal) × (mdb_val address (some input) ≡ ok m)
        × (set_input address input v ≡ (ok tt, m)))
      ⊎ ((e : Exception) × (mdb_val address (some input) ≡ err e)
          × (set_input address input v
              ≡ (err e, record { storage = replicate 16 0; value = none })))
unfolding mdb_val set_input clear
set_input_lem address input v h = elim (Result-cases (set_value address (replicate 16 0) input)) [
  | inl k ↦
      inl
        (record { storage = k.0; value = some input }, ground (arith, k.1), ground (arith, k.1, h))
  | inr k ↦ inr (k.0, ground (arith, k.1), ground (arith, k.1, h))
]

-- The layout of an `MDB_stat` as the C library writes it: two 32-bit and four 64-bit fields.
abbrev pub stat_storage : MdbStat → Bytes
stat_storage s =
    le_bytes 4 s.psize
    ++ (le_bytes 4 s.depth
        ++ (le_bytes 8 s.branch_pages
            ++ (le_bytes 8 s.leaf_pages ++ (le_bytes 8 s.overflow_pages ++ le_bytes 8 s.entries))))

-- The statistics that the C library has laid out are read back field by field, if every field fits
-- its width.
pub stat_storage-read_stat :
    (s : MdbStat)
    → s.psize < 2 ^ 32
    → s.depth < 2 ^ 32
    → s.branch_pages < 2 ^ 64
    → s.leaf_pages < 2 ^ 64
    → s.overflow_pages < 2 ^ 64
    → s.entries < 2 ^ 64
    → read_stat (stat_storage s) ≡ ok s
unfolding read_stat get_le
stat_storage-read_stat s h₀ h₁ h₂ h₃ h₄ h₅ = rw (
  le_value-le_bytes 4 s.psize h₀,
  le_value-le_bytes 4 s.depth h₁,
  le_value-le_bytes 8 s.branch_pages h₂,
  le_value-le_bytes 8 s.leaf_pages h₃,
  le_value-le_bytes 8 s.overflow_pages h₄,
  le_value-le_bytes 8 s.entries h₅,
)
