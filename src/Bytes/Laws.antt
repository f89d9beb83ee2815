-- ===== src/Bytes/Laws.antt =====
-- Reads and writes at an offset, against the bytes that stand there.
use lmdb_deno.Prelude.{
  ℕ, zero, suc, ◌+◌, ◌*◌, ◌/◌, ◌%◌, ◌<◌, ◌≡◌, refl, ap, ◌∙◌, [], ◌∷◌, ◌++◌, append_assoc, arith,
  length, length-append, get_or, set,
}
use lmdb_deno.Bytes.{Bytes, AreBytes, le_bytes, le_value, set_le, get_le}

pub length-le_bytes : (n v : ℕ) → length (le_bytes n v) ≡ n
length-le_bytes zero v = refl
length-le_bytes (suc n) v = ap suc (length-le_bytes n (v / 256))

pub le_bytes-AreBytes : (n v : ℕ) → AreBytes (le_bytes n v)
le_bytes-AreBytes zero v = tt
le_bytes-AreBytes (suc n) v = (omega arith, le_bytes-AreBytes n (v / 256))

-- 256 ^ n, by recursion.
abbrev pub capacity : ℕ → ℕ
capacity zero = 1
capacity (suc n) = 256 * capacity n

pub le_value-le_bytes : (n v : ℕ) → v < capacity n → le_value (le_bytes n v) ≡ v
le_value-le_bytes zero v h = omega arith
le_value-le_bytes (suc n) v h = omega (arith, le_value-le_bytes n (v / 256) (omega arith))

pub le_bytes-le_value : (bs : Bytes) → AreBytes bs → le_bytes (length bs) (le_value bs) ≡ bs
le_bytes-le_value [] h = refl
le_bytes-le_value (b ∷ bs) h =
    let low : (b + 256 * le_value bs) % 256 ≡ b = omega arith in
    let high : (b + 256 * le_value bs) / 256 ≡ le_value bs = omega arith in
    rw (low, high, le_bytes-le_value bs h.1)

set-append :
    (pre post : Bytes) (old v : ℕ) → set (pre ++ old ∷ post) (length pre) v ≡ pre ++ v ∷ post
set-append [] post old v = refl
set-append (x ∷ pre) post old v = ap (λ (r : Bytes). x ∷ r) (set-append pre post old v)

get_or-append : (pre post : Bytes) (b : ℕ) → get_or (pre ++ b ∷ post) (length pre) 0 ≡ b
get_or-append [] post b = refl
get_or-append (x ∷ pre) post b = get_or-append pre post b

length-snoc : (pre : Bytes) (b : ℕ) → length (pre ++ b ∷ []) ≡ suc (length pre)
length-snoc pre b = omega (arith, length-append pre (b ∷ []))

-- A write of `length old` bytes replaces `old` and nothing else.
pub set_le-append :
    (pre old post : Bytes) (v : ℕ)
    → set_le (pre ++ (old ++ post)) (length pre) (length old) v
      ≡ pre ++ (le_bytes (length old) v ++ post)
unfolding set_le
set_le-append pre [] post v = refl
set_le-append pre (o ∷ old) post v =
    ap (λ (t : Bytes). set_le t (suc (length pre)) (length old) (v / 256))
      (set-append pre (old ++ post) o (v % 256))
    ∙ (simp (append_assoc, length-snoc) at
        (set_le-append (pre ++ (v % 256) ∷ []) old post (v / 256)))

-- A read of `length mid` bytes sees `mid` alone.
pub get_le-append :
    (pre mid post : Bytes) → get_le (pre ++ (mid ++ post)) (length pre) (length mid) ≡ le_value mid
unfolding get_le
get_le-append pre [] post = refl
get_le-append pre (b ∷ mid) post = rw (get_or-append pre (mid ++ post) b) (
    ap (λ (t : ℕ). b + 256 * t)
      (rw (append_assoc, length-snoc) at (get_le-append (pre ++ b ∷ []) mid post)))
