-- ===== src/Encoding/Text/Loops.antt =====
-- The loops of `encodeString` and `decodeString` against a plain description of the format.
use mathlib.Core.Path.{ap₂}
use lmdb_deno.Prelude.{
  ℕ, zero, suc, ◌+◌, ◌-◌, ◌*◌, ◌/◌, ◌%◌, ◌≤◌, min, ◌≡◌, refl, ap, ◌∙◌, sym, [], ◌∷◌, ◌++◌,
  append-nil, append_assoc, length, length-append, arith, ltb, Bool-cases, ◌⊎◌, inl, inr,
}
use lmdb_deno.Bytes.{Bytes, le_value, get_le}
use lmdb_deno.Bytes.Laws.{set_le-append, get_le-append}
use lmdb_deno.Encoding.Text.{CodeUnits, write_units, code_units, chunk_size, decode_chunks}

-- The format, by recursion: two bytes for each code unit, least significant first.
abbrev pub units_to_bytes : CodeUnits → Bytes
units_to_bytes [] = []
units_to_bytes (c ∷ cs) = (c % 256) ∷ (c / 256 % 256) ∷ units_to_bytes cs

abbrev pub bytes_to_units : Bytes → CodeUnits
bytes_to_units [] = []
bytes_to_units (a ∷ []) = []
bytes_to_units (a ∷ b ∷ bs) = le_value (a ∷ b ∷ []) ∷ bytes_to_units bs

abbrev pub terminator : Bytes
terminator = 0 ∷ 0 ∷ []

length-snoc₂ : (pre : Bytes) (a b : ℕ) → length (pre ++ (a ∷ b ∷ [])) ≡ suc (suc (length pre))
length-snoc₂ pre a b = omega (arith, length-append pre (a ∷ b ∷ []))

pub write_units_lem :
    (index : ℕ) (cs : CodeUnits) (pre old post : Bytes)
    → length pre ≡ index * 2
    → length old ≡ length cs * 2
    → write_units index cs (pre ++ (old ++ post)) ≡ pre ++ (units_to_bytes cs ++ post)
unfolding write_units
write_units_lem index [] pre [] post h e = refl
write_units_lem index [] pre (o ∷ old) post h e = absurd (omega arith)
write_units_lem index (c ∷ cs) pre [] post h e = absurd (omega arith)
write_units_lem index (c ∷ cs) pre (o ∷ []) post h e = absurd (omega arith)
write_units_lem index (c ∷ cs) pre (o ∷ p ∷ old) post h e =
    let here = set_le-append pre (o ∷ p ∷ []) (old ++ post) c in
    let lo : ℕ = c % 256 in
    let hi : ℕ = c / 256 % 256 in
    let rest =
      write_units_lem (suc index) cs (pre ++ lo ∷ hi ∷ []) old post
        (omega (arith, length-snoc₂ pre lo hi)) (omega arith) in
    ap (write_units (suc index) cs) (rw h at here) ∙ (rw (append_assoc, append_assoc) at rest)

pub code_units_lem :
    (index : ℕ) (bs pre : Bytes) (count : ℕ)
    → length pre ≡ index * 2
    → length bs ≡ count * 2
    → code_units (pre ++ bs) index count ≡ bytes_to_units bs
unfolding code_units
code_units_lem index [] pre zero h e = refl
code_units_lem index (a ∷ bs) pre zero h e = absurd (omega arith)
code_units_lem index [] pre (suc count) h e = absurd (omega arith)
code_units_lem index (a ∷ []) pre (suc count) h e = absurd (omega arith)
code_units_lem index (a ∷ b ∷ bs) pre (suc count) h e =
    let here = get_le-append pre (a ∷ b ∷ []) bs in
    let rest =
      code_units_lem (suc index) bs (pre ++ a ∷ b ∷ []) count (omega (arith, length-snoc₂ pre a b))
        (omega arith) in
    ap₂ (λ (u : ℕ) (r : CodeUnits). u ∷ r) (rw h at here) (rw append_assoc at rest)

code_units-add :
    (view : Bytes) (index m n : ℕ)
    → code_units view index (m + n) ≡ code_units view index m ++ code_units view (index + m) n
unfolding code_units
code_units-add view index zero n =
    let e : zero + n ≡ n = omega arith in let e' : index + zero ≡ index = omega arith in rw (e, e')
code_units-add view index (suc m) n =
    let e : suc m + n ≡ suc (m + n) = omega arith in
    let e' : index + suc m ≡ suc index + m = omega arith in
    rw (e, e', code_units)
      (ap (λ (r : CodeUnits). get_le view (index * 2) 2 ∷ r) (code_units-add view (suc index) m n))

-- A run that goes on at `next`, where anything is left to read there.
code_units_split :
    (view : Bytes) (index next m n : ℕ)
    → (n ≡ 0) ⊎ (index + m ≡ next)
    → code_units view index m ++ code_units view next n ≡ code_units view index (m + n)
unfolding code_units
code_units_split view index next m n (inl e) =
    let e' : m + n ≡ m = omega arith in rw (e', e, code_units) (append-nil _)
code_units_split view index next m n (inr e) = rw (← e) (sym (code_units-add view index m n))

-- The chunks join to one run of code units.
pub decode_chunks_lem :
    (fuel : ℕ) (view : Bytes) (count start : ℕ) (result : CodeUnits)
    → count - start ≤ fuel
    → decode_chunks fuel view count start result ≡ result ++ code_units view start (count - start)
unfolding decode_chunks
decode_chunks_lem zero view count start result h =
    let e : count - start ≡ 0 = omega arith in rw e (unfold code_units in simp append-nil)
decode_chunks_lem (suc fuel) view count start result h = elim (Bool-cases (ltb start count)) [
  | inl more ↦
      let size : ℕ = min (start + chunk_size) count - start in
      let left : ℕ = count - (start + chunk_size) in
      let total : size + left ≡ count - start = ground arith in
      rw more (
        decode_chunks_lem fuel view count (start + chunk_size)
          (result ++ code_units view start size) (ground arith)
        ∙ append_assoc result (code_units view start size)
            (code_units view (start + chunk_size) left)
        ∙ ap (◌++◌ result) (
            code_units_split view start (start + chunk_size) size left (ground arith)
            ∙ ap (code_units view start) total))
  | inr done ↦
      let e : count - start ≡ 0 = ground arith in
      rw (done, e) (unfold code_units in simp append-nil)
]
