-- ===== src/Encoding/Text/RoundTrip.antt =====
-- Encoding and decoding of strings against a plain description of the format.
use mathlib.Core.Path.{ap₂}
use lmdb_deno.Prelude.{
  ℕ, zero, suc, ◌+◌, ◌-◌, ◌*◌, ◌/◌, ◌%◌, ◌≤◌, ◌≡◌, refl, ap, ◌∙◌, sym, true, false, List, [], ◌∷◌,
  ◌++◌, length, length-append, take, drop, take-append-drop, length-drop, length-take, replicate,
  length-replicate, ok, arith, ltb, ◌==◌,
}
use lmdb_deno.Bytes.{Bytes, AreBytes, le_value}
use lmdb_deno.Encoding.Text.{CodeUnits, AreCodeUnits, encode_string, decode_string, is_not_zero}
use lmdb_deno.Encoding.Text.Loops.{
  units_to_bytes, bytes_to_units, terminator, write_units_lem, code_units_lem, decode_chunks_lem,
}

replicate-add {ℓ} :
    {A : Type ℓ} (m n : ℕ) (a : A) → replicate (m + n) a ≡ replicate m a ++ replicate n a
replicate-add zero n a = let e : zero + n ≡ n = omega arith in rw e
replicate-add {A} (suc m) n a =
    let e : suc m + n ≡ suc (m + n) = omega arith in
    rw e (ap (λ (r : List A). a ∷ r) (replicate-add m n a))

-- The loop writes the format.
pub encode_string-eq : (s : CodeUnits) → encode_string s ≡ units_to_bytes s ++ terminator
unfolding encode_string
encode_string-eq s =
    let e : (length s + 1) * 2 ≡ length s * 2 + 2 = omega arith in
    rw (e, replicate-add {A = ℕ} (length s * 2) 2 0)
      (write_units_lem 0 s [] (replicate (length s * 2) 0) terminator (omega arith)
        (length-replicate (length s * 2) 0))

length-units_to_bytes : (s : CodeUnits) → length (units_to_bytes s) ≡ length s * 2
length-units_to_bytes [] = omega arith
length-units_to_bytes (c ∷ cs) = omega (arith, length-units_to_bytes cs)

bytes_to_units-units_to_bytes :
    (s : CodeUnits) → AreCodeUnits s → bytes_to_units (units_to_bytes s) ≡ s
bytes_to_units-units_to_bytes [] h = refl
bytes_to_units-units_to_bytes (c ∷ cs) h =
    ap₂ (λ (u : ℕ) (r : CodeUnits). u ∷ r) (omega arith) (bytes_to_units-units_to_bytes cs h.1)

units_to_bytes-bytes_to_units :
    (bs : Bytes) (k : ℕ) → length bs ≡ k * 2 → AreBytes bs → units_to_bytes (bytes_to_units bs) ≡ bs
units_to_bytes-bytes_to_units [] k e h = refl
units_to_bytes-bytes_to_units (a ∷ []) k e h = absurd (omega arith)
units_to_bytes-bytes_to_units (a ∷ b ∷ bs) k e h =
    let lo : le_value (a ∷ b ∷ []) % 256 ≡ a = omega arith in
    let hi : le_value (a ∷ b ∷ []) / 256 % 256 ≡ b = omega arith in
    rw (lo, hi)
      (ap (λ (r : Bytes). a ∷ b ∷ r) (units_to_bytes-bytes_to_units bs (k - 1) (omega arith) h.1.1))

take-length-append {ℓ} : {A : Type ℓ} (xs ys : List A) → take (length xs) (xs ++ ys) ≡ xs
take-length-append [] ys = refl
take-length-append {A} (x ∷ xs) ys = ap (λ (r : List A). x ∷ r) (take-length-append xs ys)

is_not_zero-append :
    (pre post : Bytes) (i : ℕ) → is_not_zero (pre ++ post) (length pre + i) ≡ is_not_zero post i
is_not_zero-append [] post i = let e : 0 + i ≡ i = omega arith in rw e
is_not_zero-append (x ∷ pre) post i =
    let e : suc (length pre) + i ≡ suc (length pre + i) = omega arith in
    rw e (is_not_zero-append pre post i)

-- What an even run of bytes before a terminator decodes to.
pub decode_string-append :
    (bs : Bytes) (k : ℕ)
    → length bs ≡ k * 2
    → decode_string (bs ++ terminator) ≡ ok (bytes_to_units bs)
unfolding decode_string
decode_string-append bs k e =
    let total : length (bs ++ terminator) ≡ length bs + 2 = length-append bs terminator in
    let short : ltb (length bs + 2) 2 ≡ false = ground arith in
    let even : ((length bs + 2) % 2 == 0) ≡ true = ground arith in
    let e₂ : length bs + 2 - 2 ≡ length bs = omega arith in
    let e₁ : length bs + 2 - 1 ≡ length bs + 1 = omega arith in
    let first : is_not_zero (bs ++ terminator) (length bs) ≡ false =
      let e₀ : length bs + 0 ≡ length bs = omega arith in
      rw e₀ at (is_not_zero-append bs terminator 0) in
    let second : is_not_zero (bs ++ terminator) (length bs + 1) ≡ false =
      is_not_zero-append bs terminator 1 in
    rw (total, short, even, e₂, e₁, first, second, take-length-append bs terminator)
      (ap ok (
        decode_chunks_lem (length bs / 2) bs (length bs / 2) 0 [] (omega arith)
        ∙ code_units_lem 0 bs [] (length bs / 2 - 0) (omega arith) (omega arith)))

-- A JavaScript string survives encoding and decoding.
pub decode_string-encode_string :
    (s : CodeUnits) → AreCodeUnits s → decode_string (encode_string s) ≡ ok s
decode_string-encode_string s h = rw encode_string-eq (
    decode_string-append (units_to_bytes s) (length s) (length-units_to_bytes s)
    ∙ ap ok (bytes_to_units-units_to_bytes s h))

AreBytes-take : (xs ys : Bytes) → AreBytes (xs ++ ys) → AreBytes xs
AreBytes-take [] ys h = tt
AreBytes-take (x ∷ xs) ys h = (h.0, AreBytes-take xs ys h.1)

is_terminator :
    (w : Bytes) → length w ≡ 2 → is_not_zero w 0 ≡ false → is_not_zero w 1 ≡ false → w ≡ terminator
is_terminator [] e f g = absurd (omega arith)
is_terminator (a ∷ []) e f g = absurd (omega arith)
is_terminator (a ∷ b ∷ []) e f g = ground arith
is_terminator (a ∷ b ∷ c ∷ w) e f g = absurd (omega arith)

-- The tests that a decoded value has passed.
decode_string-tests :
    (v : Bytes) (s : CodeUnits)
    → decode_string v ≡ ok s
    → (2 ≤ length v)
      × (length v % 2 ≡ 0)
      × (is_not_zero v (length v - 2) ≡ false)
      × (is_not_zero v (length v - 1) ≡ false)
unfolding decode_string
decode_string-tests v s h = ground arith

-- Only an even run of bytes before a terminator is decoded.
pub decode_string-ok :
    (v : Bytes) (s : CodeUnits)
    → decode_string v ≡ ok s
    → (bs : Bytes) × (k : ℕ) × (length bs ≡ k * 2) × (v ≡ bs ++ terminator)
decode_string-ok v s h =
    let (long, even, first, second) = decode_string-tests v s h in
    let pre : Bytes = take (length v - 2) v in
    let post : Bytes = drop (length v - 2) v in
    let whole : pre ++ post ≡ v = take-append-drop (length v - 2) v in
    let e : length pre ≡ length v - 2 = length-take (length v - 2) v (omega arith) in
    let e₀ : length pre + 0 ≡ length v - 2 = omega arith in
    let e₁ : length pre + 1 ≡ length v - 1 = omega arith in
    let at₀ = rw (whole, e₀) at (is_not_zero-append pre post 0) in
    let at₁ = rw (whole, e₁) at (is_not_zero-append pre post 1) in
    let ends : post ≡ terminator =
      is_terminator post (omega (arith, length-drop (length v - 2) v)) (sym at₀ ∙ first)
        (sym at₁ ∙ second) in
    (pre, length pre / 2, omega arith, sym whole ∙ ap (◌++◌ pre) ends)

-- A value that decodes is the encoding of what it decodes to.
pub encode_string-decode_string :
    (v : Bytes) (s : CodeUnits) → AreBytes v → decode_string v ≡ ok s → encode_string s ≡ v
encode_string-decode_string v s h e =
    let (bs, k, even, whole) = decode_string-ok v s e in
    let same : ok (bytes_to_units bs) ≡ ok s =
      sym (decode_string-append bs k even) ∙ (rw whole at e) in
    let units : bytes_to_units bs ≡ s = cc in
    rw (
      ← units,
      encode_string-eq,
      whole,
      units_to_bytes-bytes_to_units bs k even (AreBytes-take bs terminator (rw whole at h)),
    )
