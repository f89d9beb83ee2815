-- ===== src/Batch/Executor/Condition.antt =====
-- Conditions against their meaning: an exact condition asks for the value itself, any other for a
-- value that begins with the expected bytes, and `null` for the absence of the key.
use mathlib.Core.Path.{ap₂}
use lmdb_deno.Prelude.{
  ℕ, zero, suc, ◌≡◌, refl, ap, ◌∙◌, sym, ◌⊎◌, inl, inr, Bool, true, false, ◌&&◌, Option, none, some,
  [], ◌∷◌, ◌++◌, append-nil, length, length-append, arith, ◌==◌,
}
use lmdb_deno.Bytes.{Bytes}
use lmdb_deno.Batch.Request.{success, condition_not_met}
use lmdb_deno.Batch.Executor.{bytes_match, compare_values}

abbrev pub BeginsWith : Bytes → Bytes → Type 0
BeginsWith actual expected = (rest : Bytes) × (actual ≡ expected ++ rest)

abbrev pub IsMet : Option Bytes → Bool → Option Bytes → Type 0
IsMet none exact actual = actual ≡ none
IsMet (some expected) true actual = actual ≡ some expected
IsMet (some expected) false actual =
    (found : Bytes) × (actual ≡ some found) × BeginsWith found expected

-- The loop, by recursion on the expected bytes.
abbrev begins_with : Bytes → Bytes → Bool
begins_with actual [] = true
begins_with [] (e ∷ es) = false
begins_with (a ∷ rest) (e ∷ es) = (a == e) && begins_with rest es

bytes_match-tail :
    (a e : ℕ) (actual expected : Bytes) (index count : ℕ)
    → bytes_match (a ∷ actual) (e ∷ expected) (suc index) count
      ≡ bytes_match actual expected index count
unfolding bytes_match
bytes_match-tail a e actual expected index zero = refl
bytes_match-tail a e actual expected index (suc count) =
    rw (bytes_match-tail a e actual expected (suc index) count)

bytes_match-eq-begins_with :
    (actual expected : Bytes)
    → bytes_match actual expected 0 (length expected) ≡ begins_with actual expected
unfolding bytes_match
bytes_match-eq-begins_with actual [] = refl
bytes_match-eq-begins_with [] (e ∷ es) = refl
bytes_match-eq-begins_with (a ∷ rest) (e ∷ es) =
    rw (bytes_match-tail a e rest es 0 (length es), bytes_match-eq-begins_with rest es)

begins_with_sound :
    (actual expected : Bytes) → begins_with actual expected ≡ true → BeginsWith actual expected
begins_with_sound actual [] h = (actual, refl)
begins_with_sound [] (e ∷ es) h = absurd (ground arith)
begins_with_sound (a ∷ rest) (e ∷ es) h =
    let (more, eq) = begins_with_sound rest es (ground arith) in
    (more, ap₂ (λ (b : ℕ) (r : Bytes). b ∷ r) (ground arith) eq)

begins_with_complete : (expected rest : Bytes) → begins_with (expected ++ rest) expected ≡ true
begins_with_complete [] rest = refl
begins_with_complete (e ∷ es) rest = ground (arith, begins_with_complete es rest)

same_length : (expected rest : Bytes) → length (expected ++ rest) ≡ length expected → rest ≡ []
same_length expected [] h = refl
same_length expected (r ∷ rest) h = absurd (omega (arith, length-append expected (r ∷ rest)))

begins_with_self : (expected : Bytes) → begins_with expected expected ≡ true
begins_with_self expected = rw (append-nil expected) at (begins_with_complete expected [])

compare_values_complete :
    (expected : Option Bytes) (exact : Bool) (actual : Option Bytes)
    → IsMet expected exact actual
    → compare_values expected exact actual ≡ success
unfolding compare_values
compare_values_complete none exact none h = refl
compare_values_complete none exact (some actual) h = cc
compare_values_complete (some expected) true none h = cc
compare_values_complete (some expected) false none (found, e, begins) = cc
compare_values_complete (some expected) true (some actual) h =
    let same : actual ≡ expected = cc in
    rw (same, bytes_match-eq-begins_with, begins_with_self) (ground arith)
compare_values_complete (some expected) false (some actual) (found, e, begins) =
    let (rest, split) = begins in
    let same : actual ≡ expected ++ rest = cc in
    rw (same, bytes_match-eq-begins_with, begins_with_complete expected rest)
      (ground (arith, length-append expected rest))

compare_values_sound :
    (expected : Option Bytes) (exact : Bool) (actual : Option Bytes)
    → compare_values expected exact actual ≡ success
    → IsMet expected exact actual
unfolding compare_values
compare_values_sound none exact none h = refl
compare_values_sound none exact (some actual) h = cc
compare_values_sound (some expected) exact none h = cc
compare_values_sound (some expected) true (some actual) h =
    let (rest, split) =
      begins_with_sound actual expected
        (sym (bytes_match-eq-begins_with actual expected) ∙ ground arith) in
    let no_more : rest ≡ [] = same_length expected rest (ground (arith, ap length split)) in
    ap some (split ∙ rw no_more (append-nil expected))
compare_values_sound (some expected) false (some actual) h = (
  actual,
  refl,
  begins_with_sound actual expected
      (sym (bytes_match-eq-begins_with actual expected) ∙ ground arith),
)

compare_values_cases :
    (expected : Option Bytes) (exact : Bool) (actual : Option Bytes)
    → (compare_values expected exact actual ≡ success)
      ⊎ (compare_values expected exact actual ≡ condition_not_met)
unfolding compare_values
compare_values_cases none exact none = inl refl
compare_values_cases none exact (some actual) = inr refl
compare_values_cases (some expected) exact none = inr refl
compare_values_cases (some expected) exact (some actual) = ground arith

-- A condition is met exactly when the comparison says success, and it says nothing else than that
-- or `condition_not_met`.
pub compare_values_lem :
    (expected : Option Bytes) (exact : Bool) (actual : Option Bytes)
    → ((compare_values expected exact actual ≡ success) × IsMet expected exact actual)
      ⊎ ((compare_values expected exact actual ≡ condition_not_met) × ¬ IsMet expected exact actual)
compare_values_lem expected exact actual = elim (compare_values_cases expected exact actual) [
  | inl met ↦ inl (met, compare_values_sound expected exact actual met)
  | inr unmet ↦ inr (unmet, λ h. cc (compare_values_complete expected exact actual h))
]
