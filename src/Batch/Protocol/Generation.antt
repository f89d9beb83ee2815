-- ===== src/Batch/Protocol/Generation.antt =====
-- What the loop that draws a generation returns.
use lmdb_deno.Prelude.{
  has, ℕ, ◌^◌, ◌<◌, ◌≡◌, ◌≢◌, ◌⊎◌, inl, inr, refl, false, not, ◌&&◌, Option, none, some, List, [],
  ◌∷◌, ◌==◌, if-cases, All, arith,
}
use lmdb_deno.Batch.Protocol.Registry.{}
use lmdb_deno.Batch.Protocol.Descriptors.{generation_of, draw_generation}

generation_of_lt : (w : ℕ × ℕ) → generation_of w < 2 ^ 53
generation_of_lt (high, low) = omega arith

abbrev pub IsUsable : List ℕ → ℕ → Type 0
IsUsable live g = (g ≢ 0) × (has g live ≡ false)

-- The loop returns a number that is not zero, not live and a safe integer, or it has used up the
-- random words and each of them stood for a number that is zero or live.
pub draw_generation_total :
    (live : List ℕ) (words : List (ℕ × ℕ))
    → ((g : ℕ) × (rest : List (ℕ × ℕ)) × (draw_generation live words ≡ some (g, rest))
        × IsUsable live g
        × (g < 2 ^ 53))
      ⊎ ((draw_generation live words ≡ none)
          × All (λ (w : ℕ × ℕ). ¬ IsUsable live (generation_of w)) words)
unfolding draw_generation
draw_generation_total live [] = inr (refl, tt)
draw_generation_total live (w ∷ words) =
    if-cases
      (λ (v : Option (ℕ × List (ℕ × ℕ))).
        ((g : ℕ) × (rest : List (ℕ × ℕ)) × (v ≡ some (g, rest)) × IsUsable live g × (g < 2 ^ 53))
        ⊎ ((v ≡ none) × All (λ (u : ℕ × ℕ). ¬ IsUsable live (generation_of u)) (w ∷ words)))
      (not (generation_of w == 0) && not (has (generation_of w) live)) _ _
      (λ good. inl (generation_of w, words, refl, ground arith, generation_of_lt w))
      (λ bad. elim (draw_generation_total live words) [
        | inl h ↦ inl h
        | inr h ↦ inr (h.0, ((λ u. ground arith), h.1))
      ])
