-- ===== src/Prelude/Sets.antt =====
-- Sets of numbers, such as identities of objects, in insertion order.
use Prim.Native.Nat.{ℕ}
use mathlib.Core.Bool.{Bool, false, ◌||◌}
use mathlib.Core.List.{List, [], ◌∷◌, ◌++◌}
use lmdb_deno.Prelude.Tests.{◌==◌, if◌then◌else◌}

-- `Set<number>`: insertion order, no duplicates.
abbrev pub has : ℕ → List ℕ → Bool
has n [] = false
has n (m ∷ l) = (n == m) || has n l

abbrev pub add : ℕ → List ℕ → List ℕ
add n l = if has n l then l else l ++ n ∷ []

abbrev pub delete : ℕ → List ℕ → List ℕ
delete n [] = []
delete n (m ∷ l) = let rest = delete n l in if n == m then rest else m ∷ rest
