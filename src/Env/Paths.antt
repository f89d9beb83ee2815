-- ===== src/Env/Paths.antt =====
-- `canonicalizeEnvironmentPath` (env.ts).
use lmdb_deno.Prelude.{
  ◌∙◌, ℕ, zero, suc, ◌+◌, ◌-◌, ◌≡◌, refl, ap, Bool, true, false, not, ◌||◌, Option, none, some, [],
  ◌∷◌, ◌++◌, length, take, drop, has, Exception, type_error, Result, ok, err, ◌>>=◌, throw_if,
  if◌then◌else◌, ◌==◌, arith,
}
use lmdb_deno.Encoding.Text.{CodeUnits}
use lmdb_deno.State.World.{World}

-- The file system, which Deno answers for, and a number for each path, in which World tells them apart.
pub record PathApi : Type 0 where
  pub real_path : CodeUnits → World → Result CodeUnits
  pub cwd : World → Result CodeUnits
  pub is_not_found : Exception → Bool
  pub number_of : CodeUnits → ℕ

-- '/'.
abbrev pub slash : ℕ
slash = 47

-- `lastIndexOf('/')`, of the rest of a string that begins at `index`.
unfoldable pub last_index_of : ℕ → CodeUnits → Option ℕ
last_index_of index [] = none
last_index_of index (u ∷ us) = elim (last_index_of (suc index) us) [
  | some i ↦ some i
  | none ↦ if u == slash then some index else none
]

abbrev pub starts_with_slash : CodeUnits → Bool
starts_with_slash [] = false
starts_with_slash (u ∷ us) = u == slash

-- The parent and the base name. Without a separator, `lastIndexOf` is -1, and `slice(0, -1)` is all
-- but the last code unit.
abbrev pub parts_at : CodeUnits → Option ℕ → CodeUnits × CodeUnits
parts_at absolute none = (take (length absolute - 1) absolute, absolute)
parts_at absolute (some zero) = (slash ∷ [], drop 1 absolute)
parts_at absolute (some (suc i)) = (take (suc i) absolute, drop (suc (suc i)) absolute)

abbrev pub is_root : CodeUnits → Bool
is_root (u ∷ []) = u == slash
is_root _ = false

abbrev pub join : CodeUnits → CodeUnits → CodeUnits
join parent basename = if is_root parent then slash ∷ basename else parent ++ slash ∷ basename

abbrev is_empty : CodeUnits → Bool
is_empty [] = true
is_empty (u ∷ us) = false

module _ (api : PathApi) where
  unfoldable pub absolute_path : CodeUnits → World → Result CodeUnits
  absolute_path path w =
      if starts_with_slash path then ok path else api.cwd w >>= λ cwd. ok (cwd ++ slash ∷ path)

  abbrev pub resolve : CodeUnits × CodeUnits → World → Result CodeUnits
  resolve (parent, basename) w =
      throw_if (is_empty basename) (type_error "A noSubdir environment path must name a data file")
      >>= λ _. api.real_path parent w >>= λ canonical. ok (join canonical basename)

  -- The data file may not exist yet.
  abbrev pub or_parent : CodeUnits → Bool → World → Result CodeUnits → Result CodeUnits
  or_parent path no_subdir w (ok canonical) = ok canonical
  or_parent path no_subdir w (err e) =
      throw_if (not no_subdir || not (api.is_not_found e)) e >>= λ _.
      absolute_path path w >>= λ absolute. resolve (parts_at absolute (last_index_of 0 absolute)) w

  unfoldable pub canonicalize_environment_path : CodeUnits → Bool → World → Result CodeUnits
  canonicalize_environment_path path no_subdir w = or_parent path no_subdir w (api.real_path path w)

last_index_of-none :
    (index : ℕ) (us : CodeUnits) → has slash us ≡ false → last_index_of index us ≡ none
unfolding last_index_of
last_index_of-none index [] h = refl
last_index_of-none index (u ∷ us) h =
    rw (last_index_of-none (suc index) us (ground arith)) (ground arith)

last_index_of-append :
    (index : ℕ) (directory basename : CodeUnits)
    → has slash basename ≡ false
    → last_index_of index (directory ++ slash ∷ basename) ≡ some (index + length directory)
unfolding last_index_of
last_index_of-append index [] basename h =
    rw (last_index_of-none (suc index) basename h) (ap some (omega arith))
last_index_of-append index (u ∷ us) basename h =
    rw (last_index_of-append (suc index) us basename h) (ap some (omega arith))

take-directory : (us vs : CodeUnits) → take (length us) (us ++ vs) ≡ us
take-directory [] vs = refl
take-directory (u ∷ us) vs = ap (λ l. u ∷ l) (take-directory us vs)

drop-directory :
    (us basename : CodeUnits) → drop (suc (length us)) (us ++ slash ∷ basename) ≡ basename
drop-directory [] basename = refl
drop-directory (u ∷ us) basename = drop-directory us basename

-- The directory of a file; before the first separator there is nothing, and the directory is the root.
abbrev pub parent_of : CodeUnits → CodeUnits
parent_of [] = slash ∷ []
parent_of (u ∷ us) = u ∷ us

parts_at-append :
    (directory basename : CodeUnits)
    → parts_at (directory ++ slash ∷ basename) (some (length directory))
      ≡ (parent_of directory, basename)
parts_at-append [] basename = refl
parts_at-append (u ∷ us) basename =
    ap (λ l. (u ∷ l, drop (suc (length us)) (us ++ slash ∷ basename)))
      (take-directory us (slash ∷ basename))
    ∙ ap (λ l. (u ∷ us, l)) (drop-directory us basename)

-- A path with `noSubdir` that is not found is that of its base name in the canonical path of its
-- directory, if the base name is not empty.
pub canonicalize_environment_path-missing :
    (api : PathApi) (path directory rest : CodeUnits) (u : ℕ) (e : Exception) (w : World)
    → api.real_path path w ≡ err e
    → api.is_not_found e ≡ true
    → absolute_path api path w ≡ ok (directory ++ slash ∷ u ∷ rest)
    → has slash (u ∷ rest) ≡ false
    → canonicalize_environment_path api path true w
      ≡ (api.real_path (parent_of directory) w >>= λ parent. ok (join parent (u ∷ rest)))
unfolding canonicalize_environment_path
canonicalize_environment_path-missing api path directory rest u e w fails missing absolute plain =
    let found : last_index_of 0 (directory ++ slash ∷ u ∷ rest) ≡ some (length directory) =
      last_index_of-append 0 directory (u ∷ rest) plain ∙ ap some (omega arith) in
    rw (fails, missing, absolute, found, parts_at-append directory (u ∷ rest)) refl
