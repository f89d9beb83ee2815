-- ===== src/Env/Sharing.antt =====
-- `open` (env.ts): how each call of it ends.
use lmdb_deno.Prelude.{
  ℕ, ◌≡◌, ◌⊎◌, inl, inr, refl, sym, ap, ◌∙◌, subst, Bool, true, false, Option, none, some, [], ◌∷◌,
  ◌++◌, Exception, Result, ok, err, arith,
}
use lmdb_deno.Batch.Protocol.Registry.{Registry}
use lmdb_deno.Batch.Protocol.Descriptors.{next_environment_generation}
use lmdb_deno.State.World.{env_close, World, call}
use lmdb_deno.State.Access.{is_poisoned, handle_of, poisoned_error, get_env_handle}
use lmdb_deno.State.Environments.{find_shared_environment, register_shared_environment, attach}
use lmdb_deno.Encoding.Text.{CodeUnits}
use lmdb_deno.Env.Paths.{PathApi, canonicalize_environment_path}
use lmdb_deno.Env.{
  EnvApi, EnvironmentStatus, Env, EnvOptions, normalize_native_options, validate_open_options,
  with_status, discard, fresh_state,
}
use lmdb_deno.Env.Opening.{
  Outcome, open_existing_at, open_existing, publish_drawn, publish, configure, configured,
  open_found, open_located, open_at, open_with, open_env,
}
use lmdb_deno.Env.Attaching.{
  HasHandle, get_env_handle-HasHandle, attach_shared_environment-ok, attach-handle, register-ok,
  discard-calls, configure-Reads, validate-Reads,
}

-- How `open` ends for an object with the native handle `h` that is not open yet.
pub data Opens (api : EnvApi) (paths : PathApi) (e : Env) (o : EnvOptions) (h : ℕ) (w : World)
    : Option Outcome → Type 0 where
  -- The options or the path are refused, and nothing has changed.
  refuses :
      (x : Exception)
      → (validate_open_options o w ≡ (err x, w))
        ⊎ (canonicalize_environment_path paths o.path o.no_subdir w ≡ err x)
      → Opens api paths e o h w (some ((err x, w), e))
  -- The environment is open and poisoned, or LMDB does not open it, and the object is closed with its
  -- native handle.
  fails :
      (canonical : CodeUnits) (x : Exception) (w' : World) (e' : Env)
      → canonicalize_environment_path paths o.path o.no_subdir w ≡ ok canonical
      → ((s : ℕ) × (find_shared_environment (paths.number_of canonical) w ≡ some s)
          × (is_poisoned s w ≡ true)
          × (x ≡ poisoned_error))
        ⊎ ((find_shared_environment (paths.number_of canonical) w ≡ none)
            × (configure api paths h o.path (normalize_native_options o) w ≡ (err x, w)))
      → e'.status ≡ EnvironmentStatus.closed
      → w'.calls ≡ w.calls ++ env_close h ∷ []
      → w'.env_bindings e.object ≡ none
      → w'.environment_registry ≡ w.environment_registry
      → Opens api paths e o h w (some ((err x, w'), e'))
  -- The environment is open already, and the object has its handle in place of its own.
  shares :
      (canonical : CodeUnits) (s : ℕ) (w' : World) (e' : Env)
      → canonicalize_environment_path paths o.path o.no_subdir w ≡ ok canonical
      → find_shared_environment (paths.number_of canonical) w ≡ some s
      → is_poisoned s w ≡ false
      → e'.status ≡ EnvironmentStatus.opened
      → w'.calls ≡ w.calls ++ env_close h ∷ []
      → get_env_handle e.object w' ≡ (ok (handle_of s w), w')
      → w'.environment_registry ≡ w.environment_registry
      → Opens api paths e o h w (some ((ok tt, w'), e'))
  -- LMDB opens it, and it is found at the path from then on.
  creates :
      (canonical : CodeUnits) (s : ℕ) (w' : World) (e' : Env)
      → canonicalize_environment_path paths o.path o.no_subdir w ≡ ok canonical
      → find_shared_environment (paths.number_of canonical) w ≡ none
      → configure api paths h o.path (normalize_native_options o) w ≡ (ok tt, w)
      → e'.status ≡ EnvironmentStatus.opened
      → w'.calls ≡ w.calls
      → get_env_handle e.object w' ≡ (ok h, w')
      → find_shared_environment (paths.number_of canonical) w' ≡ some s
      → handle_of s w' ≡ h
      → Opens api paths e o h w (some ((ok tt, w'), e'))
  -- The random words run out.
  never :
      (canonical : CodeUnits)
      → canonicalize_environment_path paths o.path o.no_subdir w ≡ ok canonical
      → find_shared_environment (paths.number_of canonical) w ≡ none
      → configure api paths h o.path (normalize_native_options o) w ≡ (ok tt, w)
      → next_environment_generation w.registry ≡ none
      → Opens api paths e o h w none

module _ (api : EnvApi) (paths : PathApi) (e : Env) (o : EnvOptions) (h : ℕ) (w : World) where
  -- The object, which has been told whether to use a worker.
  abbrev told : Bool → Env
  told use_worker = record e { use_worker = use_worker }

  -- At the canonical path of the environment.
  module _ (canonical : CodeUnits)
      (located : canonicalize_environment_path paths o.path o.no_subdir w ≡ ok canonical) where
    abbrev path : ℕ
    path = paths.number_of canonical

    discarded-Opens :
        (x : Exception) (u : Bool)
        → ((s : ℕ) × (find_shared_environment path w ≡ some s)
            × (is_poisoned s w ≡ true)
            × (x ≡ poisoned_error))
          ⊎ ((find_shared_environment path w ≡ none)
              × (configure api paths h o.path (normalize_native_options o) w ≡ (err x, w)))
        → Opens api paths e o h w
            (some ((err x, discard e.object h w), with_status (told u) EnvironmentStatus.closed))
    discarded-Opens x u reason =
        let d = discard-calls e.object h w in
        fails canonical x _ _ located reason refl (d.0) (d.1) (d.2)

    existing-Opens :
        (s b : ℕ) (u : Bool)
        → find_shared_environment path w ≡ some s
        → HasHandle e.object b h w
        → (p : Bool) → is_poisoned s w ≡ p
        → Opens api paths e o h w (some (open_existing_at (told u) s p (ok h, w)))
    existing-Opens s b u found has true poisoned =
        discarded-Opens poisoned_error u (inl (s, found, poisoned, refl))
    existing-Opens s b u found has false usable =
        let w₁ = call (env_close h) w in
        let has₁ : HasHandle e.object b h w₁ = record { bound = has.bound; held = has.held } in
        rw (attach_shared_environment-ok e.object b h s w₁ has₁) (
          shares canonical s (attach b s w₁) (with_status (told u) EnvironmentStatus.opened) located
            found usable refl refl (attach-handle e.object b h s w₁ has₁ usable) refl)

    drawn-Opens :
        (b : ℕ) (u : Bool) (x : Option (ℕ × Registry))
        → find_shared_environment path w ≡ none
        → HasHandle e.object b h w
        → configure api paths h o.path (normalize_native_options o) w ≡ (ok tt, w)
        → next_environment_generation w.registry ≡ x
        → Opens api paths e o h w (publish_drawn api (told u) path h w x)
    unfolding register_shared_environment find_shared_environment
    drawn-Opens b u none missing has done drawn = never canonical located missing done drawn
    drawn-Opens b u (some (generation, registry)) missing has done drawn =
        let id = w.next_object in
        let w₁ = (fresh_state api.library_path path h generation registry w).1 in
        let w₂ : World = record w₁ { environment_registry = (path, id) ∷ w.environment_registry } in
        let there : (w₁.shared id).canonical_path ≡ path = ground arith in
        let registered : register_shared_environment id w₁ ≡ (ok tt, w₂) =
          register-ok id path w₁ there missing in
        let has₂ : HasHandle e.object b h w₂ = record { bound = has.bound; held = has.held } in
        let handle : handle_of id w₂ ≡ h = ground arith in
        rw (registered, attach_shared_environment-ok e.object b h id w₂ has₂)
          (creates canonical id (attach b id w₂) (with_status (told u) EnvironmentStatus.opened)
            located missing done refl refl
            (attach-handle e.object b h id w₂ has₂ (ground arith)
              ∙ ap (λ n. (ok n, attach b id w₂)) handle)
            (ground arith) (ground arith))

    publish-Opens :
        (b : ℕ) (u : Bool)
        → find_shared_environment path w ≡ none
        → HasHandle e.object b h w
        → configure api paths h o.path (normalize_native_options o) w ≡ (ok tt, w)
        → Opens api paths e o h w (publish api (told u) path h w)
    unfolding publish
    publish-Opens b u missing has done =
        drawn-Opens b u (next_environment_generation w.registry) missing has done refl

    configured-Opens :
        (b : ℕ) (u : Bool) (x : Result (Unit {0}) × World)
        → x.1 ≡ w
        → find_shared_environment path w ≡ none
        → HasHandle e.object b h w
        → configure api paths h o.path (normalize_native_options o) w ≡ x
        → Opens api paths e o h w (configured api paths (told u) path h x)
    configured-Opens b u (err x, v) same missing has ran =
        rw same (discarded-Opens x u (inr (missing, ran ∙ ap (λ v. (err x, v)) same)))
    configured-Opens b u (ok _, v) same missing has ran =
        rw same (publish-Opens b u missing has (ran ∙ ap (λ v. (ok tt, v)) same))

  module _ (handle : get_env_handle e.object w ≡ (ok h, w)) where
    found-Opens :
        (canonical : CodeUnits) (b : ℕ) (x : Option ℕ)
        → canonicalize_environment_path paths o.path o.no_subdir w ≡ ok canonical
        → find_shared_environment (paths.number_of canonical) w ≡ x
        → HasHandle e.object b h w
        → Opens api paths e o h w
            (open_found api paths (told o.use_worker) (paths.number_of canonical) o w x)
    unfolding open_existing
    found-Opens canonical b (some s) located f has =
        rw handle (existing-Opens canonical located s b o.use_worker f has (is_poisoned s w) refl)
    found-Opens canonical b none located f has = rw handle (
        configured-Opens canonical located b o.use_worker
          (configure api paths h o.path (normalize_native_options o) w)
          (configure-Reads api paths h o.path (normalize_native_options o) w) f has refl)

    located-Opens :
        (b : ℕ) (x : Result CodeUnits)
        → canonicalize_environment_path paths o.path o.no_subdir w ≡ x
        → HasHandle e.object b h w
        → Opens api paths e o h w (open_located api paths e o w x)
    located-Opens b (err x) f has = refuses x (inr f)
    located-Opens b (ok canonical) f has = found-Opens canonical b _ f refl has

    valid-Opens :
        (b : ℕ) (x : Result (Unit {0}) × World)
        → x.1 ≡ w
        → validate_open_options o w ≡ x
        → HasHandle e.object b h w
        → Opens api paths e o h w (open_at api paths e o x)
    valid-Opens b (err x, v) same f has = rw same (refuses x (inl (f ∙ ap (λ v. (err x, v)) same)))
    valid-Opens b (ok _, v) same f has =
        subst (λ y. Opens api paths e o h w (open_at api paths e o (ok tt, y))) (sym same)
          (located-Opens b (canonicalize_environment_path paths o.path o.no_subdir w) refl has)

    -- `open` of a new object that has a native handle ends in one of five ways. The options or the path
    -- are refused, and nothing has changed; the environment at the canonical path is poisoned, or LMDB
    -- does not open it, and `open` throws, and the object is closed and its handle closed natively,
    -- once; the environment is open there already and not poisoned, and the object has its handle in
    -- place of its own, which is closed; none is open there and LMDB opens it, and it is found at the
    -- path from then on; or LMDB opens it and the random words run out.
    pub open_env-Opens :
        e.status ≡ EnvironmentStatus.unopened → Opens api paths e o h w (open_env api paths e o w)
    unfolding open_env
    open_env-Opens fresh =
        let (b, has) = get_env_handle-HasHandle e.object h w handle in
        let whole : open_env api paths e o w ≡ open_at api paths e o (validate_open_options o w) =
          ap (λ st. open_with api paths st e o w) fresh in
        rw whole (valid-Opens b (validate_open_options o w) (validate-Reads o w) refl has)
