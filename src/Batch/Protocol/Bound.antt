-- ===== src/Batch/Protocol/Bound.antt =====
-- How many descriptors of one capability a state may have at a time.
use lmdb_deno.Prelude.{
  has, add, ℕ, suc, ◌≤◌, ◌<◌, ◌≡◌, ◌≢◌, ◌^◌, ap, sym, ◌∙◌, refl, false, some, List, [], ◌∷◌, ◌++◌,
  arith, Option-cases, Result, ok, inl, inr,
}
use lmdb_deno.Batch.Protocol.Registry.{
  Capability, IssuedDescriptorRecord, SharedState, Registry, find_issued, delete_issued, set_issued,
}
use lmdb_deno.Batch.Protocol.Descriptors.{
  grants, outstanding, max_outstanding_per_capability, next_environment_generation,
  issue_descriptor, get_environment_descriptor, assert_capability,
}
use lmdb_deno.Batch.Protocol.Generation.{draw_generation_total}

find_issued-delete :
    (g h : ℕ) (l : List IssuedDescriptorRecord)
    → g ≢ h
    → find_issued g (delete_issued h l) ≡ find_issued g l
find_issued-delete g h [] ne = refl
find_issued-delete g h (i ∷ l) ne = ground (arith, find_issued-delete g h l ne)

find_issued-append :
    (g : ℕ) (l : List IssuedDescriptorRecord) (i : IssuedDescriptorRecord)
    → g ≢ i.generation
    → find_issued g (l ++ i ∷ []) ≡ find_issued g l
find_issued-append g [] i ne = ground arith
find_issued-append g (j ∷ l) i ne = ground (arith, find_issued-append g l i ne)

-- A token that no token of the state equals changes none of them.
outstanding-set_issued :
    (c : Capability) (i : IssuedDescriptorRecord) (issued : List IssuedDescriptorRecord)
    (tokens : List ℕ)
    → has i.generation tokens ≡ false
    → outstanding c (set_issued i issued) tokens ≡ outstanding c issued tokens
unfolding outstanding
outstanding-set_issued c i issued [] h = refl
outstanding-set_issued c i issued (token ∷ tokens) h =
    let ne : token ≢ i.generation = λ e. ground arith in
    let same : find_issued token (set_issued i issued) ≡ find_issued token issued =
      find_issued-append token (delete_issued i.generation issued) i ne
      ∙ find_issued-delete token i.generation issued ne in
    ground (arith, ap (grants c) same, outstanding-set_issued c i issued tokens)

outstanding-snoc :
    (c : Capability) (issued : List IssuedDescriptorRecord) (tokens : List ℕ) (token : ℕ)
    → outstanding c issued (tokens ++ token ∷ []) ≤ suc (outstanding c issued tokens)
unfolding outstanding
outstanding-snoc c issued [] token = ground arith
outstanding-snoc c issued (t ∷ tokens) token = omega (arith, outstanding-snoc c issued tokens token)

pub find_issued-set_issued_self :
    (i : IssuedDescriptorRecord) (l : List IssuedDescriptorRecord)
    → find_issued i.generation (set_issued i l) ≡ some i
find_issued-set_issued_self i [] = ground arith
find_issued-set_issued_self i (j ∷ l) = ground (arith, find_issued-set_issued_self i l)

-- What was computed when a descriptor is returned.
pub issued_by :
    (id : ℕ) (state : SharedState) (c : Capability) (r : Registry) (i : IssuedDescriptorRecord)
    (r' : Registry)
    → get_environment_descriptor id state c r ≡ some (ok i, r')
    → (g : ℕ) × (t : Registry) × (next_environment_generation r ≡ some (g, t))
      × (outstanding c r.issued state.descriptor_tokens < max_outstanding_per_capability)
      × (assert_capability c ≡ ok tt)
      × (issue_descriptor id state c g t ≡ (ok i, r'))
unfolding get_environment_descriptor
issued_by id state c r i r' h = elim (Option-cases (next_environment_generation r)) [
  | inl e ↦ absurd (ground arith)
  | inr k ↦ (k.0.0, k.0.1, k.1, ground arith, ground arith, ground arith)
]

-- The generation is new, and only the live tokens and the random words change.
pub next_environment_generation_new :
    (r t : Registry) (g : ℕ)
    → next_environment_generation r ≡ some (g, t)
    → (has g r.live_tokens ≡ false)
      × (g ≢ 0)
      × (g < 2 ^ 53)
      × (t.issued ≡ r.issued)
      × (t.states ≡ r.states)
      × (t.live_tokens ≡ add g r.live_tokens)
unfolding next_environment_generation
next_environment_generation_new r t g h = elim (draw_generation_total r.live_tokens r.words) [
  | inl d ↦ (
    ground (arith, d.2, d.3),
    ground (arith, d.2, d.3),
    ground (arith, d.2, d.4),
    ground (arith, d.2),
    ground (arith, d.2),
    ground (arith, d.2),
  )
  | inr d ↦ absurd (ground (arith, d.0))
]

issue_descriptor-outstanding :
    (id : ℕ) (state : SharedState) (c : Capability) (g : ℕ) (t : Registry)
    → has g state.descriptor_tokens ≡ false
    → outstanding c (issue_descriptor id state c g t).1.issued (add g state.descriptor_tokens)
      ≤ suc (outstanding c t.issued state.descriptor_tokens)
unfolding issue_descriptor
issue_descriptor-outstanding id state c g t fresh =
    let l = state.descriptor_tokens in
    let i : IssuedDescriptorRecord = record {
      library_path = state.library_path;
      env_address = state.address;
      generation = g;
      capability = c;
      authenticator = t.next_object;
      state = id;
      state_generation = state.generation;
    } in
    let added : add g l ≡ l ++ g ∷ [] = ground arith in
    rw added (
      omega (
        arith,
        outstanding-snoc c (set_issued i t.issued) l g,
        outstanding-set_issued c i t.issued l fresh,
      ))

-- Issuing a descriptor leaves at most 64 of that capability outstanding for the state, if all its
-- tokens are live.
pub get_environment_descriptor_bound :
    (id : ℕ) (state : SharedState) (c : Capability) (r : Registry) (i : IssuedDescriptorRecord)
    (r' : Registry)
    → ((g : ℕ) → has g r.live_tokens ≡ false → has g state.descriptor_tokens ≡ false)
    → get_environment_descriptor id state c r ≡ some (ok i, r')
    → (state' : SharedState) × (r'.states id ≡ some state')
      × (outstanding c r'.issued state'.descriptor_tokens ≤ max_outstanding_per_capability)
unfolding issue_descriptor
get_environment_descriptor_bound id state c r i r' live h =
    let (g, t, drawn, few, known, made) = issued_by id state c r i r' h in
    let state' : SharedState = record state { descriptor_tokens = add g state.descriptor_tokens } in
    let n = next_environment_generation_new r t g drawn in
    let fresh = live g n.0 in
    let end : (issue_descriptor id state c g t).1 ≡ r' =
      ap (λ (p : Result IssuedDescriptorRecord × Registry). p.1) made in
    let few' : outstanding c t.issued state.descriptor_tokens < max_outstanding_per_capability =
      rw n.3 few in
    rw (sym end)
      (state', ground arith, omega (arith, issue_descriptor-outstanding id state c g t fresh, few'))
