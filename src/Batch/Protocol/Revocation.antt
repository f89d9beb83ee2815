-- ===== src/Batch/Protocol/Revocation.antt =====
-- Poisoned states and the validations after them.
use lmdb_deno.Prelude.{
  ℕ, ◌≡◌, ◌≢◌, ◌∙◌, refl, true, Option, none, some, List, [], ◌∷◌, arith, ok, inl, inr,
  Option-cases, if-cases,
}
use lmdb_deno.Batch.Protocol.Registry.{
  Capability, IssuedDescriptorRecord, WorkerEnvironmentDescriptor, SharedState, Registry,
  find_issued, set_state,
}
use lmdb_deno.Batch.Protocol.Descriptors.{
  tokens_of, update_state, release_environment_generation, remove_issued_descriptor, revoke_tokens,
  revoke_environment_descriptors, poison_shared_environment_state, next_environment_generation,
  validate_environment_descriptor,
}
use lmdb_deno.Batch.Protocol.Authority.{remove-state, validate_grants}
use lmdb_deno.Batch.Protocol.Bound.{next_environment_generation_new}

-- Every state with this identity is poisoned.
abbrev IsPoisoned : ℕ → Registry → Type 0
IsPoisoned id r = (s : SharedState) → r.states id ≡ some s → s.poisoned ≡ true

remove-IsPoisoned :
    (id : ℕ) (i : IssuedDescriptorRecord) (r : Registry)
    → IsPoisoned id r
    → IsPoisoned id (remove_issued_descriptor i r)
remove-IsPoisoned id i r h s e = let k = remove-state i r id s e in k.2 ∙ h k.0 k.1

revoke_tokens-IsPoisoned :
    (id : ℕ) (tokens : List ℕ) (r : Registry)
    → IsPoisoned id r
    → IsPoisoned id (revoke_tokens tokens r)
unfolding revoke_tokens
revoke_tokens-IsPoisoned id [] r h = h
revoke_tokens-IsPoisoned id (token ∷ tokens) r h =
    revoke_tokens-IsPoisoned id tokens _ (one (find_issued token r.issued))
  where
    one :
        (o : Option IssuedDescriptorRecord)
        → IsPoisoned id (elim o as (λ _. Registry) [
          | none ↦ release_environment_generation token r
          | some i ↦ remove_issued_descriptor i r
        ])
    one none = h
    one (some i) = remove-IsPoisoned id i r h

update_state-IsPoisoned :
    (id n : ℕ) (change : SharedState → SharedState) (r : Registry)
    → ((s : SharedState) → (change s).poisoned ≡ s.poisoned)
    → IsPoisoned id r
    → IsPoisoned id (update_state n change r)
update_state-IsPoisoned id n change r same h s e = elim (Option-cases (r.states n)) [
  | inl gone ↦ ground (arith, h s)
  | inr k ↦ ground (arith, h s, h k.0, same k.0)
]

revoke-IsPoisoned :
    (id n : ℕ) (r : Registry) → IsPoisoned id r → IsPoisoned id (revoke_environment_descriptors n r)
unfolding revoke_environment_descriptors
revoke-IsPoisoned id n r h =
    update_state-IsPoisoned id n (λ s. record s { descriptor_tokens = [] })
      (revoke_tokens (tokens_of (r.states n)) r) (λ s. refl)
      (revoke_tokens-IsPoisoned id (tokens_of (r.states n)) r h)

poison-IsPoisoned :
    (id : ℕ) (state : SharedState) (r r' : Registry)
    → r.states id ≡ some state
    → poison_shared_environment_state id state r ≡ some r'
    → IsPoisoned id r'
unfolding poison_shared_environment_state
poison-IsPoisoned id state r r' e h = rw h at total
  where
    Each : Option Registry → Type 0
    Each none = Unit
    Each (some r) = IsPoisoned id r

    marked : IsPoisoned id (set_state id (record state { poisoned = true }) r)
    marked s q = ground arith

    already : state.poisoned ≡ true → IsPoisoned id r
    already p s q = ground arith

    drawn :
        (x : Registry)
        → IsPoisoned id x
        → Each (elim (next_environment_generation x) [
          | none ↦ none
          | some d ↦ some (update_state id (λ s. record s { generation = d.0 }) d.1)
        ])
    drawn x p = elim (Option-cases (next_environment_generation x)) [
      | inl ends ↦ rw ends tt
      | inr k ↦ rw k.1 (
          update_state-IsPoisoned id id (λ s. record s { generation = k.0.0 }) k.0.1 (λ s. refl)
            (λ s q. ground (arith, (next_environment_generation_new x k.0.1 k.0.0 k.1).4, p s)))
    ]

    total : Each (poison_shared_environment_state id state r)
    total =
        if-cases Each state.poisoned _ _ (λ p. revoke-IsPoisoned id id r (already p))
          (λ _.
            drawn
              (release_environment_generation state.generation (
                revoke_environment_descriptors id
                  (set_state id (record state { poisoned = true }) r)))
              (revoke-IsPoisoned id id _ marked))

-- After a shared state was poisoned, a validation that succeeds is of a descriptor for another one.
pub poison-validate :
    (id : ℕ) (state : SharedState) (r r' : Registry)
    → r.states id ≡ some state
    → poison_shared_environment_state id state r ≡ some r'
    → (o : ℕ) (d : WorkerEnvironmentDescriptor) (c : Capability)
      (h : (validate_environment_descriptor o d c r').0 ≡ ok tt)
    → (validate_grants o d c r' h).issued.state ≢ id
poison-validate id state r r' e p o d c h q =
    let k = validate_grants o d c r' h in
    let poisoned : k.state.poisoned ≡ true =
      poison-IsPoisoned id state r r' e p k.state (ground (arith, q, k.referenced)) in
    absurd (ground (arith, poisoned, k.usable))
