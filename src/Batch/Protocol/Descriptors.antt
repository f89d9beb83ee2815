-- ===== src/Batch/Protocol/Descriptors.antt =====
-- Issuing, validating and revoking descriptors (batch/protocol.ts), and the generation tokens
-- (internal/native_state.ts).
use lmdb_deno.Prelude.{
  has, add, delete, ℕ, suc, ◌+◌, ◌*◌, ◌%◌, ◌^◌, Bool, true, false, not, ◌&&◌, ◌||◌, Option, none,
  some, List, [], ◌∷◌, ℤ, pos, negsuc, error, type_error, Result, ok, err, ◌>>◌, throw_if, ltb, leb,
  ◌==◌, ◌==ℤ◌, if◌then◌else◌,
}
use lmdb_deno.Encoding.Text.{CodeUnits}
use lmdb_deno.Encoding.Values.{Number, integer, non_integer}
use lmdb_deno.Batch.Protocol.Registry.{
  Capability, same_capability, same_units, WorkerEnvironmentDescriptor, IssuedDescriptorRecord,
  SharedState, Registry, find_issued, delete_issued, set_issued, find_authenticator,
  delete_authenticator, set_state, read, batch, other,
}

-- The number that a pair of random words stands for: 21 bits of one and 32 of the other.
abbrev pub generation_of : ℕ × ℕ → ℕ
generation_of (high, low) = high % 2 ^ 21 * 2 ^ 32 + low % 2 ^ 32

-- The loop of `nextEnvironmentGeneration` over the words that are drawn: the first number that is
-- neither zero nor live, and the words that are left. There is none if the words run out.
unfoldable pub draw_generation : List ℕ → List (ℕ × ℕ) → Option (ℕ × List (ℕ × ℕ))
draw_generation live [] = none
draw_generation live (w ∷ words) =
    let generation = generation_of w in
    let later = draw_generation live words in
    if not (generation == 0) && not (has generation live) then some (generation, words) else later

unfoldable pub next_environment_generation : Registry → Option (ℕ × Registry)
next_environment_generation r = elim (draw_generation r.live_tokens r.words) [
  | none ↦ none
  | some d ↦ some (d.0, record r { live_tokens = add d.0 r.live_tokens; words = d.1 })
]

abbrev pub release_environment_generation : ℕ → Registry → Registry
release_environment_generation g r = record r { live_tokens = delete g r.live_tokens }

abbrev pub without_token : ℕ → SharedState → SharedState
without_token g state = record state { descriptor_tokens = delete g state.descriptor_tokens }

-- A state that is no longer referenced has no tokens to delete.
abbrev forget_token : Option SharedState → ℕ → ℕ → Registry → Registry
forget_token none id g r = r
forget_token (some state) id g r = set_state id (without_token g state) r

unfoldable pub remove_issued_descriptor : IssuedDescriptorRecord → Registry → Registry
remove_issued_descriptor i r =
    let r₁ = record r {
      issued = delete_issued i.generation r.issued;
      authenticators = delete_authenticator i.authenticator r.authenticators;
    } in
    release_environment_generation i.generation
      (forget_token (r₁.states i.state) i.state i.generation r₁)

-- The descriptor object is looked up by its identity, whatever its fields are.
unfoldable pub consume_issued_descriptor : ℕ → Registry → Option IssuedDescriptorRecord × Registry
consume_issued_descriptor object r =
    let r' = record r { authenticators = delete_authenticator object r.authenticators } in
    elim (find_authenticator object r.authenticators) [
      | none ↦ (none, r)
      | some g ↦ elim (find_issued g r'.issued) [
        | none ↦ (none, r')
        | some i ↦ (some i, remove_issued_descriptor i r')
      ]
    ]

-- The revoker, over the tokens that the state had.
unfoldable pub revoke_tokens : List ℕ → Registry → Registry
revoke_tokens [] r = r
revoke_tokens (token ∷ tokens) r = revoke_tokens tokens (elim (find_issued token r.issued) [
  | none ↦ release_environment_generation token r
  | some i ↦ remove_issued_descriptor i r
])

abbrev pub tokens_of : Option SharedState → List ℕ
tokens_of none = []
tokens_of (some state) = state.descriptor_tokens

-- A change of a state that is still referenced.
abbrev pub update_state : ℕ → (SharedState → SharedState) → Registry → Registry
update_state id change r = elim (r.states id) [
  | none ↦ r
  | some state ↦ set_state id (change state) r
]

unfoldable pub revoke_environment_descriptors : ℕ → Registry → Registry
revoke_environment_descriptors id r =
    update_state id (λ state. record state { descriptor_tokens = [] })
      (revoke_tokens (tokens_of (r.states id)) r)

unfoldable pub retire_shared_environment_generation : ℕ → SharedState → Registry → Registry
retire_shared_environment_generation id state r =
    let r' =
      release_environment_generation state.generation (revoke_environment_descriptors id r) in
    if state.generation == 0 then r else update_state id (λ s. record s { generation = 0 }) r'

-- `state` is what `id` refers to. There is no result if the random words run out.
unfoldable pub poison_shared_environment_state : ℕ → SharedState → Registry → Option Registry
poison_shared_environment_state id state r =
    let r₁ =
      revoke_environment_descriptors id (set_state id (record state { poisoned = true }) r) in
    let drawn = next_environment_generation (release_environment_generation state.generation r₁) in
    if state.poisoned then some (revoke_environment_descriptors id r) else elim drawn [
      | none ↦ none
      | some d ↦ some (update_state id (λ s. record s { generation = d.0 }) d.1)
    ]

abbrev pub assert_capability : Capability → Result (Unit {0})
assert_capability read = ok tt
assert_capability batch = ok tt
assert_capability other = err (type_error "Invalid environment descriptor capability")

abbrev pub max_outstanding_per_capability : ℕ
max_outstanding_per_capability = 64

abbrev pub grants : Capability → Option IssuedDescriptorRecord → Bool
grants capability none = false
grants capability (some i) = same_capability i.capability capability

-- How many tokens of a state stand for a descriptor with this capability.
unfoldable pub outstanding : Capability → List IssuedDescriptorRecord → List ℕ → ℕ
outstanding capability issued [] = 0
outstanding capability issued (token ∷ tokens) =
    (if grants capability (find_issued token issued) then 1 else 0)
    + outstanding capability issued tokens

-- The tables once a descriptor with a new generation has been made.
unfoldable pub issue_descriptor :
    ℕ → SharedState → Capability → ℕ → Registry → Result IssuedDescriptorRecord × Registry
issue_descriptor id state capability generation r =
    let i : IssuedDescriptorRecord = record {
      library_path = state.library_path;
      env_address = state.address;
      generation = generation;
      capability = capability;
      authenticator = r.next_object;
      state = id;
      state_generation = state.generation;
    } in
    (
      ok i,
      set_state id (record state { descriptor_tokens = add generation state.descriptor_tokens })
          (record r {
            issued = set_issued i r.issued;
            authenticators = (r.next_object, generation) ∷ r.authenticators;
            next_object = suc r.next_object;
          }),
    )

-- `id` is the shared state of an environment that is open, and `state` what it refers to.
unfoldable pub get_environment_descriptor :
    ℕ → SharedState → Capability → Registry → Option (Result IssuedDescriptorRecord × Registry)
get_environment_descriptor id state capability r =
    let too_many = error "Too many outstanding environment descriptors" in
    elim (assert_capability capability) [
      | err e ↦ some (err e, r)
      | ok _ ↦
          if leb max_outstanding_per_capability
            (outstanding capability r.issued state.descriptor_tokens)
          then some (err too_many, r)
          else elim (next_environment_generation r) [
            | none ↦ none
            | some d ↦ some (issue_descriptor id state capability d.0 d.1)
          ]
    ]

abbrev has_zero : CodeUnits → Bool
has_zero [] = false
has_zero (u ∷ us) = (u == 0) || has_zero us

abbrev is_empty : CodeUnits → Bool
is_empty [] = true
is_empty (u ∷ us) = false

-- `n` is a safe integer of at least 1.
abbrev is_generation : Number → Bool
is_generation (integer (pos n)) = ltb 0 n && ltb n (2 ^ 53)
is_generation (integer (negsuc n)) = false
is_generation (non_integer n) = false

abbrev is_positive : ℤ → Bool
is_positive (pos n) = ltb 0 n
is_positive (negsuc n) = false

unfoldable pub assert_descriptor_shape : WorkerEnvironmentDescriptor → Result (Unit {0})
assert_descriptor_shape d =
    throw_if
      (is_empty d.library_path
        || has_zero d.library_path
        || not (is_positive d.env_address)
        || not (is_generation d.generation))
      (type_error "Invalid environment descriptor shape")
    >> assert_capability d.capability

abbrev pub is_number : ℕ → Number → Bool
is_number n (integer z) = pos n ==ℤ z
is_number n (non_integer m) = false

-- The descriptor still says what was issued, and the issued record grants the capability.
unfoldable pub matches : IssuedDescriptorRecord → WorkerEnvironmentDescriptor → Capability → Bool
matches i d capability =
    same_units i.library_path d.library_path
    && (pos i.env_address ==ℤ d.env_address)
    && is_number i.generation d.generation
    && same_capability i.capability d.capability
    && same_capability i.capability capability

unfoldable pub is_current : IssuedDescriptorRecord → Option SharedState → ℤ → Bool
is_current i none address = false
is_current i (some state) address =
    not state.poisoned
    && not (state.ref_count == 0)
    && (state.generation == i.state_generation)
    && (pos state.address ==ℤ address)

-- The tests of `validateEnvironmentDescriptor`, once the record has been taken out of the table.
unfoldable pub check_issued :
    Option IssuedDescriptorRecord
    → WorkerEnvironmentDescriptor
    → Capability
    → Registry
    → Result (Unit {0})
check_issued none d capability r =
    err (error "Environment descriptor does not grant authenticated capability")
check_issued (some i) d capability r =
    throw_if (not (matches i d capability))
      (error "Environment descriptor does not grant authenticated capability")
    >> throw_if (not (is_current i (r.states i.state) d.env_address))
        (error "The environment descriptor is stale or closed")

unfoldable pub validate_environment_descriptor :
    ℕ → WorkerEnvironmentDescriptor → Capability → Registry → Result (Unit {0}) × Registry
validate_environment_descriptor object d capability r =
    let (issued, r') = consume_issued_descriptor object r in
    (
      (assert_capability capability >> assert_descriptor_shape d)
          >> check_issued issued d capability r',
      r',
    )
