-- ===== src/Tests/Protocol.antt =====
-- A registry with one shared environment.
use lmdb_deno.Prelude.{
  ℕ, ◌≡◌, ◌≢◌, ◌≤◌, ◌<◌, ◌^◌, ◌⊎◌, refl, false, none, some, List, [], ◌∷◌, ◌==◌, if◌then◌else◌,
  arith, Exception, ok, err, All,
}
use lmdb_deno.Batch.Protocol.Registry.{batch, IssuedDescriptorRecord, SharedState, Registry}
use lmdb_deno.Batch.Protocol.Descriptors.{
  draw_generation, generation_of, next_environment_generation, outstanding,
  max_outstanding_per_capability, issue_descriptor, get_environment_descriptor,
  validate_environment_descriptor, consume_issued_descriptor, remove_issued_descriptor,
  check_issued, matches, is_current, assert_descriptor_shape, revoke_tokens,
  revoke_environment_descriptors, poison_shared_environment_state,
}
use lmdb_deno.Batch.Protocol.Generation.{IsUsable, draw_generation_total}
use lmdb_deno.Batch.Protocol.Authority.{IsGranted, validate_once, validate_grants}
use lmdb_deno.Batch.Protocol.Bound.{get_environment_descriptor_bound}
use lmdb_deno.Batch.Protocol.Use.{descriptor_of, get-validate}
use lmdb_deno.Batch.Protocol.Revocation.{poison-validate}

abbrev shared : SharedState
shared = record {
  library_path = b'l' ∷ [];
  address = 4096;
  descriptor_tokens = [];
  ref_count = 1;
  poisoned = false;
  generation = 7;
}

-- The words are those of 0, of the live 7, of 9 and of 10.
abbrev registry : Registry
registry = record {
  issued = [];
  authenticators = [];
  live_tokens = 7 ∷ [];
  states = λ n. if n == 0 then some shared else none;
  words = (0, 0) ∷ (0, 7) ∷ (0, 9) ∷ (0, 10) ∷ [];
  next_object = 100;
}

-- The descriptor that the registry issues first.
abbrev issued : IssuedDescriptorRecord
issued = record {
  library_path = b'l' ∷ [];
  env_address = 4096;
  generation = 9;
  capability = batch;
  authenticator = 100;
  state = 0;
  state_generation = 7;
}

abbrev registry_after : Registry
registry_after = record {
  issued = issued ∷ [];
  authenticators = (100, 9) ∷ [];
  live_tokens = 7 ∷ 9 ∷ [];
  states = λ n.
      if n == 0 then some (record shared { descriptor_tokens = 9 ∷ [] }) else registry.states n;
  words = (0, 10) ∷ [];
  next_object = 101;
}

issue_runs : get_environment_descriptor 0 shared batch registry ≡ some (ok issued, registry_after)
unfolding get_environment_descriptor next_environment_generation draw_generation outstanding
    issue_descriptor
issue_runs = refl

validation_runs :
    (validate_environment_descriptor 100 (descriptor_of issued) batch registry_after).0 ≡ ok tt
unfolding validate_environment_descriptor consume_issued_descriptor remove_issued_descriptor
    check_issued matches is_current assert_descriptor_shape
validation_runs = refl

draw_generation_total_example :
    ((g : ℕ) × (rest : List (ℕ × ℕ)) × (draw_generation (7 ∷ []) registry.words ≡ some (g, rest))
      × IsUsable (7 ∷ []) g
      × (g < 2 ^ 53))
    ⊎ ((draw_generation (7 ∷ []) registry.words ≡ none)
        × All (λ (w : ℕ × ℕ). ¬ IsUsable (7 ∷ []) (generation_of w)) registry.words)
draw_generation_total_example = draw_generation_total (7 ∷ []) registry.words

validate_once_example :
    (e : Exception) × ((validate_environment_descriptor 100
        (descriptor_of issued)
        batch
        (validate_environment_descriptor 100 (descriptor_of issued) batch registry_after).1).0
      ≡ err e)
validate_once_example =
    validate_once 100 (descriptor_of issued) (descriptor_of issued) batch batch registry_after

validate_grants_example : IsGranted 100 (descriptor_of issued) batch registry_after
validate_grants_example =
    validate_grants 100 (descriptor_of issued) batch registry_after validation_runs

get_environment_descriptor_bound_example :
    (state' : SharedState) × (registry_after.states 0 ≡ some state')
    × (outstanding batch registry_after.issued state'.descriptor_tokens
        ≤ max_outstanding_per_capability)
get_environment_descriptor_bound_example =
    get_environment_descriptor_bound 0 shared batch registry issued registry_after (λ g h. refl)
      issue_runs

get-validate_example :
    (validate_environment_descriptor 100 (descriptor_of issued) batch registry_after).0 ≡ ok tt
unfolding assert_descriptor_shape
get-validate_example =
    get-validate 0 shared batch registry issued registry_after refl (λ e. ground arith) issue_runs
      refl

-- A second environment, to whose descriptors poisoning the first one does nothing.
abbrev two_states : Registry
two_states = record registry_after {
  states = λ n.
      if n == 0
      then some (record shared { descriptor_tokens = 9 ∷ [] })
      else if n == 1
      then some (record shared { generation = 5 })
      else none;
}

abbrev other_issued : IssuedDescriptorRecord
other_issued = record issued {
  generation = 11;
  authenticator = 200;
  state = 1;
  state_generation = 5;
}

abbrev mixed : Registry
mixed = record two_states {
  issued = issued ∷ other_issued ∷ [];
  authenticators = (100, 9) ∷ (200, 11) ∷ [];
}

abbrev poisoned : Registry
poisoned =
    elim (poison_shared_environment_state 0 (record shared { descriptor_tokens = 9 ∷ [] }) mixed) [
      | some r ↦ r
      | none ↦ mixed
    ]

poison_runs :
    poison_shared_environment_state 0 (record shared { descriptor_tokens = 9 ∷ [] }) mixed
    ≡ some poisoned
unfolding poison_shared_environment_state next_environment_generation draw_generation
    revoke_environment_descriptors revoke_tokens remove_issued_descriptor
poison_runs = refl

other_is_valid :
    (validate_environment_descriptor 200 (descriptor_of other_issued) batch poisoned).0 ≡ ok tt
unfolding poison_shared_environment_state next_environment_generation draw_generation
    revoke_environment_descriptors revoke_tokens remove_issued_descriptor
    validate_environment_descriptor consume_issued_descriptor check_issued matches is_current
    assert_descriptor_shape
other_is_valid = refl

poison-validate_example :
    (validate_grants 200 (descriptor_of other_issued) batch poisoned other_is_valid).issued.state
    ≢ 0
poison-validate_example =
    poison-validate 0 (record shared { descriptor_tokens = 9 ∷ [] }) mixed poisoned refl poison_runs
      200 (descriptor_of other_issued) batch other_is_valid
