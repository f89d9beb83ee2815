-- ===== src/State/Order/Retire.antt =====
-- `retireSharedEnvironmentGeneration` (internal/native_state.ts): what it leaves of a shared state.
use lmdb_deno.Prelude.{
  ℕ, ◌≡◌, refl, ◌∙◌, Bool, true, Option, none, some, List, [], ◌∷◌, ◌==◌, arith,
}
use lmdb_deno.Batch.Protocol.Registry.{SharedState, Registry, IssuedDescriptorRecord, find_issued}
use lmdb_deno.Batch.Protocol.Descriptors.{
  remove_issued_descriptor, revoke_tokens, tokens_of, revoke_environment_descriptors,
  retire_shared_environment_generation, release_environment_generation,
}
use lmdb_deno.State.World.{World}
use lmdb_deno.State.Access.{is_poisoned, handle_of}
use lmdb_deno.State.Closing.{with_state, retire_known, is_retired}

-- Retirement leaves the handle of a state and whether it is poisoned, and takes its generation.
abbrev facts : Option SharedState → Option (ℕ × Bool)
facts none = none
facts (some s) = some (s.address, s.poisoned)

remove_issued_descriptor-facts :
    (i : IssuedDescriptorRecord) (r : Registry) (id : ℕ)
    → facts ((remove_issued_descriptor i r).states id) ≡ facts (r.states id)
unfolding remove_issued_descriptor
remove_issued_descriptor-facts i r id = ground arith

revoke_tokens-facts :
    (tokens : List ℕ) (r : Registry) (id : ℕ)
    → facts ((revoke_tokens tokens r).states id) ≡ facts (r.states id)
unfolding revoke_tokens
revoke_tokens-facts [] r id = refl
revoke_tokens-facts (t ∷ ts) r id = revoke_tokens-facts ts _ id ∙ go (find_issued t r.issued)
  where
    go :
        (found : Option IssuedDescriptorRecord)
        → facts (
            (elim found as (λ _. Registry) [
              | none ↦ release_environment_generation t r
              | some i ↦ remove_issued_descriptor i r
            ]).states
              id)
          ≡ facts (r.states id)
    go none = refl
    go (some i) = remove_issued_descriptor-facts i r id

retire-facts :
    (id : ℕ) (state : SharedState) (r : Registry) (j : ℕ)
    → facts ((retire_shared_environment_generation id state r).states j) ≡ facts (r.states j)
unfolding retire_shared_environment_generation revoke_environment_descriptors
retire-facts id state r j = ground (arith, revoke_tokens-facts (tokens_of (r.states id)) r j)

retire-retired :
    (id : ℕ) (state : SharedState) (r : Registry)
    → r.states id ≡ some state
    → elim ((retire_shared_environment_generation id state r).states id) as (λ _. Bool) [
      | none ↦ true
      | some s ↦ s.generation == 0
    ]
      ≡ true
unfolding retire_shared_environment_generation
retire-retired id state r e = ground arith

-- Retirement, of a state that is referenced or not.
pub record IsRetired (s : ℕ) (w w' : World) : Type 0 where
  pub same_calls : w'.calls ≡ w.calls
  pub same_handle : handle_of s w' ≡ handle_of s w
  pub same_poison : is_poisoned s w' ≡ is_poisoned s w
  pub retired : is_retired s w' ≡ true

pub retire-IsRetired :
    (s : ℕ) (state : Option SharedState) (w : World)
    → w.registry.states s ≡ state
    → IsRetired s w (with_state (retire_known s) state w)
retire-IsRetired s none w e = record {
  same_calls = refl;
  same_handle = refl;
  same_poison = refl;
  retired = ground arith;
}
retire-IsRetired s (some state) w e =
    let same = retire-facts s state w.registry s in
    record {
      same_calls = refl;
      same_handle = ground (arith, same);
      same_poison = ground (arith, same);
      retired = retire-retired s state w.registry e;
    }
